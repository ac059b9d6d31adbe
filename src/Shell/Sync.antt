-- ===== src/Shell/Sync.antt =====
-- The effects that write the profile into the session settle: a second run writes nothing.
use mathlib.Core.Path.{subst}
use corpershub_application.Base.{
  if◌then◌else◌, refl, arith, true, false, none, some, Bool, Option, ◌≡◌, String, Text, Bool-cases,
  text_eq_refl, str_eq_iff, inl, ◌&&◌, inr,
}
use corpershub_application.Session.{UserRole, company, corper, admin, SessionState}
use corpershub_application.Shell.{
  Shell, sync_company, CompanyStatusSummary, sync_for, CorperStatusSummary, sync_corper,
  sync_session, with_company_profile, sync_company_answer, flag_is, same_role, with_corper_profile,
  same_status, sync_corper_answer, documents_verified, company_target_path, corper_target_path,
  normalized_pathname,
}

flag_is_refl : (b : Bool) → flag_is (some b) b ≡ true
flag_is_refl true = refl
flag_is_refl false = refl

same_status_refl : (s : Option String) → same_status (some s) s ≡ true
same_status_refl none = refl
same_status_refl (some s) = (str_eq_iff s s).1 refl

sync_with_company :
    (session : SessionState) (d : CompanyStatusSummary)
    → sync_company (with_company_profile session d) d ≡ none
unfolding sync_company
sync_with_company session d =
    rw
      (
        flag_is_refl d.is_complete,
        text_eq_refl (company_target_path d),
        same_status_refl d.verification_status,
      )
      refl

sync_with_corper :
    (session : SessionState) (d : CorperStatusSummary) (path : Text)
    → sync_corper (with_corper_profile session d path) d path ≡ none
unfolding sync_corper
sync_with_corper session d path =
    rw
      (
        flag_is_refl (documents_verified d && d.is_complete),
        text_eq_refl (corper_target_path d path),
      )
      refl

if-some {ℓ} : {A : Type ℓ} (b : Bool) (x y : A) → (if b then none else some x) ≡ some y → x ≡ y
if-some true x y h = cc
if-some false x y h = cc

-- What an update leaves alone: the tokens and who the user is.
pub record SameIdentity (a b : SessionState) : Type 0 where
  pub access : b.access_token ≡ a.access_token
  pub refresh : b.refresh_token ≡ a.refresh_token
  pub user_id : b.user.id ≡ a.user.id
  pub role : b.user.role ≡ a.user.role

abbrev Settles : (SessionState → Option SessionState) → SessionState → SessionState → Type 0
Settles sync session next = (sync next ≡ none) × SameIdentity session next

sync_company-Settles :
    (session next : SessionState) (d : CompanyStatusSummary)
    → sync_company session d ≡ some next
    → Settles (λ s. sync_company s d) session next
sync_company-Settles session next d h =
    let same : with_company_profile session d ≡ next = unfold sync_company in if-some _ _ _ h in
    subst (Settles (λ s. sync_company s d) session) same (
      sync_with_company session d,
      record { access = refl; refresh = refl; user_id = refl; role = refl },
    )

sync_corper-Settles :
    (session next : SessionState) (d : CorperStatusSummary) (path : Text)
    → sync_corper session d path ≡ some next
    → Settles (λ s. sync_corper s d path) session next
sync_corper-Settles session next d path h =
    let same : with_corper_profile session d path ≡ next = unfold sync_corper in if-some _ _ _ h in
    subst (Settles (λ s. sync_corper s d path) session) same (
      sync_with_corper session d path,
      record { access = refl; refresh = refl; user_id = refl; role = refl },
    )

company_answer-Settles :
    (session next : SessionState) (d : Option CompanyStatusSummary)
    → sync_company_answer session d ≡ some next
    → Settles (λ s. sync_company_answer s d) session next
company_answer-Settles session next none h = cc
company_answer-Settles session next (some d) h = sync_company-Settles session next d h

corper_answer-Settles :
    (session next : SessionState) (d : Option CorperStatusSummary) (path : Text)
    → sync_corper_answer session d path ≡ some next
    → Settles (λ s. sync_corper_answer s d path) session next
corper_answer-Settles session next none path h = cc
corper_answer-Settles session next (some d) path h = sync_corper-Settles session next d path h

module _ (shell : Shell) where
  sync_for-Settles :
      (role : UserRole) (session next : SessionState)
      → sync_for shell role session ≡ some next
      → Settles (sync_for shell role) session next
  sync_for-Settles company session next h =
      elim (Bool-cases (same_role session.user.role company)) [
        | inl e ↦
            let (done, same) = company_answer-Settles session next shell.company_data (rw e at h) in
            (
              let kept : same_role next.user.role company ≡ true = rw same.role e in rw kept done,
              same,
            )
        | inr e ↦ absurd (ground arith)
      ]
  sync_for-Settles corper session next h = elim (Bool-cases (same_role session.user.role corper)) [
    | inl e ↦
        let (done, same) =
          corper_answer-Settles session next shell.corper_data (normalized_pathname shell.pathname)
            (rw e at h) in
        (let kept : same_role next.user.role corper ≡ true = rw same.role e in rw kept done, same)
    | inr e ↦ absurd (ground arith)
  ]
  sync_for-Settles admin session next h = cc

-- After the effects have written the profile into the session they write nothing more, and the
-- session keeps its tokens, its user and the user's role.
pub sync_session_settles :
    (shell : Shell) (session next : SessionState)
    → shell.session ≡ some session
    → sync_session shell ≡ some next
    → (sync_session (record shell { session = some next }) ≡ none) × SameIdentity session next
unfolding sync_session
sync_session_settles shell session next e h =
    sync_for-Settles shell shell.role session next (rw e at h)
