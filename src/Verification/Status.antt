-- ===== src/Verification/Status.antt =====
-- The page and the dashboard around it agree about the same profile.
use mathlib.Core.Path.{subst}
use corpershub_application.Shell
use corpershub_application.Base.{
  ◌||◌, ℕ, none, some, inl, inr, String, Bool, str_eq, ◌&&◌, ◌≡◌, codes, true, Text, Option, all,
  Bool-cases, ap, arith, text_eq, ◌≤◌, sym, false, ◌↔◌, str_eq_iff, refl, if◌then◌else◌, not,
  length-filter, ◌*◌, ◌/◌, ◌==◌, ==_iff,
}
use corpershub_application.Shell.{
  CorperStatusSummary, corper_target_path, resolve_corper_onboarding_path, sync_corper, is_verified,
  with_corper_profile, path_is, flag_is,
}
use corpershub_application.Verification.{
  documents_verified, Lowering, progress_percent, is_verified_status, sync_verification,
  normalize_status, completed_documents_count, SessionState, next_profile_path, get_document_status,
  is_small, verification_documents,
}

-- The statuses that the server has for a record.
abbrev pub is_server_status : String → Bool
is_server_status s =
    str_eq s "unsubmitted" || str_eq s "pending" || str_eq s "verified" || str_eq s "rejected"

server_status_cases :
    (P : String → Type 0) (s : String)
    → P "unsubmitted"
    → P "pending"
    → P "verified"
    → P "rejected"
    → is_server_status s ≡ true
    → P s
server_status_cases P s u p v r h = elim (Bool-cases (str_eq s "unsubmitted")) [
  | inl e ↦ subst P (sym ((str_eq_iff s "unsubmitted").0 e)) u
  | inr a ↦ elim (Bool-cases (str_eq s "pending")) [
    | inl e ↦ subst P (sym ((str_eq_iff s "pending").0 e)) p
    | inr b ↦ elim (Bool-cases (str_eq s "verified")) [
      | inl e ↦ subst P (sym ((str_eq_iff s "verified").0 e)) v
      | inr c ↦ subst P (sym ((str_eq_iff s "rejected").0 (ground arith))) r
    ]
  ]
]

flipped :
    (p f : Bool) (x : Option SessionState)
    → (if not p || not f then x else none) ≡ (if f && p then none else x)
flipped true true x = refl
flipped true false x = refl
flipped false true x = refl
flipped false false x = refl

percent : (n : ℕ) → n ≤ 4 → (n * 100 / 4 ≤ 100) × ((n * 100 / 4 ≡ 100) ↔ ((n == 4) ≡ true))
percent n h = (omega arith, ((λ e. (==_iff n 4).1 (exact n h e)), λ e. full n ((==_iff n 4).0 e)))
  where
    exact : (n : ℕ) → n ≤ 4 → n * 100 / 4 ≡ 100 → n ≡ 4
    exact n h e = omega arith

    full : (n : ℕ) → n ≡ 4 → n * 100 / 4 ≡ 100
    full n e = omega arith

module _ (lowering : Lowering) where
  normalize_fixed :
      (t : Text)
      → all is_small t ≡ true
      → text_eq t (codes "approved") ≡ false
      → text_eq t (codes "under_review") ≡ false
      → normalize_status lowering t ≡ t
  unfolding normalize_status
  normalize_fixed t small a b = rw (lowering.lower_fixed t small, a, b) refl

  abbrev Agrees : String → Type 0
  Agrees s = is_verified_status lowering (codes s) ≡ is_verified s

  verified_same : (s : String) → is_server_status s ≡ true → Agrees s
  unfolding is_verified_status
  verified_same s h =
      server_status_cases Agrees s
        (ap (λ t. text_eq t (codes "verified"))
          (normalize_fixed (codes "unsubmitted") refl refl refl))
        (ap (λ t. text_eq t (codes "verified")) (normalize_fixed (codes "pending") refl refl refl))
        (ap (λ t. text_eq t (codes "verified")) (normalize_fixed (codes "verified") refl refl refl))
        (ap (λ t. text_eq t (codes "verified")) (normalize_fixed (codes "rejected") refl refl refl))
        h

  abbrev pub has_server_statuses : CorperStatusSummary → Bool
  has_server_statuses profile =
      is_server_status profile.biodata_verification_status
      && is_server_status profile.nin_verification_status
      && is_server_status profile.nysc_callup_verification_status
      && is_server_status profile.nysc_state_code_verification_status

  counted :
      (profile : CorperStatusSummary)
      → documents_verified lowering (some profile) ≡ (
          is_verified_status lowering (codes profile.biodata_verification_status)
          && is_verified_status lowering (codes profile.nin_verification_status)
          && is_verified_status lowering (codes profile.nysc_callup_verification_status)
          && is_verified_status lowering (codes profile.nysc_state_code_verification_status))
  unfolding documents_verified completed_documents_count get_document_status
  counted profile = ground arith

  documents_agree :
      (profile : CorperStatusSummary)
      → has_server_statuses profile ≡ true
      → documents_verified lowering (some profile) ≡ Shell.documents_verified profile
  unfolding Shell.documents_verified
  documents_agree profile h =
      let ha : is_server_status profile.biodata_verification_status ≡ true = ground arith in
      let hb : is_server_status profile.nin_verification_status ≡ true = ground arith in
      let hc : is_server_status profile.nysc_callup_verification_status ≡ true = ground arith in
      let hd : is_server_status profile.nysc_state_code_verification_status ≡ true = ground arith in
      rw
        (
          counted profile,
          verified_same profile.biodata_verification_status ha,
          verified_same profile.nin_verification_status hb,
          verified_same profile.nysc_callup_verification_status hc,
          verified_same profile.nysc_state_code_verification_status hd,
        )
        refl

  path_agrees :
      (profile : CorperStatusSummary)
      → has_server_statuses profile ≡ true
      → next_profile_path lowering profile
        ≡ corper_target_path profile (codes "/corper/verification")
  unfolding corper_target_path resolve_corper_onboarding_path
  path_agrees profile h = rw (documents_agree profile h) (ground arith)

  -- With the statuses that the server has for a record, the page writes into the session exactly what
  -- the dashboard around it writes on that page, and so the two effects do not undo one another.
  pub sync_verification_agrees :
      (session : SessionState) (profile : CorperStatusSummary)
      → has_server_statuses profile ≡ true
      → sync_verification lowering session profile
        ≡ sync_corper session profile (codes "/corper/verification")
  unfolding sync_verification sync_corper
  sync_verification_agrees session profile h =
      rw (path_agrees profile h, documents_agree profile h)
        (flipped (path_is session.user.profile_path target)
          (flag_is session.user.profile_completed done) (some next))
    where
      target : Text
      target = corper_target_path profile (codes "/corper/verification")

      done : Bool
      done = Shell.documents_verified profile && profile.is_complete

      next : SessionState
      next = with_corper_profile session profile (codes "/corper/verification")

  -- The progress shown is at most 100 per cent, and 100 exactly where all of the records are verified.
  pub progress_bounded :
      (profile : Option CorperStatusSummary)
      → (progress_percent lowering profile ≤ 100)
        × ((progress_percent lowering profile ≡ 100) ↔ (documents_verified lowering profile ≡ true))
  unfolding progress_percent documents_verified completed_documents_count
  progress_bounded profile = percent (completed_documents_count lowering profile) (
      length-filter (λ type. is_verified_status lowering (get_document_status profile type))
        verification_documents)
