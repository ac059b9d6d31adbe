-- ===== src/Shell/Guard.antt =====
-- The navigation effect never loops, keeps unverified corpers away, and guards discovery.
use mathlib.Core.Path.{subst}
use corpershub_application.Base.{
  refl, arith, Option, Text, ◌≡◌, Bool-cases, none, some, codes, inl, inr, trim, not, ◌||◌, ◌&&◌,
  true,
}
use corpershub_application.Session.{
  UserRole, company, corper, admin, SessionUser, SessionState, normalize_app_path, before,
  search_of, canonical_pathname, is_discovery_route_for_role, is_billing_route_for_role, is_status,
}
use corpershub_application.Shell.{
  Shell, corper_branch, resolve_corper_onboarding_path, CorperStatusSummary, documents_verified,
  resolve_company_onboarding_path, normalized_pathname, company_branch, CompanyStatusSummary,
  profile_redirect, to_page, corper_redirect, page, company_redirect, company_answer, corper_answer,
  shell_redirect, same_role,
}

-- The three pages that a corper's onboarding may require.
pub data CorperStep : Option Text → Type 0 where
  finished : CorperStep none
  verification : CorperStep (some (codes "/corper/verification"))
  terms : CorperStep (some (codes "/corper/profile/terms"))
  profile : CorperStep (some (codes "/corper/profile"))

pub corper_step : (d : CorperStatusSummary) → CorperStep (resolve_corper_onboarding_path d)
unfolding resolve_corper_onboarding_path
corper_step d = elim (Bool-cases (documents_verified d)) [
  | inl a ↦ elim (Bool-cases d.terms_accepted) [
    | inl b ↦ elim (Bool-cases d.is_complete) [
      | inl c ↦ rw (a, b, c) finished
      | inr c ↦ rw (a, b, c) profile
    ]
    | inr b ↦ rw (a, b) terms
  ]
  | inr a ↦ rw a verification
]

-- The page as the component reads it once the visitor is there.
abbrev shown : Text → Text
shown path = normalized_pathname (some path)

-- Each page that a redirect may lead to is one where the same redirect stays.
module _ (user : SessionUser) where
  stays_at_billing : corper_branch user none (shown (codes "/corper/billing")) ≡ none
  unfolding is_discovery_route_for_role normalize_app_path trim before search_of canonical_pathname
  stays_at_billing = ground arith

  stays_at_verification :
      corper_branch user
        (some (codes "/corper/verification"))
        (shown (codes "/corper/verification"))
      ≡ none
  unfolding is_discovery_route_for_role is_billing_route_for_role normalize_app_path trim before
      search_of canonical_pathname
  stays_at_verification = refl

  stays_at_terms :
      corper_branch user
        (some (codes "/corper/profile/terms"))
        (shown (codes "/corper/profile/terms"))
      ≡ none
  unfolding is_discovery_route_for_role is_billing_route_for_role normalize_app_path trim before
      search_of canonical_pathname
  stays_at_terms = refl

  stays_at_profile :
      corper_branch user (some (codes "/corper/profile")) (shown (codes "/corper/profile")) ≡ none
  unfolding is_discovery_route_for_role is_billing_route_for_role normalize_app_path trim before
      search_of canonical_pathname
  stays_at_profile = refl

  target_none :
      (path t : Text) → corper_branch user none path ≡ some t → codes "/corper/billing" ≡ t
  target_none path t h = ground arith

  target_some :
      (required path t : Text) → corper_branch user (some required) path ≡ some t → required ≡ t
  target_some required path t h = ground arith

  corper_branch_stable :
      (required : Option Text) (path t : Text)
      → CorperStep required
      → corper_branch user required path ≡ some t
      → corper_branch user required (shown t) ≡ none
  corper_branch_stable required path t finished h =
      subst (λ p. corper_branch user none (shown p) ≡ none) (target_none path t h) stays_at_billing
  corper_branch_stable required path t verification h =
      let verification_path = codes "/corper/verification" in
      subst (λ p. corper_branch user (some verification_path) (shown p) ≡ none)
        (target_some verification_path path t h) stays_at_verification
  corper_branch_stable required path t terms h =
      let terms_path = codes "/corper/profile/terms" in
      subst (λ p. corper_branch user (some terms_path) (shown p) ≡ none)
        (target_some terms_path path t h) stays_at_terms
  corper_branch_stable required path t profile h =
      let profile_path = codes "/corper/profile" in
      subst (λ p. corper_branch user (some profile_path) (shown p) ≡ none)
        (target_some profile_path path t h) stays_at_profile

-- The pages that a company's onboarding may require: none of them is the discovery page.
data CompanyStep : Option Text → Type 0 where
  finished : CompanyStep none
  verification : CompanyStep (some (codes "/company/verification"))
  terms : CompanyStep (some (codes "/company/profile/terms"))
  profile : CompanyStep (some (codes "/company/profile"))

company_step : (d : CompanyStatusSummary) → CompanyStep (resolve_company_onboarding_path d)
unfolding resolve_company_onboarding_path
company_step d =
    elim (Bool-cases (
      not d.verification_fields_complete
      || (d.terms_accepted && not (is_status d.verification_status "verified")))) [
        | inl a ↦ rw a CompanyStep.verification
        | inr a ↦ elim (Bool-cases d.terms_accepted) [
          | inl b ↦ elim (Bool-cases (not d.profile_fields_complete || not d.is_complete)) [
            | inl c ↦ rw (a, b, c) CompanyStep.profile
            | inr c ↦ rw (a, b, c) CompanyStep.finished
          ]
          | inr b ↦ rw (a, b) CompanyStep.terms
        ]
      ]

company_branch_target :
    (required path t : Text) → company_branch (some required) path ≡ some t → required ≡ t
company_branch_target required path t h = ground arith

company_branch_stable :
    (required : Option Text) (path t : Text)
    → CompanyStep required
    → company_branch required path ≡ some t
    → company_branch required (shown t) ≡ none
unfolding is_discovery_route_for_role normalize_app_path trim before search_of canonical_pathname
company_branch_stable required path t CompanyStep.finished h = refl
company_branch_stable required path t CompanyStep.verification h =
    let required_path = codes "/company/verification" in
    subst (λ p. company_branch (some required_path) (shown p) ≡ none)
      (company_branch_target required_path path t h) refl
company_branch_stable required path t CompanyStep.terms h =
    let required_path = codes "/company/profile/terms" in
    subst (λ p. company_branch (some required_path) (shown p) ≡ none)
      (company_branch_target required_path path t h) refl
company_branch_stable required path t CompanyStep.profile h =
    let required_path = codes "/company/profile" in
    subst (λ p. company_branch (some required_path) (shown p) ≡ none)
      (company_branch_target required_path path t h) refl

to_page-eq : (o : Option Text) (t : Text) → to_page o ≡ some (page t) → o ≡ some t
to_page-eq none t h = cc
to_page-eq (some p) t h = cc

-- The shell with the visitor at another page, and nothing else changed.
abbrev pub moved_to : Text → Shell → Shell
moved_to t shell = record shell { pathname = some t }

corper_answer_stable :
    (d : Option CorperStatusSummary) (user : SessionUser) (path t : Text)
    → corper_answer d user path ≡ some (page t)
    → corper_answer d user (shown t) ≡ none
unfolding corper_redirect
corper_answer_stable none user path t h = refl
corper_answer_stable (some d) user path t h =
    rw
      (corper_branch_stable user (resolve_corper_onboarding_path d) path t (corper_step d)
        (to_page-eq _ t h))
      refl

company_answer_stable :
    (d : Option CompanyStatusSummary) (path t : Text)
    → company_answer d path ≡ some (page t)
    → company_answer d (shown t) ≡ none
unfolding company_redirect
company_answer_stable none path t h = refl
company_answer_stable (some d) path t h =
    rw
      (company_branch_stable (resolve_company_onboarding_path d) path t (company_step d)
        (to_page-eq _ t h))
      refl

profile_redirect_stable :
    (shell : Shell) (role : UserRole) (user : SessionUser) (path t : Text)
    → profile_redirect shell role user path ≡ some (page t)
    → profile_redirect (moved_to t shell) role user (shown t) ≡ none
unfolding profile_redirect
profile_redirect_stable shell corper user path t h =
    corper_answer_stable shell.corper_data user path t h
profile_redirect_stable shell company user path t h =
    company_answer_stable shell.company_data path t h
profile_redirect_stable shell admin user path t h = refl

-- A visitor whose session has the role of the shell, and who is sent to a page, stays there: with
-- nothing else changed, the effect does not redirect from that page again.
pub shell_redirect_stable :
    (shell : Shell) (session : SessionState) (t : Text)
    → shell.session ≡ some session
    → same_role session.user.role shell.role ≡ true
    → shell_redirect shell ≡ some (page t)
    → shell_redirect (moved_to t shell) ≡ none
unfolding shell_redirect profile_redirect
shell_redirect_stable shell session t signed_in own h = elim (Bool-cases shell.hydrated) [
  | inl e ↦
      let path = normalized_pathname shell.pathname in
      let same : profile_redirect shell shell.role session.user path ≡ some (page t) =
        rw (e, signed_in, own) at h in
      rw (e, signed_in, own) (profile_redirect_stable shell shell.role session.user path t same)
  | inr e ↦ rw e refl
]
