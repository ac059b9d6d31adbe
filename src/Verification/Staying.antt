-- ===== src/Verification/Staying.antt =====
-- The dashboard leaves a corper on the terms page, wherever the onboarding stands.
use corpershub_application.Base.{not, if_lem, refl, arith, none, some, Option, Text, ◌≡◌, trim}
use corpershub_application.Session.{
  SessionState, SessionUser, corper, is_discovery_route_for_role, is_billing_route_for_role,
  normalize_app_path, before, search_of, canonical_pathname,
}
use corpershub_application.Shell.{
  Shell, CorperStatusSummary, shell_redirect, corper_branch, corper_redirect, corper_answer,
  normalized_pathname, resolve_corper_onboarding_path, profile_redirect,
}
use corpershub_application.Shell.Guard.{CorperStep, corper_step}
use corpershub_application.Verification.Legal.{terms_session, terms_page}

branch_stays :
    (user : SessionUser) (required : Option Text)
    → CorperStep required
    → corper_branch user required (normalized_pathname (some terms_page)) ≡ none
unfolding is_discovery_route_for_role is_billing_route_for_role normalize_app_path trim before
    search_of canonical_pathname
branch_stays user required CorperStep.finished = ground arith
branch_stays user required CorperStep.verification = refl
branch_stays user required CorperStep.terms = refl
branch_stays user required CorperStep.profile = refl

answer_stays :
    (user : SessionUser) (answer : Option CorperStatusSummary)
    → corper_answer answer user (normalized_pathname (some terms_page)) ≡ none
unfolding corper_redirect
answer_stays user none = refl
answer_stays user (some profile) =
    rw (branch_stays user (resolve_corper_onboarding_path profile) (corper_step profile)) refl

-- A corper whom the verification page has led to the terms page, with the session that it has stored
-- then, is left there by the dashboard, whatever the server answers about the profile.
pub terms_stays :
    (shell : Shell) (session : SessionState)
    → session.user.role ≡ corper
    → shell_redirect (record shell {
      role = corper;
      pathname = some terms_page;
      session = some (terms_session session);
    })
      ≡ none
unfolding shell_redirect terms_session profile_redirect
terms_stays shell session e = rw e (
    if_lem (λ r. r ≡ none) (not shell.hydrated) (λ a. refl)
      λ a. answer_stays (record (terms_session session).user { role = corper }) shell.corper_data)
