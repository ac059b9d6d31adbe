-- ===== src/Shell/Access.antt =====
-- What a visitor who is not redirected has done already: the guard of the dashboard pages.
use corpershub_application.Base.{
  refl, arith, Option, ◌≡◌, some, trim, Text, true, none, codes, false, ◌⊎◌, text_eq_iff,
}
use corpershub_application.Session.{
  company, corper, SessionUser, SessionState, normalize_app_path, before, search_of,
  canonical_pathname, is_discovery_route_for_role, is_true, is_status,
}
use corpershub_application.Shell.{
  Shell, CorperStatusSummary, company_redirect, profile_redirect, shell_redirect,
  CompanyStatusSummary, corper_redirect, normalized_pathname, resolve_company_onboarding_path,
  resolve_corper_onboarding_path, same_role, documents_verified, to_page, is_corper_terms_path,
}

on_corper_discovery : is_discovery_route_for_role corper (some (codes "/corper/companies")) ≡ true
unfolding is_discovery_route_for_role normalize_app_path trim before search_of canonical_pathname
on_corper_discovery = refl

on_company_discovery : is_discovery_route_for_role company (some (codes "/company/corpers")) ≡ true
unfolding is_discovery_route_for_role normalize_app_path trim before search_of canonical_pathname
on_company_discovery = refl

unverified_stays :
    (user : SessionUser) (d : CorperStatusSummary) (path : Text)
    → documents_verified d ≡ false
    → corper_redirect user d path ≡ none
    → (path ≡ codes "/corper/verification") ⊎ (is_corper_terms_path path ≡ true)
unfolding corper_redirect resolve_corper_onboarding_path
unverified_stays user d path e h = ground (arith, text_eq_iff path (codes "/corper/verification"))

browsing_corper :
    (user : SessionUser) (d : CorperStatusSummary)
    → corper_redirect user d (codes "/corper/companies") ≡ none
    → (documents_verified d ≡ true)
      × (d.terms_accepted ≡ true)
      × (d.is_complete ≡ true)
      × (is_true user.needs_subscription_selection ≡ false)
unfolding corper_redirect resolve_corper_onboarding_path
browsing_corper user d h = ground (arith, on_corper_discovery)

browsing_company :
    (d : CompanyStatusSummary)
    → company_redirect d (codes "/company/corpers") ≡ none
    → (d.verification_fields_complete ≡ true)
      × (d.terms_accepted ≡ true)
      × (is_status d.verification_status "verified" ≡ true)
      × (d.profile_fields_complete ≡ true)
      × (d.is_complete ≡ true)
unfolding company_redirect resolve_company_onboarding_path
browsing_company d h = ground (arith, on_company_discovery)

-- The visitor is signed in with the role of the shell, and nothing redirects.
pub record Admitted (shell : Shell) (session : SessionState) : Type 0 where
  pub ready : shell.hydrated ≡ true
  pub signed_in : shell.session ≡ some session
  pub own_role : same_role session.user.role shell.role ≡ true
  pub stays : shell_redirect shell ≡ none

to_page-none : (o : Option Text) → to_page o ≡ none → o ≡ none
to_page-none none h = refl
to_page-none (some t) h = cc

module _ {shell : Shell} {session : SessionState} (a : Admitted shell session) where
  admitted_redirect :
      profile_redirect shell shell.role session.user (normalized_pathname shell.pathname) ≡ none
  unfolding shell_redirect profile_redirect
  admitted_redirect = rw (a.ready, a.signed_in, a.own_role) at a.stays

  admitted_corper :
      (d : CorperStatusSummary)
      → shell.role ≡ corper
      → shell.corper_data ≡ some d
      → corper_redirect session.user d (normalized_pathname shell.pathname) ≡ none
  unfolding profile_redirect
  admitted_corper d r e = to_page-none _ (rw (r, e) at admitted_redirect)

  admitted_company :
      (d : CompanyStatusSummary)
      → shell.role ≡ company
      → shell.company_data ≡ some d
      → company_redirect d (normalized_pathname shell.pathname) ≡ none
  unfolding profile_redirect
  admitted_company d r e = to_page-none _ (rw (r, e) at admitted_redirect)

  -- Where the page is hydrated and the profile is there, a corper whose four documents are not all
  -- verified is left alone on the verification page and on the pages of the terms only.
  pub corper_confined :
      (d : CorperStatusSummary)
      → shell.role ≡ corper
      → shell.corper_data ≡ some d
      → documents_verified d ≡ false
      → (normalized_pathname shell.pathname ≡ codes "/corper/verification")
        ⊎ (is_corper_terms_path (normalized_pathname shell.pathname) ≡ true)
  corper_confined d r e u = unverified_stays session.user d _ u (admitted_corper d r e)

  -- A corper who stays on the discovery page has four verified documents, accepted terms, a complete
  -- profile and no plan left to choose.
  pub corper_browses :
      (d : CorperStatusSummary)
      → shell.role ≡ corper
      → shell.corper_data ≡ some d
      → normalized_pathname shell.pathname ≡ codes "/corper/companies"
      → (documents_verified d ≡ true)
        × (d.terms_accepted ≡ true)
        × (d.is_complete ≡ true)
        × (is_true session.user.needs_subscription_selection ≡ false)
  corper_browses d r e p = browsing_corper session.user d (rw p at (admitted_corper d r e))

  -- A company that stays on the discovery page is verified, with accepted terms, and its
  -- verification and its profile are complete.
  pub company_browses :
      (d : CompanyStatusSummary)
      → shell.role ≡ company
      → shell.company_data ≡ some d
      → normalized_pathname shell.pathname ≡ codes "/company/corpers"
      → (d.verification_fields_complete ≡ true)
        × (d.terms_accepted ≡ true)
        × (is_status d.verification_status "verified" ≡ true)
        × (d.profile_fields_complete ≡ true)
        × (d.is_complete ≡ true)
  company_browses d r e p = browsing_company d (rw p at (admitted_company d r e))
