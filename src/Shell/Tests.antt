-- ===== src/Shell/Tests.antt =====
-- Runs of the dashboard's effects, and the theorems at concrete inputs.
use corpershub_application.Base.{refl, none, some, is_space, trim, codes, ◌≡◌}
use corpershub_application.Session.{
  normalize_app_path, before, search_of, canonical_pathname, default_app_path_for_user,
  normalize_profile_path, is_discovery_route_for_role, is_billing_route_for_role,
  login_path_for_role,
}
use corpershub_application.Fixtures.{
  corper_shell, ada_session, company_shell, complete_company, acme_session, pending_corper,
}
use corpershub_application.Shell.{
  Shell, shell_redirect, page, login, sync_session, documents_verified, with_company_profile,
  profile_redirect, corper_redirect, company_redirect, resolve_corper_onboarding_path,
  resolve_company_onboarding_path, sync_company, sync_corper, corper_target_path,
}
use corpershub_application.Shell.Guard.{shell_redirect_stable, moved_to}
use corpershub_application.Shell.Access.{Admitted}
use corpershub_application.Shell.Sync.{sync_session_settles, SameIdentity}

shell_code : Unit {0}
unfolding normalize_app_path trim is_space before search_of canonical_pathname
    default_app_path_for_user normalize_profile_path is_discovery_route_for_role
    is_billing_route_for_role shell_redirect profile_redirect corper_redirect company_redirect
    resolve_corper_onboarding_path resolve_company_onboarding_path documents_verified sync_session
    sync_company sync_corper corper_target_path login_path_for_role
shell_code = tt

-- The corper whose NIN is still pending, at the discovery page.
abbrev pending_shell : Shell
pending_shell = record corper_shell { corper_data = some pending_corper }

-- The same corper, at the page of the terms.
abbrev terms_shell : Shell
terms_shell = record pending_shell { pathname = some (codes "/corper/profile/terms") }

redirects :
    (shell_redirect corper_shell ≡ none)
    × (shell_redirect pending_shell ≡ some (page (codes "/corper/verification")))
    × (shell_redirect (record corper_shell { session = none })
        ≡ some (login (codes "/login/") (codes "/corper/companies")))
    × (shell_redirect (record company_shell { session = some ada_session })
        ≡ some (page (codes "/corper/companies")))
unfolding shell_code
redirects = (refl, refl, refl, refl)

shell_redirect_stable_example :
    shell_redirect (moved_to (codes "/corper/verification") pending_shell) ≡ none
shell_redirect_stable_example =
    shell_redirect_stable pending_shell ada_session (codes "/corper/verification") refl refl
      redirects.1

terms-Admitted : Admitted terms_shell ada_session
unfolding shell_code
terms-Admitted = record { ready = refl; signed_in = refl; own_role = refl; stays = refl }

corper-Admitted : Admitted corper_shell ada_session
unfolding shell_code
corper-Admitted = record { ready = refl; signed_in = refl; own_role = refl; stays = refl }

company-Admitted : Admitted company_shell acme_session
unfolding shell_code
company-Admitted = record { ready = refl; signed_in = refl; own_role = refl; stays = refl }

synced_acme : sync_session company_shell ≡ some (with_company_profile acme_session complete_company)
unfolding shell_code
synced_acme = refl

sync_session_settles_example :
    (sync_session (record company_shell {
      session = some (with_company_profile acme_session complete_company);
    })
      ≡ none)
    × SameIdentity acme_session (with_company_profile acme_session complete_company)
sync_session_settles_example =
    sync_session_settles company_shell acme_session
      (with_company_profile acme_session complete_company) refl synced_acme
