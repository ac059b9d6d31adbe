-- ===== src/Fixtures.antt =====
-- Data for the tests: users, sessions and the shell of a corper and of a company.
use corpershub_application.Base.{true, false, none, some, codes}
use corpershub_application.Session.{SessionUser, SessionState, corper, company}
use corpershub_application.Shell.{Shell, CorperStatusSummary, CompanyStatusSummary}

abbrev pub ada : SessionUser
ada = record {
  id = "u1";
  email = "ada@example.com";
  role = corper;
  email_verified = true;
  is_active = true;
  created_at = "2026-01-01";
  profile_id = none;
  profile_completed = some true;
  profile_path = some (codes "/corper/profile/");
  company_verification_status = none;
  needs_subscription_selection = some false;
}

abbrev pub acme : SessionUser
acme = record ada {
  id = "u2";
  email = "acme@example.com";
  role = company;
  profile_completed = some false;
  profile_path = some (codes "/business/profile");
  company_verification_status = some (some "verified");
}

abbrev pub ada_session : SessionState
ada_session = record {
  access_token = codes "t1";
  refresh_token = some (codes "r1");
  remember_me = none;
  user = ada;
}

abbrev pub acme_session : SessionState
acme_session = record ada_session { user = acme }

abbrev pub complete_corper : CorperStatusSummary
complete_corper = record {
  full_name = some (codes "Ada Obi");
  verification_status = "verified";
  is_complete = true;
  profile_fields_complete = true;
  terms_accepted = true;
  biodata_verification_status = "verified";
  nin_verification_status = "verified";
  nysc_callup_verification_status = "verified";
  nysc_state_code_verification_status = "verified";
}

abbrev pub pending_corper : CorperStatusSummary
pending_corper = record complete_corper { nin_verification_status = "pending" }

abbrev pub complete_company : CompanyStatusSummary
complete_company = record {
  company_name = some (codes "Acme Ltd");
  is_complete = true;
  verification_status = some "verified";
  approval_status = some "approved";
  verification_fields_complete = true;
  profile_fields_complete = true;
  terms_accepted = true;
}

abbrev pub corper_shell : Shell
corper_shell = record {
  role = corper;
  pathname = some (codes "/corper/companies/");
  hydrated = true;
  session = some ada_session;
  corper_loading = false;
  corper_data = some complete_corper;
  company_data = none;
}

abbrev pub company_shell : Shell
company_shell = record corper_shell {
  role = company;
  pathname = some (codes "/company/corpers");
  session = some acme_session;
  corper_data = none;
  company_data = some complete_company;
}
