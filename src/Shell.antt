-- ===== src/Shell.antt =====
-- web/src/components/layout/dashboard-shell.tsx: which page of a dashboard a visitor is sent to, and
-- how the profile that the server reports is written back into the session.
pub mod Guard
pub mod Access
pub mod Sync
mod Tests
use corpershub_application.Base.{
  arith, Option, Text, Bool, String, true, str_eq, or_default, false, some, if◌then◌else◌, ◌&&◌,
  starts_with, codes, none, not, text_eq, ◌||◌,
}
use corpershub_application.Session.{
  UserRole, company, corper, admin, SessionUser, SessionState, login_path_for_role,
  normalize_app_path, default_app_path_for_user, is_billing_route_for_role,
  is_discovery_route_for_role, is_true, is_false, is_status,
}

pub record CorperStatusSummary : Type 0 where
  pub full_name : Option Text
  pub verification_status : String
  pub is_complete : Bool
  pub profile_fields_complete : Bool
  pub terms_accepted : Bool
  pub biodata_verification_status : String
  pub nin_verification_status : String
  pub nysc_callup_verification_status : String
  pub nysc_state_code_verification_status : String

pub record CompanyStatusSummary : Type 0 where
  pub company_name : Option Text
  pub is_complete : Bool
  pub verification_status : Option String
  pub approval_status : Option String
  pub verification_fields_complete : Bool
  pub profile_fields_complete : Bool
  pub terms_accepted : Bool

abbrev pub is_verified : String → Bool
is_verified status = str_eq status "verified"

unfoldable pub documents_verified : CorperStatusSummary → Bool
documents_verified profile =
    is_verified profile.biodata_verification_status
    && is_verified profile.nin_verification_status
    && is_verified profile.nysc_callup_verification_status
    && is_verified profile.nysc_state_code_verification_status

unfoldable pub resolve_corper_onboarding_path : CorperStatusSummary → Option Text
resolve_corper_onboarding_path profile =
    if not (documents_verified profile)
    then some (codes "/corper/verification")
    else if not profile.terms_accepted
    then some (codes "/corper/profile/terms")
    else if not profile.is_complete
    then some (codes "/corper/profile")
    else none

unfoldable pub resolve_company_onboarding_path : CompanyStatusSummary → Option Text
resolve_company_onboarding_path profile =
    if not profile.verification_fields_complete
      || (profile.terms_accepted && not (is_status profile.verification_status "verified"))
    then some (codes "/company/verification")
    else if not profile.terms_accepted
    then some (codes "/company/profile/terms")
    else if not profile.profile_fields_complete || not profile.is_complete
    then some (codes "/company/profile")
    else none

-- What the component reads when its effects run. The profile of a role is asked for only where the
-- shell and the session have that role, and is null until the answer is there.
pub record Shell : Type 0 where
  pub role : UserRole
  pub pathname : Option Text
  pub hydrated : Bool
  pub session : Option SessionState
  pub corper_loading : Bool
  pub corper_data : Option CorperStatusSummary
  pub company_data : Option CompanyStatusSummary

-- `router.replace`: the sign-in page with the page to come back to, or a page.
pub data Redirect : Type 0 where
  login : Text → Text → Redirect
  page : Text → Redirect

abbrev pub normalized_pathname : Option Text → Text
normalized_pathname pathname = normalize_app_path (some (or_default pathname (codes "/")))

abbrev pub is_corper_terms_path : Text → Bool
is_corper_terms_path path = starts_with path (codes "/corper/profile/terms")

abbrev pub same_role : UserRole → UserRole → Bool
same_role company company = true
same_role corper corper = true
same_role admin admin = true
same_role _ _ = false

-- The branch `if (role === "corper" && corperProfile.data)`, `path` being normalised.
abbrev pub corper_branch : SessionUser → Option Text → Text → Option Text
corper_branch user none path =
    if is_true user.needs_subscription_selection && is_discovery_route_for_role corper (some path)
    then some (codes "/corper/billing")
    else none
corper_branch user (some required) path =
    let verification = codes "/corper/verification" in
    if text_eq required verification
      && not (text_eq path required)
      && not (is_corper_terms_path path)
    then some required
    else if not (text_eq required verification)
        && (is_billing_route_for_role corper (some path)
            || is_discovery_route_for_role corper (some path))
    then some required
    else none

unfoldable pub corper_redirect : SessionUser → CorperStatusSummary → Text → Option Text
corper_redirect user profile path = corper_branch user (resolve_corper_onboarding_path profile) path

-- The branch `if (role === "company" && companyProfile.data)`.
abbrev pub company_branch : Option Text → Text → Option Text
company_branch none path = none
company_branch (some required) path =
    if is_discovery_route_for_role company (some path) then some required else none

unfoldable pub company_redirect : CompanyStatusSummary → Text → Option Text
company_redirect profile path = company_branch (resolve_company_onboarding_path profile) path

abbrev pub to_page : Option Text → Option Redirect
to_page none = none
to_page (some path) = some (page path)

-- The part behind the two checks of the session; without an answer the visitor stays.
abbrev pub corper_answer : Option CorperStatusSummary → SessionUser → Text → Option Redirect
corper_answer none user path = none
corper_answer (some profile) user path = to_page (corper_redirect user profile path)

abbrev pub company_answer : Option CompanyStatusSummary → Text → Option Redirect
company_answer none path = none
company_answer (some profile) path = to_page (company_redirect profile path)

unfoldable pub profile_redirect : Shell → UserRole → SessionUser → Text → Option Redirect
profile_redirect shell corper user path = corper_answer shell.corper_data user path
profile_redirect shell company user path = company_answer shell.company_data path
profile_redirect shell admin user path = none

-- `if (session.user.role !== role)` and what follows it.
abbrev pub signed_in_redirect : Shell → SessionUser → Text → Option Redirect
signed_in_redirect shell user path =
    if not (same_role user.role shell.role)
    then some (page (default_app_path_for_user user))
    else profile_redirect shell shell.role user path

abbrev pub session_redirect : Shell → Option SessionState → Text → Option Redirect
session_redirect shell none path = some (login (login_path_for_role shell.role) path)
session_redirect shell (some session) path = signed_in_redirect shell session.user path

-- The navigation effect of the component: null where the visitor stays.
unfoldable pub shell_redirect : Shell → Option Redirect
shell_redirect shell =
    let path = normalized_pathname shell.pathname in
    if not shell.hydrated then none else session_redirect shell shell.session path

-- `flag === value`
abbrev pub flag_is : Option Bool → Bool → Bool
flag_is none b = false
flag_is (some true) b = b
flag_is (some false) b = not b

abbrev pub path_is : Option Text → Text → Bool
path_is none t = false
path_is (some s) t = text_eq s t

-- `status === (value ?? null)`: a status that is missing is not null.
abbrev pub same_status : Option (Option String) → Option String → Bool
same_status (some none) none = true
same_status (some (some s)) (some t) = str_eq s t
same_status _ _ = false

abbrev pub company_target_path : CompanyStatusSummary → Text
company_target_path profile =
    or_default (resolve_company_onboarding_path profile) (codes "/company/corpers")

abbrev pub with_company_profile : SessionState → CompanyStatusSummary → SessionState
with_company_profile session profile = record session {
  user = record session.user {
    profile_completed = some profile.is_complete;
    profile_path = some (company_target_path profile);
    company_verification_status = some profile.verification_status;
  };
}

-- What the second effect would write: the session with the company's profile, or null where the
-- session has it already.
unfoldable pub sync_company : SessionState → CompanyStatusSummary → Option SessionState
sync_company session profile =
    if flag_is session.user.profile_completed profile.is_complete
      && path_is session.user.profile_path (company_target_path profile)
      && same_status session.user.company_verification_status profile.verification_status
    then none
    else some (with_company_profile session profile)

unfoldable pub corper_target_path : CorperStatusSummary → Text → Text
corper_target_path profile path =
    if not profile.terms_accepted && is_corper_terms_path path
    then codes "/corper/profile/terms"
    else or_default (resolve_corper_onboarding_path profile) (codes "/corper/profile")

abbrev pub with_corper_profile : SessionState → CorperStatusSummary → Text → SessionState
with_corper_profile session profile path = record session {
  user = record session.user {
    profile_completed = some (documents_verified profile && profile.is_complete);
    profile_path = some (corper_target_path profile path);
  };
}

-- The third effect, for a corper; `path` is the page that is shown, normalised.
unfoldable pub sync_corper : SessionState → CorperStatusSummary → Text → Option SessionState
sync_corper session profile path =
    if flag_is session.user.profile_completed (documents_verified profile && profile.is_complete)
      && path_is session.user.profile_path (corper_target_path profile path)
    then none
    else some (with_corper_profile session profile path)

-- The two effects behind their guards: the session and the shell have one role, and the answer is
-- there. At most one of them applies.
abbrev pub sync_company_answer : SessionState → Option CompanyStatusSummary → Option SessionState
sync_company_answer session none = none
sync_company_answer session (some profile) = sync_company session profile

abbrev pub sync_corper_answer :
    SessionState → Option CorperStatusSummary → Text → Option SessionState
sync_corper_answer session none path = none
sync_corper_answer session (some profile) path = sync_corper session profile path

abbrev pub sync_for : Shell → UserRole → SessionState → Option SessionState
sync_for shell company session =
    if same_role session.user.role company
    then sync_company_answer session shell.company_data
    else none
sync_for shell corper session =
    if same_role session.user.role corper
    then sync_corper_answer session shell.corper_data (normalized_pathname shell.pathname)
    else none
sync_for shell admin session = none

abbrev pub sync_signed_in : Shell → Option SessionState → Option SessionState
sync_signed_in shell none = none
sync_signed_in shell (some session) = sync_for shell shell.role session

unfoldable pub sync_session : Shell → Option SessionState
sync_session shell = sync_signed_in shell shell.session
