-- ===== src/Session.antt =====
-- web/src/lib/session.ts: the signed-in user, and the paths that a role may be sent to.
pub mod Paths
pub mod Routes
pub mod Discovery
pub mod Storage
mod Tests
use corpershub_application.Base.{
  ℕ, ◌≡◌, Bool, true, false, ◌||◌, Option, none, some, List, [], ◌∷◌, ◌++◌, String, Text, codes,
  text_eq, trim, ends_with, drop_end, is_nil, or_default, str_eq, ◌==◌, if◌then◌else◌, map,
}

pub data UserRole : Type 0 where
  company corper admin : UserRole

-- A field that may be missing or null is an `Option`. The dashboard tells the two apart in the status
-- of a company: none is a status that is missing, `some none` is null.
pub record SessionUser : Type 0 where
  pub id : String
  pub email : String
  pub role : UserRole
  pub email_verified : Bool
  pub is_active : Bool
  pub created_at : String
  pub profile_id : Option String
  pub profile_completed : Option Bool
  pub profile_path : Option Text
  pub company_verification_status : Option (Option String)
  pub needs_subscription_selection : Option Bool

pub record SessionState : Type 0 where
  pub access_token : Text
  pub refresh_token : Option Text
  pub remember_me : Option Bool
  pub user : SessionUser

abbrev pub login_path : Text
login_path = codes "/login/"

abbrev pub admin_login_path : Text
admin_login_path = codes "/admin/login"

unfoldable pub dashboard_path_for_role : UserRole → Text
dashboard_path_for_role company = codes "/company/corpers"
dashboard_path_for_role corper = codes "/corper/dashboard"
dashboard_path_for_role admin = codes "/admin/overview"

unfoldable pub login_path_for_role : UserRole → Text
login_path_for_role admin = admin_login_path
login_path_for_role company = login_path
login_path_for_role corper = login_path

unfoldable pub profile_path_for_role : UserRole → Text
profile_path_for_role company = codes "/company/verification"
profile_path_for_role corper = codes "/corper/profile"
profile_path_for_role admin = codes "/admin/overview"

-- The parts of `value.split("?", 2)`: what stands before the first mark, and behind it.
unfoldable pub before : ℕ → Text → Text
before c [] = []
before c (a ∷ s) = if a == c then [] else a ∷ before c s

unfoldable pub after : ℕ → Text → Option Text
after c [] = none
after c (a ∷ s) = if a == c then some s else after c s

abbrev pub mark : ℕ
mark = b'?'

abbrev pub slash : ℕ
slash = b'/'

-- `search ? `${path}?${search}` : path`
abbrev pub with_search : Text → Text → Text
with_search path [] = path
with_search path (c ∷ search) = path ++ mark ∷ c ∷ search

-- `text || "/"`
abbrev pub or_root : Text → Text
or_root [] = codes "/"
or_root (c ∷ s) = c ∷ s

-- `pathname.endsWith("/") ? pathname.replace(/\/+$/, "") || "/" : pathname`
unfoldable pub strip_slashes : Text → Text
unfolding drop_end
strip_slashes pathname =
    if ends_with slash pathname then or_root (drop_end (λ c. c == slash) pathname) else pathname

unfoldable pub canonical_pathname : Text → Text
unfolding strip_slashes
canonical_pathname pathname =
    if is_nil pathname || text_eq pathname (codes "/") then codes "/" else strip_slashes pathname

-- The second piece of the split: it ends at a second mark, and what follows that is dropped.
abbrev pub second_piece : Option Text → Text
second_piece none = []
second_piece (some rest) = before mark rest

unfoldable pub search_of : Text → Text
unfolding after before
search_of value = second_piece (after mark value)

unfoldable pub normalize_app_path : Option Text → Text
unfolding trim before search_of canonical_pathname
normalize_app_path path =
    let value = trim (or_default path []) in
    if is_nil value
    then []
    else with_search (canonical_pathname (before mark value)) (search_of value)

-- `path === a || path === b || …`
abbrev pub one_of : List String → Text → Bool
one_of [] path = false
one_of (a ∷ rest) path = text_eq path (codes a) || one_of rest path

-- The paths that a profile may point to; any other is replaced by the first.
abbrev pub profile_paths : UserRole → List String
profile_paths company = "/company/verification" ∷ "/company/profile" ∷ "/company/profile/terms" ∷ []
profile_paths corper = "/corper/profile" ∷ "/corper/profile/terms" ∷ "/corper/verification" ∷ []
profile_paths admin = "/admin/overview" ∷ []

-- The three branches of the source, one for each role.
abbrev company_profile_path : Text → Text
company_profile_path path =
    if text_eq path (codes "/business/profile")
    then codes "/company/verification"
    else if is_nil path
    then codes "/company/verification"
    else if one_of (profile_paths company) path
    then path
    else codes "/company/verification"

abbrev corper_profile_path : Text → Text
corper_profile_path path =
    if is_nil path
    then codes "/corper/profile"
    else if one_of (profile_paths corper) path
    then path
    else codes "/corper/profile"

abbrev admin_profile_path : Text → Text
admin_profile_path path =
    let canonical_path = profile_path_for_role admin in
    if is_nil path
    then canonical_path
    else if text_eq path canonical_path
    then path
    else canonical_path

unfoldable pub role_profile_path : UserRole → Text → Text
unfolding profile_path_for_role
role_profile_path company path = company_profile_path path
role_profile_path corper path = corper_profile_path path
role_profile_path admin path = admin_profile_path path

unfoldable pub normalize_profile_path : UserRole → Option Text → Text
unfolding normalize_app_path role_profile_path
normalize_profile_path role path = role_profile_path role (normalize_app_path path)

unfoldable pub is_discovery_route_for_role : UserRole → Option Text → Bool
is_discovery_route_for_role company path =
    text_eq (normalize_app_path path) (codes "/company/corpers")
is_discovery_route_for_role corper path =
    text_eq (normalize_app_path path) (codes "/corper/companies")
is_discovery_route_for_role admin path = false

unfoldable pub is_billing_route_for_role : UserRole → Option Text → Bool
is_billing_route_for_role corper path = text_eq (normalize_app_path path) (codes "/corper/billing")
is_billing_route_for_role company path = false
is_billing_route_for_role admin path = false

-- `user.profile_path ? … : null`: the empty text counts as missing.
abbrev pub truthy_text : Option Text → Option Text
truthy_text none = none
truthy_text (some []) = none
truthy_text (some (c ∷ s)) = some (c ∷ s)

-- `flag === false`, and `flag` as a condition.
abbrev pub is_false : Option Bool → Bool
is_false (some false) = true
is_false _ = false

abbrev pub is_true : Option Bool → Bool
is_true (some true) = true
is_true _ = false

-- `status === text`
-- A value that is missing counts as null.
abbrev pub known : Option (Option String) → Option String
known value = or_default value none

abbrev pub is_status : Option String → String → Bool
is_status none t = false
is_status (some s) t = str_eq s t

abbrev corper_target : SessionUser → Option Text → Text
corper_target user none = codes "/corper/verification"
corper_target user (some path) =
    if text_eq path (codes "/corper/verification")
    then codes "/corper/verification"
    else if is_false user.profile_completed
    then path
    else if is_true user.needs_subscription_selection
    then codes "/corper/billing"
    else codes "/corper/companies"

abbrev company_pending_target : Option Text → Text
company_pending_target none = codes "/company/profile"
company_pending_target (some path) =
    if text_eq path (codes "/company/verification") then codes "/company/profile" else path

abbrev company_target : SessionUser → Option Text → Text
company_target user path =
    if is_status (known user.company_verification_status) "verified"
    then if is_false user.profile_completed
      then company_pending_target path
      else codes "/company/corpers"
    else codes "/company/verification"

-- `normalizedProfilePath` of the source: null where the user has no profile path.
abbrev pub profile_path_of : UserRole → Option Text → Option Text
profile_path_of role none = none
profile_path_of role (some path) = some (normalize_profile_path role (some path))

unfoldable pub default_for_role : UserRole → SessionUser → Text
unfolding dashboard_path_for_role
default_for_role corper user =
    corper_target user (profile_path_of corper (truthy_text user.profile_path))
default_for_role company user =
    company_target user (profile_path_of company (truthy_text user.profile_path))
default_for_role admin user =
    if is_false user.profile_completed
    then normalize_profile_path admin user.profile_path
    else dashboard_path_for_role admin

unfoldable pub default_app_path_for_user : SessionUser → Text
unfolding default_for_role
default_app_path_for_user user = default_for_role user.role user
