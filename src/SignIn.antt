-- ===== src/SignIn.antt =====
-- web/src/components/forms/login-page-content.tsx: where a visitor goes after signing in. The page
-- to come back to is taken from the URL, so it may be any text.
pub mod Target
mod Tests
use corpershub_application.Base.{
  arith, Text, Option, Bool, if◌then◌else◌, codes, some, not, starts_with, ◌||◌, false,
}
use corpershub_application.Session.{
  UserRole, company, corper, admin, SessionUser, normalize_app_path, default_app_path_for_user,
}

-- The three tests at the end of `isAllowedNextPath`.
abbrev pub role_prefix : UserRole → Text
role_prefix admin = codes "/admin"
role_prefix company = codes "/company"
role_prefix corper = codes "/corper"

unfoldable pub is_allowed_next_path : Text → UserRole → Bool
is_allowed_next_path path role =
    let normalized_path = normalize_app_path (some path) in
    if not (starts_with normalized_path (codes "/"))
      || starts_with normalized_path (codes "//")
      || starts_with normalized_path (codes "/login")
      || starts_with normalized_path (codes "/admin/login")
    then false
    else starts_with normalized_path (role_prefix role)

-- `router.push` of `handleSubmit`: `next` is the parameter of the URL, which the page normalises once
-- when it is loaded.
unfoldable pub sign_in_target : Option Text → SessionUser → Text
sign_in_target next user =
    let next_path = normalize_app_path next in
    if is_allowed_next_path next_path user.role
    then normalize_app_path (some next_path)
    else default_app_path_for_user user
