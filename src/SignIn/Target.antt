-- ===== src/SignIn/Target.antt =====
-- A page to come back to cannot lead out of the site or out of the role's own area.
use corpershub_application.Base.{
  arith, refl, Text, Bool, Option, ◌≡◌, starts_with, true, Bool-cases, some, inl, ◌&&◌, inr, not,
  codes,
}
use corpershub_application.Session.{
  UserRole, company, corper, admin, SessionUser, normalize_app_path, default_app_path_for_user,
  one_of,
}
use corpershub_application.Session.Routes.{
  Listed-each, one_of→Listed, landing_paths, default_app_path_for_user_landing,
}
use corpershub_application.SignIn.{is_allowed_next_path, sign_in_target, role_prefix}

-- A path of the role's own area, and no protocol-relative URL or sign-in page.
abbrev pub is_own_page : UserRole → Text → Bool
is_own_page role path =
    starts_with path (role_prefix role)
    && not (starts_with path (codes "//"))
    && not (starts_with path (codes "/login"))
    && not (starts_with path (codes "/admin/login"))

landing-own_page :
    (role : UserRole) (path : Text)
    → one_of (landing_paths role) path ≡ true
    → is_own_page role path ≡ true
landing-own_page company path h =
    Listed-each (λ p. is_own_page company p ≡ true) (landing_paths company) path
      (refl, (refl, (refl, (refl, tt)))) (one_of→Listed (landing_paths company) path h)
landing-own_page corper path h =
    Listed-each (λ p. is_own_page corper p ≡ true) (landing_paths corper) path
      (refl, (refl, (refl, (refl, (refl, tt))))) (one_of→Listed (landing_paths corper) path h)
landing-own_page admin path h =
    Listed-each (λ p. is_own_page admin p ≡ true) (landing_paths admin) path (refl, tt)
      (one_of→Listed (landing_paths admin) path h)

allowed-own_page :
    (path : Text) (role : UserRole)
    → is_allowed_next_path path role ≡ true
    → is_own_page role (normalize_app_path (some path)) ≡ true
unfolding is_allowed_next_path
allowed-own_page path role h = ground arith

-- Whatever page the URL names, the visitor goes to a page of the own role's area: the target begins
-- with the role's prefix, is not a protocol-relative URL and not a sign-in page.
pub sign_in_target_own_page :
    (next : Option Text) (user : SessionUser)
    → is_own_page user.role (sign_in_target next user) ≡ true
unfolding sign_in_target
sign_in_target_own_page next user =
    let next_path = normalize_app_path next in
    elim (Bool-cases (is_allowed_next_path next_path user.role)) [
      | inl e ↦ rw e (allowed-own_page next_path user.role e)
      | inr e ↦ rw e (
          landing-own_page user.role (default_app_path_for_user user)
            (default_app_path_for_user_landing user))
    ]
