-- ===== src/Session/Tests.antt =====
-- Runs of the path functions, and the theorems at concrete inputs.
use corpershub_application.Base.{
  refl, true, none, some, is_space, codes, trim, ◌≡◌, [], ◌⊎◌, Text, all,
}
use corpershub_application.Session.{
  normalize_app_path, corper, is_discovery_route_for_role, default_app_path_for_user,
  normalize_profile_path, before, search_of, canonical_pathname, with_search,
}
use corpershub_application.Fixtures.{ada, acme}
use corpershub_application.Session.Paths.{normalize_app_path_shape, IsCanonical, not_mark}
use corpershub_application.Session.Discovery.{default_app_path_for_user_discovery, may_browse}

path_code : Unit {0}
unfolding normalize_app_path trim is_space before search_of canonical_pathname
    default_app_path_for_user normalize_profile_path is_discovery_route_for_role
path_code = tt

paths :
    (normalize_app_path (some (codes " /company/corpers//?tab=1?x "))
      ≡ codes "/company/corpers?tab=1")
    × (normalize_app_path (some (codes "///")) ≡ codes "/")
    × (normalize_app_path (some (codes "?q")) ≡ codes "/?q")
    × (normalize_app_path none ≡ [])
unfolding path_code
paths = (refl, refl, refl, refl)

targets :
    (default_app_path_for_user ada ≡ codes "/corper/companies")
    × (default_app_path_for_user acme ≡ codes "/company/profile")
unfolding path_code
targets = (refl, refl)

-- With whitespace before the last slash a second run changes the path again.
not_idempotent :
    (normalize_app_path (some (codes "/a /")) ≡ codes "/a ")
    × (normalize_app_path (some (codes "/a ")) ≡ codes "/a")
unfolding path_code
not_idempotent = (refl, refl)

normalize_app_path_shape_example :
    (normalize_app_path (some (codes "/a//?x")) ≡ [])
    ⊎ ((pathname : Text) × (search : Text) × (normalize_app_path (some (codes "/a//?x"))
          ≡ with_search pathname search)
        × IsCanonical pathname
        × (all not_mark pathname ≡ true)
        × (all not_mark search ≡ true))
normalize_app_path_shape_example = normalize_app_path_shape (some (codes "/a//?x"))

default_app_path_for_user_discovery_example :
    is_discovery_route_for_role corper (some (default_app_path_for_user ada))
    ≡ may_browse corper ada
default_app_path_for_user_discovery_example = default_app_path_for_user_discovery ada
