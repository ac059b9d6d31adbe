-- ===== src/SignIn/Tests.antt =====
-- Runs of the sign-in target, and the theorem at a concrete input.
use corpershub_application.Base.{refl, true, some, is_space, trim, codes, ◌≡◌}
use corpershub_application.Session.{
  normalize_app_path, corper, before, search_of, canonical_pathname, default_app_path_for_user,
  normalize_profile_path,
}
use corpershub_application.Fixtures.{ada}
use corpershub_application.SignIn.{sign_in_target, is_allowed_next_path}
use corpershub_application.SignIn.Target.{is_own_page, sign_in_target_own_page}

sign_in_code : Unit {0}
unfolding normalize_app_path trim is_space before search_of canonical_pathname
    default_app_path_for_user normalize_profile_path sign_in_target is_allowed_next_path
sign_in_code = tt

next_pages :
    (sign_in_target (some (codes "/corper/chat/?conversationId=7")) ada
      ≡ codes "/corper/chat?conversationId=7")
    × (sign_in_target (some (codes "//evil.example/corper")) ada ≡ codes "/corper/companies")
    × (sign_in_target (some (codes "/admin/overview")) ada ≡ codes "/corper/companies")
unfolding sign_in_code
next_pages = (refl, refl, refl)

sign_in_target_own_page_example :
    is_own_page corper (sign_in_target (some (codes "//evil.example/corper")) ada) ≡ true
sign_in_target_own_page_example = sign_in_target_own_page (some (codes "//evil.example/corper")) ada
