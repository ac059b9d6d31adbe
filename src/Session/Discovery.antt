-- ===== src/Session/Discovery.antt =====
-- Which users are sent to the discovery page at once.
use corpershub_application.Base.{
  ◌≡◌, refl, Bool, true, false, Option, none, some, Text, codes, text_eq, arith, trim, inl, inr,
  Bool-cases, Option-cases, ◌&&◌, not,
}
use corpershub_application.Session.{
  UserRole, company, corper, admin, SessionUser, normalize_app_path, profile_paths, one_of,
  default_app_path_for_user, default_for_role, is_discovery_route_for_role, profile_path_of,
  is_false, is_true, is_status, known, truthy_text, corper_target, company_pending_target,
  company_target, dashboard_path_for_role, before, search_of, canonical_pathname,
}
use corpershub_application.Session.Routes.{
  Listed-each, one_of→Listed, normalize_profile_path_listed,
}

-- When a user is sent to the discovery page at once, read off the fields of the user.
abbrev pub corper_may_browse : SessionUser → Option Text → Bool
corper_may_browse user none = false
corper_may_browse user (some path) =
    not (text_eq path (codes "/corper/verification"))
    && not (is_false user.profile_completed)
    && not (is_true user.needs_subscription_selection)

abbrev pub may_browse : UserRole → SessionUser → Bool
may_browse corper user =
    corper_may_browse user (profile_path_of corper (truthy_text user.profile_path))
may_browse company user =
    is_status (known user.company_verification_status) "verified"
    && not (is_false user.profile_completed)
may_browse admin user = false

profile_not_discovery :
    (role : UserRole) (path : Text)
    → one_of (profile_paths role) path ≡ true
    → is_discovery_route_for_role role (some path) ≡ false
unfolding is_discovery_route_for_role normalize_app_path trim before search_of canonical_pathname
profile_not_discovery corper path h =
    Listed-each (λ p. is_discovery_route_for_role corper (some p) ≡ false) (profile_paths corper)
      path (refl, (refl, (refl, tt))) (one_of→Listed (profile_paths corper) path h)
profile_not_discovery company path h =
    Listed-each (λ p. is_discovery_route_for_role company (some p) ≡ false) (profile_paths company)
      path (refl, (refl, (refl, tt))) (one_of→Listed (profile_paths company) path h)
profile_not_discovery admin path h = refl

on_discovery :
    (is_discovery_route_for_role corper (some (codes "/corper/companies")) ≡ true)
    × (is_discovery_route_for_role corper (some (codes "/corper/billing")) ≡ false)
    × (is_discovery_route_for_role company (some (codes "/company/corpers")) ≡ true)
unfolding is_discovery_route_for_role normalize_app_path trim before search_of canonical_pathname
on_discovery = (refl, refl, refl)

module _ (user : SessionUser) where
  corper_target_discovery :
      (path : Text)
      → one_of (profile_paths corper) path ≡ true
      → is_discovery_route_for_role corper (some (corper_target user (some path)))
        ≡ corper_may_browse user (some path)
  corper_target_discovery path h = elim (Bool-cases (text_eq path (codes "/corper/verification"))) [
    | inl e ↦ rw e (profile_not_discovery corper (codes "/corper/verification") refl)
    | inr e ↦ elim (Bool-cases (is_false user.profile_completed)) [
      | inl f ↦ rw (e, f) (profile_not_discovery corper path h)
      | inr f ↦ elim (Bool-cases (is_true user.needs_subscription_selection)) [
        | inl g ↦ rw (e, f, g) on_discovery.1
        | inr g ↦ rw (e, f, g) on_discovery.0
      ]
    ]
  ]

  company_pending_discovery :
      (path : Option Text)
      → ((p : Text) → path ≡ some p → one_of (profile_paths company) p ≡ true)
      → is_discovery_route_for_role company (some (company_pending_target path)) ≡ false
  company_pending_discovery none h = profile_not_discovery company (codes "/company/profile") refl
  company_pending_discovery (some p) h =
      elim (Bool-cases (text_eq p (codes "/company/verification"))) [
        | inl e ↦ rw e (profile_not_discovery company (codes "/company/profile") refl)
        | inr e ↦ rw e (profile_not_discovery company p (h p refl))
      ]

  company_target_discovery :
      (path : Option Text)
      → ((p : Text) → path ≡ some p → one_of (profile_paths company) p ≡ true)
      → is_discovery_route_for_role company (some (company_target user path))
        ≡ may_browse company user
  company_target_discovery path h =
      elim (Bool-cases (is_status (known user.company_verification_status) "verified")) [
        | inl e ↦ elim (Bool-cases (is_false user.profile_completed)) [
          | inl f ↦ rw (e, f) (company_pending_discovery path h)
          | inr f ↦ rw (e, f) (unfold dashboard_path_for_role in on_discovery.2)
        ]
        | inr e ↦ rw e (profile_not_discovery company (codes "/company/verification") refl)
      ]

profile_path_of-listed :
    (role : UserRole) (path : Option Text) (p : Text)
    → profile_path_of role path ≡ some p
    → one_of (profile_paths role) p ≡ true
profile_path_of-listed role none p h = cc
profile_path_of-listed role (some q) p h =
    ground (arith, normalize_profile_path_listed role (some q))

discovery_of_default :
    (role : UserRole) (user : SessionUser)
    → is_discovery_route_for_role role (some (default_for_role role user)) ≡ may_browse role user
unfolding default_for_role
discovery_of_default corper user =
    elim (Option-cases (profile_path_of corper (truthy_text user.profile_path))) [
      | inl e ↦ rw e (profile_not_discovery corper (codes "/corper/verification") refl)
      | inr (p, e) ↦ rw e (
          corper_target_discovery user p
            (profile_path_of-listed corper (truthy_text user.profile_path) p e))
    ]
discovery_of_default company user =
    company_target_discovery user (profile_path_of company (truthy_text user.profile_path))
      (profile_path_of-listed company (truthy_text user.profile_path))
discovery_of_default admin user = unfold is_discovery_route_for_role in refl

-- A user lands on the discovery page of the own role exactly if: a corper has a profile path that
-- is not the verification page, no unfinished profile and no plan to choose; a company is verified
-- and has no unfinished profile. An admin never does.
pub default_app_path_for_user_discovery :
    (user : SessionUser)
    → is_discovery_route_for_role user.role (some (default_app_path_for_user user))
      ≡ may_browse user.role user
unfolding default_app_path_for_user
default_app_path_for_user_discovery user = discovery_of_default user.role user
