-- ===== src/Session/Routes.antt =====
-- Where the code sends a user: every target lies in the area of the user's own role.
use corpershub_application.Base.{
  ◌≡◌, refl, true, Option, none, some, List, [], ◌∷◌, String, Text, codes, text_eq, text_eq_iff,
  arith, inl, inr, ◌⊎◌, sym, Bool-cases, Option-cases,
}
use corpershub_application.Session.{
  UserRole, company, corper, admin, SessionUser, normalize_app_path, role_profile_path,
  normalize_profile_path, profile_paths, one_of, default_app_path_for_user, default_for_role,
  is_false, is_true, is_status, known, truthy_text, corper_target, company_pending_target,
  company_target, dashboard_path_for_role,
}
use mathlib.Core.Path.{subst}

-- The part of the site that belongs to a role.
abbrev pub area : UserRole → Text
area company = codes "/company/"
area corper = codes "/corper/"
area admin = codes "/admin/"

-- A listed path is one of the literals.
abbrev pub Listed : List String → Text → Type 0
Listed [] path = ⊥
Listed (a ∷ rest) path = (path ≡ codes a) ⊎ Listed rest path

pub one_of→Listed :
    (paths : List String) (path : Text) → one_of paths path ≡ true → Listed paths path
one_of→Listed [] path h = cc
one_of→Listed (a ∷ rest) path h = elim (Bool-cases (text_eq path (codes a))) [
  | inl e ↦ inl ((text_eq_iff _ _).0 e)
  | inr e ↦ inr (one_of→Listed rest path (rw e at h))
]

-- What holds of each literal holds of a listed path.
abbrev pub Each : List String → (Text → Type 0) → Type 0
Each [] P = Unit
Each (a ∷ rest) P = P (codes a) × Each rest P

pub Listed-each :
    (P : Text → Type 0) (paths : List String) (path : Text)
    → Each paths P
    → Listed paths path
    → P path
Listed-each P [] path e l = elim l [ ]
Listed-each P (a ∷ rest) path (here, later) l = elim l [
  | inl p ↦ subst P (sym p) here
  | inr m ↦ Listed-each P rest path later m
]

role_profile_path-listed :
    (role : UserRole) (path : Text)
    → one_of (profile_paths role) (role_profile_path role path) ≡ true
unfolding role_profile_path
role_profile_path-listed company path = elim (Bool-cases (one_of (profile_paths company) path)) [
  | inl e ↦ ground arith
  | inr e ↦ ground arith
]
role_profile_path-listed corper path = ground arith
role_profile_path-listed admin path = ground arith

listed_fixed :
    (role : UserRole) (path : Text)
    → one_of (profile_paths role) path ≡ true
    → normalize_profile_path role (some path) ≡ path
unfolding normalize_profile_path
listed_fixed company path h =
    Listed-each (λ p. normalize_profile_path company (some p) ≡ p) (profile_paths company) path
      (refl, (refl, (refl, tt))) (one_of→Listed (profile_paths company) path h)
listed_fixed corper path h =
    Listed-each (λ p. normalize_profile_path corper (some p) ≡ p) (profile_paths corper) path
      (refl, (refl, (refl, tt))) (one_of→Listed (profile_paths corper) path h)
listed_fixed admin path h =
    Listed-each (λ p. normalize_profile_path admin (some p) ≡ p) (profile_paths admin) path
      (refl, tt) (one_of→Listed (profile_paths admin) path h)

-- Whatever the stored path, the profile path of a role is one of the paths listed for it.
pub normalize_profile_path_listed :
    (role : UserRole) (path : Option Text)
    → one_of (profile_paths role) (normalize_profile_path role path) ≡ true
unfolding normalize_profile_path
normalize_profile_path_listed role path = role_profile_path-listed role (normalize_app_path path)

-- Normalising a profile path a second time changes nothing, whatever the stored path.
pub normalize_profile_path_idem :
    (role : UserRole) (path : Option Text)
    → normalize_profile_path role (some (normalize_profile_path role path))
      ≡ normalize_profile_path role path
normalize_profile_path_idem role path =
    listed_fixed role (normalize_profile_path role path) (normalize_profile_path_listed role path)

-- The paths that a user may land on behind the sign-in page.
abbrev pub landing_paths : UserRole → List String
landing_paths company =
    "/company/corpers" ∷ "/company/verification" ∷ "/company/profile" ∷ "/company/profile/terms"
    ∷ []
landing_paths corper =
    "/corper/companies" ∷ "/corper/billing" ∷ "/corper/profile" ∷ "/corper/profile/terms"
    ∷ "/corper/verification" ∷ []
landing_paths admin = "/admin/overview" ∷ []

profile-landing :
    (role : UserRole) (path : Text)
    → one_of (profile_paths role) path ≡ true
    → one_of (landing_paths role) path ≡ true
profile-landing company path h = ground arith
profile-landing corper path h = ground arith
profile-landing admin path h = h

module _ (user : SessionUser) where
  corper_target-landing :
      (path : Text)
      → one_of (profile_paths corper) path ≡ true
      → one_of (landing_paths corper) (corper_target user (some path)) ≡ true
  corper_target-landing path h = elim (Bool-cases (text_eq path (codes "/corper/verification"))) [
    | inl e ↦ rw e refl
    | inr e ↦ elim (Bool-cases (is_false user.profile_completed)) [
      | inl f ↦ rw (e, f) (profile-landing corper path h)
      | inr f ↦ elim (Bool-cases (is_true user.needs_subscription_selection)) [
        | inl g ↦ rw (e, f, g) refl
        | inr g ↦ rw (e, f, g) refl
      ]
    ]
  ]

  company_target-landing :
      (path : Option Text)
      → one_of (landing_paths company) (company_pending_target path) ≡ true
      → one_of (landing_paths company) (company_target user path) ≡ true
  company_target-landing path h =
      elim (Bool-cases (is_status (known user.company_verification_status) "verified")) [
        | inl e ↦ elim (Bool-cases (is_false user.profile_completed)) [
          | inl f ↦ rw (e, f) h
          | inr f ↦ rw (e, f) (unfold dashboard_path_for_role in refl)
        ]
        | inr e ↦ rw e refl
      ]

company_pending-landing :
    (path : Text)
    → one_of (profile_paths company) path ≡ true
    → one_of (landing_paths company) (company_pending_target (some path)) ≡ true
company_pending-landing path h = elim (Bool-cases (text_eq path (codes "/company/verification"))) [
  | inl e ↦ rw e refl
  | inr e ↦ rw e (profile-landing company path h)
]

default_for_role-landing :
    (role : UserRole) (user : SessionUser)
    → one_of (landing_paths role) (default_for_role role user) ≡ true
unfolding default_for_role
default_for_role-landing corper user = elim (Option-cases (truthy_text user.profile_path)) [
  | inl e ↦ rw e refl
  | inr (p, e) ↦
      let path = normalize_profile_path corper (some p) in
      rw e (corper_target-landing user path (normalize_profile_path_listed corper (some p)))
]
default_for_role-landing company user = elim (Option-cases (truthy_text user.profile_path)) [
  | inl e ↦ rw e (company_target-landing user none refl)
  | inr (p, e) ↦
      let path = normalize_profile_path company (some p) in
      let known = normalize_profile_path_listed company (some p) in
      rw e (company_target-landing user (some path) (company_pending-landing path known))
]
default_for_role-landing admin user = elim (Bool-cases (is_false user.profile_completed)) [
  | inl e ↦ rw e (normalize_profile_path_listed admin user.profile_path)
  | inr e ↦ rw e refl
]

-- The landing page of every user is one of the pages listed for the user's role.
pub default_app_path_for_user_landing :
    (user : SessionUser) → one_of (landing_paths user.role) (default_app_path_for_user user) ≡ true
unfolding default_app_path_for_user
default_app_path_for_user_landing user = default_for_role-landing user.role user
