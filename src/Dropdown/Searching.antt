-- ===== src/Dropdown/Searching.antt =====
-- Which options a query leaves.
use corpershub_application.Base.{
  [], refl, arith, List, Bool, Text, ◌≡◌, ◌∷◌, true, false, not, ◌&&◌, any, all, filter, map,
  is_nil, all-filter,
}
use corpershub_application.Verification.{Lowering}
use corpershub_application.Dropdown.{Group, visible_groups, normalized_query, has_match, narrowed}

module _ {ℓ} {A : Type ℓ} where
  any-narrow : (p q : A → Bool) (xs : List A) → any q (filter p xs) ≡ any (λ x. p x && q x) xs
  any-narrow p q [] = refl
  any-narrow p q (x ∷ xs) = ground (arith, any-narrow p q xs)

  any_of_nil : (q : A → Bool) (xs : List A) → is_nil xs ≡ true → any q xs ≡ false
  any_of_nil q [] h = refl
  any_of_nil q (x ∷ xs) h = cc

-- Some option of some group passes the test.
abbrev pub any_option {ℓ} : {A : Type ℓ} → (A → Bool) → List (Group A) → Bool
any_option q groups = any (λ group. any q group.options) groups

module _ {ℓ} {A : Type ℓ} (lowering : Lowering) (label_of : A → Text) where
  any-shown :
      (sought : Text) (q : A → Bool) (groups : List (Group A))
      → any_option q (
          filter
            (λ group. not (is_nil group.options))
            (map (narrowed lowering label_of sought) groups))
        ≡ any_option (λ option. has_match lowering label_of sought option && q option) groups
  any-shown sought q [] = refl
  any-shown sought q (group ∷ groups) = ground (
    arith,
    any-shown sought q groups,
    any-narrow (has_match lowering label_of sought) q group.options,
    any_of_nil q (filter (has_match lowering label_of sought) group.options),
  )

  -- With a query that is not blank the options that are shown are exactly those whose label has it,
  -- letters small, and no group is shown empty: an option with any given property is shown if and
  -- only if one with that property and such a label is there.
  pub visible_groups_match :
      (query : Text) (q : A → Bool) (groups : List (Group A))
      → is_nil (normalized_query lowering label_of query) ≡ false
      → (any_option q (visible_groups lowering label_of query groups)
          ≡ any_option
              (λ option.
                has_match lowering label_of (normalized_query lowering label_of query) option
                && q option)
              groups)
        × (all (λ group. not (is_nil group.options)) (visible_groups lowering label_of query groups)
            ≡ true)
  unfolding visible_groups
  visible_groups_match query q groups h = rw h (
    any-shown (normalized_query lowering label_of query) q groups,
    all-filter (λ (group : Group A). not (is_nil group.options))
        (map (narrowed lowering label_of (normalized_query lowering label_of query)) groups),
  )
