-- ===== src/Dropdown/Values.antt =====
-- The values that a dropdown may have selected.
use corpershub_application.Base.{
  any-filter, [], none, some, refl, arith, inl, inr, Option, List, Bool, Text, ◌≡◌, ◌∷◌, ◌∙◌, ap,
  true, false, not, ◌&&◌, all, filter, map, trim, trim_idem, is_nil, text_eq, text_eq_iff,
  text_eq_refl, Bool-cases, any-filter-not, filter-not_of_none, filter_of_all, any-filter,
}
use corpershub_application.Dropdown.{
  contains, without, unique, tidy, has_exclusive, normalize_values,
}

-- Trimmed and not empty.
abbrev pub is_option : Text → Bool
is_option value = text_eq (trim value) value && not (is_nil value)

abbrev pub is_distinct : List Text → Bool
is_distinct [] = true
is_distinct (value ∷ values) = not (contains value values) && is_distinct values

abbrev pub is_alone : Option Text → List Text → Bool
is_alone exclusive [] = true
is_alone exclusive (value ∷ []) = true
is_alone exclusive values = not (has_exclusive exclusive values)

-- The selected values are trimmed and not empty, none stands there twice, and the exclusive one
-- stands alone.
abbrev pub IsSelection : Option Text → List Text → Type 0
IsSelection exclusive values =
    (all is_option values ≡ true) × (is_distinct values ≡ true) × (is_alone exclusive values ≡ true)

pub same_test : (v x y : Text) → text_eq v y ≡ true → text_eq x v ≡ text_eq x y
same_test v x y h = let (there, _) = text_eq_iff v y in ap (text_eq x) (there h)

pub contains-without :
    (v x : Text) (xs : List Text) → contains v (without x xs) ≡ (contains v xs && not (text_eq x v))
contains-without v x [] = refl
contains-without v x (y ∷ xs) = ground (arith, contains-without v x xs, same_test v x y)

pub all-filter_of :
    (p q : Text → Bool) (xs : List Text) → all p xs ≡ true → all p (filter q xs) ≡ true
all-filter_of p q [] h = refl
all-filter_of p q (x ∷ xs) h = ground (arith, all-filter_of p q xs)

pub is_distinct-filter :
    (p : Text → Bool) (xs : List Text) → is_distinct xs ≡ true → is_distinct (filter p xs) ≡ true
is_distinct-filter p [] h = refl
is_distinct-filter p (x ∷ xs) h =
    ground (arith, is_distinct-filter p xs, any-filter (text_eq x) p xs)

pub is_distinct-unique : (xs : List Text) → is_distinct (unique xs) ≡ true
unfolding unique
is_distinct-unique [] = refl
is_distinct-unique (x ∷ xs) =
    rw
      (
        any-filter-not (text_eq x) (unique xs),
        is_distinct-filter (λ y. not (text_eq x y)) (unique xs) (is_distinct-unique xs),
      )
      refl

pub unique_of_distinct : (xs : List Text) → is_distinct xs ≡ true → unique xs ≡ xs
unfolding unique
unique_of_distinct [] h = refl
unique_of_distinct (x ∷ xs) h =
    rw (unique_of_distinct xs (ground arith), filter-not_of_none (text_eq x) xs (ground arith)) refl

pub all-unique : (p : Text → Bool) (xs : List Text) → all p xs ≡ true → all p (unique xs) ≡ true
unfolding unique
all-unique p [] h = refl
all-unique p (x ∷ xs) h =
    ground (arith, all-filter_of p (λ y. not (text_eq x y)) (unique xs), all-unique p xs)

pub trimmed :
    (xs : List Text) → all is_option (filter (λ value. not (is_nil value)) (map trim xs)) ≡ true
trimmed [] = refl
trimmed (x ∷ xs) = elim (Bool-cases (is_nil (trim x))) [
  | inl e ↦ rw e (trimmed xs)
  | inr e ↦ rw (e, trim_idem x, text_eq_refl (trim x), e) (trimmed xs)
]

pub tidy_options : (xs : List Text) → all is_option (tidy xs) ≡ true
unfolding tidy
tidy_options xs = all-unique is_option _ (trimmed xs)

pub map-trim : (xs : List Text) → all is_option xs ≡ true → map trim xs ≡ xs
map-trim [] h = refl
map-trim (x ∷ xs) h =
    let (there, _) = text_eq_iff (trim x) x in
    rw (there (ground arith), map-trim xs (ground arith)) refl

pub not_empty :
    (xs : List Text) → all is_option xs ≡ true → all (λ value. not (is_nil value)) xs ≡ true
not_empty [] h = refl
not_empty (x ∷ xs) h = ground (arith, not_empty xs)

pub tidy_of_options :
    (xs : List Text) → all is_option xs ≡ true → is_distinct xs ≡ true → tidy xs ≡ xs
unfolding tidy
tidy_of_options xs h d =
    rw (map-trim xs h, filter_of_all (λ value. not (is_nil value)) xs (not_empty xs h))
      (unique_of_distinct xs d)

pub option_present : (value : Text) → is_option value ≡ true → is_nil value ≡ false
option_present value h = ground arith

pub normalize_values_of_selection :
    (exclusive : Option Text) (values : List Text)
    → IsSelection exclusive values
    → has_exclusive exclusive values ≡ false
    → normalize_values exclusive values ≡ values
unfolding normalize_values
normalize_values_of_selection none values (options, distinct, _) h =
    tidy_of_options values options distinct
normalize_values_of_selection (some exclusive) values (options, distinct, _) h =
    rw (tidy_of_options values options distinct, h) refl

pub alone_of_none :
    (exclusive : Option Text) (values : List Text)
    → has_exclusive exclusive values ≡ false
    → is_alone exclusive values ≡ true
alone_of_none exclusive [] h = refl
alone_of_none exclusive (x ∷ []) h = refl
alone_of_none exclusive (x ∷ y ∷ values) h = rw h refl

pub tidy-IsSelection :
    (exclusive : Option Text) (values : List Text)
    → has_exclusive exclusive (tidy values) ≡ false
    → IsSelection exclusive (tidy values)
unfolding tidy
tidy-IsSelection exclusive values h =
    (tidy_options values, is_distinct-unique _, alone_of_none exclusive (tidy values) h)

pub contains_option :
    (v : Text) (xs : List Text)
    → all is_option xs ≡ true
    → contains v xs ≡ true
    → is_option v ≡ true
contains_option v [] h k = cc
contains_option v (x ∷ xs) h k = elim (Bool-cases (text_eq v x)) [
  | inl e ↦ let (there, _) = text_eq_iff v x in ap is_option (there e) ∙ ground arith
  | inr e ↦ contains_option v xs (ground arith) (ground arith)
]

-- Whatever is given, the selected values are trimmed and not empty, none stands there twice, and the
-- exclusive one stands alone.
pub normalize_values-IsSelection :
    (exclusive : Option Text) (values : List Text)
    → IsSelection exclusive (normalize_values exclusive values)
unfolding normalize_values
normalize_values-IsSelection none values = tidy-IsSelection none values refl
normalize_values-IsSelection (some exclusive) values =
    elim (Bool-cases (has_exclusive (some exclusive) (tidy values))) [
      | inl e ↦
          let option =
            contains_option exclusive (tidy values) (tidy_options values) (ground arith) in
          rw e (ground arith, refl, refl)
      | inr e ↦ rw e (tidy-IsSelection (some exclusive) values e)
    ]

pub text_eq_sym : (x y : Text) → text_eq x y ≡ text_eq y x
text_eq_sym [] [] = refl
text_eq_sym [] (b ∷ y) = refl
text_eq_sym (a ∷ x) [] = refl
text_eq_sym (a ∷ x) (b ∷ y) = ground (arith, text_eq_sym x y)

pub alone_exclusive :
    (e x : Text)
    → all is_option (x ∷ []) ≡ true
    → is_nil e ≡ false
    → text_eq e x ≡ true
    → normalize_values (some e) (x ∷ []) ≡ x ∷ []
unfolding normalize_values
alone_exclusive e x a b c =
    let (there, _) = text_eq_iff e x in rw (tidy_of_options (x ∷ []) a refl, b, c, there c) refl

-- Selected values are normalised already.
pub normalized_selection :
    (exclusive : Option Text) (values : List Text)
    → IsSelection exclusive values
    → normalize_values exclusive values ≡ values
normalized_selection exclusive values (options, distinct, alone) =
    elim (Bool-cases (has_exclusive exclusive values)) [
      | inl e ↦ only exclusive values options alone e
      | inr e ↦ normalize_values_of_selection exclusive values (options, distinct, alone) e
    ]
  where
    only :
        (exclusive : Option Text) (values : List Text)
        → all is_option values ≡ true
        → is_alone exclusive values ≡ true
        → has_exclusive exclusive values ≡ true
        → normalize_values exclusive values ≡ values
    only none values a b c = cc
    only (some e) [] a b c = ground arith
    only (some e) (x ∷ []) a b c = alone_exclusive e x a (ground arith) (ground arith)
    only (some e) (x ∷ y ∷ values) a b c = ground arith

-- Normalising the selected values again changes nothing.
pub normalize_values_idem :
    (exclusive : Option Text) (values : List Text)
    → normalize_values exclusive (normalize_values exclusive values)
      ≡ normalize_values exclusive values
normalize_values_idem exclusive values =
    normalized_selection exclusive _ (normalize_values-IsSelection exclusive values)
