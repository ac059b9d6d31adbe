-- ===== src/Dropdown/Selecting.antt =====
-- What a click on an option selects.
use corpershub_application.Base.{
  any-filter, [], none, some, refl, arith, inl, inr, Option, List, Text, ◌≡◌, ◌∷◌, ◌++◌, ◌∙◌, sym,
  ap, true, false, not, all, is_nil, text_eq, text_eq_iff, text_eq_refl, Bool-cases, any-append,
  all-append, if◌then◌else◌, any-filter,
}
use corpershub_application.Dropdown.{
  contains, unique, toggle_selection, tidy, has_exclusive, normalize_values, is_exclusive,
  is_option_disabled, pick,
}
use corpershub_application.Dropdown.Values.{
  is_option, is_distinct, is_alone, IsSelection, contains-without, all-filter_of,
  is_distinct-filter, tidy_of_options, option_present, alone_of_none, text_eq_sym,
  normalized_selection,
}

is_distinct-append :
    (option : Text) (values : List Text)
    → is_distinct values ≡ true
    → contains option values ≡ false
    → is_distinct (values ++ option ∷ []) ≡ true
is_distinct-append option [] d h = refl
is_distinct-append option (x ∷ values) d h = ground (
  arith,
  is_distinct-append option values,
  any-append (text_eq x) values (option ∷ []),
  text_eq_sym x option,
)

has_exclusive-toggle :
    (exclusive : Option Text) (values : List Text) (option : Text)
    → is_exclusive exclusive option ≡ false
    → has_exclusive exclusive values ≡ false
    → has_exclusive exclusive (toggle_selection values option) ≡ false
unfolding toggle_selection
has_exclusive-toggle none values option h k = refl
has_exclusive-toggle (some e) values option h k = ground (
  arith,
  any-append (text_eq e) values (option ∷ []),
  any-filter (text_eq e) (λ other. not (text_eq option other)) values,
)

toggle_selection-IsSelection :
    (exclusive : Option Text) (values : List Text) (option : Text)
    → IsSelection exclusive values
    → is_option option ≡ true
    → is_exclusive exclusive option ≡ false
    → has_exclusive exclusive values ≡ false
    → IsSelection exclusive (toggle_selection values option)
unfolding toggle_selection
toggle_selection-IsSelection exclusive values option (options, distinct, alone) known h k =
    let apart = has_exclusive-toggle exclusive values option h k in
    elim (Bool-cases (contains option values)) [
      | inl e ↦ rw e (
        all-filter_of is_option _ values options,
        is_distinct-filter _ values distinct,
        alone_of_none exclusive _ (rw e at apart),
      )
      | inr e ↦ rw e (
        all-append is_option values (option ∷ []) ∙ ground arith,
        is_distinct-append option values distinct e,
        alone_of_none exclusive _ (rw e at apart),
      )
    ]

contains-toggle :
    (values : List Text) (option v : Text)
    → contains v (toggle_selection values option)
      ≡ (if text_eq option v then not (contains option values) else contains v values)
unfolding toggle_selection
contains-toggle values option v =
    let (there, _) = text_eq_iff option v in
    let same : text_eq option v ≡ true → contains v values ≡ contains option values =
      λ e. ap (λ w. contains w values) (sym (there e)) in
    ground (
      arith,
      any-append (text_eq v) values (option ∷ []),
      contains-without v option values,
      text_eq_sym v option,
      same,
    )

-- A click on an option that is enabled and is not the exclusive one selects it, if it was not, and
-- takes it away, if it was; every other value stays as it was. The values are in order before, and
-- the option is trimmed and not empty.
pub pick_changes :
    (exclusive : Option Text) (selected : List Text) (option v : Text)
    → IsSelection exclusive selected
    → is_option option ≡ true
    → is_exclusive exclusive option ≡ false
    → is_option_disabled false exclusive selected option ≡ false
    → contains v (pick exclusive selected option)
      ≡ (if text_eq option v then not (contains option selected) else contains v selected)
unfolding pick is_option_disabled
pick_changes exclusive selected option v valid known h enabled =
    let apart : has_exclusive exclusive selected ≡ false = ground arith in
    rw
      (normalized_selection exclusive (toggle_selection selected option)
        (toggle_selection-IsSelection exclusive selected option valid known h apart))
      (contains-toggle selected option v)

crowded :
    (exclusive : Text) (values : List Text)
    → is_nil exclusive ≡ false
    → contains exclusive values ≡ true
    → not (has_exclusive (some exclusive) values) ≡ true
    → ⊥
crowded exclusive values a b c = ground arith

cleared : (exclusive : Text) → normalize_values (some exclusive) [] ≡ []
unfolding normalize_values tidy unique
cleared exclusive = ground arith

taken :
    (exclusive : Text) (values : List Text)
    → is_option exclusive ≡ true
    → is_alone (some exclusive) values ≡ true
    → contains exclusive values ≡ true
    → toggle_selection values exclusive ≡ []
unfolding toggle_selection
taken exclusive [] k a b = cc
taken exclusive (x ∷ []) k a b = ground arith
taken exclusive (x ∷ y ∷ values) k a b =
    absurd (crowded exclusive (x ∷ y ∷ values) (option_present exclusive k) b a)

added :
    (exclusive : Text) (selected : List Text)
    → all is_option selected ≡ true
    → is_distinct selected ≡ true
    → is_option exclusive ≡ true
    → contains exclusive selected ≡ false
    → normalize_values (some exclusive) (toggle_selection selected exclusive) ≡ exclusive ∷ []
unfolding toggle_selection normalize_values
added exclusive selected options distinct known e =
    let kept =
      tidy_of_options (selected ++ exclusive ∷ [])
        (all-append is_option selected (exclusive ∷ []) ∙ ground arith)
        (is_distinct-append exclusive selected distinct e) in
    let there : has_exclusive (some exclusive) (selected ++ exclusive ∷ []) ≡ true = ground (
      arith,
      any-append (text_eq exclusive) selected (exclusive ∷ []),
      text_eq_refl exclusive,
      option_present exclusive known,
    ) in
    rw (e, kept, there) refl

-- A click on the exclusive option leaves it as the only value, or none if it was selected.
pub pick_exclusive :
    (exclusive : Text) (selected : List Text)
    → IsSelection (some exclusive) selected
    → is_option exclusive ≡ true
    → pick (some exclusive) selected exclusive
      ≡ (if contains exclusive selected then [] else exclusive ∷ [])
unfolding pick
pick_exclusive exclusive selected (options, distinct, alone) known =
    elim (Bool-cases (contains exclusive selected)) [
      | inl e ↦ rw (e, taken exclusive selected known alone e) (cleared exclusive)
      | inr e ↦ rw e (added exclusive selected options distinct known e)
    ]
