-- ===== src/Dropdown.antt =====
-- web/src/components/ui/multi-select-dropdown.tsx and searchable-select-dropdown.tsx: the values that
-- are selected, the options that a query leaves, and the open panel.
pub mod Values
pub mod Selecting
pub mod Searching
mod Tests
use corpershub_application.Base.{
  ℕ, [], none, some, Option, List, Bool, Text, ◌∷◌, ◌++◌, ◌-◌, filter, any, map, trim, ◌&&◌, ◌||◌,
  not, is_nil, text_eq, if◌then◌else◌, true, false, length, leb, take, codes, includes, decimal,
}
use corpershub_application.Verification.{Lowering}

-- `values.includes(value)`
abbrev pub contains : Text → List Text → Bool
contains value values = any (text_eq value) values

abbrev pub without : Text → List Text → List Text
without value values = filter (λ other. not (text_eq value other)) values

-- `Array.from(new Set(values))`
unfoldable pub unique : List Text → List Text
unique [] = []
unique (value ∷ values) = value ∷ without value (unique values)

unfoldable pub toggle_selection : List Text → Text → List Text
toggle_selection values option =
    if contains option values then without option values else values ++ option ∷ []

-- Trimmed, without the empty ones, each once.
unfoldable pub tidy : List Text → List Text
tidy values = unique (filter (λ value. not (is_nil value)) (map trim values))

-- `Boolean(exclusiveOption && values.includes(exclusiveOption))`
abbrev pub has_exclusive : Option Text → List Text → Bool
has_exclusive none values = false
has_exclusive (some exclusive) values = not (is_nil exclusive) && contains exclusive values

abbrev only_exclusive : Option Text → List Text → List Text
only_exclusive none values = values
only_exclusive (some exclusive) values =
    if has_exclusive (some exclusive) values then exclusive ∷ [] else values

unfoldable pub normalize_values : Option Text → List Text → List Text
normalize_values exclusive values = only_exclusive exclusive (tidy values)

-- `option !== exclusiveOption`, negated.
abbrev pub is_exclusive : Option Text → Text → Bool
is_exclusive none option = false
is_exclusive (some exclusive) option = text_eq exclusive option

unfoldable pub is_option_disabled : Bool → Option Text → List Text → Text → Bool
is_option_disabled disabled exclusive selected option =
    disabled || (has_exclusive exclusive selected && not (is_exclusive exclusive option))

-- What `onChange` is called with when the box of an option is clicked.
unfoldable pub pick : Option Text → List Text → Text → List Text
pick exclusive selected option = normalize_values exclusive (toggle_selection selected option)

abbrev pub join_commas : List Text → Text
join_commas [] = []
join_commas (s ∷ []) = s
join_commas (s ∷ t ∷ rest) = s ++ codes ", " ++ join_commas (t ∷ rest)

unfoldable pub selected_summary : Text → List Text → Text
selected_summary placeholder [] = placeholder
selected_summary placeholder (value ∷ values) =
    if leb (length (value ∷ values)) 2
    then join_commas (value ∷ values)
    else join_commas (take 2 (value ∷ values))
      ++ codes " +"
      ++ decimal (length (value ∷ values) - 2)
      ++ codes " more"

-- A group with its options, each of which has a label that is searched.
pub record Group {ℓ} (A : Type ℓ) : Type ℓ where
  pub label : Text
  pub options : List A

module _ {ℓ} {A : Type ℓ} (lowering : Lowering) (label_of : A → Text) where
  abbrev pub normalized_query : Text → Text
  normalized_query query = lowering.to_lower_case (trim query)

  abbrev pub has_match : Text → A → Bool
  has_match sought option = includes (lowering.to_lower_case (label_of option)) sought

  abbrev pub narrowed : Text → Group A → Group A
  narrowed sought group = record group { options = filter (has_match sought) group.options }

  unfoldable pub visible_groups : Text → List (Group A) → List (Group A)
  visible_groups query groups =
      if is_nil (normalized_query query)
      then groups
      else filter (λ group. not (is_nil group.options))
          (map (narrowed (normalized_query query)) groups)

-- The states of a dropdown; closing forgets the query.
pub record Dropdown : Type 0 where
  pub is_open : Bool
  pub query : Text

abbrev closed : Dropdown
closed = record { is_open = false; query = [] }

-- The button: nothing happens where the dropdown is disabled.
unfoldable pub handle_toggle : Bool → Dropdown → Dropdown
handle_toggle disabled dropdown =
    if disabled
    then dropdown
    else if dropdown.is_open
    then closed
    else record dropdown { is_open = true }

unfoldable pub handle_click_outside : Dropdown → Dropdown
handle_click_outside dropdown = if dropdown.is_open then closed else dropdown
