-- ===== src/Dropdown/Tests.antt =====
-- Concrete values and options, and the properties applied to them.
use corpershub_application.Base.{
  [], refl, some, true, false, not, is_nil, List, Text, Option, codes, ◌≡◌, ◌∷◌, if◌then◌else◌,
  text_eq, trim, is_space, drop_while, drop_end,
}
use corpershub_application.Verification.Sample.{ascii_lower}
use corpershub_application.Dropdown.{Group, pick, contains, normalized_query, is_option_disabled}
use corpershub_application.Dropdown.Values.{IsSelection, is_option}
use corpershub_application.Dropdown.Selecting.{pick_changes}

abbrev nobody : Option Text
nobody = some (codes "None")

abbrev chosen : List Text
chosen = codes "Lagos" ∷ codes "Kano" ∷ []

chosen-IsSelection : IsSelection nobody chosen
unfolding trim is_space drop_while drop_end
chosen-IsSelection = (refl, refl, refl)

abuja_known : is_option (codes "Abuja") ≡ true
unfolding trim is_space drop_while drop_end
abuja_known = refl

nobody_known : is_option (codes "None") ≡ true
unfolding trim is_space drop_while drop_end
nobody_known = refl

enabled : is_option_disabled false nobody chosen (codes "Abuja") ≡ false
unfolding is_option_disabled
enabled = refl

pick_changes_example : contains (codes "Abuja") (pick nobody chosen (codes "Abuja")) ≡ (
    if text_eq (codes "Abuja") (codes "Abuja")
    then not (contains (codes "Abuja") chosen)
    else contains (codes "Abuja") chosen)
pick_changes_example =
    pick_changes nobody chosen (codes "Abuja") (codes "Abuja") chosen-IsSelection abuja_known refl
      enabled

abbrev states : List (Group Text)
states =
    record { label = codes "North"; options = codes "Kano" ∷ codes "Kaduna" ∷ [] }
    ∷ record { label = codes "South"; options = codes "Lagos" ∷ [] }
    ∷ []

query_there : is_nil (normalized_query ascii_lower (λ (s : Text). s) (codes " KA")) ≡ false
unfolding trim is_space drop_while drop_end
query_there = refl
