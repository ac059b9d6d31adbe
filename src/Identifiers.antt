-- ===== src/Identifiers.antt =====
-- The identifiers of web/src/lib/nigerian-validation.ts: the NIN, the two NYSC numbers and the
-- matriculation number. The methods of a text that reach beyond ASCII are a parameter.
pub mod Accepted
pub mod Sample
mod Tests
use corpershub_application.Base.{
  ℕ, [], none, some, Option, String, List, Bool, Text, leb, ◌∷◌, map, filter, all, trim, ◌||◌, ◌++◌,
  ◌==◌, if◌then◌else◌, false, is_digit, ◌≡◌, not_space, is_nil, ◌&&◌, codes, length, not, true,
}

-- ASCII without the lower-case letters and without space.
abbrev pub is_plain : ℕ → Bool
is_plain c = leb 33 c && leb c 126 && not (leb 97 c && leb c 122)

-- `toUpperCase`; it changes no text of such code units.
pub record Casing : Type 0 where
  pub to_upper_case : Text → Text
  pub upper_fixed : (s : Text) → all is_plain s ≡ true → to_upper_case s ≡ s

-- What a pattern has at one place.
pub data UnitClass : Type 0 where
  exactly : ℕ → UnitClass
  between : ℕ → ℕ → UnitClass

abbrev in_class : UnitClass → ℕ → Bool
in_class (exactly n) c = c == n
in_class (between low high) c = leb low c && leb c high

abbrev capital : UnitClass
capital = between b'A' b'Z'

abbrev digit : UnitClass
digit = between b'0' b'9'

-- The text behind the places of a pattern.
unfoldable pub after_classes : List UnitClass → Text → Option Text
after_classes [] s = some s
after_classes (p ∷ ps) [] = none
after_classes (p ∷ ps) (c ∷ s) =
    let rest = after_classes ps s in if in_class p c then rest else none

-- `\d{low,high}$`
abbrev pub ends_in_digits : ℕ → ℕ → Option Text → Bool
ends_in_digits low high none = false
ends_in_digits low high (some s) = all is_digit s && leb low (length s) && leb (length s) high

abbrev pub literal : String → List UnitClass
literal s = map exactly (codes s)

abbrev callup_classes : List UnitClass
callup_classes =
    literal "NYSC/"
    ++ (capital ∷ capital ∷ capital ∷ []
        ++ (literal "/" ++ (digit ∷ digit ∷ digit ∷ digit ∷ [] ++ literal "/")))

abbrev state_code_classes : List UnitClass
state_code_classes =
    literal "NYSC/"
    ++ (capital ∷ capital ∷ []
        ++ (literal "/" ++ (digit ∷ digit ∷ between b'A' b'C' ∷ [] ++ literal "/")))

-- The patterns of the source, each on the whole text.
unfoldable pub is_nin_number : Text → Bool
is_nin_number s = all is_digit s && length s == 11

unfoldable pub is_nysc_callup_number : Text → Bool
is_nysc_callup_number s = ends_in_digits 4 6 (after_classes callup_classes s)

unfoldable pub is_nysc_state_code : Text → Bool
is_nysc_state_code s = ends_in_digits 5 6 (after_classes state_code_classes s)

abbrev in_matriculation : ℕ → Bool
in_matriculation c = in_class capital c || is_digit c || c == b'/'

unfoldable pub is_university_matriculation_number : Text → Bool
is_university_matriculation_number s =
    all in_matriculation s && leb 8 (length s) && leb (length s) 16

-- The two messages of each validation.
pub data IdentifierError : Type 0 where
  required : IdentifierError
  malformed : IdentifierError

pub record Validation : Type 0 where
  pub normalized_value : Text
  pub error : Option IdentifierError

abbrev pub checked : Bool → Text → Validation
checked matches normalized_value = record {
  normalized_value = normalized_value;
  error =
      if is_nil normalized_value
      then some required
      else if not matches
      then some malformed
      else none;
}

-- `s.replace(/\s+/g, "")`
abbrev without_space : Text → Text
without_space s = filter not_space s

unfoldable pub normalize_nin_number : Text → Text
normalize_nin_number value = without_space (trim value)

unfoldable pub validate_nin_number : Text → Validation
validate_nin_number value =
    checked (is_nin_number (normalize_nin_number value)) (normalize_nin_number value)

module _ (casing : Casing) where
  -- The three normalisations that the source writes out alike.
  unfoldable pub normalize_capital : Text → Text
  normalize_capital value = without_space (casing.to_upper_case (trim value))

  unfoldable pub validate_nysc_callup_number : Text → Validation
  validate_nysc_callup_number value =
      checked (is_nysc_callup_number (normalize_capital value)) (normalize_capital value)

  unfoldable pub validate_nysc_state_code : Text → Validation
  validate_nysc_state_code value =
      checked (is_nysc_state_code (normalize_capital value)) (normalize_capital value)

  unfoldable pub validate_university_matriculation_number : Text → Validation
  validate_university_matriculation_number value =
      checked (is_university_matriculation_number (normalize_capital value))
        (normalize_capital value)
