-- ===== src/Mobile.antt =====
-- The mobile numbers of web/src/lib/nigerian-validation.ts: normalisation, display and validation. A
-- validation error is named for its message, which the source prints with the label of the field.
pub mod Asking
pub mod Format
mod Tests
use corpershub_application.Base.{
  ℕ, [], none, some, Bool, Text, List, not, Option, if◌then◌else◌, map, any, starts_with, filter,
  is_space, is_nil, drop, is_digit, codes, ◌&&◌, ◌||◌, ◌∷◌, ◌++◌, length, all, take, ◌==◌, trim,
}

abbrev nigerian_mobile_prefixes : List Text
nigerian_mobile_prefixes = map codes (
    "0701" ∷ "0702" ∷ "0703" ∷ "0704" ∷ "0705" ∷ "0706" ∷ "0707" ∷ "0708" ∷ "0709" ∷ "07025"
    ∷ "07026" ∷ "07027" ∷ "07028" ∷ "07029" ∷ "0802" ∷ "0803" ∷ "0804" ∷ "0805" ∷ "0806" ∷ "0807"
    ∷ "0808" ∷ "0809" ∷ "0810" ∷ "0811" ∷ "0812" ∷ "0813" ∷ "0814" ∷ "0815" ∷ "0816" ∷ "0817"
    ∷ "0818" ∷ "0819" ∷ "0901" ∷ "0902" ∷ "0903" ∷ "0904" ∷ "0905" ∷ "0906" ∷ "0907" ∷ "0908"
    ∷ "0909" ∷ "0911" ∷ "0912" ∷ "0913" ∷ "0915" ∷ "0916" ∷ "0917" ∷ [])

pub data MobileError : Type 0 where
  missing : MobileError
  not_a_number : MobileError
  not_nigerian : MobileError
  not_13_digits : MobileError
  not_only_digits : MobileError
  not_local : MobileError
  not_11_digits : MobileError
  unknown_network : MobileError

pub record ValidationResult : Type 0 where
  pub normalized_value : Text
  pub error : Option MobileError

-- `value.trim().replace(/[\s-]+/g, "")`
unfoldable pub normalize_mobile_number : Text → Text
normalize_mobile_number value = filter (λ c. not (is_space c || c == b'-')) (trim value)

-- `/^0\d{10}$/`
abbrev pub is_local_form : Text → Bool
is_local_form value = starts_with value (codes "0") && all is_digit value && length value == 11

unfoldable pub normalize_nigerian_mobile_for_display : Text → Text
normalize_nigerian_mobile_for_display value =
    let normalized_value = normalize_mobile_number value in
    if is_nil normalized_value
    then []
    else if starts_with normalized_value (codes "+234")
    then normalized_value
    else if is_local_form normalized_value
    then codes "+234" ++ drop 1 normalized_value
    else normalized_value

abbrev pub subscriber_digits : Text → Text
subscriber_digits digits =
    if starts_with digits (codes "234")
    then drop 3 digits
    else if starts_with digits (codes "0")
    then drop 1 digits
    else digits

unfoldable pub normalize_nigerian_mobile_input : Text → Text
normalize_nigerian_mobile_input value =
    let digits = filter is_digit value in
    if is_nil digits then [] else codes "+234" ++ take 10 (subscriber_digits digits)

unfoldable pub has_known_prefix : Text → Bool
has_known_prefix local_number = any (starts_with local_number) nigerian_mobile_prefixes

abbrev check_prefix : Text → Option MobileError
check_prefix local_number = if has_known_prefix local_number then none else some unknown_network

-- `/^\d+$/`
abbrev pub is_digits : Text → Bool
is_digits value = not (is_nil value) && all is_digit value

abbrev check_international : Text → Option MobileError
check_international value =
    if not (is_digits (drop 1 value))
    then some not_a_number
    else if not (starts_with value (codes "+234"))
    then some not_nigerian
    else if not (length value == 14)
    then some not_13_digits
    else check_prefix (codes "0" ++ drop 4 value)

abbrev check_local : Bool → Text → Option MobileError
check_local require_international_format value =
    if require_international_format
    then some not_nigerian
    else if not (is_digits value)
    then some not_only_digits
    else if not (starts_with value (codes "0"))
    then some not_local
    else if not (length value == 11)
    then some not_11_digits
    else check_prefix value

unfoldable pub mobile_error : Bool → Bool → Text → Option MobileError
mobile_error required require_international_format value =
    if is_nil value
    then (if required then some missing else none)
    else if starts_with value (codes "+")
    then check_international value
    else check_local require_international_format value

unfoldable pub validate_nigerian_mobile_number : Text → Bool → Bool → ValidationResult
validate_nigerian_mobile_number value required require_international_format =
    let normalized_value = normalize_mobile_number value in
    record {
      normalized_value = normalized_value;
      error = mobile_error required require_international_format normalized_value;
    }
