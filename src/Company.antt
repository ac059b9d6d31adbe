-- ===== src/Company.antt =====
-- web/src/lib/company-verification.ts: the registration number and the tax number of a company, and
-- how its two statuses are shown.
pub mod Accepted
mod Tests
use corpershub_application.Base.{
  ℕ, [], none, some, Option, String, List, Bool, Text, ◌∷◌, filter, any, all, trim, ◌||◌, ◌&&◌,
  ◌==◌, leb, is_digit, is_space, not, or_default, codes, length, if◌then◌else◌, text_eq,
}
use corpershub_application.Session.{is_status}
use corpershub_application.Identifiers.{
  Casing, Validation, checked, after_classes, ends_in_digits, literal,
}

-- `[\s-]`
abbrev pub is_separator : ℕ → Bool
is_separator c = is_space c || c == b'-'

abbrev pub registration_prefixes : List String
registration_prefixes = "RC" ∷ "BN" ∷ "IT" ∷ "LP" ∷ "LLP" ∷ []

-- `COMPANY_REGISTRATION_NUMBER_PATTERN`: one of the prefixes, then the digits.
unfoldable pub is_company_registration_number : Text → Bool
is_company_registration_number s =
    any (λ prefix. ends_in_digits 5 10 (after_classes (literal prefix) s)) registration_prefixes

unfoldable pub is_tax_identification_number : Text → Bool
is_tax_identification_number s = all is_digit s && leb 10 (length s) && leb (length s) 13

unfoldable pub normalize_tax_identification_number : Option Text → Text
normalize_tax_identification_number value = trim (or_default value [])

unfoldable pub validate_tax_identification_number : Option Text → Validation
validate_tax_identification_number value =
    checked (is_tax_identification_number (normalize_tax_identification_number value))
      (normalize_tax_identification_number value)

module _ (casing : Casing) where
  unfoldable pub normalize_company_registration_number : Option Text → Text
  normalize_company_registration_number value =
      filter (λ c. not (is_separator c)) (casing.to_upper_case (trim (or_default value [])))

  unfoldable pub validate_company_registration_number : Option Text → Validation
  validate_company_registration_number value =
      checked (is_company_registration_number (normalize_company_registration_number value))
        (normalize_company_registration_number value)

pub data Tone : Type 0 where
  neutral warning success : Tone

unfoldable pub get_company_verification_tone : Option String → Tone
get_company_verification_tone status =
    if is_status status "verified"
    then success
    else if is_status status "pending" || is_status status "rejected"
    then warning
    else neutral

unfoldable pub get_company_approval_tone : Option String → Tone
get_company_approval_tone status =
    if is_status status "approved"
    then success
    else if is_status status "pending" || is_status status "rejected"
    then warning
    else neutral

unfoldable pub format_company_verification_status : Option String → String
format_company_verification_status status =
    if is_status status "verified"
    then "Verified"
    else if is_status status "pending"
    then "Pending verification"
    else if is_status status "rejected"
    then "Verification failed"
    else "Not verified"

unfoldable pub format_company_approval_status : Option String → String
format_company_approval_status status =
    if is_status status "approved"
    then "Approved"
    else if is_status status "pending"
    then "Pending"
    else if is_status status "rejected"
    then "Rejected"
    else "Unsubmitted"
