-- ===== src/CompanyForm.antt =====
-- web/src/app/company/verification/page.tsx: the form of a company's verification, its copy in the
-- session storage, and its submission. The server's answer is a parameter.
pub mod Sending
pub mod Page
pub mod Settling
pub mod Storing
mod Tests
use corpershub_application.Base.{
  [], none, some, Option, String, List, Bool, Text, ◌∷◌, ◌&&◌, ◌||◌, not, true, false,
  if◌then◌else◌, is_nil, trim, or_default, filter, codes, head_of, ◌≡◌,
}
use corpershub_application.Session.{SessionState}
use corpershub_application.Api.Action.{Result, ok, err, Failure}
use corpershub_application.Api.Json.{
  Json, Fields, null, bool, num, str, arr, obj, end, field, property,
}
use corpershub_application.Identifiers.{Casing, IdentifierError, Validation}
use corpershub_application.Company.{
  normalize_company_registration_number, validate_company_registration_number,
  validate_tax_identification_number,
}

pub data FormKey : Type 0 where
  company_name company_registration_date company_location_state : FormKey
  company_registration_number tax_identification_number : FormKey

pub record FormValues : Type 0 where
  pub company_name : Text
  pub company_registration_date : Text
  pub company_location_state : Text
  pub company_registration_number : Text
  pub tax_identification_number : Text

abbrev pub empty_form_values : FormValues
empty_form_values = record {
  company_name = [];
  company_registration_date = [];
  company_location_state = [];
  company_registration_number = [];
  tax_identification_number = [];
}

abbrev pub value_of : FormValues → FormKey → Text
value_of values company_name = values.company_name
value_of values company_registration_date = values.company_registration_date
value_of values company_location_state = values.company_location_state
value_of values company_registration_number = values.company_registration_number
value_of values tax_identification_number = values.tax_identification_number

abbrev pub required_keys : List FormKey
required_keys =
    company_name ∷ company_registration_date ∷ company_location_state ∷ company_registration_number
    ∷ tax_identification_number ∷ []

abbrev pub is_missing_key : FormValues → FormKey → Bool
is_missing_key values key = is_nil (trim (value_of values key))

unfoldable pub get_missing_company_verification_fields : FormValues → List FormKey
get_missing_company_verification_fields values = filter (is_missing_key values) required_keys

-- `JSON.stringify` and `JSON.parse`: what is printed is parsed again and is not empty; the parser
-- gives none where it throws. `Item` stands for the texts.
pub record FormCodec (Item : Type 0) : Type 0 where
  pub stringify : Json → Item
  pub parse : Item → Option Json
  pub is_empty : Item → Bool
  pub parse-stringify : (v : Json) → parse (stringify v) ≡ some v
  pub stringify_not_empty : (v : Json) → is_empty (stringify v) ≡ false

-- The object of the values, as it is printed.
abbrev pub json_of : FormValues → Json
json_of values = obj (
    field "company_name" (str values.company_name) (
      field "company_registration_date" (str values.company_registration_date) (
        field "company_location_state" (str values.company_location_state) (
          field "company_registration_number" (str values.company_registration_number)
            (field "tax_identification_number" (str values.tax_identification_number) end)))))

-- `typeof value === "string" ? value : ""`
abbrev pub string_value : Option Json → Text
string_value (some (str s)) = s
string_value _ = []

-- The fields of what is an object for `typeof`; an array has none of the names.
abbrev pub fields_of : Json → Option Fields
fields_of (obj fs) = some fs
fields_of (arr vs) = some end
fields_of _ = none

module _ (casing : Casing) where
  abbrev pub values_from : Option Fields → Option FormValues
  values_from none = none
  values_from (some fs) = some (record {
    company_name = string_value (property "company_name" fs);
    company_registration_date = string_value (property "company_registration_date" fs);
    company_location_state = string_value (property "company_location_state" fs);
    company_registration_number =
        normalize_company_registration_number casing
          (some (string_value (property "company_registration_number" fs)));
    tax_identification_number = string_value (property "tax_identification_number" fs);
  })

  abbrev pub parsed_values : Option Json → Option FormValues
  parsed_values none = none
  parsed_values (some v) = values_from (fields_of v)

  unfoldable pub load_form_values_from_storage :
      {Item : Type 0} → FormCodec Item → Option Item → Option FormValues
  load_form_values_from_storage codec none = none
  load_form_values_from_storage codec (some item) =
      if codec.is_empty item then none else parsed_values (codec.parse item)

  -- What a change of one field makes of the values.
  unfoldable pub changed : FormKey → Text → FormValues → FormValues
  changed company_name value values = record values { company_name = value }
  changed company_registration_date value values = record values {
    company_registration_date = value;
  }
  changed company_location_state value values = record values { company_location_state = value }
  changed company_registration_number value values = record values {
    company_registration_number = normalize_company_registration_number casing (some value);
  }
  changed tax_identification_number value values = record values {
    tax_identification_number = value;
  }

-- What the form sends; a date that is blank is sent as null.
pub record FormPayload : Type 0 where
  pub company_name : Text
  pub company_registration_date : Option Text
  pub company_location_state : Text
  pub company_registration_number : Text
  pub tax_identification_number : Text

-- The early returns of `handleSubmit`, and the request.
pub data Submission : Type 0 where
  missing : List FormKey → Submission
  bad_number : FormKey → IdentifierError → Submission
  nameless : Submission
  sends : FormPayload → Submission

abbrev pub or_null : Text → Option Text
or_null s = if is_nil s then none else some s

module _ (casing : Casing) where
  abbrev pub registration_of : FormValues → Validation
  registration_of values =
      validate_company_registration_number casing (some values.company_registration_number)

  abbrev pub tax_of : FormValues → Validation
  tax_of values = validate_tax_identification_number (some values.tax_identification_number)

  abbrev pub form_payload : FormValues → FormPayload
  form_payload values = record {
    company_name = trim values.company_name;
    company_registration_date = or_null (trim values.company_registration_date);
    company_location_state = trim values.company_location_state;
    company_registration_number = (registration_of values).normalized_value;
    tax_identification_number = (tax_of values).normalized_value;
  }

  abbrev pub after_tax : Option IdentifierError → FormValues → Submission
  after_tax (some e) values = bad_number tax_identification_number e
  after_tax none values =
      if is_nil (trim values.company_name) then nameless else sends (form_payload values)

  abbrev pub after_registration : Option IdentifierError → FormValues → Submission
  after_registration (some e) values = bad_number company_registration_number e
  after_registration none values = after_tax (tax_of values).error values

  unfoldable pub check_form : FormValues → Submission
  check_form values =
      if not (is_nil (get_missing_company_verification_fields values))
      then missing (get_missing_company_verification_fields values)
      else after_registration (registration_of values).error values
