-- ===== src/CompanyForm/Sending.antt =====
-- What the form of a company's verification sends.
use mathlib.Core.Path.{subst}
use corpershub_application.Base.{
  none, some, refl, arith, Option, List, Bool, Text, ◌≡◌, inl, inr, true, false, Bool-cases, is_nil,
  trim, filter, any, if◌then◌else◌,
}
use corpershub_application.Identifiers.{Casing, IdentifierError}
use corpershub_application.Company.{
  validate_company_registration_number, validate_tax_identification_number,
}
use corpershub_application.Company.Accepted.{
  IsRegistration, IsDigits, company_number_iff, tax_identification_iff,
}
use corpershub_application.Verification.Handover.{is_nil-filter}
use corpershub_application.CompanyForm.{
  FormKey, FormValues, FormPayload, missing, nameless, sends, check_form, form_payload,
  get_missing_company_verification_fields, is_missing_key, required_keys, after_registration,
  after_tax, registration_of, tax_of,
}

-- Every field is there and the two numbers have their form.
abbrev pub IsComplete : FormPayload → Type 0
IsComplete payload =
    (is_nil payload.company_name ≡ false)
    × (is_nil payload.company_location_state ≡ false)
    × ((date : Text) × (payload.company_registration_date ≡ some date))
    × IsRegistration payload.company_registration_number
    × IsDigits 10 13 payload.tax_identification_number

module _ (casing : Casing) where
  form_payload-IsComplete :
      (values : FormValues)
      → any (is_missing_key values) required_keys ≡ false
      → (registration_of casing values).error ≡ none
      → (tax_of casing values).error ≡ none
      → IsComplete (form_payload casing values)
  unfolding validate_company_registration_number validate_tax_identification_number
  form_payload-IsComplete values h r t =
      let (registered, _) = company_number_iff casing (some values.company_registration_number) in
      let (taxed, _) = tax_identification_iff (some values.tax_identification_number) in
      let dated : is_nil (trim values.company_registration_date) ≡ false = ground arith in
      (
        ground arith,
        ground arith,
        (trim values.company_registration_date, rw dated refl),
        registered r,
        taxed t,
      )

  tax_sends :
      (e : Option IdentifierError) (values : FormValues) (payload : FormPayload)
      → after_tax casing e values ≡ sends payload
      → (e ≡ none) × (form_payload casing values ≡ payload)
  tax_sends none values payload h = (refl, named (is_nil (trim values.company_name)) h)
    where
      named :
          (b : Bool)
          → (if b then nameless else sends (form_payload casing values)) ≡ sends payload
          → form_payload casing values ≡ payload
      named true k = cc
      named false k = cc
  tax_sends (some e) values payload h = cc

  registration_sends :
      (e : Option IdentifierError) (values : FormValues) (payload : FormPayload)
      → after_registration casing e values ≡ sends payload
      → (e ≡ none) × ((tax_of casing values).error ≡ none) × (form_payload casing values ≡ payload)
  registration_sends none values payload h =
      let (t, same) = tax_sends (tax_of casing values).error values payload h in (refl, t, same)
  registration_sends (some e) values payload h = cc

  missing_not_sends :
      (keys : List FormKey) (payload : FormPayload) → missing keys ≡ sends payload → ⊥
  missing_not_sends keys payload h = cc

  -- What is sent is complete: the name and the state are not blank, there is a date, and the two
  -- numbers have their form.
  pub sends-IsComplete :
      (values : FormValues) (payload : FormPayload)
      → check_form casing values ≡ sends payload
      → IsComplete payload
  unfolding check_form get_missing_company_verification_fields
  sends-IsComplete values payload h =
      elim (Bool-cases (is_nil (filter (is_missing_key values) required_keys))) [
        | inl e ↦
            let (r, t, same) =
              registration_sends (registration_of casing values).error values payload (rw e at h) in
            subst IsComplete same (
              form_payload-IsComplete values (is_nil-filter (is_missing_key values) required_keys e)
                r t)
        | inr e ↦ absurd (missing_not_sends _ payload (rw e at h))
      ]
