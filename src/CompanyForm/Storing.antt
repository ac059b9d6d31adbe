-- ===== src/CompanyForm/Storing.antt =====
-- The form comes back from the session storage.
use corpershub_application.Base.{some, ◌≡◌, ap}
use corpershub_application.Identifiers.{Casing}
use corpershub_application.Company.{normalize_company_registration_number}
use corpershub_application.CompanyForm.{
  FormValues, FormCodec, json_of, load_form_values_from_storage,
}

-- The form that is stored is read again as it was, where its registration number is normalised, as a
-- change of that field leaves it.
pub load-save :
    (casing : Casing) {Item : Type 0} (codec : FormCodec Item) (values : FormValues)
    → normalize_company_registration_number casing (some values.company_registration_number)
      ≡ values.company_registration_number
    → load_form_values_from_storage casing codec (some (codec.stringify (json_of values)))
      ≡ some values
unfolding load_form_values_from_storage
load-save casing codec values h =
    rw (codec.stringify_not_empty (json_of values), codec.parse-stringify (json_of values))
      (ap (λ n. some (record values { company_registration_number = n })) h)
