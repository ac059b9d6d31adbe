-- ===== src/CompanyForm/Tests.antt =====
-- A concrete form, and the properties applied to it.
use corpershub_application.Base.{
  [], none, some, refl, true, false, ◌≡◌, ◌⊎◌, codes, trim, is_space, drop_while, drop_end,
}
use corpershub_application.Fixtures.{acme_session}
use corpershub_application.Api.Json.{Json}
use corpershub_application.Api.Action.{Result, ok}
use corpershub_application.Identifiers.{after_classes}
use corpershub_application.Identifiers.Sample.{ascii}
use corpershub_application.Company.{
  normalize_company_registration_number, validate_company_registration_number,
  validate_tax_identification_number, normalize_tax_identification_number,
  is_company_registration_number, is_tax_identification_number,
}
use corpershub_application.CompanyForm.{
  FormValues, FormCodec, FormPayload, check_form, sends, get_missing_company_verification_fields,
  json_of,
}
use corpershub_application.CompanyForm.Page.{FormPage, SavedProfile, handle_submit}
use corpershub_application.CompanyForm.Settling.{IsKept, IsSaved, handle_submit_settles}

abbrev plain_json : FormCodec Json
plain_json = record {
  stringify = λ v. v;
  parse = λ v. some v;
  is_empty = λ v. false;
  parse-stringify = λ v. refl;
  stringify_not_empty = λ v. refl;
}

abbrev acme_values : FormValues
acme_values = record {
  company_name = codes "Acme Ltd";
  company_registration_date = codes "2010-02-03";
  company_location_state = codes "Lagos";
  company_registration_number = codes "RC12345";
  tax_identification_number = codes " 1234567890";
}

abbrev acme_payload : FormPayload
acme_payload = record {
  company_name = codes "Acme Ltd";
  company_registration_date = some (codes "2010-02-03");
  company_location_state = codes "Lagos";
  company_registration_number = codes "RC12345";
  tax_identification_number = codes "1234567890";
}

acme_sends : check_form ascii acme_values ≡ sends acme_payload
unfolding check_form get_missing_company_verification_fields validate_company_registration_number
    normalize_company_registration_number is_company_registration_number after_classes
    validate_tax_identification_number normalize_tax_identification_number
    is_tax_identification_number trim is_space drop_while drop_end
acme_sends = refl

acme_normalized :
    normalize_company_registration_number ascii (some acme_values.company_registration_number)
    ≡ acme_values.company_registration_number
unfolding normalize_company_registration_number trim is_space drop_while drop_end
acme_normalized = refl

abbrev acme_page : FormPage Json
acme_page = record {
  form_values = acme_values;
  highlighted = [];
  is_saving = false;
  should_persist = true;
  item = some (json_of acme_values);
  session = some acme_session;
  redirect = none;
  notice = none;
}

abbrev accepting : FormPayload → Result SavedProfile
accepting payload = ok (record { verification_status = "pending"; terms_accepted = false })

handle_submit_settles_example :
    IsKept acme_page (handle_submit ascii plain_json accepting acme_page)
    ⊎ IsSaved accepting (handle_submit ascii plain_json accepting acme_page)
handle_submit_settles_example = handle_submit_settles ascii plain_json accepting acme_page
