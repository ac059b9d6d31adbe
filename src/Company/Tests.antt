-- ===== src/Company/Tests.antt =====
-- Concrete numbers of companies, and the properties applied to them.
use mathlib.Core.Logic.{◌↔◌}
use corpershub_application.Base.{
  refl, none, some, Option, Text, codes, ◌≡◌, trim, is_space, drop_while, drop_end,
}
use corpershub_application.Identifiers.{after_classes}
use corpershub_application.Identifiers.Sample.{ascii}
use corpershub_application.Company.{
  validate_company_registration_number, normalize_company_registration_number,
  is_company_registration_number,
}
use corpershub_application.Company.Accepted.{company_number_iff, IsRegistration}

abbrev typed : Option Text
typed = some (codes " llp 123-4567 ")

typed_normalized : normalize_company_registration_number ascii typed ≡ codes "LLP1234567"
unfolding normalize_company_registration_number trim is_space drop_while drop_end
typed_normalized = refl

typed_accepted : (validate_company_registration_number ascii typed).error ≡ none
unfolding validate_company_registration_number normalize_company_registration_number
    is_company_registration_number after_classes trim is_space drop_while drop_end
typed_accepted = refl

company_number_iff_example :
    ((validate_company_registration_number ascii typed).error ≡ none)
    ↔ IsRegistration (normalize_company_registration_number ascii typed)
company_number_iff_example = company_number_iff ascii typed
