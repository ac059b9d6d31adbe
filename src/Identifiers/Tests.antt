-- ===== src/Identifiers/Tests.antt =====
-- Concrete identifiers, and the properties applied to them.
use corpershub_application.Base.{
  refl, Text, codes, ◌≡◌, trim, drop_while, drop_end, is_space, none, some,
}
use corpershub_application.Identifiers.{
  validate_nysc_callup_number, validate_nysc_state_code, is_nysc_callup_number, is_nysc_state_code,
  after_classes, normalize_capital, malformed,
}
use corpershub_application.Identifiers.Sample.{ascii}
use corpershub_application.Identifiers.Accepted.{validate, callup, validate_idem, state_code}

abbrev typed_callup : Text
typed_callup = codes " nysc/abc/2024/ 1234"

callup_test :
    validate ascii callup typed_callup
    ≡ record { normalized_value = codes "NYSC/ABC/2024/1234"; error = none }
unfolding validate validate_nysc_callup_number is_nysc_callup_number after_classes normalize_capital
    trim drop_while drop_end is_space
callup_test = refl

state_code_test : (validate ascii state_code (codes "NYSC/LG/26D/72673")).error ≡ some malformed
unfolding validate validate_nysc_state_code is_nysc_state_code after_classes normalize_capital trim
    drop_while drop_end is_space
state_code_test = refl

callup_accepted : (validate ascii callup typed_callup).error ≡ none
unfolding validate validate_nysc_callup_number is_nysc_callup_number after_classes normalize_capital
    trim drop_while drop_end is_space
callup_accepted = refl

validate_idem_example :
    validate ascii callup (validate ascii callup typed_callup).normalized_value
    ≡ validate ascii callup typed_callup
validate_idem_example = validate_idem ascii callup typed_callup callup_accepted
