-- ===== src/Mobile/Tests.antt =====
-- Concrete numbers, and the properties applied to them.
use corpershub_application.Base.{
  refl, Text, true, false, codes, trim, drop_while, ◌++◌, ◌≡◌, drop_end, none, is_space, some,
  is_nil,
}
use corpershub_application.Mobile.{
  mobile_error, has_known_prefix, normalize_mobile_number, validate_nigerian_mobile_number,
  unknown_network,
}
use corpershub_application.Mobile.Format.{accepted-Shape, Shape}

abbrev typed_number : Text
typed_number = codes " 0803-123 4567"

abbrev digits : Text
digits = codes "8031234567"

normalized_test : normalize_mobile_number typed_number ≡ codes "08031234567"
unfolding normalize_mobile_number trim drop_while drop_end is_space
normalized_test = refl

network_test :
    (validate_nigerian_mobile_number (codes "0600 123 4567") true false).error
    ≡ some unknown_network
unfolding validate_nigerian_mobile_number mobile_error normalize_mobile_number has_known_prefix trim
    drop_while drop_end is_space
network_test = refl

accepted : (validate_nigerian_mobile_number typed_number true false).error ≡ none
unfolding validate_nigerian_mobile_number mobile_error normalize_mobile_number has_known_prefix trim
    drop_while drop_end is_space
accepted = refl

not_blank : is_nil (normalize_mobile_number typed_number) ≡ false
unfolding normalize_mobile_number trim drop_while drop_end is_space
not_blank = refl

digits_known : has_known_prefix (codes "0" ++ digits) ≡ true
unfolding has_known_prefix
digits_known = refl

accepted-Shape_example : Shape false (normalize_mobile_number typed_number)
accepted-Shape_example = accepted-Shape typed_number true false accepted not_blank
