-- ===== src/Profile/Tests.antt =====
-- Concrete lists, and the properties applied to them.
use corpershub_application.Profile.Form.{ProfileForm}
use corpershub_application.Base.{
  [], refl, some, codes, Text, List, ◌≡◌, ◌∷◌, trim, is_space, drop_while, drop_end,
}
use corpershub_application.Dropdown.{tidy, unique}
use corpershub_application.Directory.{split_on}
use corpershub_application.Profile.{
  parse_comma_separated_values, serialize_multi_select_values, split_organization_type,
}
use corpershub_application.Profile.Lists.{parse-serialize}

abbrev states : List Text
states = codes "Lagos" ∷ codes " Oyo " ∷ codes "Lagos" ∷ []

stored_test : serialize_multi_select_values states ≡ codes "Lagos, Oyo"
unfolding serialize_multi_select_values tidy unique trim is_space drop_while drop_end
stored_test = refl

-- With a comma in it a value comes back as two.
comma_test :
    parse_comma_separated_values
      (some (serialize_multi_select_values (codes "Peace, Conflict Studies" ∷ [])))
    ≡ codes "Peace" ∷ codes "Conflict Studies" ∷ []
unfolding parse_comma_separated_values serialize_multi_select_values tidy unique split_on trim
    is_space drop_while drop_end
comma_test = refl

other_test :
    (split_organization_type (some (codes "Cooperative "))).organization_type_other
    ≡ codes "Cooperative"
unfolding split_organization_type trim is_space drop_while drop_end
other_test = refl

parse-serialize_example :
    parse_comma_separated_values (some (serialize_multi_select_values states)) ≡ tidy states
parse-serialize_example = parse-serialize states refl

abbrev acme_form : ProfileForm
acme_form = record {
  company_name = codes " Acme Ltd";
  company_registration_number = codes "RC12345";
  company_registration_date = codes "1";
  tax_identification_number = codes "1";
  company_location_state = states;
  preferred_deployment_states = states;
  company_location_city = codes "1";
  company_address = codes "1";
  head_office_address = codes "1";
  company_website = [];
  company_sector = codes "1";
  organization_type = codes "Others";
  organization_type_other = codes "Cooperative";
  staff_count_range = codes "1";
  ppa_capacity = codes "1";
  office_location_count = codes "1";
  placement_type = states;
  monthly_allowance_offered = codes "1";
  accommodation_provided = codes "1";
  ppa_support = codes "1";
  desired_corper_description = codes "1";
  desired_qualification = states;
  desired_age_range = codes "1";
  desired_field_of_study = states;
  desired_university = states;
  desired_posting_states = states;
  desired_skills = codes "1";
  desired_experience = codes "1";
  contact_name = codes "1";
  contact_email = codes "1";
  contact_phone = codes "1";
  directors_name = codes "1";
  director_phone_number = codes "1";
}
