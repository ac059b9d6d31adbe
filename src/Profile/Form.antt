-- ===== src/Profile/Form.antt =====
-- web/src/app/company/profile/page.tsx: the values of the form, what is sent of them, and the fields
-- that are asked for.
pub mod Missing
use corpershub_application.Base.{
  [], List, Bool, Text, String, ◌∷◌, ◌&&◌, not, if◌then◌else◌, is_nil, trim, codes, text_eq, some,
}
use corpershub_application.Identifiers.{Casing}
use corpershub_application.Company.{normalize_company_registration_number}
use corpershub_application.Profile.{
  serialize_multi_select_values, serialize_exclusive_multi_select_values, organization_type_sent,
}

pub record ProfileForm : Type 0 where
  pub company_name : Text
  pub company_registration_number : Text
  pub company_registration_date : Text
  pub tax_identification_number : Text
  pub company_location_state : List Text
  pub preferred_deployment_states : List Text
  pub company_location_city : Text
  pub company_address : Text
  pub head_office_address : Text
  pub company_website : Text
  pub company_sector : Text
  pub organization_type : Text
  pub organization_type_other : Text
  pub staff_count_range : Text
  pub ppa_capacity : Text
  pub office_location_count : Text
  pub placement_type : List Text
  pub monthly_allowance_offered : Text
  pub accommodation_provided : Text
  pub ppa_support : Text
  pub desired_corper_description : Text
  pub desired_qualification : List Text
  pub desired_age_range : Text
  pub desired_field_of_study : List Text
  pub desired_university : List Text
  pub desired_posting_states : List Text
  pub desired_skills : Text
  pub desired_experience : Text
  pub contact_name : Text
  pub contact_email : Text
  pub contact_phone : Text
  pub directors_name : Text
  pub director_phone_number : Text

pub record ProfilePayload : Type 0 where
  pub company_name : Text
  pub company_registration_number : Text
  pub company_registration_date : Text
  pub tax_identification_number : Text
  pub company_location_state : Text
  pub preferred_deployment_states : Text
  pub company_location_city : Text
  pub company_address : Text
  pub head_office_address : Text
  pub company_website : Text
  pub company_sector : Text
  pub organization_type : Text
  pub staff_count_range : Text
  pub ppa_capacity : Text
  pub office_location_count : Text
  pub placement_type : Text
  pub monthly_allowance_offered : Text
  pub accommodation_provided : Text
  pub ppa_support : Text
  pub desired_corper_description : Text
  pub desired_qualification : Text
  pub desired_age_range : Text
  pub desired_field_of_study : Text
  pub desired_university : Text
  pub desired_posting_states : Text
  pub desired_skills : Text
  pub desired_experience : Text
  pub contact_name : Text
  pub contact_email : Text
  pub contact_phone : Text
  pub directors_name : Text
  pub director_phone_number : Text

pub data ProfileKey : Type 0 where
  company_name company_registration_number company_registration_date : ProfileKey
  tax_identification_number company_location_state preferred_deployment_states : ProfileKey
  company_location_city company_address head_office_address : ProfileKey
  company_website company_sector organization_type : ProfileKey
  organization_type_other staff_count_range ppa_capacity : ProfileKey
  office_location_count placement_type monthly_allowance_offered : ProfileKey
  accommodation_provided ppa_support desired_corper_description : ProfileKey
  desired_qualification desired_age_range desired_field_of_study : ProfileKey
  desired_university desired_posting_states desired_skills : ProfileKey
  desired_experience contact_name contact_email : ProfileKey
  contact_phone directors_name director_phone_number : ProfileKey
  company_image : ProfileKey

abbrev pub any_qualification_option : Text
any_qualification_option = codes "Any Qualification"

abbrev pub any_field_of_study_option : Text
any_field_of_study_option = codes "Any Field of Study"

abbrev pub any_university_option : Text
any_university_option = codes "Any University"

module _ (casing : Casing) where
  unfoldable pub build_profile_payload : ProfileForm → ProfilePayload
  build_profile_payload form = record {
    company_name = trim form.company_name;
    company_registration_number =
        normalize_company_registration_number casing (some form.company_registration_number);
    company_registration_date = trim form.company_registration_date;
    tax_identification_number = trim form.tax_identification_number;
    company_location_state = serialize_multi_select_values form.company_location_state;
    preferred_deployment_states = serialize_multi_select_values form.preferred_deployment_states;
    company_location_city = trim form.company_location_city;
    company_address = trim form.company_address;
    head_office_address = trim form.head_office_address;
    company_website = trim form.company_website;
    company_sector = trim form.company_sector;
    organization_type = organization_type_sent (record {
      organization_type = form.organization_type;
      organization_type_other = form.organization_type_other;
    });
    staff_count_range = trim form.staff_count_range;
    ppa_capacity = trim form.ppa_capacity;
    office_location_count = trim form.office_location_count;
    placement_type = serialize_multi_select_values form.placement_type;
    monthly_allowance_offered = trim form.monthly_allowance_offered;
    accommodation_provided = trim form.accommodation_provided;
    ppa_support = trim form.ppa_support;
    desired_corper_description = trim form.desired_corper_description;
    desired_qualification =
        serialize_exclusive_multi_select_values form.desired_qualification any_qualification_option;
    desired_age_range = trim form.desired_age_range;
    desired_field_of_study =
        serialize_exclusive_multi_select_values form.desired_field_of_study
          any_field_of_study_option;
    desired_university =
        serialize_exclusive_multi_select_values form.desired_university any_university_option;
    desired_posting_states = serialize_multi_select_values form.desired_posting_states;
    desired_skills = trim form.desired_skills;
    desired_experience = trim form.desired_experience;
    contact_name = trim form.contact_name;
    contact_email = trim form.contact_email;
    contact_phone = trim form.contact_phone;
    directors_name = trim form.directors_name;
    director_phone_number = trim form.director_phone_number;
  }

pub record MissingField : Type 0 where
  pub key : ProfileKey
  pub label : String

abbrev is_unfilled : Text → Bool
is_unfilled s = is_nil (trim s)

-- `if (missing) missingFields.push(...)`, in front of what is pushed later.
unfoldable pub pushed : Bool → ProfileKey → String → List MissingField → List MissingField
pushed missing key label later =
    if missing then record { key = key; label = label } ∷ later else later

unfoldable pub get_missing_profile_fields : ProfileForm → Bool → List MissingField
get_missing_profile_fields form has_company_image =
    pushed (is_unfilled form.company_name) company_name "company name" (
      pushed (is_unfilled form.company_registration_number) company_registration_number
        "company registration number"
        (pushed (is_unfilled form.tax_identification_number) tax_identification_number
          "tax identification number"
          (pushed (is_unfilled form.company_sector) company_sector "company sector" (
            pushed (is_unfilled form.organization_type) organization_type "organisation type" (
              pushed
                (text_eq form.organization_type (codes "Others")
                  && is_unfilled form.organization_type_other)
                organization_type_other "organisation type"
                (pushed (is_unfilled form.staff_count_range) staff_count_range "number of staff" (
                  pushed (is_unfilled form.ppa_capacity) ppa_capacity "PPA capacity" (
                    pushed (is_unfilled form.office_location_count) office_location_count
                      "number of office locations"
                      (pushed (is_nil form.company_location_state) company_location_state
                        "state(s) of operation"
                        (pushed (is_nil form.preferred_deployment_states)
                          preferred_deployment_states "preferred states of deployment"
                          (pushed (is_unfilled form.company_location_city) company_location_city
                            "city"
                            (pushed (is_unfilled form.head_office_address) head_office_address
                              "head office address"
                              (pushed (is_unfilled form.company_address) company_address
                                "company operating address"
                                (pushed (is_nil form.placement_type) placement_type "placement type"
                                  (pushed (is_unfilled form.monthly_allowance_offered)
                                    monthly_allowance_offered "monthly allowance offered"
                                    (pushed (is_unfilled form.accommodation_provided)
                                      accommodation_provided "accommodation provided"
                                      (pushed (is_unfilled form.directors_name) directors_name
                                        "director's fullname"
                                        (pushed (is_unfilled form.director_phone_number)
                                          director_phone_number "director's phone number"
                                          (pushed (is_unfilled form.contact_phone) contact_phone
                                            "contact number"
                                            (pushed (is_unfilled form.contact_name) contact_name
                                              "contact fullname"
                                              (pushed (is_unfilled form.contact_email) contact_email
                                                "contact email"
                                                (pushed
                                                  (is_unfilled form.desired_corper_description)
                                                  desired_corper_description "company summary"
                                                  (pushed (is_nil form.desired_qualification)
                                                    desired_qualification "desired qualification"
                                                    (pushed (is_unfilled form.desired_age_range)
                                                      desired_age_range "desired age range"
                                                      (pushed (is_nil form.desired_field_of_study)
                                                        desired_field_of_study
                                                        "desired field of study"
                                                        (pushed (is_nil form.desired_university)
                                                          desired_university "desired university"
                                                          (pushed
                                                            (is_nil form.desired_posting_states)
                                                            desired_posting_states
                                                            "desired posting state"
                                                            (pushed
                                                            (is_unfilled form.desired_skills)
                                                            desired_skills "desired skills"
                                                            (pushed
                                                            (is_unfilled form.desired_experience)
                                                            desired_experience "desired experience"
                                                            (pushed (not has_company_image)
                                                            company_image "company image"
                                                            []))))))))))))))))))))))))))))))
