-- ===== src/Profile/Loading.antt =====
-- web/src/app/company/profile/page.tsx: the form that is filled from the stored profile, and what a
-- draft of it takes over; web/src/lib/company-sectors.ts: the sectors.
use corpershub_application.Base.{
  ℕ, [], none, some, Option, List, Text, ◌∷◌, if◌then◌else◌, ◌==◌, is_nil, map, trim, or_default,
  codes, decimal,
}
use corpershub_application.Identifiers.{Casing}
use corpershub_application.Company.{normalize_company_registration_number}
use corpershub_application.Mobile.{normalize_nigerian_mobile_for_display}
use corpershub_application.Dropdown.{contains, tidy}
use corpershub_application.Directory.{split_on}
use corpershub_application.Profile.{
  parse_comma_separated_values, normalize_exclusive_selection, split_organization_type,
}
use corpershub_application.Profile.Form.{
  ProfileForm, any_qualification_option, any_field_of_study_option, any_university_option,
}

abbrev pub company_sector_options : List Text
company_sector_options =
    codes "Advertising & Marketing"
    ∷ codes "Agriculture"
    ∷ codes "Arts & Culture"
    ∷ codes "Automotive"
    ∷ codes "Banking"
    ∷ codes "Beauty & Personal Care"
    ∷ codes "Creative Economy"
    ∷ codes "Defence Industry"
    ∷ codes "E-commerce"
    ∷ codes "Education"
    ∷ codes "Energy & Utilities"
    ∷ codes "Entertainment"
    ∷ codes "Environmental Services"
    ∷ codes "Event Management"
    ∷ codes "Financial Services"
    ∷ codes "Food Services"
    ∷ codes "Furniture & Wood Products"
    ∷ codes "Government Institution"
    ∷ codes "Healthcare & Pharmaceuticals"
    ∷ codes "Hospitality"
    ∷ codes "Household Services"
    ∷ codes "Technology & ICT"
    ∷ codes "Insurance"
    ∷ codes "Legal & Compliance"
    ∷ codes "Logistics & Supply Chain"
    ∷ codes "Manufacturing & Production"
    ∷ codes "Maritime"
    ∷ codes "Media & Communications"
    ∷ codes "NGO & Non-Profit"
    ∷ codes "Oil & Gas"
    ∷ codes "Outsourcing"
    ∷ codes "Professional Services"
    ∷ codes "Public Administration"
    ∷ codes "Publishing & Printing"
    ∷ codes "Real Estate & Construction"
    ∷ codes "Religious Institutions"
    ∷ codes "Research & Development"
    ∷ codes "Science"
    ∷ codes "Security & Investigation"
    ∷ codes "Social Work & Community Services"
    ∷ codes "Solid Minerals & Mining"
    ∷ codes "Sports & Recreation"
    ∷ codes "Telecommunications"
    ∷ codes "Textile & Garment"
    ∷ codes "Tourism"
    ∷ codes "Trade (Wholesale & Retail)"
    ∷ codes "Transport & Aviation"
    ∷ codes "Waste Management"
    ∷ []

-- The fields of a profile that the form shows.
pub record CompanyProfile : Type 0 where
  pub company_name : Option Text
  pub company_registration_number : Option Text
  pub company_registration_date : Option Text
  pub tax_identification_number : Option Text
  pub company_location_state : Option Text
  pub preferred_deployment_states : Option Text
  pub company_location_city : Option Text
  pub company_address : Option Text
  pub head_office_address : Option Text
  pub company_website : Option Text
  pub organization_type : Option Text
  pub company_sector : Option Text
  pub staff_count_range : Option Text
  pub ppa_capacity : Option ℕ
  pub office_location_count : Option ℕ
  pub placement_type : Option Text
  pub monthly_allowance_offered : Option Text
  pub accommodation_provided : Option Text
  pub ppa_support : Option Text
  pub desired_corper_description : Option Text
  pub desired_qualification : Option Text
  pub desired_age_range : Option Text
  pub desired_field_of_study : Option Text
  pub desired_university : Option Text
  pub desired_posting_states : Option Text
  pub desired_skills : Option Text
  pub desired_experience : Option Text
  pub contact_name : Option Text
  pub contact_email : Option Text
  pub contact_phone : Option Text
  pub directors_name : Option Text
  pub director_phone_number : Option Text

-- `/\s*\/\s*/g` put as a comma: the spaces about it are taken away with those about a comma.
unfoldable pub parse_qualification_values : Option Text → List Text
parse_qualification_values value =
    tidy (split_on b',' (map (λ c. if c == b'/' then b',' else c) (or_default value [])))

unfoldable pub split_company_sector : Option Text → Text
split_company_sector value =
    let normalized = trim (or_default value []) in
    if contains normalized company_sector_options then normalized else []

-- `n ? String(n) : ""`
abbrev pub count_text : Option ℕ → Text
count_text none = []
count_text (some n) = if n == 0 then [] else decimal n

module _ (casing : Casing) where
  unfoldable pub map_profile_to_form : CompanyProfile → ProfileForm
  map_profile_to_form profile =
      let organization = split_organization_type profile.organization_type in
      record {
        company_name = or_default profile.company_name [];
        company_registration_number =
            normalize_company_registration_number casing profile.company_registration_number;
        company_registration_date = or_default profile.company_registration_date [];
        tax_identification_number = or_default profile.tax_identification_number [];
        company_location_state = parse_comma_separated_values profile.company_location_state;
        preferred_deployment_states =
            parse_comma_separated_values profile.preferred_deployment_states;
        company_location_city = or_default profile.company_location_city [];
        company_address = or_default profile.company_address [];
        head_office_address = or_default profile.head_office_address [];
        company_website = or_default profile.company_website [];
        company_sector = split_company_sector profile.company_sector;
        organization_type = organization.organization_type;
        organization_type_other = organization.organization_type_other;
        staff_count_range = or_default profile.staff_count_range [];
        ppa_capacity = count_text profile.ppa_capacity;
        office_location_count = count_text profile.office_location_count;
        placement_type = parse_comma_separated_values profile.placement_type;
        monthly_allowance_offered = or_default profile.monthly_allowance_offered [];
        accommodation_provided = or_default profile.accommodation_provided [];
        ppa_support = or_default profile.ppa_support [];
        desired_corper_description = or_default profile.desired_corper_description [];
        desired_qualification =
            normalize_exclusive_selection (parse_qualification_values profile.desired_qualification)
              any_qualification_option;
        desired_age_range = or_default profile.desired_age_range [];
        desired_field_of_study =
            normalize_exclusive_selection
              (parse_comma_separated_values profile.desired_field_of_study)
              any_field_of_study_option;
        desired_university =
            normalize_exclusive_selection (parse_comma_separated_values profile.desired_university)
              any_university_option;
        desired_posting_states = parse_comma_separated_values profile.desired_posting_states;
        desired_skills = or_default profile.desired_skills [];
        desired_experience = or_default profile.desired_experience [];
        contact_name = or_default profile.contact_name [];
        contact_email = or_default profile.contact_email [];
        contact_phone = normalize_nigerian_mobile_for_display (or_default profile.contact_phone []);
        directors_name = or_default profile.directors_name [];
        director_phone_number =
            normalize_nigerian_mobile_for_display (or_default profile.director_phone_number []);
      }

-- `value || other`
abbrev or_stored : Text → Text → Text
or_stored value other = if is_nil value then other else value

unfoldable pub merge_stored_profile_draft_with_verification_values :
    ProfileForm → ProfileForm → ProfileForm
merge_stored_profile_draft_with_verification_values stored profile = record stored {
  company_name = or_stored profile.company_name stored.company_name;
  company_registration_number =
      or_stored profile.company_registration_number stored.company_registration_number;
  company_registration_date =
      or_stored profile.company_registration_date stored.company_registration_date;
  tax_identification_number =
      or_stored profile.tax_identification_number stored.tax_identification_number;
}
