-- ===== src/Profile/Form/Missing.antt =====
-- What is sent from a form in which nothing is missing.
use corpershub_application.Base.{[], List, Bool, Text, ◌∷◌, not, is_nil}
use corpershub_application.Profile.Form.{ProfilePayload}

abbrev pub is_given : Text → Bool
is_given s = not (is_nil s)

-- The texts that the server is sent for the fields that have to be filled, the lists and the
-- registration number left aside.
abbrev pub required_texts : ProfilePayload → List Text
required_texts payload =
    payload.company_name ∷ payload.tax_identification_number ∷ payload.company_sector
    ∷ payload.organization_type ∷ payload.staff_count_range ∷ payload.ppa_capacity
    ∷ payload.office_location_count ∷ payload.company_location_city ∷ payload.head_office_address
    ∷ payload.company_address ∷ payload.monthly_allowance_offered ∷ payload.accommodation_provided
    ∷ payload.directors_name ∷ payload.director_phone_number ∷ payload.contact_phone
    ∷ payload.contact_name ∷ payload.contact_email ∷ payload.desired_corper_description
    ∷ payload.desired_age_range ∷ payload.desired_skills ∷ payload.desired_experience ∷ []
