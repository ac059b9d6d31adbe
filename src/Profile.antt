-- ===== src/Profile.antt =====
-- web/src/app/company/profile/page.tsx: the lists of a company's profile, which the server keeps as
-- one text, and its kind of organisation.
pub mod Form
pub mod Loading
pub mod Lists
pub mod Organization
mod Tests
use corpershub_application.Base.{
  ℕ, [], none, some, Option, List, Bool, Text, ◌∷◌, if◌then◌else◌, any, is_nil, trim, or_default,
  codes, text_eq, is_space, not, ◌==◌, drop_while,
}
use corpershub_application.Dropdown.{contains, tidy, join_commas, normalize_values}
use corpershub_application.Directory.{split_on}

unfoldable pub parse_comma_separated_values : Option Text → List Text
parse_comma_separated_values value = tidy (split_on b',' (or_default value []))

unfoldable pub serialize_multi_select_values : List Text → Text
serialize_multi_select_values values = join_commas (tidy values)

-- `normalizeExclusiveSelection`, the option being a constant that is not empty.
abbrev pub normalize_exclusive_selection : List Text → Text → List Text
normalize_exclusive_selection values exclusive_option =
    normalize_values (some exclusive_option) values

unfoldable pub serialize_exclusive_multi_select_values : List Text → Text → Text
serialize_exclusive_multi_select_values values exclusive_option =
    serialize_multi_select_values (normalize_exclusive_selection values exclusive_option)

abbrev pub organization_type_options : List Text
organization_type_options =
    codes "Business Name (Sole Proprietorship)"
    ∷ codes "Company Limited by Guarantee (Ltd/Gte)"
    ∷ codes "Incorporated Trustee (IT)"
    ∷ codes "Limited Liability Partnership (LLP)"
    ∷ codes "Limited Partnership (LP)"
    ∷ codes "Private Company Limited by Shares (Ltd)"
    ∷ codes "Public Company Limited by Shares (PLC)"
    ∷ codes "Unlimited Company (Ultd)"
    ∷ []

pub record OrganizationType : Type 0 where
  pub organization_type : Text
  pub organization_type_other : Text

unfoldable pub split_organization_type : Option Text → OrganizationType
split_organization_type value =
    let normalized = trim (or_default value []) in
    if is_nil normalized
    then record { organization_type = []; organization_type_other = [] }
    else if contains normalized organization_type_options
    then record { organization_type = normalized; organization_type_other = [] }
    else record { organization_type = codes "Others"; organization_type_other = normalized }

-- The text of `buildProfilePayload` for the two fields.
unfoldable pub organization_type_sent : OrganizationType → Text
organization_type_sent values =
    if text_eq values.organization_type (codes "Others")
    then trim values.organization_type_other
    else trim values.organization_type
