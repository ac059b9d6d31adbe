-- ===== src/Verification/Legal.antt =====
-- The step of web/src/app/corper/verification/page.tsx to the legal documents: what the draft lacks,
-- the draft that is handed over, and what is stored on the way.
use corpershub_application.Base.{
  [], none, some, List, codes, trim, Option, Bool, Text, if◌then◌else◌, not, is_nil, filter, false,
  String, ◌∷◌, or_else, true, ◌==◌, ◌&&◌, str_eq,
}
use corpershub_application.Session.{SessionState}
use corpershub_application.Draft.{CorperVerificationDraft, DraftCodec, Upload, File, name_of}
use corpershub_application.Mobile.{MobileError, validate_nigerian_mobile_number}
use corpershub_application.Identifiers.{
  Casing, IdentifierError, Validation, validate_university_matriculation_number,
  validate_nin_number, validate_nysc_callup_number, validate_nysc_state_code,
}

-- `VerificationDraftFieldKey`; a label is a field of the same name.
pub data FieldKey : Type 0 where
  first_name middle_name surname date_of_birth state_of_origin country_of_birth gender : FieldKey
  mobile_number university_matriculation_number nin callup callup_document : FieldKey
  state_code state_code_document : FieldKey

abbrev pub is_blank : Text → Bool
is_blank s = is_nil (trim s)

-- `document instanceof File` and not empty.
abbrev pub has_content : Option File → Bool
has_content none = false
has_content (some file) = not (file.size == 0)

abbrev pub lacks_document : Upload → Bool
lacks_document upload = not (has_content upload.document) && is_blank upload.document_name

-- `isMissing` of `REQUIRED_VERIFICATION_DRAFT_FIELDS`.
unfoldable pub is_missing : CorperVerificationDraft → FieldKey → Bool
is_missing draft first_name = is_blank draft.biodata.first_name
is_missing draft middle_name = is_blank draft.biodata.middle_name
is_missing draft surname = is_blank draft.biodata.surname
is_missing draft date_of_birth = is_nil draft.biodata.date_of_birth
is_missing draft state_of_origin = is_blank draft.biodata.state_of_origin
is_missing draft country_of_birth = is_blank draft.biodata.country_of_birth
is_missing draft gender = is_blank draft.biodata.gender
is_missing draft mobile_number = is_blank draft.biodata.mobile_number
is_missing draft university_matriculation_number =
    is_blank draft.biodata.university_matriculation_number
is_missing draft nin = is_blank draft.nin
is_missing draft callup = is_blank draft.callup.submitted_value
is_missing draft callup_document = lacks_document draft.callup
is_missing draft state_code = is_blank draft.state_code.submitted_value
is_missing draft state_code_document = lacks_document draft.state_code

abbrev pub required_fields : List FieldKey
required_fields =
    first_name ∷ middle_name ∷ surname ∷ date_of_birth ∷ state_of_origin ∷ country_of_birth ∷ gender
    ∷ mobile_number ∷ university_matriculation_number ∷ nin ∷ callup ∷ callup_document ∷ state_code
    ∷ state_code_document ∷ []

unfoldable pub get_missing_fields : CorperVerificationDraft → List FieldKey
get_missing_fields draft = filter (is_missing draft) required_fields

-- The errors of the second check, each named for its message.
pub data LegalError : Type 0 where
  incomplete : FieldKey → LegalError
  bad_mobile : MobileError → LegalError
  bad_identifier : FieldKey → IdentifierError → LegalError
  upload_first : FieldKey → LegalError

-- The field that an error marks.
abbrev pub marked : LegalError → FieldKey
marked (incomplete field) = field
marked (bad_mobile e) = mobile_number
marked (bad_identifier field e) = field
marked (upload_first field) = field

-- One early return: the error where its condition holds.
abbrev pub reject_if : Bool → LegalError → Option LegalError
reject_if b e = if b then some e else none

abbrev pub reject_mobile : Option MobileError → Option LegalError
reject_mobile none = none
reject_mobile (some e) = some (bad_mobile e)

abbrev pub reject_identifier : FieldKey → Option IdentifierError → Option LegalError
reject_identifier field none = none
reject_identifier field (some e) = some (bad_identifier field e)

-- The first of the early returns that applies.
unfoldable pub first_error : List (Option LegalError) → Option LegalError
first_error [] = none
first_error (check ∷ rest) = or_else check (first_error rest)

pub data Normalized : Type 0 where
  refused : LegalError → Normalized
  ready : CorperVerificationDraft → Normalized

abbrev pub document_name_of : Upload → Text
document_name_of upload = name_of upload.document upload.document_name

module _ (casing : Casing) where
  abbrev pub matriculation_of : CorperVerificationDraft → Validation
  matriculation_of draft =
      validate_university_matriculation_number casing draft.biodata.university_matriculation_number

  abbrev pub matriculation_error : CorperVerificationDraft → Option IdentifierError
  matriculation_error draft =
      if is_blank draft.biodata.university_matriculation_number
      then none
      else (matriculation_of draft).error

  -- The early returns of `normalizeVerificationDraftForLegalStep`, in its order.
  unfoldable pub legal_checks : CorperVerificationDraft → List (Option LegalError)
  legal_checks draft =
      reject_if (is_blank draft.biodata.first_name) (incomplete first_name)
      ∷ reject_if (is_blank draft.biodata.middle_name) (incomplete middle_name)
      ∷ reject_if (is_blank draft.biodata.surname) (incomplete surname)
      ∷ reject_if (is_nil draft.biodata.date_of_birth) (incomplete date_of_birth)
      ∷ reject_if (is_blank draft.biodata.gender) (incomplete gender)
      ∷ reject_if (is_blank draft.biodata.state_of_origin) (incomplete state_of_origin)
      ∷ reject_if (is_blank draft.biodata.country_of_birth) (incomplete country_of_birth)
      ∷ reject_mobile (validate_nigerian_mobile_number draft.biodata.mobile_number true false).error
      ∷ reject_identifier university_matriculation_number (matriculation_error draft)
      ∷ reject_identifier nin (validate_nin_number draft.nin).error
      ∷ reject_identifier callup
          (validate_nysc_callup_number casing draft.callup.submitted_value).error
      ∷ reject_if (lacks_document draft.callup) (upload_first callup_document)
      ∷ reject_identifier state_code
          (validate_nysc_state_code casing draft.state_code.submitted_value).error
      ∷ reject_if (lacks_document draft.state_code) (upload_first state_code_document)
      ∷ []

  -- The draft that the function returns.
  unfoldable pub legal_draft : CorperVerificationDraft → CorperVerificationDraft
  legal_draft draft = record {
    biodata = record {
      first_name = trim draft.biodata.first_name;
      middle_name = trim draft.biodata.middle_name;
      surname = trim draft.biodata.surname;
      date_of_birth = draft.biodata.date_of_birth;
      gender = trim draft.biodata.gender;
      mobile_number =
          (validate_nigerian_mobile_number draft.biodata.mobile_number true false).normalized_value;
      state_of_origin = trim draft.biodata.state_of_origin;
      country_of_birth = trim draft.biodata.country_of_birth;
      university_matriculation_number =
          if is_blank draft.biodata.university_matriculation_number
          then []
          else (matriculation_of draft).normalized_value;
    };
    nin = (validate_nin_number draft.nin).normalized_value;
    callup = record {
      submitted_value =
          (validate_nysc_callup_number casing draft.callup.submitted_value).normalized_value;
      document = draft.callup.document;
      document_name = document_name_of draft.callup;
    };
    state_code = record {
      submitted_value =
          (validate_nysc_state_code casing draft.state_code.submitted_value).normalized_value;
      document = draft.state_code.document;
      document_name = document_name_of draft.state_code;
    };
  }

  abbrev pub normalized : Option LegalError → CorperVerificationDraft → Normalized
  normalized none draft = ready (legal_draft draft)
  normalized (some e) draft = refused e

  unfoldable pub normalize_for_legal_step : CorperVerificationDraft → Normalized
  normalize_for_legal_step draft = normalized (first_error (legal_checks draft)) draft

-- What a click on "Review terms & conditions" does with the page.
pub data Proceeding : Type 0 where
  lacking : List FieldKey → Proceeding
  invalid : LegalError → Proceeding
  going : CorperVerificationDraft → Proceeding

module _ (casing : Casing) where
  abbrev pub going_on : Normalized → Proceeding
  going_on (refused e) = invalid e
  going_on (ready draft) = going draft

  unfoldable pub proceed : CorperVerificationDraft → Proceeding
  proceed draft =
      if not (is_nil (get_missing_fields draft))
      then lacking (get_missing_fields draft)
      else going_on (normalize_for_legal_step casing draft)

-- `persistVerificationDraftForTerms`: the item that the storage has then.
module _ {Item : Type 0} (codec : DraftCodec Item) where
  unfoldable pub persist_draft_for_terms :
      CorperVerificationDraft → Option String → Option Item → Option Item
  persist_draft_for_terms draft none item = item
  persist_draft_for_terms draft (some email) item =
      if str_eq email ""
      then item
      else some (
          codec.stringify (record {
            owner_email = some email;
            biodata = draft.biodata;
            nin = draft.nin;
            callup = record {
              submitted_value = draft.callup.submitted_value;
              document_name = document_name_of draft.callup;
            };
            state_code = record {
              submitted_value = draft.state_code.submitted_value;
              document_name = document_name_of draft.state_code;
            };
          }))

-- `persistTermsNavigationSession`: the session that is stored, if there is one.
unfoldable pub terms_session : SessionState → SessionState
terms_session session = record session {
  user = record session.user {
    profile_path = some (codes "/corper/profile/terms");
    profile_completed = some false;
  };
}

-- The page that the click leads to.
abbrev pub terms_page : Text
terms_page = codes "/corper/profile/terms"
