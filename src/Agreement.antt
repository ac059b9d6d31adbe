-- ===== src/Agreement.antt =====
-- web/src/components/legal/legal-agreement-page.tsx: the submission of a corper's records and of the
-- accepted documents, and the message of an error. The server is a parameter.
pub mod Page
pub mod Messages
pub mod Submission
pub mod Settling
pub mod Reload
mod Tests
use corpershub_application.Base.{
  is_some, [], none, some, Option, String, List, Bool, Text, ◌∷◌, ◌&&◌, ◌||◌, not, true, false,
  if◌then◌else◌, str_eq, codes, filter, all, or_else, any, is_nil,
}
use corpershub_application.Session.{SessionState, SessionUser, is_status}
use corpershub_application.Api.Action.{Result, ok, err, Failure}
use corpershub_application.Draft.{CorperVerificationDraft, empty_draft, Upload}
use corpershub_application.Verification.{
  DocumentType, verification_documents, biodata, nin, callup, state_code,
}
use corpershub_application.Verification.Legal.{has_content}

-- The fields of the profile that the page reads.
pub record TermsProfile : Type 0 where
  pub verification_status : Option String
  pub is_complete : Bool
  pub terms_accepted : Bool
  pub nysc_callup_document : Option String
  pub nysc_state_code_document : Option String
  pub biodata_verification_status : Option String
  pub nin_verification_status : Option String
  pub nysc_callup_verification_status : Option String
  pub nysc_state_code_verification_status : Option String

abbrev pub status_of : TermsProfile → DocumentType → Option String
status_of profile biodata = profile.biodata_verification_status
status_of profile nin = profile.nin_verification_status
status_of profile callup = profile.nysc_callup_verification_status
status_of profile state_code = profile.nysc_state_code_verification_status

unfoldable pub corper_documents_already_verified : TermsProfile → Bool
corper_documents_already_verified profile =
    is_status profile.biodata_verification_status "verified"
    && is_status profile.nin_verification_status "verified"
    && is_status profile.nysc_callup_verification_status "verified"
    && is_status profile.nysc_state_code_verification_status "verified"

abbrev pub has_existing_status : Option String → Bool
has_existing_status none = false
has_existing_status (some status) = not (str_eq status "") && not (str_eq status "unsubmitted")

-- `Boolean(path)`
abbrev pub has_path : Option String → Bool
has_path none = false
has_path (some path) = not (str_eq path "")

-- The four `hasStored…Verification`.
unfoldable pub is_stored : TermsProfile → DocumentType → Bool
is_stored profile biodata = has_existing_status profile.biodata_verification_status
is_stored profile nin = has_existing_status profile.nin_verification_status
is_stored profile callup =
    has_existing_status profile.nysc_callup_verification_status
    || has_path profile.nysc_callup_document
is_stored profile state_code =
    has_existing_status profile.nysc_state_code_verification_status
    || has_path profile.nysc_state_code_document

-- What the page asks the server for.
pub data AgreementCall : Type 0 where
  load_profile : AgreementCall
  attempt : DocumentType → CorperVerificationDraft → AgreementCall
  accept : List Text → AgreementCall

-- What is thrown: the error of a request, or the demand to attach a document again.
pub data Trouble : Type 0 where
  request : Failure → Trouble
  reattach : DocumentType → Trouble

abbrev pub is_attached : Upload → Bool
is_attached upload = has_content upload.document

-- `document instanceof File`, whatever its size.
abbrev pub is_file : Upload → Bool
is_file upload = is_some upload.document

-- The two checks before anything is submitted.
unfoldable pub missing_document : TermsProfile → CorperVerificationDraft → Option Trouble
missing_document profile draft =
    if not (is_stored profile callup) && not (is_attached draft.callup)
    then some (reattach callup)
    else if not (is_stored profile state_code) && not (is_attached draft.state_code)
    then some (reattach state_code)
    else none

abbrev pub is_submittable : CorperVerificationDraft → DocumentType → Bool
is_submittable draft biodata = true
is_submittable draft nin = true
is_submittable draft callup = is_file draft.callup
is_submittable draft state_code = is_file draft.state_code

-- The conditions of the four submissions, in their order.
unfoldable pub attempts_needed : TermsProfile → CorperVerificationDraft → List DocumentType
attempts_needed profile draft =
    filter (λ type. not (is_stored profile type) && is_submittable draft type)
      verification_documents

-- What a step of the submission throws, if anything, and the calls so far, the latest first.
abbrev pub Attempted : Type 0
Attempted = Option Trouble × List AgreementCall

-- One `await` and what follows it where nothing is thrown.
abbrev pub chain : Attempted → (List AgreementCall → Attempted) → Attempted
chain (some trouble, sent) next = (some trouble, sent)
chain (none, sent) next = next sent

-- The server answers by what it was asked before; `is_already_verified` is the test of an error.
module _ (server : List AgreementCall → AgreementCall → Result TermsProfile)
    (is_already_verified : Failure → Bool) where
  abbrev pub thrown : Result TermsProfile → Option Trouble
  thrown (ok profile) = none
  thrown (err e) = if is_already_verified e then none else some (request e)

  -- Nothing is thrown where the record is verified already.
  unfoldable pub submit_verification_attempt :
      CorperVerificationDraft → DocumentType → List AgreementCall → Attempted
  submit_verification_attempt draft type sent =
      (thrown (server sent (attempt type draft)), attempt type draft ∷ sent)

  unfoldable pub submit_attempts :
      CorperVerificationDraft → List DocumentType → List AgreementCall → Attempted
  submit_attempts draft [] sent = (none, sent)
  submit_attempts draft (type ∷ types) sent =
      chain (submit_verification_attempt draft type sent) λ after. submit_attempts draft types after

  abbrev pub unless : Option Trouble → List AgreementCall → Attempted → Attempted
  unless (some trouble) sent rest = (some trouble, sent)
  unless none sent rest = rest

  abbrev pub submit_for : TermsProfile → CorperVerificationDraft → List AgreementCall → Attempted
  submit_for latest draft sent =
      let rest = submit_attempts draft (attempts_needed latest draft) sent in
      if corper_documents_already_verified latest
      then (none, sent)
      else unless (missing_document latest draft) sent rest

  abbrev loaded : Result TermsProfile → CorperVerificationDraft → List AgreementCall → Attempted
  loaded (err e) draft sent = (some (request e), sent)
  loaded (ok latest) draft sent = submit_for latest draft sent

  unfoldable pub submit_corper_verification_draft :
      CorperVerificationDraft → List AgreementCall → Attempted
  submit_corper_verification_draft draft sent =
      loaded (server sent load_profile) draft (load_profile ∷ sent)
