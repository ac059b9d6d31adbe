-- ===== src/Verification.antt =====
-- web/src/app/corper/verification/page.tsx: the state of a corper's four records, the attempts, and
-- what the page writes into the session. `toLowerCase` beyond ASCII is a parameter.
pub mod Legal
pub mod Status
pub mod Attempts
pub mod Fields
pub mod Stable
pub mod Handover
pub mod Reading
pub mod Staying
pub mod Labels
pub mod Sample
mod Tests
use corpershub_application.Base.{
  ℕ, [], none, some, List, String, Bool, Text, Option, find, ◌&&◌, ◌∷◌, not, ◌*◌, all, codes, leb,
  text_eq, length, ◌==◌, if◌then◌else◌, str_eq, ◌≡◌, filter, ◌||◌, ◌/◌, true,
}
use corpershub_application.Session.{SessionState, is_true}
use corpershub_application.Shell.{CorperStatusSummary, flag_is, path_is}

pub data DocumentType : Type 0 where
  biodata nin callup state_code : DocumentType

abbrev pub verification_documents : List DocumentType
verification_documents = biodata ∷ nin ∷ callup ∷ state_code ∷ []

-- ASCII without the capitals.
abbrev pub is_small : ℕ → Bool
is_small c = leb c 127 && not (leb 65 c && leb c 90)

pub record Lowering : Type 0 where
  pub to_lower_case : Text → Text
  pub lower_fixed : (s : Text) → all is_small s ≡ true → to_lower_case s ≡ s

pub record Attempt : Type 0 where
  pub id : String
  pub verification_type : String
  pub status : Text
  pub created_at : String

abbrev pub unsubmitted : Text
unsubmitted = codes "unsubmitted"

abbrev pub status_field : CorperStatusSummary → DocumentType → String
status_field profile biodata = profile.biodata_verification_status
status_field profile nin = profile.nin_verification_status
status_field profile callup = profile.nysc_callup_verification_status
status_field profile state_code = profile.nysc_state_code_verification_status

-- `profile?.… ?? "unsubmitted"`
unfoldable pub get_document_status : Option CorperStatusSummary → DocumentType → Text
get_document_status none type = unsubmitted
get_document_status (some profile) type = codes (status_field profile type)

abbrev pub type_name : DocumentType → String
type_name biodata = "biodata"
type_name nin = "nin"
type_name callup = "callup"
type_name state_code = "state_code"

-- `isDocumentVerificationType`, with the type that the text names.
unfoldable pub document_type_of : String → Option DocumentType
document_type_of value = find (λ type. str_eq (type_name type) value) verification_documents

abbrev pub can_submit_document : Text → Bool
can_submit_document status = not (text_eq status (codes "verified"))

module _ (lowering : Lowering) where
  unfoldable pub normalize_status : Text → Text
  normalize_status status =
      let lower = lowering.to_lower_case status in
      if text_eq lower (codes "approved")
      then codes "verified"
      else if text_eq lower (codes "under_review")
      then codes "pending"
      else lower

  unfoldable pub is_verified_status : Text → Bool
  is_verified_status status = text_eq (normalize_status status) (codes "verified")

  abbrev pub display_for : Option CorperStatusSummary → Text → Option DocumentType → Text
  display_for profile status none = status
  display_for profile status (some type) =
      if not (text_eq (normalize_status status) (codes "pending"))
      then status
      else if is_verified_status (get_document_status profile type)
      then get_document_status profile type
      else status

  unfoldable pub get_attempt_display_status : Option CorperStatusSummary → Attempt → Text
  get_attempt_display_status profile attempt =
      display_for profile attempt.status (document_type_of attempt.verification_type)

  unfoldable pub completed_documents_count : Option CorperStatusSummary → ℕ
  completed_documents_count profile = length (
      filter (λ type. is_verified_status (get_document_status profile type)) verification_documents)

  unfoldable pub documents_verified : Option CorperStatusSummary → Bool
  documents_verified profile = completed_documents_count profile == length verification_documents

  -- `Math.round((count / 4) * 100)`: a multiple of 25, so nothing is rounded.
  unfoldable pub progress_percent : Option CorperStatusSummary → ℕ
  progress_percent profile = completed_documents_count profile * 100 / length verification_documents

  abbrev pub next_profile_path : CorperStatusSummary → Text
  next_profile_path profile =
      if documents_verified (some profile)
      then (if profile.terms_accepted
          then codes "/corper/profile"
          else codes "/corper/profile/terms")
      else codes "/corper/verification"

  abbrev pub next_profile_completed : CorperStatusSummary → Bool
  next_profile_completed profile = documents_verified (some profile) && profile.is_complete

  abbrev pub with_profile : SessionState → CorperStatusSummary → SessionState
  with_profile session profile = record session {
    user = record session.user {
      profile_path = some (next_profile_path profile);
      profile_completed = some (next_profile_completed profile);
    };
  }

  -- The effect that writes the profile into the session of a corper; null where it has it already.
  unfoldable pub sync_verification : SessionState → CorperStatusSummary → Option SessionState
  sync_verification session profile =
      if not (path_is session.user.profile_path (next_profile_path profile))
        || not (flag_is session.user.profile_completed (next_profile_completed profile))
      then some (with_profile session profile)
      else none

unfoldable pub get_next_step : Bool → Option Bool → Text
get_next_step verified is_complete =
    if not verified
    then codes "Submit all documents"
    else if not (is_true is_complete)
    then codes "Complete your profile"
    else codes "Profile ready"

-- `sort` by the time of creation, the latest first: equal times keep their order.
module _ (time_of : String → ℕ) where
  unfoldable pub insert_attempt : Attempt → List Attempt → List Attempt
  insert_attempt a [] = a ∷ []
  insert_attempt a (b ∷ rest) =
      let later = insert_attempt a rest in
      if leb (time_of b.created_at) (time_of a.created_at) then a ∷ b ∷ rest else b ∷ later

  unfoldable pub sort_attempts : List Attempt → List Attempt
  sort_attempts [] = []
  sort_attempts (a ∷ rest) = insert_attempt a (sort_attempts rest)

  unfoldable pub latest_attempt : DocumentType → List Attempt → Option Attempt
  latest_attempt type attempts =
      find (λ attempt. str_eq attempt.verification_type (type_name type)) (sort_attempts attempts)
