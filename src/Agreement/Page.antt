-- ===== src/Agreement/Page.antt =====
-- The page of the agreements as a state, and a click on its button. The reload of the profile behind
-- an error is left out.
use corpershub_application.Base.{
  String, none, some, Option, List, Bool, Text, ◌∷◌, ◌&&◌, ◌||◌, not, false, if◌then◌else◌, codes,
  all,
}
use corpershub_application.Session.{SessionState}
use corpershub_application.Api.Action.{Result, ok, err, Failure}
use corpershub_application.Draft.{CorperVerificationDraft, empty_draft}
use corpershub_application.Agreement.{
  TermsProfile, AgreementCall, accept, Trouble, request, Attempted,
  corper_documents_already_verified, submit_corper_verification_draft,
}

-- What the page changes: the calls, the session of the provider, the draft of its provider, the page
-- that it leads to, the trouble that it shows, and the button.
pub record AgreementPage : Type 0 where
  pub sent : List AgreementCall
  pub session : Option SessionState
  pub draft : CorperVerificationDraft
  pub redirect : Option Text
  pub shown_error : Option Trouble
  pub is_submitting : Bool

unfoldable pub resolve_success_redirect : Bool → TermsProfile → Text
resolve_success_redirect is_company profile =
    if is_company
    then codes "/company/profile"
    else if corper_documents_already_verified profile
    then codes "/corper/profile"
    else codes "/corper/verification"

abbrev pub profile_completed_of : Bool → TermsProfile → Bool
profile_completed_of is_company profile =
    if is_company
    then profile.is_complete
    else corper_documents_already_verified profile && profile.is_complete

abbrev pub status_kept : Option String → Option (Option String) → Option (Option String)
status_kept none old = old
status_kept (some status) old = some (some status)

-- The session that is handed to the provider.
abbrev pub agreed_session : Bool → TermsProfile → SessionState → SessionState
agreed_session is_company profile session = record session {
  user = record session.user {
    profile_completed = some (profile_completed_of is_company profile);
    profile_path = some (resolve_success_redirect is_company profile);
    company_verification_status =
        status_kept profile.verification_status session.user.company_verification_status;
  };
}

abbrev pub session_after : Bool → TermsProfile → Option SessionState → Option SessionState
session_after is_company profile none = none
session_after is_company profile (some session) = some (agreed_session is_company profile session)

-- A document is agreed to, by its box or by an earlier acceptance.
abbrev pub all_documents_checked : (Text → Bool) → (Text → Bool) → List Text → Bool
all_documents_checked checked accepted slugs = all (λ slug. checked slug || accepted slug) slugs

module _ (server : List AgreementCall → AgreementCall → Result TermsProfile)
    (is_already_verified : Failure → Bool) (is_company : Bool) where
  abbrev pub failed_with : Trouble → List AgreementCall → AgreementPage → AgreementPage
  failed_with trouble sent page = record page {
    sent = sent;
    shown_error = some trouble;
    is_submitting = false;
  }

  -- What follows the answer to the acceptance.
  abbrev pub agreed : Result TermsProfile → List AgreementCall → AgreementPage → AgreementPage
  agreed (err e) sent page = failed_with (request e) sent page
  agreed (ok updated) sent page = record page {
    sent = sent;
    session = session_after is_company updated page.session;
    draft = if is_company then page.draft else empty_draft;
    redirect = some (resolve_success_redirect is_company updated);
    is_submitting = false;
  }

  abbrev pub accepted_after : Attempted → List Text → AgreementPage → AgreementPage
  accepted_after (some trouble, sent) slugs page = failed_with trouble sent page
  accepted_after (none, sent) slugs page =
      agreed (server sent (accept slugs)) (accept slugs ∷ sent) page

  -- `profile.data?.terms_accepted` is the third argument.
  unfoldable pub submit_terms :
      (checked accepted : Text → Bool) → Bool → List Text → AgreementPage → AgreementPage
  submit_terms checked accepted terms_accepted slugs page =
      let draft_first =
        submit_corper_verification_draft server is_already_verified page.draft page.sent in
      if not (all_documents_checked checked accepted slugs)
      then page
      else accepted_after
          (if not is_company && not terms_accepted then draft_first else (none, page.sent)) slugs
          page
