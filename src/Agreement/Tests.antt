-- ===== src/Agreement/Tests.antt =====
-- A concrete server, draft and errors, and the properties applied to them.
use corpershub_application.Base.{
  [], none, some, refl, true, false, Bool, List, Text, ◌∷◌, ◌≡◌, ◌⊎◌, codes, trim, is_space,
  drop_while, drop_end,
}
use corpershub_application.Fixtures.{ada_session}
use corpershub_application.Draft.{empty_draft, own_draft, set_draft}
use corpershub_application.Draft.Sample.{plain, opened, edited}
use corpershub_application.Api.Json.{Json, str, arr, obj, nil, cons, end, field}
use corpershub_application.Api.Action.{Result, ok, err, api, Failure}
use corpershub_application.Verification.{callup}
use corpershub_application.Agreement.{
  TermsProfile, AgreementCall, load_profile, attempt, accept, reattach,
  submit_corper_verification_draft, is_stored, corper_documents_already_verified,
}
use corpershub_application.Agreement.Page.{AgreementPage, submit_terms}
use corpershub_application.Agreement.Submission.{IsSubmission, submit_orderly}
use corpershub_application.Agreement.Settling.{
  IsStopped, IsAgreed, submitted_first, submit_terms_settles,
}
use corpershub_application.Agreement.Reload.{reloaded_reattaches}
use corpershub_application.Agreement.Messages.{
  extract_nested_error_message, is_already_verified_verification_error,
}

abbrev half_stored : TermsProfile
half_stored = record {
  verification_status = some "pending";
  is_complete = false;
  terms_accepted = false;
  nysc_callup_document = none;
  nysc_state_code_document = some "/media/code.pdf";
  biodata_verification_status = some "pending";
  nin_verification_status = none;
  nysc_callup_verification_status = some "unsubmitted";
  nysc_state_code_verification_status = none;
}

abbrev verified_already : Failure
verified_already =
    api (codes "Bad request") 400
      (obj (field "errors" (arr (cons (str (codes "NIN has already been verified.")) nil)) end))

-- The record of the NIN is refused, since it is verified; everything else is accepted.
abbrev server : List AgreementCall → AgreementCall → Result TermsProfile
server sent load_profile = ok half_stored
server sent (attempt callup draft) = ok half_stored
server sent (attempt type draft) = err verified_already
server sent (accept slugs) = ok half_stored

abbrev is_done : Failure → Bool
is_done e =
    is_already_verified_verification_error (codes "Failed to fetch") (codes "Unexpected token") e

abbrev page : AgreementPage
page = record {
  sent = [];
  session = some ada_session;
  draft = edited;
  redirect = none;
  shown_error = none;
  is_submitting = false;
}

submit_orderly_example :
    IsSubmission server is_done half_stored edited
      (load_profile ∷ [])
      (submit_corper_verification_draft server is_done edited [])
submit_orderly_example = submit_orderly server is_done edited [] half_stored refl

abbrev slugs : List Text
slugs = codes "terms" ∷ []

submit_terms_settles_example :
    ((submit_terms server is_done false (λ s. true) (λ s. false) false slugs page).is_submitting
      ≡ false)
    × (IsStopped page (submit_terms server is_done false (λ s. true) (λ s. false) false slugs page)
        ⊎ IsAgreed false slugs
            (submitted_first server is_done false false page)
            page
            (submit_terms server is_done false (λ s. true) (λ s. false) false slugs page))
submit_terms_settles_example =
    submit_terms_settles server is_done false (λ s. true) (λ s. false) false slugs page refl

not_verified : corper_documents_already_verified half_stored ≡ false
unfolding corper_documents_already_verified
not_verified = refl

not_stored : is_stored half_stored callup ≡ false
unfolding is_stored
not_stored = refl

reloaded_reattaches_example :
    submit_corper_verification_draft server is_done
      (own_draft plain (some "ada@example.com") (record {
        draft = empty_draft;
        hydrated = false;
        item = (set_draft plain (some "ada@example.com") edited opened).item;
      })).draft
      []
    ≡ (some (reattach callup), load_profile ∷ [])
reloaded_reattaches_example =
    reloaded_reattaches server is_done plain "ada@example.com" opened edited [] half_stored refl
      refl refl not_verified not_stored

abbrev nested_body : Json
nested_body =
    obj (field "attempt" (obj (field "review_note" (str (codes " The NIN is wrong. ")) end)) end)

nested_found : extract_nested_error_message nested_body ≡ codes "The NIN is wrong."
unfolding extract_nested_error_message trim is_space drop_while drop_end
nested_found = refl
