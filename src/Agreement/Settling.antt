-- ===== src/Agreement/Settling.antt =====
-- What a click on the button of the agreements leaves behind.
use corpershub_application.Base.{
  none, some, refl, inl, inr, Option, List, Bool, Text, ◌∷◌, ◌≡◌, ◌⊎◌, true, false, not, ◌&&◌,
  if◌then◌else◌,
}
use corpershub_application.Session.{SessionState}
use corpershub_application.Api.Action.{Result, ok, err, Failure}
use corpershub_application.Draft.{empty_draft}
use corpershub_application.Agreement.{
  TermsProfile, AgreementCall, accept, Trouble, request, Attempted,
  submit_corper_verification_draft,
}
use corpershub_application.Agreement.Page.{
  AgreementPage, submit_terms, all_documents_checked, accepted_after, agreed, session_after,
  resolve_success_redirect,
}

-- The session leads to the page, if there is one.
abbrev pub LeadsTo : Text → Option SessionState → Type 0
LeadsTo path none = Unit
LeadsTo path (some session) = session.user.profile_path ≡ some path

-- The page shows a trouble, and nothing else has changed but the calls.
abbrev pub IsStopped : AgreementPage → AgreementPage → Type 0
IsStopped before after =
    ((trouble : Trouble) × (after.shown_error ≡ some trouble))
    × (after.session ≡ before.session)
    × (after.draft ≡ before.draft)
    × (after.redirect ≡ before.redirect)

-- The acceptance was the last call, behind a submission that threw nothing; the visitor is led to the
-- page that the session has from now on, and the draft of a corper is gone.
abbrev pub IsAgreed : Bool → List Text → Attempted → AgreementPage → AgreementPage → Type 0
IsAgreed is_company slugs first before after =
    (path : Text) × (sent : List AgreementCall) × ((first ≡ (none, sent))
      × (after.sent ≡ accept slugs ∷ sent)
      × (after.redirect ≡ some path)
      × LeadsTo path after.session
      × (after.draft ≡ (if is_company then before.draft else empty_draft)))

-- What is submitted before the acceptance.
abbrev pub submitted_first :
    (server : List AgreementCall → AgreementCall → Result TermsProfile)
    (is_already_verified : Failure → Bool)
    → Bool
    → Bool
    → AgreementPage
    → Attempted
submitted_first server is_already_verified is_company terms_accepted page =
    if not is_company && not terms_accepted
    then submit_corper_verification_draft server is_already_verified page.draft page.sent
    else (none, page.sent)

module _ (server : List AgreementCall → AgreementCall → Result TermsProfile)
    (is_already_verified : Failure → Bool) (is_company : Bool) where
  session_after-LeadsTo :
      (updated : TermsProfile) (session : Option SessionState)
      → LeadsTo
          (resolve_success_redirect is_company updated)
          (session_after is_company updated session)
  session_after-LeadsTo updated none = tt
  session_after-LeadsTo updated (some session) = refl

  agreed_settles :
      (r : Result TermsProfile) (slugs : List Text) (sent : List AgreementCall)
      (page : AgreementPage)
      → ((agreed server is_already_verified is_company r (accept slugs ∷ sent) page).is_submitting
          ≡ false)
        × (IsStopped page
              (agreed server is_already_verified is_company r (accept slugs ∷ sent) page)
            ⊎ IsAgreed is_company slugs
                (none, sent)
                page
                (agreed server is_already_verified is_company r (accept slugs ∷ sent) page))
  agreed_settles (err e) slugs sent page = (refl, inl ((request e, refl), refl, refl, refl))
  agreed_settles (ok updated) slugs sent page = (
    refl,
    inr (
      resolve_success_redirect is_company updated,
      sent,
      (refl, refl, refl, session_after-LeadsTo updated page.session, refl),
    ),
  )

  accepted_settles :
      (first : Attempted) (slugs : List Text) (page : AgreementPage)
      → ((accepted_after server is_already_verified is_company first slugs page).is_submitting
          ≡ false)
        × (IsStopped page (accepted_after server is_already_verified is_company first slugs page)
            ⊎ IsAgreed is_company slugs first page
                (accepted_after server is_already_verified is_company first slugs page))
  accepted_settles (some trouble, sent) slugs page = (refl, inl ((trouble, refl), refl, refl, refl))
  accepted_settles (none, sent) slugs page =
      agreed_settles (server sent (accept slugs)) slugs sent page

  -- Where every document is agreed to, a click on the button ends with the button free again, in one
  -- of two ways: an error is shown, and the session, the draft and the page are as before; or the
  -- last call was the acceptance, behind a submission of the records that threw nothing, the visitor
  -- is led to the page that the session has from then on, and a corper's draft is gone.
  pub submit_terms_settles :
      (checked accepted : Text → Bool) (terms_accepted : Bool) (slugs : List Text)
      (page : AgreementPage)
      → all_documents_checked checked accepted slugs ≡ true
      → ((submit_terms server is_already_verified is_company checked accepted terms_accepted slugs
            page).is_submitting
          ≡ false)
        × (IsStopped page (
              submit_terms server is_already_verified is_company checked accepted terms_accepted
                slugs page)
            ⊎ IsAgreed is_company slugs
                (submitted_first server is_already_verified is_company terms_accepted page)
                page
                (submit_terms server is_already_verified is_company checked accepted terms_accepted
                  slugs page))
  unfolding submit_terms
  submit_terms_settles checked accepted terms_accepted slugs page h = rw h (
      accepted_settles (submitted_first server is_already_verified is_company terms_accepted page)
        slugs page)
