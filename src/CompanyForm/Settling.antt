-- ===== src/CompanyForm/Settling.antt =====
-- What the button of the form leaves behind.
use corpershub_application.Base.{none, some, refl, Option, Text, ◌≡◌, ◌⊎◌, inl, inr, false}
use corpershub_application.Session.{SessionState}
use corpershub_application.Api.Action.{Result, ok, err}
use corpershub_application.Identifiers.{Casing}
use corpershub_application.CompanyForm.{
  FormPayload, FormCodec, Submission, missing, bad_number, nameless, sends, check_form,
}
use corpershub_application.CompanyForm.Sending.{IsComplete, sends-IsComplete}
use corpershub_application.CompanyForm.Page.{
  SavedProfile, FormPage, Notice, handle_submit, submitted, saved, saved_session, next_page,
}

-- A notice is shown; the values, the stored copy, the session and the page are as before.
abbrev pub IsKept : {Item : Type 0} → FormPage Item → FormPage Item → Type 0
IsKept before after =
    ((notice : Notice) × (after.notice ≡ some notice))
    × (after.form_values ≡ before.form_values)
    × (after.item ≡ before.item)
    × (after.session ≡ before.session)
    × (after.redirect ≡ before.redirect)

abbrev pub LeadsTo : Text → Option SessionState → Type 0
LeadsTo path none = Unit
LeadsTo path (some session) = session.user.profile_path ≡ some path

-- A complete payload was accepted; the stored copy is gone, and the page that the visitor is led to is
-- the one of the session.
abbrev pub IsSaved : {Item : Type 0} → (FormPayload → Result SavedProfile) → FormPage Item → Type 0
IsSaved server after =
    (payload : FormPayload) × (profile : SavedProfile) × (path : Text) × (IsComplete payload
      × (server payload ≡ ok profile)
      × (after.item ≡ none)
      × (after.should_persist ≡ false)
      × (after.redirect ≡ some path)
      × LeadsTo path after.session)

module _ (casing : Casing) {Item : Type 0} (codec : FormCodec Item)
    (server : FormPayload → Result SavedProfile) where
  saved_session-LeadsTo :
      (profile : SavedProfile) (session : Option SessionState)
      → LeadsTo (next_page casing codec profile) (saved_session casing codec profile session)
  saved_session-LeadsTo profile none = tt
  saved_session-LeadsTo profile (some session) = refl

  saved_settles :
      (r : Result SavedProfile) (payload : FormPayload) (page : FormPage Item)
      → server payload ≡ r
      → IsComplete payload
      → IsKept page (saved casing codec r page) ⊎ IsSaved server (saved casing codec r page)
  saved_settles (err e) payload page same complete =
      inl ((Notice.failed e, refl), refl, refl, refl, refl)
  saved_settles (ok profile) payload page same complete = inr (
    payload,
    profile,
    next_page casing codec profile,
    (complete, same, refl, refl, refl, saved_session-LeadsTo profile page.session),
  )

  submitted_settles :
      (submission : Submission) (page : FormPage Item)
      → ((payload : FormPayload) → submission ≡ sends payload → IsComplete payload)
      → IsKept page (submitted casing codec server submission page)
        ⊎ IsSaved server (submitted casing codec server submission page)
  submitted_settles (missing keys) page complete =
      inl ((Notice.refused (missing keys), refl), refl, refl, refl, refl)
  submitted_settles (bad_number key e) page complete =
      inl ((Notice.refused (bad_number key e), refl), refl, refl, refl, refl)
  submitted_settles nameless page complete =
      inl ((Notice.refused nameless, refl), refl, refl, refl, refl)
  submitted_settles (sends payload) page complete =
      saved_settles (server payload) payload page refl (complete payload refl)

  -- The button ends in one of two ways, whatever the form has and the server answers: a notice is
  -- shown, and the values, the stored copy, the session and the page are as before; or a payload in
  -- which every field is there and the numbers have their form was accepted, the stored copy is gone
  -- and stays so, and the visitor is led to the page that the session has from then on.
  pub handle_submit_settles :
      (page : FormPage Item)
      → IsKept page (handle_submit casing codec server page)
        ⊎ IsSaved server (handle_submit casing codec server page)
  unfolding handle_submit
  handle_submit_settles page =
      submitted_settles (check_form casing page.form_values) page
        λ payload h. sends-IsComplete casing page.form_values payload h
