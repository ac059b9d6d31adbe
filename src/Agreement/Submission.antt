-- ===== src/Agreement/Submission.antt =====
-- What the submission of a corper's records sends, and when.
use corpershub_application.Base.{
  is_some, [], none, some, refl, arith, inl, inr, Option, List, Bool, ◌∷◌, ◌++◌, ◌≡◌, ◌⊎◌, true,
  false, not, ◌&&◌, filter, Bool-cases,
}
use corpershub_application.Api.Action.{Result, ok, Failure}
use corpershub_application.Draft.{File, CorperVerificationDraft}
use corpershub_application.Verification.{
  DocumentType, biodata, nin, callup, state_code, verification_documents,
}
use corpershub_application.Verification.Legal.{has_content}
use corpershub_application.Agreement.{
  TermsProfile, AgreementCall, attempt, load_profile, Trouble, reattach, Attempted, chain,
  submit_attempts, submit_verification_attempt, submit_corper_verification_draft, submit_for,
  missing_document, attempts_needed, is_stored, is_attached, is_submittable,
  corper_documents_already_verified, err, thrown, request,
}

-- The calls that submit these records, the latest first, before those that are made already.
abbrev pub attempts_made :
    CorperVerificationDraft → List DocumentType → List AgreementCall → List AgreementCall
attempts_made draft [] sent = sent
attempts_made draft (type ∷ types) sent = attempts_made draft types (attempt type draft ∷ sent)

-- The records that the server does not have.
abbrev pub unstored : TermsProfile → List DocumentType
unstored profile = filter (λ type. not (is_stored profile type)) verification_documents

-- So far as the records come, in their order, and all of them where nothing is thrown.
abbrev pub IsProgress :
    CorperVerificationDraft → List DocumentType → List AgreementCall → Attempted → Type 0
IsProgress draft types sent (trouble, after) =
    (made : List DocumentType) × (rest : List DocumentType) × ((types ≡ made ++ rest)
      × (after ≡ attempts_made draft made sent)
      × ((rest ≡ []) ⊎ ((t : Trouble) × (trouble ≡ some t))))

filter_ext :
    {A : Type 0} (p q : A → Bool)
    → ((x : A) → p x ≡ q x)
    → (xs : List A) → filter p xs ≡ filter q xs
filter_ext p q h [] = refl
filter_ext p q h (x ∷ xs) = rw (h x, filter_ext p q h xs) refl

content_file : (document : Option File) → has_content document ≡ true → is_some document ≡ true
content_file none h = cc
content_file (some file) h = refl

-- Where no document is missing, every record that the server does not have is submitted.
needed_unstored :
    (profile : TermsProfile) (draft : CorperVerificationDraft)
    → (not (is_stored profile callup) && not (is_attached draft.callup)) ≡ false
    → (not (is_stored profile state_code) && not (is_attached draft.state_code)) ≡ false
    → attempts_needed profile draft ≡ unstored profile
unfolding attempts_needed
needed_unstored profile draft a b =
    filter_ext (λ type. not (is_stored profile type) && is_submittable draft type)
      (λ type. not (is_stored profile type)) needed verification_documents
  where
    needed :
        (type : DocumentType)
        → (not (is_stored profile type) && is_submittable draft type) ≡ not (is_stored profile type)
    needed biodata = ground arith
    needed nin = ground arith
    needed callup = ground (arith, content_file draft.callup.document)
    needed state_code = ground (arith, content_file draft.state_code.document)

-- A document that the server does not have and the draft has lost.
abbrev pub IsLost : TermsProfile → CorperVerificationDraft → DocumentType → Type 0
IsLost profile draft callup =
    (is_stored profile callup ≡ false) × (is_attached draft.callup ≡ false)
IsLost profile draft state_code =
    (is_stored profile state_code ≡ false) × (is_attached draft.state_code ≡ false)
IsLost profile draft _ = ⊥

module _ (server : List AgreementCall → AgreementCall → Result TermsProfile)
    (is_already_verified : Failure → Bool) where
  -- An answer behind which the next record is submitted.
  abbrev pub Passes : Result TermsProfile → Type 0
  Passes (ok profile) = Unit
  Passes (err e) = is_already_verified e ≡ true

  -- What the answers make of it: a record that was taken, or that is verified already, is followed by
  -- the next; any other error is thrown.
  pub data Answered (draft : CorperVerificationDraft)
      : List DocumentType → List AgreementCall → Attempted → Type 0 where
    all_taken : {sent : List AgreementCall} → Answered draft [] sent (none, sent)
    taken :
        {type : DocumentType} {types : List DocumentType} {sent : List AgreementCall}
        {done : Attempted}
        → Passes (server sent (attempt type draft))
        → Answered draft types (attempt type draft ∷ sent) done
        → Answered draft (type ∷ types) sent done
    turned_down :
        {type : DocumentType} {types : List DocumentType} {sent : List AgreementCall} (e : Failure)
        → server sent (attempt type draft) ≡ err e
        → is_already_verified e ≡ false
        → Answered draft (type ∷ types) sent (some (request e), attempt type draft ∷ sent)

  -- What a submission comes to, by what the server has.
  abbrev pub IsSubmission :
      TermsProfile → CorperVerificationDraft → List AgreementCall → Attempted → Type 0
  IsSubmission latest draft sent done =
      ((corper_documents_already_verified latest ≡ true) × (done ≡ (none, sent)))
      ⊎ ((type : DocumentType) × (IsLost latest draft type × (done ≡ (some (reattach type), sent))))
      ⊎ (IsProgress draft (unstored latest) sent done × Answered draft (unstored latest) sent done)

  chained :
      (draft : CorperVerificationDraft) (type : DocumentType) (types : List DocumentType)
      (sent : List AgreementCall) (trouble : Option Trouble)
      → IsProgress draft types
          (attempt type draft ∷ sent)
          (submit_attempts server is_already_verified draft types (attempt type draft ∷ sent))
      → IsProgress draft (type ∷ types) sent (
          chain
            (trouble, attempt type draft ∷ sent)
            λ after. submit_attempts server is_already_verified draft types after)
  chained draft type types sent (some t) h = (type ∷ [], types, (refl, refl, inr (t, refl)))
  chained draft type types sent none (made, rest, (a, b, c)) =
      (type ∷ made, rest, (rw a refl, b, c))

  submit_attempts-IsProgress :
      (draft : CorperVerificationDraft) (types : List DocumentType) (sent : List AgreementCall)
      → IsProgress draft types sent (submit_attempts server is_already_verified draft types sent)
  unfolding submit_attempts submit_verification_attempt
  submit_attempts-IsProgress draft [] sent = ([], [], (refl, refl, inl refl))
  submit_attempts-IsProgress draft (type ∷ types) sent =
      chained draft type types sent _
        (submit_attempts-IsProgress draft types (attempt type draft ∷ sent))

  answered :
      (draft : CorperVerificationDraft) (type : DocumentType) (types : List DocumentType)
      (sent : List AgreementCall) (reply : Result TermsProfile)
      → server sent (attempt type draft) ≡ reply
      → Answered draft types
          (attempt type draft ∷ sent)
          (submit_attempts server is_already_verified draft types (attempt type draft ∷ sent))
      → Answered draft (type ∷ types) sent (
          chain
            (thrown server is_already_verified reply, attempt type draft ∷ sent)
            λ after. submit_attempts server is_already_verified draft types after)
  answered draft type types sent (ok profile) e h = taken (rw e tt) h
  answered draft type types sent (err f) e h = elim (Bool-cases (is_already_verified f)) [
    | inl k ↦ rw k (taken (rw e k) h)
    | inr k ↦ rw k (turned_down f e k)
  ]

  submit_attempts-Answered :
      (draft : CorperVerificationDraft) (types : List DocumentType) (sent : List AgreementCall)
      → Answered draft types sent (submit_attempts server is_already_verified draft types sent)
  unfolding submit_attempts submit_verification_attempt
  submit_attempts-Answered draft [] sent = all_taken
  submit_attempts-Answered draft (type ∷ types) sent =
      answered draft type types sent (server sent (attempt type draft)) refl
        (submit_attempts-Answered draft types (attempt type draft ∷ sent))

  submit_for-IsSubmission :
      (latest : TermsProfile) (draft : CorperVerificationDraft) (sent : List AgreementCall)
      → IsSubmission latest draft sent (submit_for server is_already_verified latest draft sent)
  unfolding missing_document
  submit_for-IsSubmission latest draft sent =
      elim (Bool-cases (corper_documents_already_verified latest)) [
        | inl v ↦ rw v (inl (refl, refl))
        | inr v ↦
            elim (Bool-cases (not (is_stored latest callup) && not (is_attached draft.callup))) [
              | inl a ↦ rw (v, a) (inr (inl (callup, ((ground arith, ground arith), refl))))
              | inr a ↦
                  elim (Bool-cases
                    (not (is_stored latest state_code) && not (is_attached draft.state_code))) [
                      | inl b ↦
                          rw (v, a, b)
                            (inr (inl (state_code, ((ground arith, ground arith), refl))))
                      | inr b ↦
                          rw (v, a, b, needed_unstored latest draft a b)
                            (inr (
                              inr (
                                submit_attempts-IsProgress draft (unstored latest) sent,
                                submit_attempts-Answered draft (unstored latest) sent,
                              )))
                    ]
            ]
      ]

  -- Where the profile can be loaded, the submission of a draft comes to one of three: the records are
  -- verified and nothing is sent; a document that the server does not have is not attached, which is
  -- thrown before anything is sent; or the records that the server does not have are submitted in
  -- their order, each at most once, up to the first that throws, and all of them if none does. An
  -- error throws exactly if it does not say that the record is verified already.
  pub submit_orderly :
      (draft : CorperVerificationDraft) (sent : List AgreementCall) (latest : TermsProfile)
      → server sent load_profile ≡ ok latest
      → IsSubmission latest draft
          (load_profile ∷ sent)
          (submit_corper_verification_draft server is_already_verified draft sent)
  unfolding submit_corper_verification_draft
  submit_orderly draft sent latest h =
      rw h (submit_for-IsSubmission latest draft (load_profile ∷ sent))
