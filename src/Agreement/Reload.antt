-- ===== src/Agreement/Reload.antt =====
-- After a reload the files of a draft are gone, and the submission asks for them before it sends any.
use corpershub_application.Base.{some, refl, List, Bool, ◌∷◌, ◌≡◌, false, true}
use corpershub_application.Api.Action.{Result, ok, Failure}
use corpershub_application.Draft.{
  CorperVerificationDraft, empty_draft, Provider, DraftCodec, own_draft, set_draft,
}
use corpershub_application.Draft.Owner.{kept, draft_returns}
use corpershub_application.Verification.{callup}
use corpershub_application.Agreement.{
  TermsProfile, AgreementCall, load_profile, reattach, corper_documents_already_verified, is_stored,
  missing_document, submit_corper_verification_draft, String, str_eq, true,
}

module _ (server : List AgreementCall → AgreementCall → Result TermsProfile)
    (is_already_verified : Failure → Bool) where
  kept_reattaches :
      (draft : CorperVerificationDraft) (sent : List AgreementCall) (latest : TermsProfile)
      → server sent load_profile ≡ ok latest
      → corper_documents_already_verified latest ≡ false
      → is_stored latest callup ≡ false
      → submit_corper_verification_draft server is_already_verified (kept draft) sent
        ≡ (some (reattach callup), load_profile ∷ sent)
  unfolding submit_corper_verification_draft missing_document
  kept_reattaches draft sent latest h v s = rw (h, v, s) refl

  -- A draft that was edited, and that the page reads anew from the storage, is not submitted where the
  -- server has neither the call-up document nor a status for it, and the records are not all verified:
  -- the document is asked for, and nothing is sent but the request of the profile. The email is not
  -- empty, the provider has read the storage before the edit, and the profile can be loaded.
  pub reloaded_reattaches :
      {Item : Type 0} (codec : DraftCodec Item) (email : String) (provider : Provider Item)
      (draft : CorperVerificationDraft) (sent : List AgreementCall) (latest : TermsProfile)
      → str_eq email "" ≡ false
      → provider.hydrated ≡ true
      → server sent load_profile ≡ ok latest
      → corper_documents_already_verified latest ≡ false
      → is_stored latest callup ≡ false
      → submit_corper_verification_draft server is_already_verified
          (own_draft codec (some email) (record {
            draft = empty_draft;
            hydrated = false;
            item = (set_draft codec (some email) draft provider).item;
          })).draft
          sent
        ≡ (some (reattach callup), load_profile ∷ sent)
  reloaded_reattaches codec email provider draft sent latest known ready h v s =
      rw (draft_returns codec email known provider ready draft)
        (kept_reattaches draft sent latest h v s)
