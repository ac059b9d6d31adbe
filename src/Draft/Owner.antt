-- ===== src/Draft/Owner.antt =====
-- A draft comes back to its owner and to nobody else.
use corpershub_application.Base.{
  none, some, str_eq_iff, Option, String, ◌≡◌, str_eq, false, true, refl, ◌∙◌,
}
use corpershub_application.Draft.{
  DraftCodec, CorperVerificationDraft, deserialize_draft, Upload, save_draft, serialize_draft,
  same_owner, name_of, empty_draft, Provider, set_draft, own_draft, load_draft,
}

-- The draft without its files: their names stay.
abbrev without_file : Upload → Upload
without_file upload = record upload {
  document = none;
  document_name = name_of upload.document upload.document_name;
}

abbrev pub kept : CorperVerificationDraft → CorperVerificationDraft
kept draft = record draft {
  callup = without_file draft.callup;
  state_code = without_file draft.state_code;
}

same_owner_refl : (owner : Option String) → same_owner owner owner ≡ true
same_owner_refl none = refl
same_owner_refl (some email) = (str_eq_iff email email).1 refl

pub deserialize-serialize :
    (draft : CorperVerificationDraft) (owner : Option String)
    → deserialize_draft (some (serialize_draft draft owner)) owner ≡ kept draft
unfolding deserialize_draft serialize_draft
deserialize-serialize draft owner = rw (same_owner_refl owner) refl

deserialize_other :
    (draft : CorperVerificationDraft) (owner other : Option String)
    → same_owner owner other ≡ false
    → deserialize_draft (some (serialize_draft draft owner)) other ≡ empty_draft
unfolding deserialize_draft serialize_draft
deserialize_other draft owner other e = rw e refl

saved_over :
    {Item : Type 0} (codec : DraftCodec Item) (other : Option String) (item : Option Item)
    (draft : CorperVerificationDraft)
    → draft ≡ empty_draft
    → save_draft codec true draft other item ≡ save_draft codec true empty_draft other none
unfolding save_draft
saved_over codec none item draft e = refl
saved_over codec (some email) item draft e = rw e refl

module _ {Item : Type 0} (codec : DraftCodec Item) (email : String)
    (named : str_eq email "" ≡ false) (provider : Provider Item) (known : provider.hydrated ≡ true)
    (draft : CorperVerificationDraft) where
  stored :
      (set_draft codec (some email) draft provider).item
      ≡ some (codec.stringify (serialize_draft draft (some email)))
  unfolding set_draft save_draft
  stored = rw (known, named) refl

  loaded :
      (owner : Option String)
      → load_draft codec (set_draft codec (some email) draft provider).item owner
        ≡ deserialize_draft (some (serialize_draft draft (some email))) owner
  unfolding load_draft
  loaded owner =
      rw
        (
          stored,
          codec.stringify_not_empty (serialize_draft draft (some email)),
          codec.parse-stringify (serialize_draft draft (some email)),
        )
        refl

  -- A draft that its owner edits is there again, without its files but with their names, when the
  -- page is opened anew with the item that is stored, once a session with that owner is known.
  pub draft_returns :
      (own_draft codec (some email) (record {
        draft = empty_draft;
        hydrated = false;
        item = (set_draft codec (some email) draft provider).item;
      })).draft
      ≡ kept draft
  unfolding own_draft
  draft_returns = loaded (some email) ∙ deserialize-serialize draft (some email)

  -- A draft that its owner has edited is gone when another account comes in, or none: the draft in
  -- memory is empty, and what is stored is what that account stores of an empty draft.
  pub draft_isolated :
      (other : Option String)
      → same_owner (some email) other ≡ false
      → ((own_draft codec other (set_draft codec (some email) draft provider)).draft ≡ empty_draft)
        × ((own_draft codec other (set_draft codec (some email) draft provider)).item
            ≡ save_draft codec true empty_draft other none)
  unfolding own_draft
  draft_isolated other e =
      let gone : load_draft codec (set_draft codec (some email) draft provider).item other
          ≡ empty_draft =
        loaded other ∙ deserialize_other draft (some email) other e in
      (gone, saved_over codec other _ _ gone)
