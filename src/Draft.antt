-- ===== src/Draft.antt =====
-- web/src/components/providers/corper-verification-draft-provider.tsx: the draft of a corper's
-- verification, in memory and in the session storage. Of a file only the name and the size are read.
pub mod Owner
pub mod Sample
mod Tests
use corpershub_application.Base.{
  ℕ, Text, [], none, some, Bool, String, Option, if◌then◌else◌, ◌≡◌, true, not, str_eq, is_nil,
  false,
}

pub record Biodata : Type 0 where
  pub first_name : Text
  pub middle_name : Text
  pub surname : Text
  pub date_of_birth : Text
  pub gender : Text
  pub mobile_number : Text
  pub state_of_origin : Text
  pub country_of_birth : Text
  pub university_matriculation_number : Text

pub record File : Type 0 where
  pub name : Text
  pub size : ℕ

pub record Upload : Type 0 where
  pub submitted_value : Text
  pub document : Option File
  pub document_name : Text

pub record CorperVerificationDraft : Type 0 where
  pub biodata : Biodata
  pub nin : Text
  pub callup : Upload
  pub state_code : Upload

-- What is stored of an upload, and of a draft.
pub record StoredUpload : Type 0 where
  pub submitted_value : Text
  pub document_name : Text

pub record SerializableDraft : Type 0 where
  pub owner_email : Option String
  pub biodata : Biodata
  pub nin : Text
  pub callup : StoredUpload
  pub state_code : StoredUpload

abbrev empty_upload : Upload
empty_upload = record { submitted_value = []; document = none; document_name = [] }

abbrev pub empty_draft : CorperVerificationDraft
empty_draft = record {
  biodata = record {
    first_name = [];
    middle_name = [];
    surname = [];
    date_of_birth = [];
    gender = [];
    mobile_number = [];
    state_of_origin = [];
    country_of_birth = [];
    university_matriculation_number = [];
  };
  nin = [];
  callup = empty_upload;
  state_code = empty_upload;
}

-- `document?.name ?? document_name`
abbrev pub name_of : Option File → Text → Text
name_of none name = name
name_of (some file) name = file.name

abbrev pub stored_upload : Upload → StoredUpload
stored_upload upload = record {
  submitted_value = upload.submitted_value;
  document_name = name_of upload.document upload.document_name;
}

unfoldable pub serialize_draft : CorperVerificationDraft → Option String → SerializableDraft
serialize_draft draft owner_email = record {
  owner_email = owner_email;
  biodata = draft.biodata;
  nin = draft.nin;
  callup = stored_upload draft.callup;
  state_code = stored_upload draft.state_code;
}

abbrev pub same_owner : Option String → Option String → Bool
same_owner none none = true
same_owner (some a) (some b) = str_eq a b
same_owner _ _ = false

abbrev loaded_upload : StoredUpload → Upload
loaded_upload upload = record {
  submitted_value = upload.submitted_value;
  document = none;
  document_name = upload.document_name;
}

unfoldable pub deserialize_draft :
    Option SerializableDraft → Option String → CorperVerificationDraft
deserialize_draft none owner_email = empty_draft
deserialize_draft (some serialized) owner_email =
    if not (same_owner serialized.owner_email owner_email) then empty_draft else record {
      biodata = serialized.biodata;
      nin = serialized.nin;
      callup = loaded_upload serialized.callup;
      state_code = loaded_upload serialized.state_code;
    }

-- The states of the provider and the item of the session storage.
pub record Provider (Item : Type 0) : Type 0 where
  pub draft : CorperVerificationDraft
  pub hydrated : Bool
  pub item : Option Item

-- `JSON.stringify` and `JSON.parse` on stored drafts: what is printed is parsed again and is not
-- empty. The parser gives none where it throws, and no draft for null. `Item` stands for the texts.
pub record DraftCodec (Item : Type 0) : Type 0 where
  pub stringify : SerializableDraft → Item
  pub parse : Item → Option (Option SerializableDraft)
  pub is_empty : Item → Bool
  pub parse-stringify : (d : SerializableDraft) → parse (stringify d) ≡ some (some d)
  pub stringify_not_empty : (d : SerializableDraft) → is_empty (stringify d) ≡ false

module _ {Item : Type 0} (codec : DraftCodec Item) where
  abbrev parsed : Option (Option SerializableDraft) → Option String → CorperVerificationDraft
  parsed none owner_email = empty_draft
  parsed (some serialized) owner_email = deserialize_draft serialized owner_email

  -- The first effect, once the session is known: the draft that it sets.
  unfoldable pub load_draft : Option Item → Option String → CorperVerificationDraft
  load_draft none owner_email = empty_draft
  load_draft (some text) owner_email =
      if codec.is_empty text then empty_draft else parsed (codec.parse text) owner_email

  -- The second effect: the item that it leaves.
  unfoldable pub save_draft :
      Bool → CorperVerificationDraft → Option String → Option Item → Option Item
  save_draft false draft owner_email item = item
  save_draft true draft none item = none
  save_draft true draft (some email) item =
      if str_eq email "" then none else some (codec.stringify (serialize_draft draft (some email)))

  -- An owner comes in: both effects run on the draft that is in memory, then the second one again on
  -- the draft that the first has set.
  unfoldable pub own_draft : Option String → Provider Item → Provider Item
  own_draft owner_email provider =
      let draft = load_draft provider.item owner_email in
      let item = save_draft provider.hydrated provider.draft owner_email provider.item in
      record { draft = draft; hydrated = true; item = save_draft true draft owner_email item }

  -- `replaceDraft` and `clearDraft`, and the second effect behind them.
  unfoldable pub set_draft : Option String → CorperVerificationDraft → Provider Item → Provider Item
  set_draft owner_email draft provider = record provider {
    draft = draft;
    item = save_draft provider.hydrated draft owner_email provider.item;
  }
