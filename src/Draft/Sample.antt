-- ===== src/Draft/Sample.antt =====
-- A concrete draft for the tests, and a plain codec.
use corpershub_application.Base.{refl, some, none, true, codes, [], false}
use corpershub_application.Draft.{
  DraftCodec, CorperVerificationDraft, SerializableDraft, Provider, empty_draft,
}

-- The stored drafts stand for their texts.
abbrev pub plain : DraftCodec SerializableDraft
plain = record {
  stringify = λ d. d;
  parse = λ d. some (some d);
  is_empty = λ d. false;
  parse-stringify = λ d. refl;
  stringify_not_empty = λ d. refl;
}

abbrev pub opened : Provider SerializableDraft
opened = record { draft = empty_draft; hydrated = true; item = none }

abbrev pub edited : CorperVerificationDraft
edited = record empty_draft {
  nin = codes "12345678901";
  callup = record {
    submitted_value = codes "NYSC/ABC/2026/1234";
    document = some (record { name = codes "letter.pdf"; size = 2048 });
    document_name = [];
  };
}
