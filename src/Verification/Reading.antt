-- ===== src/Verification/Reading.antt =====
-- The terms page reads the draft that the verification page handed over.
use mathlib.Core.Path.{subst}
use corpershub_application.Base.{
  arith, List, refl, none, some, inl, inr, Option, String, Text, ◌≡◌, false, true, ◌∙◌, Bool-cases,
  is_nil, ap, str_eq, not, ◌&&◌,
}
use corpershub_application.Draft.{
  CorperVerificationDraft, DraftCodec, load_draft, save_draft, serialize_draft, File, Upload,
  name_of,
}
use corpershub_application.Draft.Owner.{kept, deserialize-serialize}
use corpershub_application.Identifiers.{Casing}
use corpershub_application.Verification.Fields.{
  Passed, Passed-first_error, first_error-Passed, reject_if-none, name_again, is_named,
}
use corpershub_application.Verification.Stable.{ready_checked, normalize_for_legal_step_idem}
use corpershub_application.Verification.Legal.{
  lacking, refused, FieldKey, Normalized, ready, going, proceed, first_error, legal_checks,
  legal_draft, normalize_for_legal_step, persist_draft_for_terms, lacks_document, is_blank,
  has_content, upload_first, callup_document, state_code_document, going_on, get_missing_fields,
  document_name_of,
}

-- Without its file, an upload that had one, or a name, still has the name.
name_there :
    (upload : Upload)
    → is_named upload.document ≡ true
    → lacks_document upload ≡ false
    → is_blank (document_name_of upload) ≡ false
name_there upload named h = there upload.document upload.document_name named h
  where
    there :
        (document : Option File) (name : Text)
        → is_named document ≡ true
        → (not (has_content document) && is_blank name) ≡ false
        → is_blank (name_of document name) ≡ false
    there none name a b = b
    there (some file) name a b = ground arith

-- What is stored for the terms page is what the provider's own effect stores of the draft.
module _ {Item : Type 0} (codec : DraftCodec Item) (email : String)
    (known : str_eq email "" ≡ false) (draft : CorperVerificationDraft) (item : Option Item) where
  persisted_saved :
      persist_draft_for_terms codec draft (some email) item
      ≡ save_draft codec true draft (some email) item
  unfolding persist_draft_for_terms save_draft serialize_draft
  persisted_saved = rw known refl

  saved :
      save_draft codec true draft (some email) item
      ≡ some (codec.stringify (serialize_draft draft (some email)))
  unfolding save_draft
  saved = rw known refl

  read :
      load_draft codec (some (codec.stringify (serialize_draft draft (some email)))) (some email)
      ≡ kept draft
  unfolding load_draft
  read =
      rw
        (
          codec.stringify_not_empty (serialize_draft draft (some email)),
          codec.parse-stringify (serialize_draft draft (some email)),
        )
        (deserialize-serialize draft (some email))

  persisted_read :
      load_draft codec (persist_draft_for_terms codec draft (some email) item) (some email)
      ≡ kept draft
  persisted_read =
      ap (λ stored. load_draft codec stored (some email)) (persisted_saved ∙ saved) ∙ read

lacking_not_going :
    {fields : List FieldKey} {next : CorperVerificationDraft} → lacking fields ≡ going next → ⊥
lacking_not_going h = cc

module _ (casing : Casing) where
  checks_kept :
      (draft : CorperVerificationDraft)
      → is_named draft.callup.document ≡ true
      → is_named draft.state_code.document ≡ true
      → Passed (legal_checks casing draft)
      → Passed (legal_checks casing (kept draft))
  unfolding legal_checks
  checks_kept draft n1 n2
        (
          p1,
          (p2, (p3, (p4, (p5, (p6, (p7, (p8, (p9, (p10, (p11, (p12, (p13, (p14, p15))))))))))))),
        ) =
      let callup_there =
        name_there draft.callup n1
          (reject_if-none (lacks_document draft.callup) (upload_first callup_document) p12) in
      let state_code_there =
        name_there draft.state_code n2 (
          reject_if-none (lacks_document draft.state_code) (upload_first state_code_document)
            p14) in
      (
        p1,
        (
          p2,
          (
            p3,
            (
              p4,
              (
                p5,
                (
                  p6,
                  (
                    p7,
                    (
                      p8,
                      (
                        p9,
                        (p10, (p11, (rw callup_there refl, (p13, (rw state_code_there refl, tt))))),
                      ),
                    ),
                  ),
                ),
              ),
            ),
          ),
        ),
      )

  legal_draft-kept :
      (draft : CorperVerificationDraft)
      → legal_draft casing (kept draft) ≡ kept (legal_draft casing draft)
  unfolding legal_draft
  legal_draft-kept draft =
      rw
        (
          name_again draft.callup.document draft.callup.document_name,
          name_again draft.state_code.document draft.state_code.document_name,
        )
        refl

  going_checked :
      (r : Normalized) (next : CorperVerificationDraft)
      → going_on casing r ≡ going next
      → r ≡ ready next
  going_checked (refused e) next h = cc
  going_checked (ready draft) next h = cc

  proceed_checked :
      (draft next : CorperVerificationDraft)
      → proceed casing draft ≡ going next
      → normalize_for_legal_step casing draft ≡ ready next
  unfolding proceed
  proceed_checked draft next h = elim (Bool-cases (is_nil (get_missing_fields draft))) [
    | inl a ↦ going_checked (normalize_for_legal_step casing draft) next (rw a at h)
    | inr a ↦ absurd (lacking_not_going (rw a at h))
  ]

  -- The files are handed over as they are.
  names_handed :
      (draft next : CorperVerificationDraft)
      → legal_draft casing draft ≡ next
      → is_named draft.callup.document ≡ true
      → is_named draft.state_code.document ≡ true
      → (is_named next.callup.document ≡ true) × (is_named next.state_code.document ≡ true)
  unfolding legal_draft
  names_handed draft next same n1 n2 =
      subst
        (λ (d : CorperVerificationDraft).
          (is_named d.callup.document ≡ true) × (is_named d.state_code.document ≡ true))
        same (n1, n2)

  kept_accepted :
      (next : CorperVerificationDraft)
      → is_named next.callup.document ≡ true
      → is_named next.state_code.document ≡ true
      → normalize_for_legal_step casing next ≡ ready next
      → normalize_for_legal_step casing (kept next) ≡ ready (kept next)
  unfolding normalize_for_legal_step
  kept_accepted next n1 n2 h =
      let (passed, same) =
        ready_checked casing (first_error (legal_checks casing next)) next next h in
      let again = checks_kept next n1 n2 (first_error-Passed (legal_checks casing next) passed) in
      rw (Passed-first_error (legal_checks casing (kept next)) again)
        (ap ready (legal_draft-kept next ∙ ap kept same))

  -- A draft that goes on to the terms page, its files having names, is read there from the storage
  -- without its files and with their names; the second check accepts what is read and changes
  -- nothing, and the storage holds what the provider stores of the draft. The session has an address.
  pub proceed_carries :
      {Item : Type 0} (codec : DraftCodec Item) (email : String)
      (draft next : CorperVerificationDraft) (item : Option Item)
      → str_eq email "" ≡ false
      → is_named draft.callup.document ≡ true
      → is_named draft.state_code.document ≡ true
      → proceed casing draft ≡ going next
      → (load_draft codec (persist_draft_for_terms codec next (some email) item) (some email)
          ≡ kept next)
        × (normalize_for_legal_step casing (kept next) ≡ ready (kept next))
        × (persist_draft_for_terms codec next (some email) item
            ≡ save_draft codec true next (some email) item)
  unfolding normalize_for_legal_step
  proceed_carries codec email draft next item known n1 n2 h =
      let checked = proceed_checked draft next h in
      let (_, same) =
        ready_checked casing (first_error (legal_checks casing draft)) draft next checked in
      let (m1, m2) = names_handed draft next same n1 n2 in
      (
        persisted_read codec email known next item,
        kept_accepted next m1 m2 (normalize_for_legal_step_idem casing draft next n1 n2 checked),
        persisted_saved codec email known next item,
      )
