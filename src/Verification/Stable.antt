-- ===== src/Verification/Stable.antt =====
-- The draft that is handed to the legal step is in its final form.
use mathlib.Core.Path.{subst}
use corpershub_application.Base.{refl, [], none, some, Option, true, ◌≡◌, false, trim_idem, ap}
use corpershub_application.Draft.{CorperVerificationDraft}
use corpershub_application.Mobile.{validate_nigerian_mobile_number}
use corpershub_application.Identifiers.{
  Casing, validate_nysc_state_code, validate_nin_number, validate_nysc_callup_number,
}
use corpershub_application.Verification.Legal.{
  FieldKey, ready, LegalError, legal_checks, first_error, FieldKey, lacks_document, legal_draft,
  university_matriculation_number, matriculation_error, upload_first, normalized,
  normalize_for_legal_step, callup_document, state_code_document,
}
use corpershub_application.Verification.Fields.{
  Passed, Passed-first_error, first_error-Passed, reject_if-none, reject_mobile-none,
  reject_identifier-none, mobile_again, document_kept, name_again, ready-injective, nin_again,
  callup_again, state_code_again, handed_again, is_named,
}

module _ (casing : Casing) where
  legal_draft_again :
      (draft : CorperVerificationDraft)
      → Passed (legal_checks casing draft)
      → legal_draft casing (legal_draft casing draft) ≡ legal_draft casing draft
  unfolding legal_checks legal_draft
  legal_draft_again draft
        (
          p1,
          (p2, (p3, (p4, (p5, (p6, (p7, (p8, (p9, (p10, (p11, (p12, (p13, (p14, p15))))))))))))),
        ) =
      let (matric, _) = handed_again casing draft.biodata.university_matriculation_number (
        reject_identifier-none university_matriculation_number (matriculation_error casing draft)
          p9) in
      rw
        (
          trim_idem draft.biodata.first_name,
          trim_idem draft.biodata.middle_name,
          trim_idem draft.biodata.surname,
          trim_idem draft.biodata.gender,
          trim_idem draft.biodata.state_of_origin,
          trim_idem draft.biodata.country_of_birth,
          mobile_again draft.biodata.mobile_number (
              reject_mobile-none
                (validate_nigerian_mobile_number draft.biodata.mobile_number true false).error p8),
          nin_again casing draft.nin
              (reject_identifier-none FieldKey.nin (validate_nin_number draft.nin).error p10),
          callup_again casing draft.callup.submitted_value (
              reject_identifier-none FieldKey.callup
                (validate_nysc_callup_number casing draft.callup.submitted_value).error p11),
          state_code_again casing draft.state_code.submitted_value (
              reject_identifier-none FieldKey.state_code
                (validate_nysc_state_code casing draft.state_code.submitted_value).error p13),
          name_again draft.callup.document draft.callup.document_name,
          name_again draft.state_code.document draft.state_code.document_name,
          matric,
        )
        refl

  checks_again :
      (draft : CorperVerificationDraft)
      → is_named draft.callup.document ≡ true
      → is_named draft.state_code.document ≡ true
      → Passed (legal_checks casing draft)
      → Passed (legal_checks casing (legal_draft casing draft))
  unfolding legal_checks legal_draft
  checks_again draft n1 n2
        (
          p1,
          (p2, (p3, (p4, (p5, (p6, (p7, (p8, (p9, (p10, (p11, (p12, (p13, (p14, p15))))))))))))),
        ) =
      let (_, matric) = handed_again casing draft.biodata.university_matriculation_number (
        reject_identifier-none university_matriculation_number (matriculation_error casing draft)
          p9) in
      let n8 =
        reject_mobile-none
          (validate_nigerian_mobile_number draft.biodata.mobile_number true false).error p8 in
      let n10 = reject_identifier-none FieldKey.nin (validate_nin_number draft.nin).error p10 in
      let n11 =
        reject_identifier-none FieldKey.callup
          (validate_nysc_callup_number casing draft.callup.submitted_value).error p11 in
      let n12 = reject_if-none (lacks_document draft.callup) (upload_first callup_document) p12 in
      let n13 =
        reject_identifier-none FieldKey.state_code
          (validate_nysc_state_code casing draft.state_code.submitted_value).error p13 in
      let n14 =
        reject_if-none (lacks_document draft.state_code) (upload_first state_code_document) p14 in
      let f1 = trim_idem draft.biodata.first_name in
      let f2 = trim_idem draft.biodata.middle_name in
      let f3 = trim_idem draft.biodata.surname in
      let f5 = trim_idem draft.biodata.gender in
      let f6 = trim_idem draft.biodata.state_of_origin in
      let f7 = trim_idem draft.biodata.country_of_birth in
      let f8 = mobile_again draft.biodata.mobile_number n8 in
      let f10 = nin_again casing draft.nin n10 in
      let f11 = callup_again casing draft.callup.submitted_value n11 in
      let f12 = document_kept draft.callup [] n1 n12 in
      let f13 = state_code_again casing draft.state_code.submitted_value n13 in
      let f14 = document_kept draft.state_code [] n2 n14 in
      (
        rw f1 p1,
        (
          rw f2 p2,
          (
            rw f3 p3,
            (
              p4,
              (
                rw f5 p5,
                (
                  rw f6 p6,
                  (
                    rw f7 p7,
                    (
                      rw f8 p8,
                      (
                        rw matric refl,
                        (rw f10 p10, (rw f11 p11, (rw f12 refl, (rw f13 p13, (rw f14 refl, tt))))),
                      ),
                    ),
                  ),
                ),
              ),
            ),
          ),
        ),
      )

  pub ready_checked :
      (e : Option LegalError) (draft next : CorperVerificationDraft)
      → normalized casing e draft ≡ ready next
      → (e ≡ none) × (legal_draft casing draft ≡ next)
  ready_checked none draft next h = (refl, ready-injective h)
  ready_checked (some e) draft next h = cc

  again :
      (draft : CorperVerificationDraft)
      → is_named draft.callup.document ≡ true
      → is_named draft.state_code.document ≡ true
      → Passed (legal_checks casing draft)
      → normalize_for_legal_step casing (legal_draft casing draft)
        ≡ ready (legal_draft casing draft)
  unfolding normalize_for_legal_step
  again draft n1 n2 passed =
      rw
        (Passed-first_error (legal_checks casing (legal_draft casing draft))
          (checks_again draft n1 n2 passed))
        (ap ready (legal_draft_again draft passed))

  -- The draft that is handed to the legal step is in its final form: checking it again accepts it and
  -- changes nothing. The uploaded files have names.
  pub normalize_for_legal_step_idem :
      (draft next : CorperVerificationDraft)
      → is_named draft.callup.document ≡ true
      → is_named draft.state_code.document ≡ true
      → normalize_for_legal_step casing draft ≡ ready next
      → normalize_for_legal_step casing next ≡ ready next
  unfolding normalize_for_legal_step
  normalize_for_legal_step_idem draft next n1 n2 h =
      let (passed, same) = ready_checked (first_error (legal_checks casing draft)) draft next h in
      subst (λ d. normalize_for_legal_step casing d ≡ ready d) same
        (again draft n1 n2 (first_error-Passed (legal_checks casing draft) passed))
