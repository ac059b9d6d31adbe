-- ===== src/Verification/Fields.antt =====
-- The fields of a draft that has passed the checks before the legal step: checked again, each is
-- accepted and stays.
use corpershub_application.Base.{
  refl, [], none, some, inl, inr, Bool, Text, Option, List, true, ◌≡◌, ◌∷◌, or_else, false, is_nil,
  if◌then◌else◌, not, codes, Bool-cases, ◌++◌, trim_of_no_space, ◌&&◌, arith, trim,
}
use corpershub_application.Draft.{CorperVerificationDraft, Upload, File, name_of}
use corpershub_application.Mobile.{
  mobile_error, validate_nigerian_mobile_number, MobileError, normalize_mobile_number,
}
use corpershub_application.Mobile.Format.{
  accepted-Shape, plain_zero, plain_code, plain_number, Shape,
}
use corpershub_application.Identifiers.{
  Casing, validate_university_matriculation_number, IdentifierError, checked, normalize_capital,
  validate_nysc_state_code, validate_nin_number, validate_nysc_callup_number,
  is_university_matriculation_number,
}
use corpershub_application.Identifiers.Accepted.{
  validate_idem, Identifier, checked_matches, university_plain, plain_not_space, validate,
}
use corpershub_application.Verification.Legal.{
  FieldKey, ready, LegalError, first_error, FieldKey, reject_if, reject_identifier, is_blank,
  reject_mobile, lacks_document, document_name_of, has_content,
}

-- No early return applies.
abbrev pub Passed : List (Option LegalError) → Type 0
Passed [] = Unit
Passed (check ∷ rest) = (check ≡ none) × Passed rest

or_else-none {ℓ} : {A : Type ℓ} (a b : Option A) → or_else a b ≡ none → (a ≡ none) × (b ≡ none)
or_else-none none b h = (refl, h)
or_else-none (some a) b h = cc

pub first_error-Passed :
    (checks : List (Option LegalError)) → first_error checks ≡ none → Passed checks
unfolding first_error
first_error-Passed [] h = tt
first_error-Passed (check ∷ rest) h =
    let (a, b) = or_else-none check (first_error rest) h in (a, first_error-Passed rest b)

pub Passed-first_error :
    (checks : List (Option LegalError)) → Passed checks → first_error checks ≡ none
unfolding first_error
Passed-first_error [] h = refl
Passed-first_error (check ∷ rest) (a, b) = rw a (Passed-first_error rest b)

pub reject_if-none : (b : Bool) (e : LegalError) → reject_if b e ≡ none → b ≡ false
reject_if-none true e h = cc
reject_if-none false e h = refl

pub reject_mobile-none : (e : Option MobileError) → reject_mobile e ≡ none → e ≡ none
reject_mobile-none none h = refl
reject_mobile-none (some e) h = cc

pub reject_identifier-none :
    (field : FieldKey) (e : Option IdentifierError) → reject_identifier field e ≡ none → e ≡ none
reject_identifier-none field none h = refl
reject_identifier-none field (some e) h = cc

-- A mobile number that is asked for and accepted.
required_present : (n : Text) → mobile_error true false n ≡ none → is_nil n ≡ false
unfolding mobile_error
required_present [] h = cc
required_present (c ∷ n) h = refl

canonical_stable : (n : Text) → Shape false n → normalize_mobile_number n ≡ n
canonical_stable n (d, ((size, digits, known), inl e)) =
    rw e (plain_number (codes "+234" ++ d) (plain_code d digits))
canonical_stable n (d, ((size, digits, known), inr (home, e))) =
    rw e (plain_number (codes "0" ++ d) (plain_zero d digits))

mobile_stable :
    (value : Text)
    → (validate_nigerian_mobile_number value true false).error ≡ none
    → normalize_mobile_number (normalize_mobile_number value) ≡ normalize_mobile_number value
unfolding validate_nigerian_mobile_number
mobile_stable value h =
    canonical_stable (normalize_mobile_number value)
      (accepted-Shape value true false h (required_present (normalize_mobile_number value) h))

pub mobile_again :
    (value : Text)
    → (validate_nigerian_mobile_number value true false).error ≡ none
    → validate_nigerian_mobile_number
        (validate_nigerian_mobile_number value true false).normalized_value
        true
        false
      ≡ validate_nigerian_mobile_number value true false
unfolding validate_nigerian_mobile_number
mobile_again value h = rw (mobile_stable value h) refl

checked_present : (m : Bool) (n : Text) → (checked m n).error ≡ none → is_nil n ≡ false
checked_present m [] h = cc
checked_present m (c ∷ n) h = refl

-- A file has a name that is not blank.
abbrev pub is_named : Option File → Bool
is_named none = true
is_named (some file) = not (is_blank file.name)

pub document_kept :
    (upload : Upload) (value : Text)
    → is_named upload.document ≡ true
    → lacks_document upload ≡ false
    → lacks_document (record {
      submitted_value = value;
      document = upload.document;
      document_name = document_name_of upload;
    })
      ≡ false
document_kept upload value named h = kept upload.document upload.document_name named h
  where
    kept :
        (document : Option File) (name : Text)
        → is_named document ≡ true
        → (not (has_content document) && is_blank name) ≡ false
        → (not (has_content document) && is_blank (name_of document name)) ≡ false
    kept none name a b = b
    kept (some file) name a b = ground arith

pub name_again :
    (document : Option File) (name : Text)
    → name_of document (name_of document name) ≡ name_of document name
name_again none name = refl
name_again (some file) name = refl

pub ready-injective : {a b : CorperVerificationDraft} → ready a ≡ ready b → a ≡ b
ready-injective e = cc

module _ (casing : Casing) where
  pub nin_again :
      (value : Text)
      → (validate_nin_number value).error ≡ none
      → validate_nin_number (validate_nin_number value).normalized_value ≡ validate_nin_number value
  unfolding validate
  nin_again value h = validate_idem casing Identifier.nin value h

  pub callup_again :
      (value : Text)
      → (validate_nysc_callup_number casing value).error ≡ none
      → validate_nysc_callup_number casing
          (validate_nysc_callup_number casing value).normalized_value
        ≡ validate_nysc_callup_number casing value
  unfolding validate
  callup_again value h = validate_idem casing Identifier.callup value h

  pub state_code_again :
      (value : Text)
      → (validate_nysc_state_code casing value).error ≡ none
      → validate_nysc_state_code casing (validate_nysc_state_code casing value).normalized_value
        ≡ validate_nysc_state_code casing value
  unfolding validate
  state_code_again value h = validate_idem casing Identifier.state_code value h

  matriculation_present :
      (value : Text)
      → (validate_university_matriculation_number casing value).error ≡ none
      → is_blank (validate_university_matriculation_number casing value).normalized_value ≡ false
  unfolding validate_university_matriculation_number
  matriculation_present value h =
      let n = normalize_capital casing value in
      let plain = university_plain n (checked_matches (is_university_matriculation_number n) n h) in
      rw (trim_of_no_space n (plain_not_space n plain))
        (checked_present (is_university_matriculation_number n) n h)

  -- The matriculation number that is handed over, by the value that was typed.
  abbrev handed : Text → Text
  handed value =
      if is_blank value
      then []
      else (validate_university_matriculation_number casing value).normalized_value

  abbrev error_of : Text → Option IdentifierError
  error_of value =
      if is_blank value then none else (validate_university_matriculation_number casing value).error

  pub handed_again :
      (value : Text)
      → error_of value ≡ none
      → (handed (handed value) ≡ handed value) × (error_of (handed value) ≡ none)
  unfolding validate trim
  handed_again value h = elim (Bool-cases (is_blank value)) [
    | inl e ↦ rw e (refl, refl)
    | inr e ↦
        let accepted = rw e at h in
        let again = validate_idem casing Identifier.matriculation value accepted in
        rw (e, matriculation_present value accepted, again) (refl, accepted)
  ]
