-- ===== src/Verification/Handover.antt =====
-- From the verification page to the terms page: what the second check of a draft can still find, and
-- what the terms page reads of the draft that was handed over.
use mathlib.Core.Path.{subst}
use corpershub_application.Draft.{CorperVerificationDraft}
use corpershub_application.Identifiers.{
  required, malformed, checked, validate_university_matriculation_number, Casing, IdentifierError,
  validate_nin_number, validate_nysc_callup_number, validate_nysc_state_code,
}
use corpershub_application.Mobile.Asking.{is_asking, asks, mobile_error-asks}
use corpershub_application.Mobile.{
  normalize_mobile_number, MobileError, validate_nigerian_mobile_number,
}
use corpershub_application.Base.{
  inl, inr, or_else, arith, [], none, some, Bool, List, ◌∷◌, false, true, ◌≡◌, Option, is_nil,
  filter, any, refl, Bool-cases, ◌⊎◌, not, Text, if◌then◌else◌,
}
use corpershub_application.Verification.Legal.{
  matriculation_of, going_on, lacking, first_name, middle_name, surname, date_of_birth,
  state_of_origin, country_of_birth, gender, mobile_number, university_matriculation_number, nin,
  callup, callup_document, state_code, state_code_document, LegalError, incomplete, bad_mobile,
  bad_identifier, upload_first, first_error, FieldKey, reject_if, reject_identifier, legal_checks,
  reject_mobile, is_missing, required_fields, is_blank, matriculation_error, lacks_document,
  proceed, invalid, get_missing_fields, normalize_for_legal_step, marked, normalized,
}

-- What is wrong is the form of a value; a value that is asked for is none.
abbrev pub is_of_form : LegalError → Bool
is_of_form (incomplete field) = false
is_of_form (bad_mobile e) = not (is_asking e)
is_of_form (bad_identifier field required) = false
is_of_form (bad_identifier field malformed) = true
is_of_form (upload_first field) = false

-- Nothing is left of the value once it is normalised.
abbrev pub leaves_nothing : Casing → CorperVerificationDraft → FieldKey → Bool
leaves_nothing casing draft mobile_number =
    is_nil (validate_nigerian_mobile_number draft.biodata.mobile_number true false).normalized_value
leaves_nothing casing draft university_matriculation_number =
    is_nil (matriculation_of casing draft).normalized_value
leaves_nothing casing draft nin = is_nil (validate_nin_number draft.nin).normalized_value
leaves_nothing casing draft callup =
    is_nil (validate_nysc_callup_number casing draft.callup.submitted_value).normalized_value
leaves_nothing casing draft state_code =
    is_nil (validate_nysc_state_code casing draft.state_code.submitted_value).normalized_value
leaves_nothing casing draft _ = false

module _ (casing : Casing) (draft : CorperVerificationDraft) where
  abbrev pub IsExplained : LegalError → Type 0
  IsExplained e = (is_of_form e ≡ true) ⊎ (leaves_nothing casing draft (marked e) ≡ true)

  abbrev IsFormal : Option LegalError → Type 0
  IsFormal none = Unit
  IsFormal (some e) = IsExplained e

  -- Every error that applies is explained.
  abbrev AllFormal : List (Option LegalError) → Type 0
  AllFormal [] = Unit
  AllFormal (check ∷ rest) = IsFormal check × AllFormal rest

  or_else-IsFormal : (a b : Option LegalError) → IsFormal a → IsFormal b → IsFormal (or_else a b)
  or_else-IsFormal none b f g = g
  or_else-IsFormal (some e) b f g = f

  first_error-IsFormal :
      (checks : List (Option LegalError)) → AllFormal checks → IsFormal (first_error checks)
  unfolding first_error
  first_error-IsFormal [] f = tt
  first_error-IsFormal (check ∷ rest) (f, g) =
      or_else-IsFormal check (first_error rest) f (first_error-IsFormal rest g)

  reject_if-IsFormal : (b : Bool) (e : LegalError) → b ≡ false → IsFormal (reject_if b e)
  reject_if-IsFormal true e h = cc
  reject_if-IsFormal false e h = tt

  reject_mobile-IsFormal :
      (e : Option MobileError)
      → (asks e ≡ false) ⊎ (leaves_nothing casing draft mobile_number ≡ true)
      → IsFormal (reject_mobile e)
  reject_mobile-IsFormal none h = tt
  reject_mobile-IsFormal (some e) (inl h) = inl (rw h refl)
  reject_mobile-IsFormal (some e) (inr h) = inr h

  mobile-IsFormal :
      IsFormal (
        reject_mobile
          (validate_nigerian_mobile_number draft.biodata.mobile_number true false).error)
  unfolding validate_nigerian_mobile_number
  mobile-IsFormal = reject_mobile-IsFormal _ (asked (Bool-cases _))
    where
      asked :
          (is_nil (normalize_mobile_number draft.biodata.mobile_number) ≡ true)
            ⊎ (is_nil (normalize_mobile_number draft.biodata.mobile_number) ≡ false)
          → (asks (validate_nigerian_mobile_number draft.biodata.mobile_number true false).error
              ≡ false)
            ⊎ (leaves_nothing casing draft mobile_number ≡ true)
      asked (inl h) = inr h
      asked (inr h) = inl (mobile_error-asks true false _ h)

  reject_identifier-IsFormal :
      (field : FieldKey) (e : Option IdentifierError)
      → (e ≡ some required → leaves_nothing casing draft field ≡ true)
      → IsFormal (reject_identifier field e)
  reject_identifier-IsFormal field none h = tt
  reject_identifier-IsFormal field (some required) h = inr (h refl)
  reject_identifier-IsFormal field (some malformed) h = inl refl

-- Where the filter finds nothing, nothing passes its test.
pub is_nil-filter :
    {A : Type 0} (p : A → Bool) (xs : List A) → is_nil (filter p xs) ≡ true → any p xs ≡ false
is_nil-filter p [] h = refl
is_nil-filter p (x ∷ xs) h = ground (arith, is_nil-filter p xs)

none_missing :
    (draft : CorperVerificationDraft)
    → any (is_missing draft) required_fields ≡ false
    → (field : FieldKey) → is_missing draft field ≡ false
none_missing draft h first_name = ground arith
none_missing draft h middle_name = ground arith
none_missing draft h surname = ground arith
none_missing draft h date_of_birth = ground arith
none_missing draft h state_of_origin = ground arith
none_missing draft h country_of_birth = ground arith
none_missing draft h gender = ground arith
none_missing draft h mobile_number = ground arith
none_missing draft h university_matriculation_number = ground arith
none_missing draft h nin = ground arith
none_missing draft h callup = ground arith
none_missing draft h callup_document = ground arith
none_missing draft h state_code = ground arith
none_missing draft h state_code_document = ground arith

lacking_not_invalid : {fields : List FieldKey} {e : LegalError} → lacking fields ≡ invalid e → ⊥
lacking_not_invalid h = cc

-- An identifier is asked for only where nothing is left of it.
checked_asks :
    (matches : Bool) (value : Text)
    → (checked matches value).error ≡ some required
    → is_nil value ≡ true
checked_asks matches value h = elim (Bool-cases (is_nil value)) [
  | inl e ↦ e
  | inr e ↦ absurd (form_only matches (rw e at h))
]
  where
    form_only : (b : Bool) → (if not b then some malformed else none) ≡ some required → ⊥
    form_only true h = cc
    form_only false h = cc

module _ (casing : Casing) where
  matriculation_asks :
      (draft : CorperVerificationDraft)
      → matriculation_error casing draft ≡ some required
      → leaves_nothing casing draft university_matriculation_number ≡ true
  unfolding validate_university_matriculation_number
  matriculation_asks draft h =
      elim (Bool-cases (is_blank draft.biodata.university_matriculation_number)) [
        | inl e ↦ absurd (none_is_not (rw e at h))
        | inr e ↦ checked_asks _ _ (rw e at h)
      ]
    where
      none_is_not : {A : Type 0} {a : A} → none ≡ some a → ⊥
      none_is_not h = cc

  legal_checks-AllFormal :
      (draft : CorperVerificationDraft)
      → ((field : FieldKey) → is_missing draft field ≡ false)
      → AllFormal casing draft (legal_checks casing draft)
  unfolding legal_checks is_missing validate_nin_number validate_nysc_callup_number
      validate_nysc_state_code
  legal_checks-AllFormal draft present = (
    reject_if-IsFormal casing draft (is_blank draft.biodata.first_name) (incomplete first_name)
        (present first_name),
    (
      reject_if-IsFormal casing draft (is_blank draft.biodata.middle_name) (incomplete middle_name)
          (present middle_name),
      (
        reject_if-IsFormal casing draft (is_blank draft.biodata.surname) (incomplete surname)
            (present surname),
        (
          reject_if-IsFormal casing draft (is_nil draft.biodata.date_of_birth)
              (incomplete date_of_birth) (present date_of_birth),
          (
            reject_if-IsFormal casing draft (is_blank draft.biodata.gender) (incomplete gender)
                (present gender),
            (
              reject_if-IsFormal casing draft (is_blank draft.biodata.state_of_origin)
                  (incomplete state_of_origin) (present state_of_origin),
              (
                reject_if-IsFormal casing draft (is_blank draft.biodata.country_of_birth)
                    (incomplete country_of_birth) (present country_of_birth),
                (
                  mobile-IsFormal casing draft,
                  (
                    reject_identifier-IsFormal casing draft university_matriculation_number _
                        (matriculation_asks draft),
                    (
                      reject_identifier-IsFormal casing draft FieldKey.nin _ (checked_asks _ _),
                      (
                        reject_identifier-IsFormal casing draft FieldKey.callup _
                            (checked_asks _ _),
                        (
                          reject_if-IsFormal casing draft (lacks_document draft.callup)
                              (upload_first callup_document) (present callup_document),
                          (
                            reject_identifier-IsFormal casing draft FieldKey.state_code _
                                (checked_asks _ _),
                            (
                              reject_if-IsFormal casing draft (lacks_document draft.state_code)
                                  (upload_first state_code_document) (present state_code_document),
                              tt,
                            ),
                          ),
                        ),
                      ),
                    ),
                  ),
                ),
              ),
            ),
          ),
        ),
      ),
    ),
  )

  refused_checked :
      (e : Option LegalError) (draft : CorperVerificationDraft) (a : LegalError)
      → going_on casing (normalized casing e draft) ≡ invalid a
      → e ≡ some a
  refused_checked none draft a h = cc
  refused_checked (some e) draft a h = cc

  -- Where the first check lets a draft pass and the second one refuses it, the field that the error
  -- marks has a value that is not blank, or a file, and the error is about the form of that value; or
  -- it asks for a value of which, like a mobile number of hyphens, nothing is left once it is
  -- normalised.
  pub proceed_explains :
      (draft : CorperVerificationDraft) (e : LegalError)
      → proceed casing draft ≡ invalid e
      → IsExplained casing draft e × (is_missing draft (marked e) ≡ false)
  unfolding proceed get_missing_fields normalize_for_legal_step
  proceed_explains draft e h =
      elim (Bool-cases (is_nil (filter (is_missing draft) required_fields))) [
        | inl a ↦
            let present = none_missing draft (is_nil-filter (is_missing draft) required_fields a) in
            let checked =
              refused_checked (first_error (legal_checks casing draft)) draft e (rw a at h) in
            let formal =
              first_error-IsFormal casing draft (legal_checks casing draft)
                (legal_checks-AllFormal draft present) in
            (subst (IsFormal casing draft) checked formal, present (marked e))
        | inr a ↦ absurd (lacking_not_invalid (rw a at h))
      ]
