-- ===== src/Identifiers/Accepted.antt =====
-- An accepted identifier stays what it is.
use corpershub_application.Base.{
  false, ℕ, [], none, is_space, Text, ◌≡◌, List, Bool, all, is_digit, true, leb, ◌∷◌, not_space,
  arith, ◌&&◌, refl, trim_of_no_space, filter_of_all, ap,
}
use corpershub_application.Identifiers.{
  Casing, checked, exactly, between, after_classes, UnitClass, is_plain, in_matriculation,
  ends_in_digits, in_class, validate_nin_number, is_nin_number, Validation, is_nysc_callup_number,
  is_university_matriculation_number, normalize_capital, is_nysc_state_code,
  validate_nysc_callup_number, callup_classes, state_code_classes, normalize_nin_number,
  validate_nysc_state_code, validate_university_matriculation_number,
}

abbrev is_plain_class : UnitClass → Bool
is_plain_class (exactly n) = is_plain n
is_plain_class (between low high) = leb 33 low && leb high 90

class_plain :
    (p : UnitClass) (c : ℕ) → is_plain_class p ≡ true → in_class p c ≡ true → is_plain c ≡ true
class_plain (exactly n) c h e = ground arith
class_plain (between low high) c h e = ground arith

digits_plain : (s : Text) → all is_digit s ≡ true → all is_plain s ≡ true
digits_plain [] h = refl
digits_plain (c ∷ s) h = ground (arith, digits_plain s)

ends_plain :
    (ps : List UnitClass) (low high : ℕ) (s : Text)
    → all is_plain_class ps ≡ true
    → ends_in_digits low high (after_classes ps s) ≡ true
    → all is_plain s ≡ true
unfolding after_classes
ends_plain [] low high s k h = digits_plain s (ground arith)
ends_plain (p ∷ ps) low high [] k h = refl
ends_plain (p ∷ ps) low high (c ∷ s) k h = ground (arith, ends_plain ps low high s, class_plain p c)

matriculation_plain : (s : Text) → all in_matriculation s ≡ true → all is_plain s ≡ true
matriculation_plain [] h = refl
matriculation_plain (c ∷ s) h = ground (arith, matriculation_plain s)

pub plain_not_space : (s : Text) → all is_plain s ≡ true → all not_space s ≡ true
unfolding is_space
plain_not_space [] h = refl
plain_not_space (c ∷ s) h = ground (arith, plain_not_space s)

pub checked_matches : (m : Bool) (n : Text) → (checked m n).error ≡ none → m ≡ true
checked_matches true n h = refl
checked_matches false [] h = ground arith
checked_matches false (c ∷ n) h = ground arith

pub nin_fixed : (n : Text) → is_nin_number n ≡ true → normalize_nin_number n ≡ n
unfolding is_nin_number normalize_nin_number
nin_fixed n h =
    let kept = plain_not_space n (digits_plain n (ground arith)) in
    rw (trim_of_no_space n kept) (filter_of_all not_space n kept)

callup_plain : (n : Text) → is_nysc_callup_number n ≡ true → all is_plain n ≡ true
unfolding is_nysc_callup_number
callup_plain n h = ends_plain callup_classes 4 6 n refl h

state_code_plain : (n : Text) → is_nysc_state_code n ≡ true → all is_plain n ≡ true
unfolding is_nysc_state_code
state_code_plain n h = ends_plain state_code_classes 5 6 n refl h

pub university_plain :
    (n : Text) → is_university_matriculation_number n ≡ true → all is_plain n ≡ true
unfolding is_university_matriculation_number
university_plain n h = matriculation_plain n (ground arith)

pub data Identifier : Type 0 where
  nin : Identifier
  callup : Identifier
  state_code : Identifier
  matriculation : Identifier

module _ (casing : Casing) where
  capital_fixed : (n : Text) → all is_plain n ≡ true → normalize_capital casing n ≡ n
  unfolding normalize_capital
  capital_fixed n h =
      let kept = plain_not_space n h in
      rw (trim_of_no_space n kept, casing.upper_fixed n h) (filter_of_all not_space n kept)

  -- The four validations by the field that they are for.
  unfoldable pub validate : Identifier → Text → Validation
  validate nin value = validate_nin_number value
  validate callup value = validate_nysc_callup_number casing value
  validate state_code value = validate_nysc_state_code casing value
  validate matriculation value = validate_university_matriculation_number casing value

  -- An accepted identifier is in its final form: validating the normalised value again accepts it and
  -- changes nothing.
  pub validate_idem :
      (field : Identifier) (value : Text)
      → (validate field value).error ≡ none
      → validate field (validate field value).normalized_value ≡ validate field value
  unfolding validate validate_nin_number validate_nysc_callup_number validate_nysc_state_code
      validate_university_matriculation_number
  validate_idem nin value h =
      let n = normalize_nin_number value in
      ap (λ m. checked (is_nin_number m) m) (nin_fixed n (checked_matches (is_nin_number n) n h))
  validate_idem callup value h =
      let n = normalize_capital casing value in
      ap (λ m. checked (is_nysc_callup_number m) m)
        (capital_fixed n (callup_plain n (checked_matches (is_nysc_callup_number n) n h)))
  validate_idem state_code value h =
      let n = normalize_capital casing value in
      ap (λ m. checked (is_nysc_state_code m) m)
        (capital_fixed n (state_code_plain n (checked_matches (is_nysc_state_code n) n h)))
  validate_idem matriculation value h =
      let n = normalize_capital casing value in
      ap (λ m. checked (is_university_matriculation_number m) m)
        (capital_fixed n
          (university_plain n (checked_matches (is_university_matriculation_number n) n h)))
