-- ===== src/Company/Accepted.antt =====
-- Which numbers of a company are accepted, and that an accepted number stays what it is.
use mathlib.Core.Logic.{◌↔◌}
use corpershub_application.Base.{
  all-append, Bool-clash, ℕ, [], none, some, Option, Bool, Text, ◌∷◌, ◌++◌, ◌≡◌, ◌≤◌, refl, arith,
  inl, inr, true, false, all, map, leb, ◌&&◌, is_digit, is_space, not, length, codes, Bool-cases,
  ap, filter_of_all, trim_of_no_space, is_nil, ◌==◌,
}
use corpershub_application.Identifiers.{
  Casing, checked, exactly, after_classes, ends_in_digits, literal, is_plain,
}
use corpershub_application.Identifiers.Accepted.{plain_not_space, checked_matches}
use corpershub_application.Company.{
  is_separator, is_company_registration_number, is_tax_identification_number,
  normalize_tax_identification_number, validate_tax_identification_number,
  normalize_company_registration_number, validate_company_registration_number,
}

-- So many digits.
abbrev pub IsDigits : ℕ → ℕ → Text → Type 0
IsDigits low high s = (all is_digit s ≡ true) × (low ≤ length s) × (length s ≤ high)

-- The prefixes, each with its place in the pattern.
pub data IsPrefix : Text → Type 0 where
  rc : IsPrefix (codes "RC")
  bn : IsPrefix (codes "BN")
  it : IsPrefix (codes "IT")
  lp : IsPrefix (codes "LP")
  llp : IsPrefix (codes "LLP")

abbrev pub IsRegistration : Text → Type 0
IsRegistration n = (p : Text) × (d : Text) × (IsPrefix p × IsDigits 5 10 d × (n ≡ p ++ d))

sized_iff :
    (low high : ℕ) (s : Text)
    → ((all is_digit s && leb low (length s) && leb (length s) high) ≡ true) ↔ IsDigits low high s
sized_iff low high s = (λ h. (ground arith, ground arith, ground arith), λ (a, b, c). ground arith)

refused_false : false ≡ true → ⊥
refused_false h = cc

-- A text that a prefix and so many digits match is made of the two.
ends_split :
    (low high : ℕ) (p s : Text)
    → ends_in_digits low high (after_classes (map exactly p) s) ≡ true
    → (d : Text) × (IsDigits low high d × (s ≡ p ++ d))
unfolding after_classes
ends_split low high [] s h = let (there, _) = sized_iff low high s in (s, (there h, refl))
ends_split low high (c ∷ p) [] h = cc
ends_split low high (c ∷ p) (a ∷ s) h = elim (Bool-cases (a == c)) [
  | inl e ↦
      let (d, (digits, same)) = ends_split low high p s (rw e at h) in
      let first : a ≡ c = ground arith in (d, (digits, rw (first, same) refl))
  | inr e ↦ absurd (refused_false (rw e at h))
]

ends_join :
    (low high : ℕ) (p d : Text)
    → IsDigits low high d
    → ends_in_digits low high (after_classes (map exactly p) (p ++ d)) ≡ true
unfolding after_classes
ends_join low high [] d h = let (_, back) = sized_iff low high d in back h
ends_join low high (c ∷ p) d h =
    let same : (c == c) ≡ true = ground arith in rw same (ends_join low high p d h)

registered :
    (s p : Text)
    → IsPrefix p
    → ends_in_digits 5 10 (after_classes (map exactly p) s) ≡ true
    → IsRegistration s
registered s p known h =
    let (d, (digits, same)) = ends_split 5 10 p s h in (p, d, (known, digits, same))

none_of :
    (s : Text)
    → ends_in_digits 5 10 (after_classes (literal "RC") s) ≡ false
    → ends_in_digits 5 10 (after_classes (literal "BN") s) ≡ false
    → ends_in_digits 5 10 (after_classes (literal "IT") s) ≡ false
    → ends_in_digits 5 10 (after_classes (literal "LP") s) ≡ false
    → ends_in_digits 5 10 (after_classes (literal "LLP") s) ≡ false
    → is_company_registration_number s ≡ false
unfolding is_company_registration_number
none_of s e0 e1 e2 e3 e4 = rw (e0, e1, e2, e3, e4) refl

found : (s : Text) → is_company_registration_number s ≡ true → IsRegistration s
found s h = elim (Bool-cases (ends_in_digits 5 10 (after_classes (literal "RC") s))) [
  | inl e ↦ registered s (codes "RC") rc e
  | inr e0 ↦ elim (Bool-cases (ends_in_digits 5 10 (after_classes (literal "BN") s))) [
    | inl e ↦ registered s (codes "BN") bn e
    | inr e1 ↦ elim (Bool-cases (ends_in_digits 5 10 (after_classes (literal "IT") s))) [
      | inl e ↦ registered s (codes "IT") it e
      | inr e2 ↦ elim (Bool-cases (ends_in_digits 5 10 (after_classes (literal "LP") s))) [
        | inl e ↦ registered s (codes "LP") lp e
        | inr e3 ↦ elim (Bool-cases (ends_in_digits 5 10 (after_classes (literal "LLP") s))) [
          | inl e ↦ registered s (codes "LLP") llp e
          | inr e4 ↦
              absurd (Bool-clash (is_company_registration_number s) h (none_of s e0 e1 e2 e3 e4))
        ]
      ]
    ]
  ]
]

matches :
    (s p d : Text)
    → IsPrefix p
    → IsDigits 5 10 d
    → s ≡ p ++ d
    → is_company_registration_number s ≡ true
unfolding is_company_registration_number after_classes
matches s p d rc k e = rw (e, ends_join 5 10 (codes "RC") d k) refl
matches s p d bn k e = rw (e, ends_join 5 10 (codes "BN") d k) refl
matches s p d it k e = rw (e, ends_join 5 10 (codes "IT") d k) refl
matches s p d lp k e = rw (e, ends_join 5 10 (codes "LP") d k) (ground arith)
matches s p d llp k e = rw (e, ends_join 5 10 (codes "LLP") d k) refl

-- What has been accepted has no separators and no small letters.
abbrev is_kept : ℕ → Bool
is_kept c = is_plain c && not (is_separator c)

digits_kept : (d : Text) → all is_digit d ≡ true → all is_kept d ≡ true
unfolding is_space
digits_kept [] h = refl
digits_kept (c ∷ d) h = ground (arith, digits_kept d)

prefix_kept : (p : Text) → IsPrefix p → all is_kept p ≡ true
unfolding is_space
prefix_kept p rc = refl
prefix_kept p bn = refl
prefix_kept p it = refl
prefix_kept p lp = refl
prefix_kept p llp = refl

registration_kept : (n : Text) → IsRegistration n → all is_kept n ≡ true
registration_kept n (p, d, (known, (digits, low, high), same)) =
    rw (same, all-append is_kept p d, prefix_kept p known, digits_kept d digits) refl

kept_plain : (n : Text) → all is_kept n ≡ true → all is_plain n ≡ true
kept_plain [] h = refl
kept_plain (c ∷ n) h = ground (arith, kept_plain n)

kept_joined : (n : Text) → all is_kept n ≡ true → all (λ c. not (is_separator c)) n ≡ true
kept_joined [] h = refl
kept_joined (c ∷ n) h = ground (arith, kept_joined n)

checked-none : (m : Bool) (n : Text) → is_nil n ≡ false → m ≡ true → (checked m n).error ≡ none
checked-none m [] h k = cc
checked-none m (c ∷ n) h k = rw k refl

registration_present : (n : Text) → IsRegistration n → is_nil n ≡ false
registration_present n (p, d, (rc, digits, same)) = rw same refl
registration_present n (p, d, (bn, digits, same)) = rw same refl
registration_present n (p, d, (it, digits, same)) = rw same refl
registration_present n (p, d, (lp, digits, same)) = rw same refl
registration_present n (p, d, (llp, digits, same)) = rw same refl

digits_present : (n : Text) → IsDigits 10 13 n → is_nil n ≡ false
digits_present [] (a, low, high) = ground arith
digits_present (c ∷ n) h = refl

module _ (casing : Casing) where
  registration_fixed :
      (n : Text) → all is_kept n ≡ true → normalize_company_registration_number casing (some n) ≡ n
  unfolding normalize_company_registration_number
  registration_fixed n h =
      let plain = kept_plain n h in
      rw (trim_of_no_space n (plain_not_space n plain), casing.upper_fixed n plain)
        (filter_of_all (λ c. not (is_separator c)) n (kept_joined n h))

  -- A registration number is accepted exactly if it is, once normalised, one of the five prefixes
  -- and five to ten digits behind it.
  pub company_number_iff :
      (value : Option Text)
      → ((validate_company_registration_number casing value).error ≡ none)
        ↔ IsRegistration (normalize_company_registration_number casing value)
  unfolding validate_company_registration_number
  company_number_iff value =
      let n = normalize_company_registration_number casing value in
      (
        λ h. found n (checked_matches (is_company_registration_number n) n h),
        λ (p, d, (known, digits, same)).
            checked-none (is_company_registration_number n) n
              (registration_present n (p, d, (known, digits, same)))
              (matches n p d known digits same),
      )

  -- An accepted registration number is in its final form: validating the normalised value again
  -- accepts it and changes nothing.
  pub registration_idem :
      (value : Option Text)
      → (validate_company_registration_number casing value).error ≡ none
      → validate_company_registration_number casing
          (some (validate_company_registration_number casing value).normalized_value)
        ≡ validate_company_registration_number casing value
  unfolding validate_company_registration_number
  registration_idem value h =
      let n = normalize_company_registration_number casing value in
      let known = found n (checked_matches (is_company_registration_number n) n h) in
      ap (λ m. checked (is_company_registration_number m) m)
        (registration_fixed n (registration_kept n known))

-- A tax number is accepted exactly if it is, without the space around it, ten to thirteen digits.
pub tax_identification_iff :
    (value : Option Text)
    → ((validate_tax_identification_number value).error ≡ none)
      ↔ IsDigits 10 13 (normalize_tax_identification_number value)
unfolding validate_tax_identification_number is_tax_identification_number
tax_identification_iff value =
    let n = normalize_tax_identification_number value in
    let (there, back) = sized_iff 10 13 n in
    (
      λ h. there (checked_matches (all is_digit n && leb 10 (length n) && leb (length n) 13) n h),
      λ digits.
          checked-none (all is_digit n && leb 10 (length n) && leb (length n) 13) n
            (digits_present n digits) (back digits),
    )
