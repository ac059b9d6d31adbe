-- ===== src/Mobile/Format.antt =====
-- The numbers that the validation accepts, and what the page shows of them.
use corpershub_application.Base.{
  ℕ, [], none, some, inl, inr, suc, zero, Text, length, starts_with, ◌≡◌, all, true, is_digit, ◌++◌,
  drop, codes, ◌∷◌, arith, ap, refl, Bool, is_nil, ◌⊎◌, false, not, Option, if◌then◌else◌, ◌==◌,
  sym, ◌∙◌, trim_of_no_space, take, is_space, filter, ◌||◌, not_space, filter_of_all,
}
use corpershub_application.Mobile.{
  mobile_error, check_prefix, has_known_prefix, is_digits, validate_nigerian_mobile_number,
  check_international, MobileError, check_local, not_nigerian, not_a_number,
  normalize_mobile_number, not_only_digits, not_local, not_11_digits, not_13_digits,
  normalize_nigerian_mobile_input, normalize_nigerian_mobile_for_display,
}

-- A number without its code or zero: ten digits, of a known network.
abbrev pub IsSubscriber : Text → Type 0
IsSubscriber d =
    (length d ≡ 10) × (all is_digit d ≡ true) × (has_known_prefix (codes "0" ++ d) ≡ true)

starts_with_split : (t s : Text) → starts_with s t ≡ true → s ≡ t ++ drop (length t) s
starts_with_split [] s h = refl
starts_with_split (b ∷ t) [] h = ground arith
starts_with_split (b ∷ t) (a ∷ s) h =
    let e : a ≡ b = ground arith in
    rw e (ap (λ rest. b ∷ rest) (starts_with_split t s (ground arith)))

-- Past a guard.
passes :
    (b : Bool) (e : MobileError) (rest : Option MobileError)
    → (if b then some e else rest) ≡ none
    → (b ≡ false) × (rest ≡ none)
passes true e rest h = ground arith
passes false e rest h = (refl, h)

prefix_passes : (s : Text) → check_prefix s ≡ none → has_known_prefix s ≡ true
prefix_passes s h = ground arith

negated : (b : Bool) → not b ≡ false → b ≡ true
negated true h = refl
negated false h = ground arith

international-IsSubscriber :
    (d : Text)
    → is_digits (drop 1 (codes "+234" ++ d)) ≡ true
    → (length (codes "+234" ++ d) == 14) ≡ true
    → has_known_prefix (codes "0" ++ d) ≡ true
    → IsSubscriber d
international-IsSubscriber d h e k = (ground arith, ground arith, k)

local-IsSubscriber :
    (d : Text)
    → is_digits (codes "0" ++ d) ≡ true
    → (length (codes "0" ++ d) == 11) ≡ true
    → has_known_prefix (codes "0" ++ d) ≡ true
    → IsSubscriber d
local-IsSubscriber d h e k = (ground arith, ground arith, k)

abbrev pub Shape : Bool → Text → Type 0
Shape intl n =
    (d : Text) × (IsSubscriber d
      × ((n ≡ codes "+234" ++ d) ⊎ ((intl ≡ false) × (n ≡ codes "0" ++ d))))

international-Shape : (intl : Bool) (n : Text) → check_international n ≡ none → Shape intl n
international-Shape intl n h =
    let (digits, h1) = passes (not (is_digits (drop 1 n))) not_a_number _ h in
    let (code, h2) = passes (not (starts_with n (codes "+234"))) not_nigerian _ h1 in
    let (size, h3) = passes (not (length n == 14)) not_13_digits _ h2 in
    let e : n ≡ codes "+234" ++ drop 4 n = starts_with_split (codes "+234") n (negated _ code) in
    (
      drop 4 n,
      (
        international-IsSubscriber (drop 4 n)
            (ap (λ m. is_digits (drop 1 m)) (sym e) ∙ negated (is_digits (drop 1 n)) digits)
            (ap (λ m. length m == 14) (sym e) ∙ negated (length n == 14) size) (prefix_passes _ h3),
        inl e,
      ),
    )

local-Shape : (intl : Bool) (n : Text) → check_local intl n ≡ none → Shape intl n
local-Shape intl n h =
    let (home, h1) = passes intl not_nigerian _ h in
    let (digits, h2) = passes (not (is_digits n)) not_only_digits _ h1 in
    let (zeroed, h3) = passes (not (starts_with n (codes "0"))) not_local _ h2 in
    let (size, h4) = passes (not (length n == 11)) not_11_digits _ h3 in
    let e : n ≡ codes "0" ++ drop 1 n = starts_with_split (codes "0") n (negated _ zeroed) in
    (
      drop 1 n,
      (
        local-IsSubscriber (drop 1 n) (ap is_digits (sym e) ∙ negated (is_digits n) digits)
            (ap (λ m. length m == 11) (sym e) ∙ negated (length n == 11) size)
            (ap has_known_prefix (sym e) ∙ prefix_passes n h4),
        inr (home, e),
      ),
    )

either :
    (b : Bool) (x y : Option MobileError)
    → (if b then x else y) ≡ none
    → (x ≡ none) ⊎ ((b ≡ false) × (y ≡ none))
either true x y h = inl h
either false x y h = inr (refl, h)

any-Shape :
    (n : Text) (required intl : Bool)
    → mobile_error required intl n ≡ none
    → is_nil n ≡ false
    → Shape intl n
unfolding mobile_error
any-Shape [] required intl h e = ground arith
any-Shape (c ∷ n) required intl h e = elim (either (starts_with (c ∷ n) (codes "+")) _ _ h) [
  | inl k ↦ international-Shape intl (c ∷ n) k
  | inr k ↦ local-Shape intl (c ∷ n) k.1
]

international_accepted :
    (d : Text)
    → length d ≡ 10
    → all is_digit d ≡ true
    → has_known_prefix (codes "0" ++ d) ≡ true
    → check_international (codes "+234" ++ d) ≡ none
international_accepted d size digits known = rw (digits, size, known) refl

local_accepted :
    (d : Text)
    → length d ≡ 10
    → all is_digit d ≡ true
    → has_known_prefix (codes "0" ++ d) ≡ true
    → check_local false (codes "0" ++ d) ≡ none
local_accepted d size digits known = rw (digits, size, known) refl

-- An accepted value, if not empty, is +234 or, unless the international form is asked for, 0, and
-- behind it ten digits that begin, with the zero, like a number of a known network.
pub accepted-Shape :
    (value : Text) (required require_international_format : Bool)
    → (validate_nigerian_mobile_number value required require_international_format).error ≡ none
    → is_nil (normalize_mobile_number value) ≡ false
    → Shape require_international_format (normalize_mobile_number value)
unfolding validate_nigerian_mobile_number mobile_error
accepted-Shape value required intl h e = any-Shape (normalize_mobile_number value) required intl h e

-- Every number of that form is accepted: ten digits that begin, with a zero, like a number of a known
-- network, behind +234, or behind 0 where the international form is not asked for.
pub IsSubscriber-accepted :
    (d : Text) (required : Bool)
    → IsSubscriber d
    → (mobile_error required true (codes "+234" ++ d) ≡ none)
      × (mobile_error required false (codes "+234" ++ d) ≡ none)
      × (mobile_error required false (codes "0" ++ d) ≡ none)
unfolding mobile_error
IsSubscriber-accepted d required (size, digits, known) = (
  international_accepted d size digits known,
  international_accepted d size digits known,
  local_accepted d size digits known,
)

take_all : (n : ℕ) (s : Text) → length s ≡ n → take n s ≡ s
take_all zero [] h = refl
take_all zero (c ∷ s) h = ground arith
take_all (suc n) [] h = ground arith
take_all (suc n) (c ∷ s) h = ap (λ rest. c ∷ rest) (take_all n s (omega arith))

input_tail : (d : Text) → length d ≡ 10 → all is_digit d ≡ true → take 10 (filter is_digit d) ≡ d
input_tail d size digits = rw (filter_of_all is_digit d digits) (take_all 10 d size)

-- A code unit that the normalisation keeps.
abbrev is_kept : ℕ → Bool
is_kept c = not (is_space c || c == b'-')

all_of :
    (p q : ℕ → Bool) (s : Text)
    → all p s ≡ true
    → ((c : ℕ) → p c ≡ true → q c ≡ true)
    → all q s ≡ true
all_of p q [] h k = refl
all_of p q (c ∷ s) h k = ground (arith, all_of p q s, k c)

digit_kept : (c : ℕ) → is_digit c ≡ true → is_kept c ≡ true
unfolding is_space
digit_kept c h = ground arith

pub plain_zero : (d : Text) → all is_digit d ≡ true → all is_kept (codes "0" ++ d) ≡ true
unfolding is_space
plain_zero d h = all_of is_digit is_kept d h digit_kept

pub plain_code : (d : Text) → all is_digit d ≡ true → all is_kept (codes "+234" ++ d) ≡ true
unfolding is_space
plain_code d h = all_of is_digit is_kept d h digit_kept

pub plain_number : (s : Text) → all is_kept s ≡ true → normalize_mobile_number s ≡ s
unfolding normalize_mobile_number
plain_number s h =
    rw (trim_of_no_space s (all_of is_kept not_space s h λ c k. ground arith))
      (filter_of_all is_kept s h)

-- What the input of a field shows for the digits of an accepted number is what the page displays: a
-- number of ten digits behind a zero, or behind +234, is shown behind +234 by both.
pub input_displays :
    (d : Text)
    → IsSubscriber d
    → (normalize_nigerian_mobile_input (codes "0" ++ d) ≡ codes "+234" ++ d)
      × (normalize_nigerian_mobile_input (codes "+234" ++ d) ≡ codes "+234" ++ d)
      × (normalize_nigerian_mobile_for_display (codes "0" ++ d) ≡ codes "+234" ++ d)
      × (normalize_nigerian_mobile_for_display (codes "+234" ++ d) ≡ codes "+234" ++ d)
unfolding normalize_nigerian_mobile_input normalize_nigerian_mobile_for_display
input_displays d (size, digits, known) =
    let tens = input_tail d size digits in
    (
      ap (λ rest. codes "+234" ++ rest) tens,
      ap (λ rest. codes "+234" ++ rest) tens,
      rw (plain_number (codes "0" ++ d) (plain_zero d digits), digits, size) refl,
      rw (plain_number (codes "+234" ++ d) (plain_code d digits)) refl,
    )
