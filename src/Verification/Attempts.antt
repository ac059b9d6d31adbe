-- ===== src/Verification/Attempts.antt =====
-- The latest attempt of a type.
use corpershub_application.Base.{
  ℕ, [], none, some, inl, inr, String, Bool, List, not, str_eq, ◌≡◌, true, Option, all, leb, ◌&&◌,
  ◌∷◌, find, any, refl, Bool-cases, ◌∙◌, false, arith, ap, ◌||◌, sym,
}
use corpershub_application.Verification.{
  Attempt, DocumentType, sort_attempts, insert_attempt, type_name, latest_attempt,
}

all-not :
    (p : Attempt → Bool) (xs : List Attempt) → any p xs ≡ false → all (λ a. not (p a)) xs ≡ true
all-not p [] h = refl
all-not p (x ∷ xs) h = ground (arith, all-not p xs)

not-any :
    (p : Attempt → Bool) (xs : List Attempt) → all (λ a. not (p a)) xs ≡ true → any p xs ≡ false
not-any p [] h = refl
not-any p (x ∷ xs) h = ground (arith, not-any p xs)

module _ (time_of : String → ℕ) where
  -- What the latest attempt of a type is: one of that type, and none of the type is later.
  abbrev pub is_of : DocumentType → Attempt → Bool
  is_of type attempt = str_eq attempt.verification_type (type_name type)

  abbrev pub not_later : DocumentType → Attempt → Attempt → Bool
  not_later type latest attempt =
      not (is_of type attempt) || leb (time_of attempt.created_at) (time_of latest.created_at)

  abbrev pub IsLatest : DocumentType → List Attempt → Option Attempt → Type 0
  IsLatest type attempts none = any (is_of type) attempts ≡ false
  IsLatest type attempts (some latest) =
      (is_of type latest ≡ true) × (all (not_later type latest) attempts ≡ true)

  -- The list from an attempt on holds nothing later.
  unfoldable is_sorted : List Attempt → Bool
  is_sorted [] = true
  is_sorted (a ∷ rest) =
      all (λ b. leb (time_of b.created_at) (time_of a.created_at)) rest && is_sorted rest

  all-insert :
      (q : Attempt → Bool) (a : Attempt) (xs : List Attempt)
      → all q (insert_attempt time_of a xs) ≡ (q a && all q xs)
  unfolding insert_attempt
  all-insert q a [] = refl
  all-insert q a (b ∷ xs) = ground (arith, all-insert q a xs)

  all-sort : (q : Attempt → Bool) (xs : List Attempt) → all q (sort_attempts time_of xs) ≡ all q xs
  unfolding sort_attempts
  all-sort q [] = refl
  all-sort q (a ∷ xs) =
      all-insert q a (sort_attempts time_of xs) ∙ ap (λ b. q a && b) (all-sort q xs)

  all-weaken :
      (p q : Attempt → Bool) (xs : List Attempt)
      → all p xs ≡ true
      → ((x : Attempt) → p x ≡ true → q x ≡ true)
      → all q xs ≡ true
  all-weaken p q [] h k = refl
  all-weaken p q (x ∷ xs) h k = ground (arith, all-weaken p q xs, k x)

  abbrev before_of : Attempt → Attempt → Bool
  before_of a b = leb (time_of b.created_at) (time_of a.created_at)

  is_sorted-insert :
      (a : Attempt) (xs : List Attempt)
      → is_sorted xs ≡ true
      → is_sorted (insert_attempt time_of a xs) ≡ true
  unfolding is_sorted insert_attempt
  is_sorted-insert a [] h = refl
  is_sorted-insert a (b ∷ xs) h = elim (Bool-cases (before_of a b)) [
    | inl e ↦
        let k : all (before_of b) xs ≡ true = ground arith in
        let later = all-weaken (before_of b) (before_of a) xs k λ c l. ground arith in
        rw e (ground arith)
    | inr e ↦
        let k = all-insert (before_of b) a xs in
        let rest = is_sorted-insert a xs (ground arith) in rw e (ground arith)
  ]

  is_sorted-sort : (xs : List Attempt) → is_sorted (sort_attempts time_of xs) ≡ true
  unfolding is_sorted sort_attempts
  is_sorted-sort [] = refl
  is_sorted-sort (a ∷ xs) = is_sorted-insert a _ (is_sorted-sort xs)

  none_of_type :
      (type : DocumentType) (a : Attempt) (xs : List Attempt) (r : Option Attempt)
      → is_of type a ≡ false
      → IsLatest type xs r
      → IsLatest type (a ∷ xs) r
  none_of_type type a xs none e h = ground arith
  none_of_type type a xs (some latest) e (same, later) = (same, ground arith)

  found-IsLatest :
      (type : DocumentType) (xs : List Attempt)
      → is_sorted xs ≡ true
      → IsLatest type xs (find (is_of type) xs)
  unfolding is_sorted
  found-IsLatest type [] h = refl
  found-IsLatest type (a ∷ xs) h = elim (Bool-cases (is_of type a)) [
    | inl e ↦
        let later : all (before_of a) xs ≡ true = ground arith in
        let no_later = all-weaken (before_of a) (not_later type a) xs later λ c l. ground arith in
        rw e (e, ground arith)
    | inr e ↦ rw e (none_of_type type a xs _ e (found-IsLatest type xs (ground arith)))
  ]

  same-IsLatest :
      (type : DocumentType) (xs ys : List Attempt) (r : Option Attempt)
      → ((q : Attempt → Bool) → all q xs ≡ all q ys)
      → IsLatest type xs r
      → IsLatest type ys r
  same-IsLatest type xs ys none h k =
      not-any (is_of type) ys (sym (h (λ a. not (is_of type a))) ∙ all-not (is_of type) xs k)
  same-IsLatest type xs ys (some latest) h (same, later) =
      (same, sym (h (not_later type latest)) ∙ later)

  -- The latest attempt of a type is one of that type, later than which there is none in the list,
  -- whatever its order; there is none only where no attempt has the type.
  pub latest_attempt-IsLatest :
      (type : DocumentType) (attempts : List Attempt)
      → IsLatest type attempts (latest_attempt time_of type attempts)
  unfolding latest_attempt
  latest_attempt-IsLatest type xs =
      same-IsLatest type (sort_attempts time_of xs) xs _ (λ q. all-sort q xs)
        (found-IsLatest type (sort_attempts time_of xs) (is_sorted-sort xs))
