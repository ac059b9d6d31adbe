-- ===== src/Base/Lists.antt =====
-- Lists measured by native numbers and walked by Boolean tests, as the array methods of the source
-- do (`filter`, `find`, `some`, `every`, `includes`, `slice`).
use Prim.Native.Nat.{ℕ, zero, suc, ◌+◌, ◌≤◌}
use mathlib.Core.Path.{◌≡◌, refl, ap}
use mathlib.Core.Logic.{inl, inr}
use mathlib.Core.Bool.{Bool, true, false, ◌&&◌, ◌||◌, not}
use mathlib.Core.Option.{Option, none, some}
use mathlib.Core.List.{List, [], ◌∷◌, ◌++◌}
use native.Mathlib.Omega.{arith}
use corpershub_application.Base.Tests.{if◌then◌else◌, Bool-cases}

module _ {ℓ} {A : Type ℓ} where
  abbrev pub length : List A → ℕ
  length [] = 0
  length (x ∷ xs) = suc (length xs)

  abbrev pub take : ℕ → List A → List A
  take zero xs = []
  take (suc n) [] = []
  take (suc n) (x ∷ xs) = x ∷ take n xs

  abbrev pub drop : ℕ → List A → List A
  drop zero xs = xs
  drop (suc n) [] = []
  drop (suc n) (x ∷ xs) = drop n xs

  abbrev pub filter : (A → Bool) → List A → List A
  filter p [] = []
  filter p (x ∷ xs) = if p x then x ∷ filter p xs else filter p xs

  abbrev pub find : (A → Bool) → List A → Option A
  find p [] = none
  find p (x ∷ xs) = if p x then some x else find p xs

  abbrev pub any : (A → Bool) → List A → Bool
  any p [] = false
  any p (x ∷ xs) = p x || any p xs

  abbrev pub all : (A → Bool) → List A → Bool
  all p [] = true
  all p (x ∷ xs) = p x && all p xs

  abbrev pub head_of : List A → Option A
  head_of [] = none
  head_of (x ∷ xs) = some x

  abbrev pub is_nil : List A → Bool
  is_nil [] = true
  is_nil (x ∷ xs) = false

  pub length-append : (xs ys : List A) → length (xs ++ ys) ≡ length xs + length ys
  length-append [] ys = omega arith
  length-append (x ∷ xs) ys = omega (arith, length-append xs ys)

  pub all-append : (p : A → Bool) (xs ys : List A) → all p (xs ++ ys) ≡ (all p xs && all p ys)
  all-append p [] ys = refl
  all-append p (x ∷ xs) ys = ground (arith, all-append p xs ys)

  pub length-filter : (p : A → Bool) (xs : List A) → length (filter p xs) ≤ length xs
  length-filter p [] = omega arith
  length-filter p (x ∷ xs) = ground (arith, length-filter p xs)

  pub filter-append :
      (p : A → Bool) (xs ys : List A) → filter p (xs ++ ys) ≡ filter p xs ++ filter p ys
  filter-append p [] ys = refl
  filter-append p (x ∷ xs) ys = elim (Bool-cases (p x)) [
    | inl e ↦ rw (e, filter-append p xs ys) refl
    | inr e ↦ rw (e, filter-append p xs ys) refl
  ]

  pub any-append : (p : A → Bool) (xs ys : List A) → any p (xs ++ ys) ≡ (any p xs || any p ys)
  any-append p [] ys = refl
  any-append p (x ∷ xs) ys = ground (arith, any-append p xs ys)

  pub any-filter : (p q : A → Bool) (xs : List A) → any p xs ≡ false → any p (filter q xs) ≡ false
  any-filter p q [] h = refl
  any-filter p q (x ∷ xs) h = ground (arith, any-filter p q xs)

  pub any-filter-not : (p : A → Bool) (xs : List A) → any p (filter (λ x. not (p x)) xs) ≡ false
  any-filter-not p [] = refl
  any-filter-not p (x ∷ xs) = ground (arith, any-filter-not p xs)

  pub filter_of_none : (p : A → Bool) (xs : List A) → any p xs ≡ false → filter p xs ≡ []
  filter_of_none p [] h = refl
  filter_of_none p (x ∷ xs) h = ground (arith, filter_of_none p xs)

  pub filter-not_of_none :
      (p : A → Bool) (xs : List A) → any p xs ≡ false → filter (λ x. not (p x)) xs ≡ xs
  filter-not_of_none p [] h = refl
  filter-not_of_none p (x ∷ xs) h = ground (arith, filter-not_of_none p xs)

  pub filter_of_all : (p : A → Bool) (xs : List A) → all p xs ≡ true → filter p xs ≡ xs
  filter_of_all p [] h = refl
  filter_of_all p (x ∷ xs) h = ground (arith, filter_of_all p xs)

  pub all-filter : (p : A → Bool) (xs : List A) → all p (filter p xs) ≡ true
  all-filter p [] = refl
  all-filter p (x ∷ xs) = ground (arith, all-filter p xs)

  -- What `find` returns satisfies its test.
  pub find_sound : (p : A → Bool) (xs : List A) {a : A} → find p xs ≡ some a → p a ≡ true
  find_sound p [] h = cc
  find_sound p (x ∷ xs) {a} h = ground (arith, find_sound p xs {a = a})

  pub find-none : (p : A → Bool) (xs : List A) → find p xs ≡ none → any p xs ≡ false
  find-none p [] h = refl
  find-none p (x ∷ xs) h = ground (arith, find-none p xs)

  pub find_of_any : (p : A → Bool) (xs : List A) → any p xs ≡ true → (a : A) × (find p xs ≡ some a)
  find_of_any p (x ∷ xs) h = elim (Bool-cases (p x)) [
    | inl e ↦ (x, ground arith)
    | inr e ↦ let (a, found) = find_of_any p xs (ground arith) in (a, ground arith)
  ]
  find_of_any p [] h = cc

module _ {ℓ} {A : Type ℓ} (p : A → Bool) where
  -- Without the longest prefix, or suffix, on which the test holds.
  unfoldable pub drop_while : List A → List A
  drop_while [] = []
  drop_while (x ∷ xs) = if p x then drop_while xs else x ∷ xs

  abbrev pub take_while : List A → List A
  take_while [] = []
  take_while (x ∷ xs) = if p x then x ∷ take_while xs else []

  abbrev close_end : A → List A → List A
  close_end x [] = if p x then [] else x ∷ []
  close_end x (y ∷ ys) = x ∷ y ∷ ys

  unfoldable pub drop_end : List A → List A
  drop_end [] = []
  drop_end (x ∷ xs) = close_end x (drop_end xs)

  abbrev pub HeadNot : List A → Type 0
  HeadNot [] = Unit
  HeadNot (x ∷ xs) = p x ≡ false

  abbrev pub LastNot : List A → Type 0
  LastNot [] = Unit
  LastNot (x ∷ []) = p x ≡ false
  LastNot (x ∷ y ∷ xs) = LastNot (y ∷ xs)

  pub drop_while-HeadNot : (xs : List A) → HeadNot (drop_while xs)
  unfolding drop_while
  drop_while-HeadNot [] = tt
  drop_while-HeadNot (x ∷ xs) = elim (Bool-cases (p x)) [
    | inl e ↦ rw (e, drop_while) (drop_while-HeadNot xs)
    | inr e ↦ rw (e, drop_while) e
  ]

  pub drop_while_of_HeadNot : (xs : List A) → HeadNot xs → drop_while xs ≡ xs
  unfolding drop_while
  drop_while_of_HeadNot [] h = refl
  drop_while_of_HeadNot (x ∷ xs) h = rw h

  close_end-LastNot : (x : A) (ys : List A) → LastNot ys → LastNot (close_end x ys)
  close_end-LastNot x [] h = elim (Bool-cases (p x)) [
    | inl e ↦ rw (e, close_end) tt
    | inr e ↦ rw (e, close_end) e
  ]
  close_end-LastNot x (y ∷ ys) h = h

  pub drop_end-LastNot : (xs : List A) → LastNot (drop_end xs)
  unfolding drop_end
  drop_end-LastNot [] = tt
  drop_end-LastNot (x ∷ xs) = close_end-LastNot x (drop_end xs) (drop_end-LastNot xs)

  pub drop_end_of_LastNot : (xs : List A) → LastNot xs → drop_end xs ≡ xs
  unfolding drop_end
  drop_end_of_LastNot [] h = refl
  drop_end_of_LastNot (x ∷ []) h = rw h
  drop_end_of_LastNot (x ∷ y ∷ xs) h = ap (close_end x) (drop_end_of_LastNot (y ∷ xs) h)

  close_end-HeadNot : (x : A) (ys : List A) → p x ≡ false → HeadNot (close_end x ys)
  close_end-HeadNot x [] h = rw h h
  close_end-HeadNot x (y ∷ ys) h = h

  pub drop_end-HeadNot : (xs : List A) → HeadNot xs → HeadNot (drop_end xs)
  unfolding drop_end
  drop_end-HeadNot [] h = tt
  drop_end-HeadNot (x ∷ xs) h = close_end-HeadNot x (drop_end xs) h

  all-close_end :
      (q : A → Bool) (x : A) (ys : List A)
      → (q x && all q ys) ≡ true
      → all q (close_end x ys) ≡ true
  all-close_end q x [] h = ground arith
  all-close_end q x (y ∷ ys) h = h

  pub all-drop_end : (q : A → Bool) (xs : List A) → all q xs ≡ true → all q (drop_end xs) ≡ true
  unfolding drop_end
  all-drop_end q [] h = refl
  all-drop_end q (x ∷ xs) h = ground (arith, all-drop_end q xs, all-close_end q x (drop_end xs))

  pub all-drop_while : (q : A → Bool) (xs : List A) → all q xs ≡ true → all q (drop_while xs) ≡ true
  unfolding drop_while
  all-drop_while q [] h = refl
  all-drop_while q (x ∷ xs) h = ground (arith, all-drop_while q xs)

  -- Where no element passes the test, nothing is dropped.
  pub drop_while_of_all : (xs : List A) → all (λ x. not (p x)) xs ≡ true → drop_while xs ≡ xs
  unfolding drop_while
  drop_while_of_all [] h = refl
  drop_while_of_all (x ∷ xs) h = ground arith

  pub drop_end_of_all : (xs : List A) → all (λ x. not (p x)) xs ≡ true → drop_end xs ≡ xs
  unfolding drop_end
  drop_end_of_all [] h = refl
  drop_end_of_all (x ∷ []) h = ground arith
  drop_end_of_all (x ∷ y ∷ xs) h = ap (close_end x) (drop_end_of_all (y ∷ xs) (ground arith))

  pub length-drop_while : (xs : List A) → length (drop_while xs) ≤ length xs
  unfolding drop_while
  length-drop_while [] = omega arith
  length-drop_while (x ∷ xs) = ground (arith, length-drop_while xs)

  -- An element on which `p` fails survives.
  pub any-drop_while :
      (q : A → Bool)
      → ((x : A) → q x ≡ true → p x ≡ false)
      → (xs : List A) → any q (drop_while xs) ≡ any q xs
  unfolding drop_while
  any-drop_while q h [] = refl
  any-drop_while q h (x ∷ xs) = ground (arith, h x, any-drop_while q h xs)

  pub all-take_while : (xs : List A) → all p (take_while xs) ≡ true
  all-take_while [] = refl
  all-take_while (x ∷ xs) = ground (arith, all-take_while xs)

  pub take_while-drop_while : (xs : List A) → take_while xs ++ drop_while xs ≡ xs
  unfolding drop_while
  take_while-drop_while [] = refl
  take_while-drop_while (x ∷ xs) = elim (Bool-cases (p x)) [
    | inl e ↦ rw (e, take_while-drop_while xs) refl
    | inr e ↦ rw e refl
  ]
