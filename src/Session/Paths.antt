-- ===== src/Session/Paths.antt =====
-- What `normalize_app_path` returns.
use corpershub_application.Base.{
  ℕ, ◌≡◌, inl, inr, refl, Bool, true, false, not, none, some, [], ◌∷◌, ◌++◌, Text, codes, text_eq,
  text_eq_iff, ends_with, or_default, is_nil, ◌==◌, arith, all, Bool-cases, LastNot,
  drop_end-LastNot, all-drop_end, sym, true_and, Option, is_space, all-append, not_space,
  trim_of_no_space, trim, all-trim, ◌⊎◌,
}
use corpershub_application.Session.{
  mark, slash, before, after, or_root, strip_slashes, canonical_pathname, search_of,
  normalize_app_path, with_search, second_piece,
}

abbrev pub not_mark : ℕ → Bool
not_mark c = not (c == mark)

abbrev is_slash : ℕ → Bool
is_slash c = c == slash

-- A pathname that the code leaves as it is: the root, or a text that does not end in a slash.
pub data IsCanonical : Text → Type 0 where
  root : IsCanonical (codes "/")
  open_end : (c : ℕ) (s : Text) → LastNot is_slash (c ∷ s) → IsCanonical (c ∷ s)

ends_with_of_LastNot : (s : Text) → LastNot is_slash s → ends_with slash s ≡ false
ends_with_of_LastNot [] h = refl
ends_with_of_LastNot (a ∷ []) h = h
ends_with_of_LastNot (a ∷ b ∷ s) h = ends_with_of_LastNot (b ∷ s) h

ends_with-LastNot : (s : Text) → ends_with slash s ≡ false → LastNot is_slash s
ends_with-LastNot [] h = tt
ends_with-LastNot (a ∷ []) h = h
ends_with-LastNot (a ∷ b ∷ s) h = ends_with-LastNot (b ∷ s) h

or_root-IsCanonical : (s : Text) → LastNot is_slash s → IsCanonical (or_root s)
or_root-IsCanonical [] h = root
or_root-IsCanonical (c ∷ s) h = open_end c s h

strip_slashes-IsCanonical : (c : ℕ) (s : Text) → IsCanonical (strip_slashes (c ∷ s))
unfolding strip_slashes
strip_slashes-IsCanonical c s = elim (Bool-cases (ends_with slash (c ∷ s))) [
  | inl e ↦ rw e (or_root-IsCanonical _ (drop_end-LastNot is_slash (c ∷ s)))
  | inr e ↦ rw e (open_end c s (ends_with-LastNot (c ∷ s) e))
]

pub canonical_pathname-IsCanonical : (s : Text) → IsCanonical (canonical_pathname s)
unfolding canonical_pathname
canonical_pathname-IsCanonical [] = root
canonical_pathname-IsCanonical (c ∷ s) = elim (Bool-cases (text_eq (c ∷ s) (codes "/"))) [
  | inl e ↦ rw e root
  | inr e ↦ rw e (strip_slashes-IsCanonical c s)
]

canonical_pathname_fixed : {s : Text} → IsCanonical s → canonical_pathname s ≡ s
unfolding canonical_pathname strip_slashes
canonical_pathname_fixed root = refl
canonical_pathname_fixed (open_end c s h) = elim (Bool-cases (text_eq (c ∷ s) (codes "/"))) [
  | inl e ↦ rw e (sym ((text_eq_iff _ _).0 e))
  | inr e ↦ rw (e, ends_with_of_LastNot (c ∷ s) h) refl
]

module _ (q : ℕ → Bool) (at_slash : q slash ≡ true) where
  all-or_root : (s : Text) → all q s ≡ true → all q (or_root s) ≡ true
  all-or_root [] h = true_and at_slash refl
  all-or_root (c ∷ s) h = h

  all-canonical_pathname : (s : Text) → all q s ≡ true → all q (canonical_pathname s) ≡ true
  unfolding canonical_pathname strip_slashes
  all-canonical_pathname [] h = true_and at_slash refl
  all-canonical_pathname (c ∷ s) h = elim (Bool-cases (text_eq (c ∷ s) (codes "/"))) [
    | inl e ↦ rw e (true_and at_slash refl)
    | inr e ↦ elim (Bool-cases (ends_with slash (c ∷ s))) [
      | inl f ↦ rw (e, f) (all-or_root _ (all-drop_end is_slash q (c ∷ s) h))
      | inr f ↦ rw (e, f) h
    ]
  ]

before-not_mark : (s : Text) → all not_mark (before mark s) ≡ true
unfolding before
before-not_mark [] = refl
before-not_mark (a ∷ s) = ground (arith, before-not_mark s)

all-before : (q : ℕ → Bool) (s : Text) → all q s ≡ true → all q (before mark s) ≡ true
unfolding before
all-before q [] h = refl
all-before q (a ∷ s) h = ground (arith, all-before q s)

all-after : (q : ℕ → Bool) (s : Text) → all q s ≡ true → all q (or_default (after mark s) []) ≡ true
unfolding after
all-after q [] h = refl
all-after q (a ∷ s) h = ground (arith, all-after q s)

second_piece-not_mark : (o : Option Text) → all not_mark (second_piece o) ≡ true
second_piece-not_mark none = refl
second_piece-not_mark (some rest) = before-not_mark rest

all-second_piece :
    (q : ℕ → Bool) (o : Option Text)
    → all q (or_default o []) ≡ true
    → all q (second_piece o) ≡ true
all-second_piece q none h = refl
all-second_piece q (some rest) h = all-before q rest h

search_of-not_mark : (s : Text) → all not_mark (search_of s) ≡ true
unfolding search_of
search_of-not_mark s = second_piece-not_mark (after mark s)

all-search_of : (q : ℕ → Bool) (s : Text) → all q s ≡ true → all q (search_of s) ≡ true
unfolding search_of
all-search_of q s h = all-second_piece q (after mark s) (all-after q s h)

before_of_not_mark : (s : Text) → all not_mark s ≡ true → before mark s ≡ s
unfolding before
before_of_not_mark [] h = refl
before_of_not_mark (a ∷ s) h = ground (arith, before_of_not_mark s)

after_of_not_mark : (s : Text) → all not_mark s ≡ true → after mark s ≡ none
unfolding after
after_of_not_mark [] h = refl
after_of_not_mark (a ∷ s) h = ground (arith, after_of_not_mark s)

before-append : (s t : Text) → all not_mark s ≡ true → before mark (s ++ mark ∷ t) ≡ s
unfolding before
before-append [] t h = refl
before-append (a ∷ s) t h = ground (arith, before-append s t)

after-append : (s t : Text) → all not_mark s ≡ true → after mark (s ++ mark ∷ t) ≡ some t
unfolding after
after-append [] t h = refl
after-append (a ∷ s) t h = ground (arith, after-append s t)

is_nil-with_search :
    {path : Text} (search : Text) → IsCanonical path → is_nil (with_search path search) ≡ false
is_nil-with_search [] root = refl
is_nil-with_search (d ∷ search) root = refl
is_nil-with_search [] (open_end c s h) = refl
is_nil-with_search (d ∷ search) (open_end c s h) = refl

all-with_search :
    (q : ℕ → Bool) (path search : Text)
    → q mark ≡ true
    → all q path ≡ true
    → all q search ≡ true
    → all q (with_search path search) ≡ true
all-with_search q path [] m p h = p
all-with_search q path (d ∷ search) m p h = ground (arith, all-append q path (mark ∷ d ∷ search))

module _ (path search : Text) (no_mark : all not_mark path ≡ true) where
  before-with_search : before mark (with_search path search) ≡ path
  before-with_search = before_part search
    where
      before_part : (t : Text) → before mark (with_search path t) ≡ path
      before_part [] = before_of_not_mark path no_mark
      before_part (d ∷ t) = before-append path (d ∷ t) no_mark

  search_of-with_search : all not_mark search ≡ true → search_of (with_search path search) ≡ search
  unfolding search_of
  search_of-with_search = search_part search
    where
      search_part : (t : Text) → all not_mark t ≡ true → search_of (with_search path t) ≡ t
      search_part [] h = rw (after_of_not_mark path no_mark) refl
      search_part (d ∷ t) h = rw (after-append path (d ∷ t) no_mark) (before_of_not_mark (d ∷ t) h)

-- Without whitespace in it, a path of a canonical pathname and a search part is left alone.
normalize_app_path_fixed :
    {path : Text} (search : Text)
    → IsCanonical path
    → all not_mark path ≡ true
    → all not_mark search ≡ true
    → all not_space (with_search path search) ≡ true
    → normalize_app_path (some (with_search path search)) ≡ with_search path search
unfolding normalize_app_path
normalize_app_path_fixed {path} search canonical p h k =
    rw
      (
        trim_of_no_space (with_search path search) k,
        is_nil-with_search search canonical,
        before-with_search path search p,
        search_of-with_search path search p h,
        canonical_pathname_fixed canonical,
      )
      refl

nil_trim : is_nil (trim []) ≡ true
unfolding trim
nil_trim = refl

slash-not_mark : not_mark slash ≡ true
slash-not_mark = refl

slash-not_space : not_space slash ≡ true
unfolding is_space
slash-not_space = refl

mark-not_space : not_space mark ≡ true
unfolding is_space
mark-not_space = refl

normalize_app_path_of_nil :
    (path : Option Text) → is_nil (trim (or_default path [])) ≡ true → normalize_app_path path ≡ []
unfolding normalize_app_path
normalize_app_path_of_nil path e = rw e

normalize_app_path_of_not_nil :
    (path : Option Text)
    → is_nil (trim (or_default path [])) ≡ false
    → normalize_app_path path ≡ (
        let value = trim (or_default path []) in
        with_search (canonical_pathname (before mark value)) (search_of value))
unfolding normalize_app_path
normalize_app_path_of_not_nil path e = rw e

-- Whatever the input, the result is empty, or it is a pathname with an optional search part, where
-- the pathname is the root or is not empty and does not end in a slash, and neither part holds a
-- question mark.
pub normalize_app_path_shape :
    (path : Option Text)
    → (normalize_app_path path ≡ [])
      ⊎ ((pathname : Text) × (search : Text) × (normalize_app_path path
            ≡ with_search pathname search)
          × IsCanonical pathname
          × (all not_mark pathname ≡ true)
          × (all not_mark search ≡ true))
normalize_app_path_shape path =
    let value = trim (or_default path []) in
    elim (Bool-cases (is_nil value)) [
      | inl e ↦ inl (normalize_app_path_of_nil path e)
      | inr e ↦ inr (
        canonical_pathname (before mark value),
        search_of value,
        normalize_app_path_of_not_nil path e,
        canonical_pathname-IsCanonical (before mark value),
        all-canonical_pathname not_mark slash-not_mark _ (before-not_mark value),
        search_of-not_mark value,
      )
    ]

-- Normalising a path with no whitespace in it a second time changes nothing.
pub normalize_app_path_idem :
    (path : Text)
    → all not_space path ≡ true
    → normalize_app_path (some (normalize_app_path (some path))) ≡ normalize_app_path (some path)
normalize_app_path_idem path h = elim (Bool-cases (is_nil (trim path))) [
  | inl e ↦
      rw (normalize_app_path_of_nil (some path) e) (normalize_app_path_of_nil (some []) nil_trim)
  | inr e ↦
      let kept = all-trim not_space path h in
      let p = all-canonical_pathname not_space slash-not_space _ (all-before not_space _ kept) in
      let s = all-search_of not_space (trim path) kept in
      rw (normalize_app_path_of_not_nil (some path) e) (
        normalize_app_path_fixed (search_of (trim path))
          (canonical_pathname-IsCanonical (before mark (trim path)))
          (all-canonical_pathname not_mark slash-not_mark _ (before-not_mark (trim path)))
          (search_of-not_mark (trim path)) (all-with_search not_space _ _ mark-not_space p s))
]
