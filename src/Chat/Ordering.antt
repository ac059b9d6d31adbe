-- ===== src/Chat/Ordering.antt =====
-- The list of messages stays free of duplicates and keeps its order.
use corpershub_application.Base.{
  none, some, str_eq_iff, [], inl, inr, Option, List, String, Bool, true, any, ◌≡◌, str_eq, false,
  refl, filter, arith, ◌∷◌, any-filter-not, ◌++◌, any-filter, not, any-append, some, ◌&&◌,
  filter_of_none, ◌∙◌, Bool-cases,
}
use corpershub_application.Chat.{Message, upsert_message, has_id, place, replace_first}

pub str_eq_comm : (a b : String) → str_eq a b ≡ str_eq b a
str_eq_comm a b = ground (arith, str_eq_iff a b, str_eq_iff b a)

pub str_eq_refl : (a : String) → str_eq a a ≡ true
str_eq_refl a = (str_eq_iff a a).1 refl

-- No two messages share an identifier.
unfoldable pub is_distinct : List Message → Bool
is_distinct [] = true
is_distinct (message ∷ rest) = not (any (has_id message.id) rest) && is_distinct rest

pub is_distinct-filter :
    (q : Message → Bool) (ms : List Message)
    → is_distinct ms ≡ true
    → is_distinct (filter q ms) ≡ true
unfolding is_distinct
is_distinct-filter q [] h = refl
is_distinct-filter q (m ∷ ms) h =
    ground (arith, is_distinct-filter q ms, any-filter (has_id m.id) q ms)

any_snoc :
    (m next : Message) (ms : List Message)
    → any (has_id m.id) ms ≡ false
    → has_id next.id m ≡ false
    → any (has_id m.id) (ms ++ next ∷ []) ≡ false
any_snoc m next ms h e =
    any-append (has_id m.id) ms (next ∷ []) ∙ ground (arith, str_eq_comm m.id next.id)

pub is_distinct-snoc :
    (next : Message) (ms : List Message)
    → is_distinct ms ≡ true
    → any (has_id next.id) ms ≡ false
    → is_distinct (ms ++ next ∷ []) ≡ true
unfolding is_distinct
is_distinct-snoc next [] h e = refl
is_distinct-snoc next (m ∷ ms) h e = ground (arith, is_distinct-snoc next ms, any_snoc m next ms)

any-replace_first :
    (p : Message → Bool) (m next : Message) (ms : List Message)
    → any (has_id m.id) ms ≡ false
    → has_id next.id m ≡ false
    → any (has_id m.id) (replace_first p next ms) ≡ false
any-replace_first p m next [] h e = refl
any-replace_first p m next (n ∷ ms) h e =
    ground (arith, any-replace_first p m next ms, str_eq_comm m.id next.id)

is_distinct-replace_first :
    (p : Message → Bool) (next : Message) (ms : List Message)
    → is_distinct ms ≡ true
    → any (has_id next.id) ms ≡ false
    → is_distinct (replace_first p next ms) ≡ true
unfolding is_distinct
is_distinct-replace_first p next [] h e = refl
is_distinct-replace_first p next (m ∷ ms) h e =
    ground (arith, is_distinct-replace_first p next ms, any-replace_first p m next ms)

is_distinct-place :
    (r : Option String) (next : Message) (ms : List Message)
    → is_distinct ms ≡ true
    → any (has_id next.id) ms ≡ false
    → is_distinct (place r next ms) ≡ true
is_distinct-place none next ms h e = is_distinct-snoc next ms h e
is_distinct-place (some i) next ms h e =
    ground (arith, is_distinct-snoc next ms, is_distinct-replace_first (has_id i) next ms)

pub upsert-distinct :
    (ms : List Message) (next : Message) (r : Option String)
    → is_distinct ms ≡ true
    → is_distinct (upsert_message ms next r) ≡ true
unfolding upsert_message
upsert-distinct ms next r h =
    is_distinct-place r next _ (is_distinct-filter _ ms h) (any-filter-not (has_id next.id) ms)

-- What a replacement does to the messages that pass a test: `next` passes it.
filter-replace_first_in :
    (q p : Message → Bool) (next : Message) (ms : List Message)
    → q next ≡ true
    → any q ms ≡ false
    → any p ms ≡ true
    → filter q (replace_first p next ms) ≡ next ∷ []
filter-replace_first_in q p next [] t e f = ground arith
filter-replace_first_in q p next (m ∷ ms) t e f =
    ground (arith, filter-replace_first_in q p next ms, filter_of_none q ms)

filter-replace_first_out :
    (q p : Message → Bool) (next : Message) (ms : List Message)
    → q next ≡ false
    → ((m : Message) → p m ≡ true → q m ≡ false)
    → filter q (replace_first p next ms) ≡ filter q ms
filter-replace_first_out q p next [] t h = refl
filter-replace_first_out q p next (m ∷ ms) t h =
    ground (arith, filter-replace_first_out q p next ms, h m)

-- The messages that an update is not about: `next` has another identifier, and they are not to be
-- replaced.
abbrev pub is_other : Message → Option String → Message → Bool
is_other next none m = not (has_id next.id m)
is_other next (some i) m = not (has_id next.id m) && not (has_id i m)

filter_twice :
    (p q : Message → Bool) (ms : List Message)
    → ((m : Message) → p m ≡ true → q m ≡ true)
    → filter p (filter q ms) ≡ filter p ms
filter_twice p q [] h = refl
filter_twice p q (m ∷ ms) h = ground (arith, filter_twice p q ms, h m)

filter-snoc_in :
    (q : Message → Bool) (next : Message) (ms : List Message)
    → q next ≡ true
    → any q ms ≡ false
    → filter q (ms ++ next ∷ []) ≡ next ∷ []
filter-snoc_in q next [] t e = ground arith
filter-snoc_in q next (m ∷ ms) t e = ground (arith, filter-snoc_in q next ms)

filter-snoc_out :
    (q : Message → Bool) (next : Message) (ms : List Message)
    → q next ≡ false
    → filter q (ms ++ next ∷ []) ≡ filter q ms
filter-snoc_out q next [] t = ground arith
filter-snoc_out q next (m ∷ ms) t = ground (arith, filter-snoc_out q next ms)

place_in :
    (q : Message → Bool) (r : Option String) (next : Message) (ms : List Message)
    → q next ≡ true
    → any q ms ≡ false
    → filter q (place r next ms) ≡ next ∷ []
place_in q none next ms t e = filter-snoc_in q next ms t e
place_in q (some i) next ms t e = elim (Bool-cases (any (has_id i) ms)) [
  | inl f ↦ rw f (filter-replace_first_in q (has_id i) next ms t e f)
  | inr f ↦ rw f (filter-snoc_in q next ms t e)
]

not_other : (next : Message) (r : Option String) → is_other next r next ≡ false
not_other next none = rw (str_eq_refl next.id) refl
not_other next (some i) = rw (str_eq_refl next.id) refl

place_out :
    (r : Option String) (next : Message) (ms : List Message)
    → filter (is_other next r) (place r next ms) ≡ filter (is_other next r) ms
place_out none next ms = filter-snoc_out _ next ms (not_other next none)
place_out (some i) next ms = elim (Bool-cases (any (has_id i) ms)) [
  | inl f ↦ rw f (
      filter-replace_first_out (is_other next (some i)) (has_id i) next ms (not_other next (some i))
        λ m e. ground arith)
  | inr f ↦ rw f (filter-snoc_out _ next ms (not_other next (some i)))
]

other_apart :
    (next : Message) (r : Option String) (m : Message)
    → is_other next r m ≡ true
    → not (has_id next.id m) ≡ true
other_apart next none m e = e
other_apart next (some i) m e = ground arith

-- After an update the new message stands in the list exactly once, whatever the list was, and the
-- messages that have neither its identifier nor the one to replace are there as before, in their
-- order.
pub upsert_once :
    (ms : List Message) (next : Message) (replace_id : Option String)
    → (filter (has_id next.id) (upsert_message ms next replace_id) ≡ next ∷ [])
      × (filter (is_other next replace_id) (upsert_message ms next replace_id)
          ≡ filter (is_other next replace_id) ms)
unfolding upsert_message
upsert_once ms next r = (
  place_in (has_id next.id) r next _ (str_eq_refl next.id) (any-filter-not (has_id next.id) ms),
  place_out r next _
      ∙ filter_twice (is_other next r) (λ m. not (has_id next.id m)) ms (other_apart next r),
)
