-- ===== src/Profile/Lists.antt =====
-- What is stored of a list is read again as that list.
use corpershub_application.Base.{
  Bool-cases, inl, inr, ℕ, [], some, refl, arith, List, Bool, Text, ◌∷◌, ◌++◌, ◌≡◌, ◌∙◌, ap, true,
  false, not, ◌==◌, all, map, filter, trim, is_nil, is_space, drop_while, prepend, all-trim, codes,
}
use corpershub_application.Dropdown.{tidy, unique, join_commas}
use corpershub_application.Dropdown.Values.{
  is_distinct, tidy_options, tidy_of_options, is_distinct-unique, all-unique, all-filter_of,
}
use corpershub_application.Directory.{split_on}
use corpershub_application.Profile.{parse_comma_separated_values, serialize_multi_select_values}

abbrev is_apart : ℕ → Bool
is_apart c = not (c == b',')

-- No value has a comma.
abbrev pub without_commas : List Text → Bool
without_commas values = all (λ value. all is_apart value) values

split_behind :
    (v s : Text) → all is_apart v ≡ true → split_on b',' (v ++ b',' ∷ s) ≡ v ∷ split_on b',' s
unfolding split_on
split_behind [] s h = refl
split_behind (a ∷ v) s h =
    let apart : (a == b',') ≡ false = ground arith in
    rw (apart, split_behind v s (ground arith)) refl

split_whole : (v : Text) → all is_apart v ≡ true → split_on b',' v ≡ v ∷ []
unfolding split_on
split_whole [] h = refl
split_whole (a ∷ v) h =
    let apart : (a == b',') ≡ false = ground arith in rw (apart, split_whole v (ground arith)) refl

trim_spaced : (s : Text) → trim (32 ∷ s) ≡ trim s
unfolding trim is_space drop_while
trim_spaced s = refl

map_spaced : (y : Text) (ys : List Text) → map trim (prepend 32 (y ∷ ys)) ≡ map trim (y ∷ ys)
map_spaced y ys = ap (λ t. t ∷ map trim ys) (trim_spaced y)

split_nonempty : (s : Text) → (y : Text) × (ys : List Text) × (split_on b',' s ≡ y ∷ ys)
unfolding split_on
split_nonempty [] = ([], [], refl)
split_nonempty (a ∷ s) = elim (Bool-cases (a == b',')) [
  | inl e ↦ ([], split_on b',' s, rw e refl)
  | inr e ↦ let (y, ys, same) = split_nonempty s in (a ∷ y, ys, rw (e, same) refl)
]

split_spaced : (s : Text) → map trim (split_on b',' (32 ∷ s)) ≡ map trim (split_on b',' s)
unfolding split_on
split_spaced s = let (y, ys, same) = split_nonempty s in rw same (map_spaced y ys)

append_assoc : (a b c : Text) → (a ++ b) ++ c ≡ a ++ (b ++ c)
append_assoc [] b c = refl
append_assoc (x ∷ a) b c = ap (λ rest. x ∷ rest) (append_assoc a b c)

join_two :
    (v w : Text) (values : List Text)
    → join_commas (v ∷ w ∷ values) ≡ v ++ b',' ∷ 32 ∷ join_commas (w ∷ values)
join_two v w values = append_assoc v (codes ", ") (join_commas (w ∷ values))

split-join :
    (v : Text) (values : List Text)
    → without_commas (v ∷ values) ≡ true
    → map trim (split_on b',' (join_commas (v ∷ values))) ≡ map trim (v ∷ values)
split-join v [] h = rw (split_whole v (ground arith)) refl
split-join v (w ∷ values) h =
    let later = join_commas (w ∷ values) in
    ap (λ s. map trim (split_on b',' s)) (join_two v w values)
    ∙ ap (map trim) (split_behind v (32 ∷ later) (ground arith))
    ∙ ap (λ rest. trim v ∷ rest) (split_spaced later ∙ split-join w values (ground arith))

tidy-join :
    (values : List Text)
    → without_commas values ≡ true
    → tidy (split_on b',' (join_commas values)) ≡ tidy values
unfolding tidy split_on trim
tidy-join [] h = refl
tidy-join (v ∷ values) h =
    ap (λ trimmed. unique (filter (λ value. not (is_nil value)) trimmed)) (split-join v values h)

trimmed_apart :
    (values : List Text) → without_commas values ≡ true → without_commas (map trim values) ≡ true
trimmed_apart [] h = refl
trimmed_apart (v ∷ values) h = ground (arith, trimmed_apart values, all-trim is_apart v)

tidy_apart :
    (values : List Text) → without_commas values ≡ true → without_commas (tidy values) ≡ true
unfolding tidy
tidy_apart values h =
    all-unique (λ value. all is_apart value) _
      (all-filter_of (λ value. all is_apart value) _ (map trim values) (trimmed_apart values h))

is_distinct-tidy : (values : List Text) → is_distinct (tidy values) ≡ true
unfolding tidy
is_distinct-tidy values = is_distinct-unique _

-- A list of values without commas is read again from the text that is stored: the same values in the
-- same order, trimmed, without the empty ones, each once.
pub parse-serialize :
    (values : List Text)
    → without_commas values ≡ true
    → parse_comma_separated_values (some (serialize_multi_select_values values)) ≡ tidy values
unfolding parse_comma_separated_values serialize_multi_select_values
parse-serialize values h =
    tidy-join (tidy values) (tidy_apart values h)
    ∙ tidy_of_options (tidy values) (tidy_options values) (is_distinct-tidy values)
