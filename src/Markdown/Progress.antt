-- ===== src/Markdown/Progress.antt =====
-- When the renderer returns: its outer loop leaves a line that starts with "#" and is no heading
-- where it is, and consumes every other line.
use corpershub_application.Base.{
  ◌||◌, [], ℕ, zero, trim, Text, Bool, starts_with, codes, ◌&&◌, not, ◌≡◌, true, List, arith, any,
  ◌∷◌, false, is_nil, length, text_eq, ◌≤◌, is_some, Bool-cases, drop_while, Option, any-drop_while,
  inl, none, ◌∙◌, length-drop_while, suc, inr, some, refl, if_lem, Bool-clash, and_right,
}
use corpershub_application.Markdown.{
  Mode, after_number, is_metadata_line, round, is_signature_note_line, in_paragraph, in_list,
  in_metadata, in_ordered_list, render, Block, render_lines, split_lines, push_blocks, unix_lines,
  is_ordered, is_open_page,
}

-- Such a line, trimmed.
abbrev is_loose_hash : Text → Bool
is_loose_hash s =
    starts_with s (codes "#")
    && not
        (starts_with s (codes "# ") || starts_with s (codes "## ") || starts_with s (codes "### "))

unfoldable pub is_stuck : Text → Bool
unfolding trim
is_stuck line = is_loose_hash (trim line)

record Passed (s : Text) : Type 0 where
  not_blank : is_nil s ≡ false
  not_note : is_signature_note_line s ≡ false
  not_rule : text_eq s (codes "---") ≡ false
  not_item : starts_with s (codes "* ") ≡ false
  not_ordered : is_some (after_number s) ≡ false
  not_metadata : is_metadata_line s ≡ false

-- No other test of the loop holds of a text that starts with "#".
hash-Passed : (s : Text) → starts_with s (codes "#") ≡ true → Passed s
unfolding after_number is_metadata_line is_signature_note_line
hash-Passed [] h = cc
hash-Passed (a ∷ s) h =
    let e : a ≡ 35 = ground arith in
    rw e (record {
      not_blank = refl;
      not_note = refl;
      not_rule = refl;
      not_item = refl;
      not_ordered = refl;
      not_metadata = refl;
    })

loose_hash : (s : Text) → is_loose_hash s ≡ true → starts_with s (codes "#") ≡ true
loose_hash s h = ground arith

-- A line on which the loop stays is in none of the inner loops.
stuck-in_list : (line : Text) → is_stuck line ≡ true → in_list line ≡ false
unfolding is_stuck
stuck-in_list line h =
    let passed = hash-Passed (trim line) (loose_hash (trim line) h) in passed.not_item

stuck-in_ordered_list : (line : Text) → is_stuck line ≡ true → in_ordered_list line ≡ false
unfolding is_stuck
stuck-in_ordered_list line h =
    let passed = hash-Passed (trim line) (loose_hash (trim line) h) in passed.not_ordered

stuck-in_metadata : (line : Text) → is_stuck line ≡ true → in_metadata line ≡ false
unfolding is_stuck
stuck-in_metadata line h =
    let passed = hash-Passed (trim line) (loose_hash (trim line) h) in
    ground (arith, passed.not_metadata)

stuck-in_paragraph : (line : Text) → is_stuck line ≡ true → in_paragraph line ≡ false
unfolding is_stuck
stuck-in_paragraph line h = let e = loose_hash (trim line) h in ground arith

not_loose : (s : Text) → ¬ Passed s → is_loose_hash s ≡ false
not_loose s h = elim (Bool-cases (starts_with s (codes "#"))) [
  | inl e ↦ absurd (h (hash-Passed s e))
  | inr e ↦ ground arith
]

h1_not_loose : (s : Text) → starts_with s (codes "# ") ≡ true → is_loose_hash s ≡ false
h1_not_loose s e = ground arith

h2_not_loose : (s : Text) → starts_with s (codes "## ") ≡ true → is_loose_hash s ≡ false
h2_not_loose s e = ground arith

h3_not_loose : (s : Text) → starts_with s (codes "### ") ≡ true → is_loose_hash s ≡ false
h3_not_loose s e = ground arith

in_metadata_of :
    (line : Text)
    → is_nil (trim line) ≡ false
    → is_metadata_line (trim line) ≡ true
    → in_metadata line ≡ true
in_metadata_of line e f = ground arith

in_paragraph_of :
    (line : Text)
    → is_nil (trim line) ≡ false
    → text_eq (trim line) (codes "---") ≡ false
    → starts_with (trim line) (codes "# ") ≡ false
    → starts_with (trim line) (codes "## ") ≡ false
    → starts_with (trim line) (codes "### ") ≡ false
    → starts_with (trim line) (codes "* ") ≡ false
    → is_ordered (trim line) ≡ false
    → is_stuck line ≡ false
    → in_paragraph line ≡ true
unfolding is_stuck
in_paragraph_of line e1 e2 e3 e4 e5 e6 e7 h = ground arith

-- The lines that a round leaves, apart from the blocks that it pushes.
record Leaves (P : List Text → Type 0) (out : List Block × List Text) : Type 0 where
  leaves : P out.1

module _ (mode : Mode) (line : Text) (rest : List Text) where
  cases :
      (P : List Text → Type 0)
      → (is_stuck line ≡ false → P rest)
      → ((p : Text → Bool)
          → ((x : Text) → is_stuck x ≡ true → p x ≡ false)
          → (is_stuck line ≡ false → p line ≡ true)
          → P (drop_while p (line ∷ rest)))
      → Leaves P (round mode (line ∷ rest))
  unfolding round is_stuck
  cases P one many =
      let t = trim line in
      if_lem (Leaves P) (is_nil t)
        (λ e. record {
          leaves = one (not_loose t λ passed. Bool-clash (is_nil t) e passed.not_blank);
        })
        λ e1.
          if_lem (Leaves P) (is_open_page mode && is_signature_note_line t)
            (λ e. record {
              leaves = one (
                  not_loose t λ passed.
                    Bool-clash (is_signature_note_line t)
                      (and_right (is_open_page mode) (is_signature_note_line t) e) passed.not_note);
            })
            λ e2.
              if_lem (Leaves P) (text_eq t (codes "---"))
                (λ e. record {
                  leaves = one (
                      not_loose t λ passed. Bool-clash (text_eq t (codes "---")) e passed.not_rule);
                })
                λ e3.
                  if_lem (Leaves P) (starts_with t (codes "# "))
                    (λ e. record { leaves = one (h1_not_loose t e) })
                    λ e4.
                      if_lem (Leaves P) (starts_with t (codes "## "))
                        (λ e. record { leaves = one (h2_not_loose t e) })
                        λ e5.
                          if_lem (Leaves P) (starts_with t (codes "### "))
                            (λ e. record { leaves = one (h3_not_loose t e) })
                            λ e6.
                              if_lem (Leaves P) (starts_with t (codes "* "))
                                (λ e. record { leaves = many in_list stuck-in_list (λ _. e) })
                                λ e7.
                                  if_lem (Leaves P) (is_ordered t)
                                    (λ e. record {
                                      leaves = many in_ordered_list stuck-in_ordered_list (λ _. e);
                                    })
                                    λ e8.
                                      if_lem (Leaves P) (is_metadata_line t)
                                        (λ e. record {
                                          leaves =
                                              many in_metadata stuck-in_metadata
                                                (λ _. in_metadata_of line e1 e);
                                        })
                                        λ e9. record {
                                          leaves =
                                              many in_paragraph stuck-in_paragraph
                                                (in_paragraph_of line e1 e3 e4 e5 e6 e7 e8);
                                        }

  -- What holds of the lines that each branch leaves holds of those that the round leaves.
  round-cases :
      (P : List Text → Type 0)
      → (is_stuck line ≡ false → P rest)
      → ((p : Text → Bool)
          → ((x : Text) → is_stuck x ≡ true → p x ≡ false)
          → (is_stuck line ≡ false → p line ≡ true)
          → P (drop_while p (line ∷ rest)))
      → P (round mode (line ∷ rest)).1
  unfolding round is_stuck
  round-cases P one many = (cases P one many).leaves

-- A round loses no line on which the loop stays.
round-stuck :
    (mode : Mode) (lines : List Text)
    → any is_stuck lines ≡ true
    → any is_stuck (round mode lines).1 ≡ true
unfolding round
round-stuck mode [] h = h
round-stuck mode (line ∷ rest) h =
    round-cases mode line rest (λ left. any is_stuck left ≡ true) (λ e. ground arith)
      λ p loses _. any-drop_while p is_stuck loses (line ∷ rest) ∙ h

drop_while_shorter :
    (p : Text → Bool) (line : Text) (rest : List Text)
    → p line ≡ true
    → length (drop_while p (line ∷ rest)) ≤ length rest
unfolding drop_while
drop_while_shorter p line rest e = rw e (length-drop_while p rest)

-- A round consumes a line unless the loop stays on the first.
round_consumes :
    (mode : Mode) (line : Text) (rest : List Text)
    → is_stuck line ≡ false
    → length (round mode (line ∷ rest)).1 ≤ length rest
unfolding round
round_consumes mode line rest h =
    round-cases mode line rest (λ left. length left ≤ length rest) (λ _. omega arith)
      λ p _ taken. drop_while_shorter p line rest (taken h)

-- A round brings no line on which the loop stays.
round-no_stuck :
    (mode : Mode) (lines : List Text)
    → any is_stuck lines ≡ false
    → any is_stuck (round mode lines).1 ≡ false
unfolding round
round-no_stuck mode [] h = h
round-no_stuck mode (line ∷ rest) h =
    round-cases mode line rest (λ left. any is_stuck left ≡ false) (λ e. ground arith)
      λ p loses _. any-drop_while p is_stuck loses (line ∷ rest) ∙ h

abbrev is_returned : Option (List Block) → Bool
is_returned = is_some

push_blocks-is_some :
    (blocks : List Block) (r : Option (List Block)) → is_some (push_blocks blocks r) ≡ is_some r
push_blocks-is_some blocks none = refl
push_blocks-is_some blocks (some rest) = refl

render_lines-stuck :
    (n : ℕ) (mode : Mode) (lines : List Text)
    → any is_stuck lines ≡ true
    → render_lines n mode lines ≡ none
unfolding render_lines
render_lines-stuck n mode [] h = cc
render_lines-stuck zero mode (line ∷ rest) h = refl
render_lines-stuck (suc n) mode (line ∷ rest) h =
    rw (render_lines-stuck n mode _ (round-stuck mode (line ∷ rest) h)) refl

render_lines-returns :
    (n : ℕ) (mode : Mode) (lines : List Text)
    → any is_stuck lines ≡ false
    → length lines ≤ n
    → is_some (render_lines n mode lines) ≡ true
unfolding render_lines
render_lines-returns n mode [] h b = refl
render_lines-returns zero mode (line ∷ rest) h b = ground arith
render_lines-returns (suc n) mode (line ∷ rest) h b =
    push_blocks-is_some _ _
    ∙ render_lines-returns n mode _ (round-no_stuck mode (line ∷ rest) h)
        (let s = round_consumes mode line rest (ground arith) in omega arith)

-- The renderer returns on a document none of whose lines, trimmed, starts with "#" and is not one of
-- the headings "# ", "## " and "### ": as many rounds of its loop as there are lines are enough.
pub render_returns :
    (mode : Mode) (content : Text)
    → any is_stuck (split_lines (unix_lines content)) ≡ false
    → is_some (render (length (split_lines (unix_lines content))) mode content) ≡ true
unfolding render
render_returns mode content h = render_lines-returns _ mode _ h (omega arith)

-- The renderer never returns on a document one of whose lines, trimmed, starts with "#" and is none
-- of the headings "# ", "## " and "### ": however many rounds its loop makes, lines are left.
pub render_hangs :
    (mode : Mode) (content : Text)
    → any is_stuck (split_lines (unix_lines content)) ≡ true
    → (rounds : ℕ) → render rounds mode content ≡ none
unfolding render
render_hangs mode content h rounds = render_lines-stuck rounds mode _ h
