-- ===== src/Markdown.antt =====
-- web/src/components/legal/markdown-renderer.tsx: the blocks that the renderer makes of a document.
-- A block keeps the texts that the source passes to `renderInline`, whose bold spans are markup.
pub mod Progress
mod Tests
use corpershub_application.Base.{
  ℕ, zero, drop_while, Bool, is_space, Text, trim, if◌then◌else◌, List, drop, ◌∷◌, starts_with, leb,
  true, Option, is_some, not, any, filter, codes, some, ◌==◌, ◌&&◌, [], is_nil, false, ◌++◌, none,
  suc, ◌||◌, text_eq, ◌+◌, is_digit, map, take_while, prepend, join_spaces,
}

pub data Mode : Type 0 where
  open_page : Mode
  signing : Mode

pub data Block : Type 0 where
  rule : Block
  heading : ℕ → Text → Block
  unordered : List Text → Block
  ordered : List Text → Block
  metadata : List Text → Block
  paragraph : Text → Block

-- The letters of the patterns are ASCII, so /i compares with ASCII letters only.
abbrev pub lower : ℕ → ℕ
lower c = if leb 65 c && leb c 90 then c + 32 else c

-- The text after a literal that /i finds at its start.
abbrev pub after_literal : Text → Text → Option Text
after_literal s [] = some s
after_literal [] (b ∷ t) = none
after_literal (a ∷ s) (b ∷ t) = if lower a == lower b then after_literal s t else none

abbrev has_literal : Text → Text → Bool
has_literal s t = is_some (after_literal s t)

-- `(?:\*\*)?` at the start of the pattern.
abbrev skip_stars : Text → Text
skip_stars s = if starts_with s (codes "**") then drop 2 s else s

abbrev metadata_labels : List Text
metadata_labels =
    codes "Name:"
    ∷ codes "Date:"
    ∷ codes "NYSC Call-up Number:"
    ∷ codes "NYSC State Code:"
    ∷ codes "Company Name:"
    ∷ codes "Effective Date:"
    ∷ codes "Last Updated:"
    ∷ []

abbrev signature_labels : List Text
signature_labels = codes "Name:" ∷ codes "Date:" ∷ []

-- `METADATA_LINE_RE.test`, `SIGNATURE_METADATA_LINE_RE.test`
unfoldable pub is_metadata_line : Text → Bool
is_metadata_line line = any (has_literal (skip_stars line)) metadata_labels

unfoldable pub is_signature_metadata_line : Text → Bool
is_signature_metadata_line line = any (has_literal (skip_stars line)) signature_labels

-- `SIGNATURE_NOTE_LINE_RE.test`: the white space after the colon is not empty.
abbrev is_note_text : Option Text → Bool
is_note_text none = false
is_note_text (some []) = false
is_note_text (some (c ∷ s)) =
    is_space c
    && has_literal (drop_while is_space s)
        (codes "Ticking the checkbox serves as electronic acceptance of this document.")

unfoldable pub is_signature_note_line : Text → Bool
is_signature_note_line line = is_note_text (after_literal line (codes "Note:"))

-- `/^\d+\.\s+/`: the text after the match.
abbrev after_dot : Text → Option Text
after_dot (d ∷ c ∷ s) = if d == 46 && is_space c then some (drop_while is_space s) else none
after_dot s = none

unfoldable pub after_number : Text → Option Text
after_number [] = none
after_number (c ∷ s) = if is_digit c then after_dot (drop_while is_digit s) else none

abbrev is_ordered : Text → Bool
is_ordered s = is_some (after_number s)

abbrev or_whole : Text → Option Text → Text
or_whole s none = s
or_whole s (some t) = t

-- The tests of the inner loops, on a line of the document.
abbrev in_list : Text → Bool
in_list line = starts_with (trim line) (codes "* ")

abbrev in_ordered_list : Text → Bool
in_ordered_list line = is_ordered (trim line)

abbrev in_metadata : Text → Bool
in_metadata line = not (is_nil (trim line)) && is_metadata_line (trim line)

abbrev in_paragraph : Text → Bool
in_paragraph line =
    let next_line = trim line in
    not (
      is_nil next_line
      || text_eq next_line (codes "---")
      || starts_with next_line (codes "#")
      || starts_with next_line (codes "* ")
      || is_ordered next_line)

-- `lines[index].trim().slice(2).trim()`
abbrev list_item : Text → Text
list_item line = trim (drop 2 (trim line))

abbrev ordered_item : Text → Text
ordered_item line = trim (or_whole (trim line) (after_number (trim line)))

abbrev is_open_page : Mode → Bool
is_open_page open_page = true
is_open_page signing = false

abbrev visible_metadata : Mode → List Text → List Text
visible_metadata open_page lines = filter (λ line. not (is_signature_metadata_line line)) lines
visible_metadata signing lines = lines

abbrev metadata_block : List Text → List Block
metadata_block [] = []
metadata_block (line ∷ lines) = metadata (line ∷ lines) ∷ []

-- One round of the outer loop, on the lines from `index` on: the blocks that it pushes and the lines
-- that are left.
unfoldable pub round : Mode → List Text → List Block × List Text
round mode [] = ([], [])
round mode (line ∷ rest) =
    let trimmed_line = trim line in
    let lines = line ∷ rest in
    if is_nil trimmed_line
    then ([], rest)
    else if is_open_page mode && is_signature_note_line trimmed_line
    then ([], rest)
    else if text_eq trimmed_line (codes "---")
    then (rule ∷ [], rest)
    else if starts_with trimmed_line (codes "# ")
    then (heading 1 (trim (drop 2 trimmed_line)) ∷ [], rest)
    else if starts_with trimmed_line (codes "## ")
    then (heading 2 (trim (drop 3 trimmed_line)) ∷ [], rest)
    else if starts_with trimmed_line (codes "### ")
    then (heading 3 (trim (drop 4 trimmed_line)) ∷ [], rest)
    else if starts_with trimmed_line (codes "* ")
    then (unordered (map list_item (take_while in_list lines)) ∷ [], drop_while in_list lines)
    else if is_ordered trimmed_line
    then (
      ordered (map ordered_item (take_while in_ordered_list lines)) ∷ [],
      drop_while in_ordered_list lines,
    )
    else if is_metadata_line trimmed_line
    then (
      metadata_block (visible_metadata mode (map trim (take_while in_metadata lines))),
      drop_while in_metadata lines,
    )
    else (
      paragraph (join_spaces (map trim (take_while in_paragraph lines))) ∷ [],
      drop_while in_paragraph lines,
    )

abbrev push_blocks : List Block → Option (List Block) → Option (List Block)
push_blocks blocks none = none
push_blocks blocks (some rest) = some (blocks ++ rest)

-- The outer loop for at most so many rounds; none where lines are left after them.
unfoldable pub render_lines : ℕ → Mode → List Text → Option (List Block)
render_lines n mode [] = some []
render_lines zero mode (line ∷ rest) = none
render_lines (suc n) mode (line ∷ rest) =
    let (blocks, left) = round mode (line ∷ rest) in push_blocks blocks (render_lines n mode left)

-- `content.replace(/\r\n/g, "\n").split("\n")`
abbrev unix_lines : Text → Text
unix_lines [] = []
unix_lines (c ∷ s) =
    let rest = unix_lines s in if c == 13 && starts_with s (10 ∷ []) then rest else c ∷ rest

unfoldable pub split_lines : Text → List Text
split_lines [] = [] ∷ []
split_lines (c ∷ s) = let rest = split_lines s in if c == 10 then [] ∷ rest else prepend c rest

unfoldable pub render : ℕ → Mode → Text → Option (List Block)
render n mode content = render_lines n mode (split_lines (unix_lines content))
