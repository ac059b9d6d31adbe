-- ===== src/Markdown/Tests.antt =====
-- Concrete documents, and the properties applied to them.
use corpershub_application.Base.{
  refl, Text, is_some, ◌≡◌, codes, length, ◌++◌, trim, none, drop_while, ◌∷◌, true, drop_end,
  is_space, any, false, some, [],
}
use corpershub_application.Markdown.{
  render, signing, render_lines, split_lines, round, unix_lines, after_number, is_metadata_line,
  is_signature_metadata_line, is_signature_note_line, open_page, heading, unordered, metadata,
  ordered,
}
use corpershub_application.Markdown.Progress.{render_returns, is_stuck, render_hangs}

abbrev agreement : Text
agreement =
    codes "# Terms"
    ++ 13 ∷ 10 ∷ codes "**Name:** Ada"
    ++ 10 ∷ codes "* one"
    ++ 10 ∷ codes "*  two "
    ++ 10 ∷ codes "12. three"

abbrev with_tag : Text
with_tag = codes "See" ++ 10 ∷ codes "#1 below"

render_signing_test :
    render 9 signing agreement
    ≡ some (
        heading 1 (codes "Terms")
        ∷ metadata (codes "**Name:** Ada" ∷ [])
        ∷ unordered (codes "one" ∷ codes "two" ∷ [])
        ∷ ordered (codes "three" ∷ [])
        ∷ [])
unfolding render render_lines round split_lines trim drop_while drop_end is_space after_number
    is_metadata_line is_signature_metadata_line is_signature_note_line
render_signing_test = refl

render_open_page_test :
    render 9 open_page agreement
    ≡ some (
        heading 1 (codes "Terms")
        ∷ unordered (codes "one" ∷ codes "two" ∷ [])
        ∷ ordered (codes "three" ∷ [])
        ∷ [])
unfolding render render_lines round split_lines trim drop_while drop_end is_space after_number
    is_metadata_line is_signature_metadata_line is_signature_note_line
render_open_page_test = refl

agreement_sound : any is_stuck (split_lines (unix_lines agreement)) ≡ false
unfolding is_stuck split_lines trim drop_while drop_end is_space
agreement_sound = refl

with_tag_stuck : any is_stuck (split_lines (unix_lines with_tag)) ≡ true
unfolding is_stuck split_lines trim drop_while drop_end is_space
with_tag_stuck = refl

render_returns_example :
    is_some (render (length (split_lines (unix_lines agreement))) signing agreement) ≡ true
render_returns_example = render_returns signing agreement agreement_sound

render_hangs_example : render 1000 signing with_tag ≡ none
render_hangs_example = render_hangs signing with_tag with_tag_stuck 1000
