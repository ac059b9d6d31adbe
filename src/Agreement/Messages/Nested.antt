-- ===== src/Agreement/Messages/Nested.antt =====
-- The message that is found in the body of an error.
use corpershub_application.Base.{
  [], refl, arith, String, List, Bool, Text, ◌≡◌, ◌∷◌, ◌&&◌, ◌||◌, ◌∙◌, not, true, false, is_nil,
  trim,
}
use corpershub_application.Api.Json.{
  Json, Items, Fields, null, bool, num, str, arr, obj, nil, cons, end, field,
}
use corpershub_application.Api.Action.{Failure}
use corpershub_application.Agreement.Messages.{
  humanize_verification_error_message, message_of, body_message, or_text, look, first_filled,
  pick_message, extract_nested_error_message, extract_items, extract_fields,
  get_legal_agreement_error_message, generic_corper_verification_error,
}

-- Some text in the value, at any depth, has more than whitespace.
unfoldable mutual
  pub has_text : Json → Bool
  has_text null = false
  has_text (bool b) = false
  has_text (num n) = false
  has_text (str s) = not (is_nil (trim s))
  has_text (arr vs) = items_have_text vs
  has_text (obj fs) = fields_have_text fs

  pub items_have_text : Items → Bool
  items_have_text nil = false
  items_have_text (cons v vs) = has_text v || items_have_text vs

  pub fields_have_text : Fields → Bool
  fields_have_text end = false
  fields_have_text (field name v fs) = has_text v || fields_have_text fs

is_nil-or_text : (s t : Text) → is_nil (or_text s t) ≡ (is_nil s && is_nil t)
is_nil-or_text [] t = refl
is_nil-or_text (c ∷ s) t = refl

abbrev all_empty : List (String × Text) → Bool
all_empty [] = true
all_empty ((name, message) ∷ rest) = is_nil message && all_empty rest

is_nil-first_filled : (es : List (String × Text)) → is_nil (first_filled es) ≡ all_empty es
is_nil-first_filled [] = refl
is_nil-first_filled ((name, message) ∷ es) =
    ground (arith, is_nil-or_text message (first_filled es), is_nil-first_filled es)

look_empty :
    (key : String) (es : List (String × Text)) → all_empty es ≡ true → is_nil (look key es) ≡ true
look_empty key [] h = refl
look_empty key ((name, message) ∷ es) h = ground (arith, look_empty key es)

empty_first :
    (s t : Text) (b : Bool) → (b ≡ true → is_nil s ≡ true) → is_nil t ≡ b → is_nil (or_text s t) ≡ b
empty_first s t b f h = ground (arith, is_nil-or_text s t)

is_nil-pick_message : (es : List (String × Text)) → is_nil (pick_message es) ≡ all_empty es
is_nil-pick_message es = empty_first _ _ _ (look_empty "review_note" es) (
    empty_first _ _ _ (look_empty "error" es) (
      empty_first _ _ _ (look_empty "message" es) (
        empty_first _ _ _ (look_empty "detail" es) (
          empty_first _ _ _ (look_empty "attempt" es)
            (empty_first _ _ _ (look_empty "metadata" es) (is_nil-first_filled es))))))

mutual
  unfolding extract_nested_error_message has_text

  extract_speaks : (v : Json) → is_nil (extract_nested_error_message v) ≡ not (has_text v)
  extract_speaks null = refl
  extract_speaks (bool b) = refl
  extract_speaks (num n) = refl
  extract_speaks (str s) = ground arith
  extract_speaks (arr vs) = items_speak vs
  extract_speaks (obj fs) = is_nil-pick_message (extract_fields fs) ∙ fields_speak fs

  items_speak : (vs : Items) → is_nil (extract_items vs) ≡ not (items_have_text vs)
  items_speak nil = refl
  items_speak (cons v vs) = ground (
    arith,
    is_nil-or_text (extract_nested_error_message v) (extract_items vs),
    extract_speaks v,
    items_speak vs,
  )

  fields_speak : (fs : Fields) → all_empty (extract_fields fs) ≡ not (fields_have_text fs)
  fields_speak end = refl
  fields_speak (field name v fs) = ground (arith, extract_speaks v, fields_speak fs)

-- The message that is found in the body of an error is empty exactly if no text in it, at any depth,
-- has more than whitespace.
pub extract_nested_error_message_lem :
    (v : Json) → is_nil (extract_nested_error_message v) ≡ not (has_text v)
extract_nested_error_message_lem v = extract_speaks v

present_or : (s t : Text) → is_nil t ≡ false → is_nil (or_text s t) ≡ false
present_or s t h = ground (arith, is_nil-or_text s t)

-- The message that is shown for an error of the legal step is never empty, whatever was thrown and
-- whatever its body has.
pub get_legal_agreement_error_message_speaks :
    (network_message syntax_message : Text) (e : Failure)
    → is_nil (get_legal_agreement_error_message network_message syntax_message e) ≡ false
unfolding get_legal_agreement_error_message
get_legal_agreement_error_message_speaks network_message syntax_message e =
    let own = humanize_verification_error_message (message_of network_message syntax_message e) in
    present_or (body_message e) (or_text own generic_corper_verification_error)
      (present_or own generic_corper_verification_error refl)
