-- ===== src/Agreement/Messages.antt =====
-- The messages of errors in web/src/components/legal/legal-agreement-page.tsx. The texts that the
-- browser gives to a failed request and to malformed JSON are parameters.
pub mod Nested
use corpershub_application.Base.{
  is_some, ℕ, [], none, some, Option, String, List, Bool, Text, ◌∷◌, ◌&&◌, ◌||◌, ◌==◌, not, true,
  false, if◌then◌else◌, str_eq, codes, any, is_nil, trim, map, includes, take_while, drop_while,
  starts_with, text_eq,
}
use corpershub_application.Api.Json.{
  Json, Items, Fields, null, bool, num, str, arr, obj, nil, cons, end, field,
}
use corpershub_application.Api.Action.{Failure, api, expired, network, syntax}
use corpershub_application.Markdown.{lower, after_literal}

-- `s || t`
abbrev pub or_text : Text → Text → Text
or_text s t = if is_nil s then t else s

-- The messages of an object's fields, by the name of the field: those of the named fields come first.
abbrev pub look : String → List (String × Text) → Text
look key [] = []
look key ((name, message) ∷ rest) = if str_eq name key then message else look key rest

abbrev pub first_filled : List (String × Text) → Text
first_filled [] = []
first_filled ((name, message) ∷ rest) = or_text message (first_filled rest)

abbrev pub pick_message : List (String × Text) → Text
pick_message entries = or_text (look "review_note" entries) (
    or_text (look "error" entries) (
      or_text (look "message" entries) (
        or_text (look "detail" entries) (
          or_text (look "attempt" entries)
            (or_text (look "metadata" entries) (first_filled entries))))))

-- `extractNestedErrorMessage`, on a value, on the entries of an array, and on the fields of an object.
unfoldable mutual
  pub extract_nested_error_message : Json → Text
  extract_nested_error_message null = []
  extract_nested_error_message (bool b) = []
  extract_nested_error_message (num n) = []
  extract_nested_error_message (str s) = trim s
  extract_nested_error_message (arr vs) = extract_items vs
  extract_nested_error_message (obj fs) = pick_message (extract_fields fs)

  pub extract_items : Items → Text
  extract_items nil = []
  extract_items (cons v vs) = or_text (extract_nested_error_message v) (extract_items vs)

  pub extract_fields : Fields → List (String × Text)
  extract_fields end = []
  extract_fields (field name v fs) = (name, extract_nested_error_message v) ∷ extract_fields fs

-- `/Key \(…\)=\([^)]+\) already exists/i` at one place, behind its first literal.
abbrev not_closing : ℕ → Bool
not_closing c = not (c == b')')

abbrev has_tail : Option Text → Bool
has_tail none = false
has_tail (some rest) =
    not (is_nil (take_while not_closing rest))
    && is_some (after_literal (drop_while not_closing rest) (codes ") already exists"))

-- The pattern for the key whose literal is given, anywhere in the text.
unfoldable pub has_existing_key : Text → Text → Bool
has_existing_key key [] = false
has_existing_key key (c ∷ s) = has_tail (after_literal (c ∷ s) key) || has_existing_key key s

abbrev is_spoken : Text → Bool
is_spoken message =
    includes message (codes "does not match the NIN record")
    || includes message (codes "No NIN record was found")
    || includes message (codes "already been submitted")
    || includes message (codes "already been verified")
    || includes message (codes "previously deleted account")

unfoldable pub humanize_verification_error_message : Text → Text
humanize_verification_error_message message =
    let normalized = trim message in
    if is_nil normalized
    then []
    else if is_spoken normalized
    then normalized
    else if has_existing_key (codes "Key (mobile_number)=(") normalized
    then codes "This mobile number has already been submitted."
    else if has_existing_key (codes "Key (university_matriculation_number)=(") normalized
    then codes "This university matriculation number has already been submitted."
    else if has_existing_key (codes "Key (nin_lookup_hash)=(") normalized
    then codes "This NIN number has already been submitted."
    else if has_existing_key (codes "Key (nysc_callup_lookup_hash)=(") normalized
    then codes "This NYSC call-up number has already been submitted."
    else if has_existing_key (codes "Key (nysc_state_code_lookup_hash)=(") normalized
    then codes "This NYSC state code has already been submitted."
    else normalized

abbrev pub generic_corper_verification_error : Text
generic_corper_verification_error =
    codes "Unable to submit verification right now. Please try again."

-- `error.message`
abbrev pub message_of : Text → Text → Failure → Text
message_of network_message syntax_message (api message status body) = message
message_of network_message syntax_message expired = codes "Session expired."
message_of network_message syntax_message network = network_message
message_of network_message syntax_message syntax = syntax_message

-- The message of the body, unless it is empty or the general one.
abbrev pub body_message : Failure → Text
body_message (api message status body) =
    let spoken = humanize_verification_error_message (extract_nested_error_message body) in
    if text_eq spoken generic_corper_verification_error then [] else spoken
body_message _ = []

unfoldable pub get_legal_agreement_error_message : Text → Text → Failure → Text
get_legal_agreement_error_message network_message syntax_message e = or_text (body_message e) (
    or_text (humanize_verification_error_message (message_of network_message syntax_message e))
      generic_corper_verification_error)

-- `/already been verified/i`
unfoldable pub is_already_verified_verification_error : Text → Text → Failure → Bool
is_already_verified_verification_error network_message syntax_message e =
    includes (map lower (get_legal_agreement_error_message network_message syntax_message e))
      (codes "already been verified")
