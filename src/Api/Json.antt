-- ===== src/Api/Json.antt =====
-- The JSON values that the server answers with, and `getApiErrorMessage` of web/src/lib/api.ts.
use corpershub_application.Base.{
  String, trim, List, Bool, Option, [], Text, none, if◌then◌else◌, ◌∷◌, some, or_default, or_else,
  is_nil, str_eq, codes,
}

-- A number is of no interest to the client here, so it is kept as its text.
mutual
  pub data Json : Type 0 where
    null : Json
    bool : Bool → Json
    num : Text → Json
    str : Text → Json
    arr : Items → Json
    obj : Fields → Json

  pub data Items : Type 0 where
    nil : Items
    cons : Json → Items → Items

  -- In the order of `Object.values`, each key once.
  pub data Fields : Type 0 where
    end : Fields
    field : String → Json → Fields → Fields

abbrev pub items : Items → List Json
items nil = []
items (cons v vs) = v ∷ items vs

abbrev pub values : Fields → List Json
values end = []
values (field k v fs) = v ∷ values fs

-- `body[key]`, undefined where the key is missing.
abbrev pub property : String → Fields → Option Json
property key end = none
property key (field k v fs) = if str_eq k key then some v else property key fs

-- A text with something but whitespace in it: `typeof v === "string" && v.trim()`.
abbrev pub speaking : Json → Option Text
speaking (str s) = if is_nil (trim s) then none else some s
speaking _ = none

-- The first entry of an array, if it is a text.
abbrev pub first_text : List Json → Option Text
first_text (str s ∷ rest) = some s
first_text _ = none

-- One round of the loop over the values.
abbrev pub value_message : Json → Option Text
value_message (arr vs) = first_text (items vs)
value_message v = speaking v

unfoldable pub first_message : List Json → Option Text
first_message [] = none
first_message (v ∷ vs) = or_else (value_message v) (first_message vs)

abbrev pub detail_message : Option Json → Option Text
detail_message none = none
detail_message (some v) = speaking v

-- What `JSON.stringify` prints is the parameter `json_text`.
unfoldable pub get_api_error_message : (Json → Text) → Json → Text
unfolding first_message trim
get_api_error_message json_text (obj fs) =
    or_default (or_else (detail_message (property "detail" fs)) (first_message (values fs)))
      (json_text (obj fs))
get_api_error_message json_text (arr vs) =
    or_default (first_message (items vs)) (json_text (arr vs))
get_api_error_message json_text _ = codes "Request failed."
