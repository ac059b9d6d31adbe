-- ===== src/Api/Environment.antt =====
-- What the client of web/src/lib/api.ts stands on: the session store of web/src/lib/session.ts
-- behind its laws, the server, and the types that the code claims of answers without a check.
use corpershub_application.Base.{ℕ, Text, Option, ◌≡◌, List, some, String, none}
use corpershub_application.Session.{SessionState, SessionUser}
use corpershub_application.Api.Json.{Json}

-- `getSession`, `setSession` and `clearSession` over a store; `get` is none where the stored text is
-- no JSON and the call throws.
pub record SessionStore : Type 1 where
  pub Cell : Type 0
  pub get : Cell → Option (Option SessionState)
  pub set : SessionState → Cell → Cell
  pub clear : Cell → Cell
  pub get-set : (s : SessionState) (c : Cell) → get (set s c) ≡ some (some s)
  pub get-clear : (c : Cell) → get (clear c) ≡ some none

-- Names of headers are in lower case, as `Headers` compares them.
pub record Request : Type 0 where
  pub url : Text
  pub method : Text
  pub headers : List (String × Text)
  pub payload : Option Text

-- `body` is none where `response.json()` throws.
pub record Response : Type 0 where
  pub status : ℕ
  pub status_text : Text
  pub body : Option Json

pub data Reply : Type 0 where
  no_answer : Reply
  answer : Response → Reply

pub record TokenReply : Type 0 where
  pub access : Text
  pub refresh : Option Text

pub record LoginReply : Type 0 where
  pub access : Text
  pub user : SessionUser

-- The server answers by all the requests that were sent before, so it may be in any state. The
-- three `as_` functions are the type assertions on answers, which the code does not check.
pub record Environment : Type 1 where
  pub store : SessionStore
  pub open store use *
  pub api_base_url : Text
  pub json_text : Json → Text
  pub server : List Request → Request → Reply
  pub as_tokens : Json → TokenReply
  pub as_user : Json → SessionUser
  pub as_login : Json → LoginReply
