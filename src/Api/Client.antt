-- ===== src/Api/Client.antt =====
-- The functions of web/src/lib/api.ts, each an action on the store and on the requests sent so far.
use corpershub_application.Base.{
  String, true, ◌∷◌, Option, Text, List, Bool, false, codes, filter, ◌++◌, some, leb, if◌then◌else◌,
  or_else, not, ◌&&◌, [], ltb, str_eq, none, or_default, ◌==◌, is_nil, decimal,
}
use corpershub_application.Session.{SessionState, truthy_text}
use corpershub_application.Api.Json.{Json, obj, end, field, str, get_api_error_message}
use corpershub_application.Api.Action.{
  Action, ◌>>=◌, ◌>>◌, ok, Result, pure, err, network, syntax, throw, expired, Failure, api,
}
use corpershub_application.Api.Environment.{
  no_answer, answer, Environment, Request, Response, Reply, TokenReply, answer,
}

-- The tokens that a refresh returns.
pub record TokenState : Type 0 where
  pub access_token : Text
  pub refresh_token : Option Text

-- The options of `apiFetch`; `auth` and `formData` have their defaults filled in.
pub record RequestOptions : Type 0 where
  pub auth : Bool
  pub form_data : Bool
  pub method : Text
  pub headers : List (String × Text)
  pub body : Option Text

abbrev pub default_request : RequestOptions
default_request = record {
  auth = true;
  form_data = false;
  method = codes "GET";
  headers = [];
  body = none;
}

-- `headers.set(name, value)`
abbrev pub set_header : String → Text → List (String × Text) → List (String × Text)
set_header name value headers = (name, value) ∷ filter (λ h. not (str_eq h.0 name)) headers

abbrev pub bearer : Text → Text
bearer token = codes "Bearer " ++ token

abbrev pub response_ok : Response → Bool
response_ok r = leb 200 r.status && ltb r.status 300

-- `{ ...session, ...refreshed }`
abbrev pub with_tokens : SessionState → TokenState → SessionState
with_tokens session tokens = record session {
  access_token = tokens.access_token;
  refresh_token = tokens.refresh_token;
}

-- `session?.accessToken` as a condition.
abbrev pub access_token_of : Option SessionState → Option Text
access_token_of none = none
access_token_of (some session) = truthy_text (some session.access_token)

abbrev pub refresh_token_of : Option SessionState → Option Text
refresh_token_of none = none
refresh_token_of (some session) = session.refresh_token

abbrev pub authorized : Option Text → List (String × Text) → List (String × Text)
authorized none headers = headers
authorized (some token) headers = set_header "authorization" (bearer token) headers

abbrev pub refresh_payload : Option Text → Json
refresh_payload none = obj end
refresh_payload (some token) = obj (field "refresh" (str token) end)

module _ (env : Environment) where
  open env use {
    Cell, get, set, clear, get-set, get-clear, api_base_url, json_text, server, as_tokens, as_user,
    as_login,
  }

  pub record World : Type 0 where
    pub cell : Cell
    pub sent : List Request

  abbrev pub Io : Type 0 → Type 0
  Io A = Action World A

  abbrev pub reply_result : Reply → Result Response
  reply_result no_answer = err network
  reply_result (answer r) = ok r

  -- `fetch`: it throws where no answer comes, and not for any status.
  unfoldable pub fetch : Request → Io Response
  fetch request w = (reply_result (server w.sent request), record w { sent = request ∷ w.sent })

  abbrev pub body_result : Option Json → Result Json
  body_result none = err syntax
  body_result (some v) = ok v

  -- `response.json()`
  unfoldable pub read_json : Response → Io Json
  read_json r w = (body_result r.body, w)

  abbrev pub got : Option (Option SessionState) → Result (Option SessionState)
  got none = err syntax
  got (some s) = ok s

  unfoldable pub get_session : Io (Option SessionState)
  get_session w = (got (get w.cell), w)

  unfoldable pub set_session : SessionState → Io (Unit {0})
  set_session s w = (ok tt, record w { cell = set s w.cell })

  unfoldable pub clear_session : Io (Unit {0})
  clear_session w = (ok tt, record w { cell = clear w.cell })

  unfoldable pub refresh_request : Option SessionState → Request
  refresh_request session = record {
    url = api_base_url ++ codes "/auth/token/refresh/";
    method = codes "POST";
    headers = set_header "content-type" (codes "application/json") [];
    payload = some (json_text (refresh_payload (truthy_text (refresh_token_of session))));
  }

  abbrev pub tokens_from : Option SessionState → TokenReply → TokenState
  tokens_from session reply = record {
    access_token = reply.access;
    refresh_token = or_else reply.refresh (refresh_token_of session);
  }

  unfoldable pub accept_refresh : Option SessionState → Response → Io TokenState
  accept_refresh session response =
      if response_ok response
      then (do body ← read_json response; pure (tokens_from session (as_tokens body)))
      else (do clear_session; throw expired)

  unfoldable pub refresh_access_token : Option SessionState → Io TokenState
  refresh_access_token session = do
    response ← fetch (refresh_request session)
    accept_refresh session response

  unfoldable pub request_of : Text → RequestOptions → List (String × Text) → Request
  request_of path options headers = record {
    url = api_base_url ++ path;
    method = options.method;
    headers = headers;
    payload = options.body;
  }

  abbrev pub content_headers : RequestOptions → List (String × Text)
  content_headers options =
      if options.form_data
      then options.headers
      else set_header "content-type" (codes "application/json") options.headers

  -- The headers of the first request.
  abbrev pub request_headers : RequestOptions → Option SessionState → List (String × Text)
  request_headers options session =
      if options.auth
      then authorized (access_token_of session) (content_headers options)
      else content_headers options

  -- The branch for a 401: one refresh, and the same request once more with the new token.
  unfoldable pub retry_with : Text → RequestOptions → SessionState → TokenState → Io Response
  retry_with path options session tokens = do
    set_session (with_tokens session tokens)
    fetch (
        request_of path options (
          set_header "authorization" (bearer tokens.access_token)
            (request_headers options (some session))))

  unfoldable pub renew_and_retry : Text → RequestOptions → SessionState → Io Response
  renew_and_retry path options session = do
    tokens ← refresh_access_token (some session)
    retry_with path options session tokens

  unfoldable pub settle : Text → RequestOptions → Option SessionState → Response → Io Response
  settle path options none response = pure response
  settle path options (some session) response =
      if response.status == 401 && options.auth
      then renew_and_retry path options session
      else pure response

  -- The body of a failed answer, or what stands in for one that is no JSON.
  abbrev pub status_detail : Response → Text
  status_detail response =
      if is_nil response.status_text
      then codes "Request failed."
      else codes "Request failed ("
        ++ (decimal response.status ++ (codes " " ++ (response.status_text ++ codes ").")))

  unfoldable pub api_error : Json → Response → Failure
  api_error body response = api (get_api_error_message json_text body) response.status body

  unfoldable pub finish : Response → Io Json
  finish response =
      if response_ok response
      then read_json response
      else throw (
          api_error
            (or_default response.body (obj (field "detail" (str (status_detail response)) end)))
            response)

  unfoldable pub api_fetch : Text → RequestOptions → Io Json
  api_fetch path options = do
    session ← get_session
    first ← fetch (request_of path options (request_headers options session))
    response ← settle path options session first
    finish response
