-- ===== src/Api/Sessions.antt =====
-- Restoring a session, signing in and asking who is signed in, of web/src/lib/api.ts.
use corpershub_application.Base.{
  Option, Text, Bool, false, codes, ◌++◌, some, if◌then◌else◌, not, [], none, or_default, ◌==◌,
  is_nil, ◌||◌,
}
use corpershub_application.Session.{SessionState, SessionUser}
use corpershub_application.Api.Json.{Json, obj, end, field, str, Fields, bool}
use corpershub_application.Api.Action.{◌>>=◌, ◌>>◌, pure, throw, catch}
use corpershub_application.Api.Environment.{Environment, Request, Response, LoginReply}
use corpershub_application.Api.Client.{
  TokenState, RequestOptions, default_request, fetch, read_json, get_session, set_session,
  clear_session, refresh_access_token, api_fetch, api_error, set_header, bearer, with_tokens,
  response_ok, Io,
}

module _ (env : Environment) where
  open env use {api_base_url, json_text, as_user, as_login}

  unfoldable pub me_request : Text → Request
  me_request token = record {
    url = api_base_url ++ codes "/auth/me/";
    method = codes "GET";
    headers = set_header "authorization" (bearer token) [];
    payload = none;
  }

  unfoldable pub restored_session : TokenState → SessionUser → SessionState
  restored_session tokens user = record {
    access_token = tokens.access_token;
    refresh_token = tokens.refresh_token;
    remember_me = none;
    user = user;
  }

  unfoldable pub forget : Io env (Option SessionState)
  forget = do clear_session env; pure none

  unfoldable pub keep_restored : TokenState → Json → Io env (Option SessionState)
  keep_restored tokens body = do
    set_session env (restored_session tokens (as_user body))
    pure (some (restored_session tokens (as_user body)))

  unfoldable pub accept_restored : TokenState → Response → Io env (Option SessionState)
  accept_restored tokens response =
      if response_ok response
      then (do body ← read_json env response; keep_restored tokens body)
      else forget

  -- The body of the `try` block.
  unfoldable pub restore_attempt : Io env (Option SessionState)
  restore_attempt = do
    tokens ← refresh_access_token env none
    response ← fetch env (me_request tokens.access_token)
    accept_restored tokens response

  unfoldable pub restore_session_from_refresh_cookie : Io env (Option SessionState)
  restore_session_from_refresh_cookie = catch restore_attempt (λ _. forget)

  unfoldable pub login_request : Json → RequestOptions
  login_request payload = record default_request {
    auth = false;
    method = codes "POST";
    body = some (json_text payload);
  }

  abbrev pub remember_field : Option Bool → Fields
  remember_field none = end
  remember_field (some flag) = field "remember_me" (bool flag) end

  unfoldable pub signed_in_session : Option Bool → LoginReply → SessionState
  signed_in_session remember_me reply = record {
    access_token = reply.access;
    refresh_token = none;
    remember_me = some (or_default remember_me false);
    user = reply.user;
  }

  unfoldable pub keep_login : Option Bool → Json → Io env SessionState
  keep_login remember_me body = do
    set_session env (signed_in_session remember_me (as_login body))
    pure (signed_in_session remember_me (as_login body))

  unfoldable pub login_with_credentials : Text → Text → Option Bool → Io env SessionState
  login_with_credentials email password remember_me = do
    body ← api_fetch env (codes "/auth/login/") (
        login_request (
          obj (
            field "email" (str email)
              (field "password" (str password) (remember_field remember_me)))))
    keep_login remember_me body

  unfoldable pub forget_user : Io env (Option SessionUser)
  forget_user = do clear_session env; pure none

  unfoldable pub keep_renewed : SessionState → TokenState → Io env (Option SessionState)
  keep_renewed session tokens = do
    set_session env (with_tokens session tokens)
    pure (some (with_tokens session tokens))

  -- The `try` block for a 401: the renewed session, or null where anything in it throws.
  unfoldable pub renew : SessionState → Io env (Option SessionState)
  renew session =
      catch (refresh_access_token env (some session) >>= keep_renewed session) (λ _. pure none)

  unfoldable pub ask_again : Option SessionState → Io env (Option (SessionState × Response))
  ask_again none = pure none
  ask_again (some session) = do
    response ← fetch env (me_request session.access_token)
    pure (some (session, response))

  -- The session and the answer that count; null where the function returns null at once.
  unfoldable pub settled_me : SessionState → Response → Io env (Option (SessionState × Response))
  settled_me session response =
      if response.status == 401
      then (do renewed ← renew session; ask_again renewed)
      else pure (some (session, response))

  unfoldable pub keep_user : SessionState → Json → Io env (Option SessionUser)
  keep_user session body = do
    set_session env (record session { user = as_user body })
    pure (some (as_user body))

  unfoldable pub finish_me : Option (SessionState × Response) → Io env (Option SessionUser)
  finish_me none = pure none
  finish_me (some (session, response)) =
      if response.status == 401 || response.status == 403
      then forget_user
      else if not (response_ok response)
      then throw (
          api_error env
            (or_default response.body (obj (field "detail" (str (codes "Request failed.")) end)))
            response)
      else (do body ← read_json env response; keep_user session body)

  unfoldable pub resolve_with : Option SessionState → Io env (Option SessionUser)
  resolve_with none = pure none
  resolve_with (some session) = if is_nil session.access_token then pure none else (do
    response ← fetch env (me_request session.access_token)
    settled ← settled_me session response
    finish_me settled)

  unfoldable pub resolve_session_user : Io env (Option SessionUser)
  resolve_session_user = do session ← get_session env; resolve_with session
