-- ===== src/Api/Renewal.antt =====
-- What one call of the client sends, and what it leaves in the store.
use corpershub_application.Base.{
  true, or_default, if◌then◌else◌, false, none, some, refl, ◌∷◌, Option, Bool-cases, Text, inl, inr,
  some, ◌==◌, ◌&&◌, ◌≡◌, ◌∙◌, ap,
}
use corpershub_application.Session.{SessionState}
use corpershub_application.Api.Json.{Json, obj, field, str, end}
use corpershub_application.Api.Action.{
  ◌>>=◌, Result, ok, err, continue, network, expired, syntax, pure,
}
use corpershub_application.Api.Environment.{
  Environment, Request, Response, no_answer, answer, Reply,
}
use corpershub_application.Api.Client.{
  status_detail, api_error, TokenState, RequestOptions, World, api_fetch, refresh_access_token,
  fetch, read_json, clear_session, refresh_request, accept_refresh, reply_result, with_tokens,
  response_ok, request_of, request_headers, set_header, bearer, retry_with, finish, settle,
  body_result, renew_and_retry, set_session, tokens_from, get_session, content_headers,
}

module _ (env : Environment) where
  open env use {Cell, get, set, clear, get-set, get-clear, server, as_tokens}

  -- The state once a request was sent.
  abbrev pub after_request : Request → World env → World env
  after_request request w = record w { sent = request ∷ w.sent }

  -- What a call gives for the last answer.
  abbrev pub verdict : Response → Result Json
  verdict r =
      if response_ok r
      then body_result env r.body
      else err (
          api_error env (or_default r.body (obj (field "detail" (str (status_detail env r)) end)))
            r)

  abbrev pub delivered : Reply → Result Json
  delivered no_answer = err network
  delivered (answer r) = verdict r

  verdict_lem : (r : Response) (w : World env) → finish env r w ≡ (verdict r, w)
  unfolding finish read_json
  verdict_lem r w = elim (Bool-cases (response_ok r)) [ inl e ↦ rw e refl | inr e ↦ rw e refl ]

  module _ (path : Text) (options : RequestOptions) (session : SessionState) (w : World env) where
    abbrev pub first_request : Request
    first_request = request_of env path options (request_headers env options (some session))

    abbrev pub asked : World env
    asked = after_request first_request w

    abbrev pub refresh : Request
    refresh = refresh_request env (some session)

    abbrev pub renewing : World env
    renewing = after_request refresh asked

    abbrev pub second_request : TokenState → Request
    second_request tokens = request_of env path options (
        set_header "authorization" (bearer tokens.access_token)
          (request_headers env options (some session)))

    -- The state once the new tokens are stored and the request is sent again.
    abbrev pub repeated : TokenState → World env
    repeated tokens =
        after_request (second_request tokens)
          (record renewing { cell = set (with_tokens session tokens) w.cell })

    -- The first answer was 401, to a request with authentication.
    abbrev pub TurnedDown : Type 0
    TurnedDown =
        (r : Response) × (server w.sent first_request ≡ answer r)
        × ((r.status == 401 && options.auth) ≡ true)

    -- What a call comes to, by what the server answers to it: the result, the requests and the store.
    pub data Orderly : Result Json × World env → Type 0 where
      unanswered : server w.sent first_request ≡ no_answer → Orderly (err network, asked)
      settled :
          (r : Response)
          → server w.sent first_request ≡ answer r
          → (r.status == 401 && options.auth) ≡ false
          → Orderly (verdict r, asked)
      refresh_unanswered :
          TurnedDown → server asked.sent refresh ≡ no_answer → Orderly (err network, renewing)
      refresh_refused :
          (r : Response)
          → TurnedDown
          → server asked.sent refresh ≡ answer r
          → response_ok r ≡ false
          → Orderly (err expired, record renewing { cell = clear w.cell })
      refresh_garbled :
          (r : Response)
          → TurnedDown
          → server asked.sent refresh ≡ answer r
          → response_ok r ≡ true
          → r.body ≡ none
          → Orderly (err syntax, renewing)
      refreshed :
          (r : Response) (body : Json) (tokens : TokenState)
          → TurnedDown
          → server asked.sent refresh ≡ answer r
          → response_ok r ≡ true
          → r.body ≡ some body
          → tokens ≡ tokens_from env (some session) (as_tokens body)
          → Orderly (delivered (server renewing.sent (second_request tokens)), repeated tokens)

    finished :
        (reply : Reply) (w' : World env)
        → continue (reply_result env reply, w') (finish env) ≡ (delivered reply, w')
    finished no_answer w' = refl
    finished (answer r) w' = verdict_lem r w'

    decoded :
        (r : Response) (body : Option Json)
        → TurnedDown
        → server asked.sent refresh ≡ answer r
        → response_ok r ≡ true
        → r.body ≡ body
        → Orderly (
            continue
              (continue
                (continue
                  (body_result env body, renewing)
                  (λ v. pure (tokens_from env (some session) (as_tokens v))))
                (retry_with env path options session))
              (finish env))
    decoded r none t e ok_r b = refresh_garbled r t e ok_r b
    decoded r (some body) t e ok_r b =
        let tokens = tokens_from env (some session) (as_tokens body) in
        unfold retry_with set_session fetch in
        rw (finished (server renewing.sent (second_request tokens)) (repeated tokens))
          (refreshed r body tokens t e ok_r b refl)

    refresh_answered :
        (reply : Reply)
        → TurnedDown
        → server asked.sent refresh ≡ reply
        → Orderly (
            continue
              (continue
                (continue (reply_result env reply, renewing) (accept_refresh env (some session)))
                (retry_with env path options session))
              (finish env))
    unfolding accept_refresh clear_session read_json
    refresh_answered no_answer t e = refresh_unanswered t e
    refresh_answered (answer r) t e = elim (Bool-cases (response_ok r)) [
      | inl k ↦ rw k (decoded r r.body t e k refl)
      | inr k ↦ rw k (refresh_refused r t e k)
    ]

    first_answered :
        (reply : Reply)
        → server w.sent first_request ≡ reply
        → Orderly (
            continue
              (reply_result env reply, asked)
              (λ first. settle env path options (some session) first >>= finish env))
    unfolding settle renew_and_retry refresh_access_token fetch
    first_answered no_answer e = unanswered e
    first_answered (answer r) e = elim (Bool-cases (r.status == 401 && options.auth)) [
      | inl k ↦ rw k (refresh_answered (server asked.sent refresh) (r, e, k) refl)
      | inr k ↦ rw (k, verdict_lem r asked) (settled r e k)
    ]

  -- A call of `apiFetch` with a session in the store sends its request once. Exactly behind an answer
  -- of 401, to a request with authentication, it asks for new tokens, once; only where they come it
  -- stores the session with them and sends the request once more, with the new token. Where the
  -- refresh is refused the store is cleared and the call throws the error of an expired session; in
  -- every other case the store is left alone. Otherwise the call gives the body of its last answer,
  -- or throws: where that is an error, is missing or is no JSON.
  pub api_fetch-Orderly :
      (path : Text) (options : RequestOptions) (session : SessionState) (w : World env)
      → get w.cell ≡ some (some session)
      → Orderly path options session w (api_fetch env path options w)
  unfolding api_fetch get_session fetch
  api_fetch-Orderly path options session w stored =
      let first = first_request path options session w in
      rw stored (first_answered path options session w (server w.sent first) refl)

  module _ (path : Text) (options : RequestOptions) (w : World env) where
    verdict-world : (r : Response) (w' : World env) → (finish env r w').1 ≡ w'
    unfolding finish read_json
    verdict-world r w' = elim (Bool-cases (response_ok r)) [ inl e ↦ rw e refl | inr e ↦ rw e refl ]

    unsettled :
        (session : Option SessionState) (r : Response) (w' : World env)
        → options.auth ≡ false
        → settle env path options session r w' ≡ (ok r, w')
    unfolding settle
    unsettled none r w' off = refl
    unsettled (some session) r w' off = elim (Bool-cases (r.status == 401)) [
      | inl e ↦ rw (e, off) refl
      | inr e ↦ rw e refl
    ]

    unauthenticated_reply :
        (session : Option SessionState) (request : Request) (reply : Reply)
        → options.auth ≡ false
        → (continue
            (reply_result env reply, after_request request w)
            (λ first. settle env path options session first >>= finish env)).1
          ≡ after_request request w
    unauthenticated_reply session request no_answer off = refl
    unauthenticated_reply session request (answer r) off =
        rw (unsettled session r (after_request request w) off)
          (verdict-world r (after_request request w))

    sent_once :
        (session : Option SessionState)
        → get w.cell ≡ some session
        → options.auth ≡ false
        → (api_fetch env path options w).1
          ≡ after_request (request_of env path options (request_headers env options session)) w
    unfolding api_fetch get_session fetch
    sent_once session stored off =
        let request = request_of env path options (request_headers env options session) in
        rw stored (unauthenticated_reply session request (server w.sent request) off)

    headers_unauthenticated :
        (session : Option SessionState)
        → options.auth ≡ false
        → request_headers env options session ≡ content_headers env options
    headers_unauthenticated session off = simp off

  -- Without authentication a call sends exactly one request, whose headers hold no token of the
  -- session, and leaves the store alone, whatever the server answers.
  pub api_fetch_unauthenticated :
      (path : Text) (options : RequestOptions) (session : Option SessionState) (w : World env)
      → get w.cell ≡ some session
      → options.auth ≡ false
      → (api_fetch env path options w).1
        ≡ after_request (request_of env path options (content_headers env options)) w
  api_fetch_unauthenticated path options session w stored off =
      sent_once path options w session stored off
      ∙ ap (λ headers. after_request (request_of env path options headers) w)
          (headers_unauthenticated path options w session off)
