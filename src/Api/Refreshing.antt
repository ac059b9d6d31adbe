-- ===== src/Api/Refreshing.antt =====
-- How a refresh of the tokens ends.
use corpershub_application.Base.{none, some, ◌∷◌, Option, Bool-cases, inl, inr, some}
use corpershub_application.Session.{SessionState}
use corpershub_application.Api.Json.{Json}
use corpershub_application.Api.Action.{Result, ok, err, continue, network, expired, syntax, pure}
use corpershub_application.Api.Environment.{Environment, Request, Response, no_answer, answer}
use corpershub_application.Api.Client.{
  TokenState, World, refresh_access_token, fetch, read_json, clear_session, refresh_request,
  accept_refresh, reply_result, response_ok, body_result, tokens_from,
}

module _ (env : Environment) where
  open env use {clear, server, as_tokens}

  abbrev after_request : Request → World env → World env
  after_request request w = record w { sent = request ∷ w.sent }

  module _ (session : Option SessionState) (w : World env) where
    -- The four ways in which a refresh ends.
    pub data Refreshed : Result TokenState × World env → Type 0 where
      unanswered : Refreshed (err network, after_request (refresh_request env session) w)
      refused : Refreshed (
        err expired,
        record (after_request (refresh_request env session) w) { cell = clear w.cell },
      )
      garbled : Refreshed (err syntax, after_request (refresh_request env session) w)
      renewed :
          (tokens : TokenState)
          → Refreshed (ok tokens, after_request (refresh_request env session) w)

    decoded :
        (body : Option Json)
        → Refreshed (
            continue
              (body_result env body, after_request (refresh_request env session) w)
              (λ v. pure (tokens_from env session (as_tokens v))))
    decoded none = garbled
    decoded (some v) = renewed (tokens_from env session (as_tokens v))

    answered :
        (r : Response)
        → Refreshed (
            continue
              (ok r, after_request (refresh_request env session) w)
              (accept_refresh env session))
    unfolding accept_refresh clear_session read_json
    answered r = elim (Bool-cases (response_ok r)) [
      | inl e ↦ rw e (decoded r.body)
      | inr e ↦ rw e refused
    ]

    pub refresh_cases : Refreshed (refresh_access_token env session w)
    unfolding refresh_access_token fetch
    refresh_cases =
        elim (server w.sent (refresh_request env session))
          as (λ reply. Refreshed (
            continue (reply_result env reply, after_request (refresh_request env session) w)
              (accept_refresh env session))) [ no_answer ↦ unanswered | answer r ↦ answered r ]
