-- ===== src/Api/Tests.antt =====
-- Runs of the API client against a small server, and the theorems at concrete inputs.
use corpershub_application.Base.{refl, length, Option, codes, [], none, some, false, ◌∷◌, ◌≡◌}
use corpershub_application.Session.{SessionState}
use corpershub_application.Api.Sample.{world_of_ada, start}
use corpershub_application.Fixtures.{ada, ada_session}
use corpershub_application.Api.Json.{str}
use corpershub_application.Api.Action.{ok}
use corpershub_application.Api.Environment.{Request}
use corpershub_application.Api.Client.{
  World, api_fetch, default_request, RequestOptions, get_session, fetch, settle, renew_and_retry,
  request_of, retry_with, refresh_access_token, accept_refresh, set_session, clear_session,
  read_json, finish, refresh_request,
}
use corpershub_application.Api.Sessions.{
  resolve_session_user, restore_session_from_refresh_cookie, login_with_credentials, resolve_with,
  settled_me, finish_me, keep_user, restore_attempt, forget, keep_login, signed_in_session, renew,
  keep_renewed, ask_again,
}
use corpershub_application.Api.Renewal.{Orderly, api_fetch-Orderly}
use corpershub_application.Api.Restoring.{restore_agrees, Holds}
use corpershub_application.Api.Resolving.{resolve_agrees, Resolved}

client_code : Unit {0}
unfolding renew keep_renewed ask_again api_fetch get_session fetch settle renew_and_retry retry_with
    refresh_access_token accept_refresh set_session clear_session read_json finish request_of
    refresh_request resolve_session_user resolve_with settled_me finish_me keep_user
    restore_session_from_refresh_cookie restore_attempt forget login_with_credentials keep_login
    signed_in_session
client_code = tt

renewal :
    ((api_fetch world_of_ada (codes "/chat/") default_request start).0 ≡ ok (str (codes "t2")))
    × ((api_fetch world_of_ada (codes "/chat/") default_request start).1.cell
        ≡ some (record ada_session { access_token = codes "t2" }))
    × (length (api_fetch world_of_ada (codes "/chat/") default_request start).1.sent ≡ 3)
unfolding client_code
renewal = (refl, refl, refl)

api_fetch-Orderly_example :
    Orderly world_of_ada
      (codes "/chat/")
      default_request
      ada_session
      start
      (api_fetch world_of_ada (codes "/chat/") default_request start)
api_fetch-Orderly_example =
    api_fetch-Orderly world_of_ada (codes "/chat/") default_request ada_session start refl

abbrev open_request : RequestOptions
open_request = record default_request { auth = false }

restore_agrees_example :
    (session : Option SessionState) × ((restore_session_from_refresh_cookie world_of_ada start).0
      ≡ ok session)
    × Holds world_of_ada session (restore_session_from_refresh_cookie world_of_ada start).1
restore_agrees_example = restore_agrees world_of_ada start

abbrev open_login : Request
open_login = record { url = []; method = codes "GET"; headers = []; payload = none }

-- The world once one request was sent, where the server answers with 200.
abbrev later : World world_of_ada
later = record { cell = none; sent = open_login ∷ [] }

abbrev signed_in : SessionState
signed_in = record {
  access_token = codes "t2";
  refresh_token = none;
  remember_me = some false;
  user = ada;
}

resolve_agrees_example :
    Resolved world_of_ada start.cell (some ada) (resolve_session_user world_of_ada start).1
unfolding client_code
resolve_agrees_example = resolve_agrees world_of_ada start (some ada) refl
