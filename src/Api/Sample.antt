-- ===== src/Api/Sample.antt =====
-- A small server and a store that keeps the session itself, for the tests.
use corpershub_application.Base.{refl, Text, Option, codes, [], none, List, some, ◌∷◌, ℕ}
use corpershub_application.Session.{SessionState}
use corpershub_application.Fixtures.{ada, ada_session}
use corpershub_application.Api.Json.{Json, str, null}
use corpershub_application.Api.Environment.{Environment, Request, answer, SessionStore, Reply}
use corpershub_application.Api.Client.{World}

-- A store that keeps the session itself.
abbrev pub plain_store : SessionStore
plain_store = record {
  Cell = Option SessionState;
  get = λ c. some c;
  set = λ s c. some s;
  clear = λ c. none;
  get-set = λ s c. refl;
  get-clear = λ c. refl;
}

abbrev reply_with : ℕ → Json → Reply
reply_with status body = answer (record { status = status; status_text = []; body = some body })

-- The first request is turned down with 401, the refresh is answered, and then all is well.
abbrev forgetful : List Request → Request → Reply
forgetful [] request = reply_with 401 null
forgetful (_ ∷ sent) request = reply_with 200 (str (codes "t2"))

abbrev text_of : Json → Text
text_of (str s) = s
text_of _ = []

abbrev pub world_of_ada : Environment
world_of_ada = record {
  store = plain_store;
  api_base_url = codes "http://localhost:8000/api";
  json_text = text_of;
  server = forgetful;
  as_tokens = λ body. record { access = text_of body; refresh = none };
  as_user = λ body. ada;
  as_login = λ body. record { access = text_of body; user = ada };
}

abbrev pub start : World world_of_ada
start = record { cell = some ada_session; sent = [] }
