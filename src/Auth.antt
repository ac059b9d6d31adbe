-- ===== src/Auth.antt =====
-- web/src/components/providers/auth-provider.tsx: the session that the pages share, in front of the
-- store that the API client of web/src/lib/api.ts writes as well.
pub mod Agreement
pub mod Equality
pub mod Refinement
pub mod Sample
mod Tests
use corpershub_application.Api.Action.{Result, ok, err}
use corpershub_application.Base.{
  [], List, ◌∷◌, Bool, true, false, Option, none, some, if◌then◌else◌, ◌≡◌, List, ◌∷◌,
}
use corpershub_application.Session.{SessionState}
use corpershub_application.Api.Environment.{Environment}
use corpershub_application.Api.Client.{World, set_session, clear_session}
use corpershub_application.Api.Sessions.{restore_session_from_refresh_cookie}

-- The states of the provider and its ref. Nothing sets the warning, which is only ever taken back.
pub record AuthState : Type 0 where
  pub session : Option SessionState
  pub session_ref : Option SessionState
  pub hydrated : Bool
  pub inactivity_warning : Bool

-- What the source compares sessions by: `===`, and `JSON.stringify`, which is none where it throws
-- and which `JSON.parse` reads back. Two objects that are one have one value, and so have two texts.
pub record Printer : Type 1 where
  pub Item : Type 0
  pub identical : Option SessionState → Option SessionState → Bool
  pub stringify : Option SessionState → Option Item
  pub parse : Item → Option SessionState
  pub same_text : Item → Item → Bool
  pub identical_one : (a b : Option SessionState) → identical a b ≡ true → a ≡ b
  pub same_text_one : (s t : Item) → same_text s t ≡ true → s ≡ t
  pub parse-stringify : (a : Option SessionState) (s : Item) → stringify a ≡ some s → parse s ≡ a

module _ (printer : Printer) where
  abbrev pub printed_alike : Option printer.Item → Option printer.Item → Bool
  printed_alike (some s) (some t) = printer.same_text s t
  printed_alike _ _ = false

  unfoldable pub sessions_equal : Option SessionState → Option SessionState → Bool
  sessions_equal left right =
      if printer.identical left right
      then true
      else printed_alike (printer.stringify left) (printer.stringify right)

abbrev pub initial_auth : AuthState
initial_auth = record {
  session = none;
  session_ref = none;
  hydrated = false;
  inactivity_warning = false;
}

module _ (env : Environment) where
  pub record Page : Type 0 where
    pub auth : AuthState
    pub world : World env

  -- `value ? setSession(value) : clearSession()`
  unfoldable pub store_session : Option SessionState → World env → World env
  store_session none w = (clear_session env w).1
  store_session (some session) w = (set_session env session w).1

  abbrev pub remember : Option SessionState → AuthState → AuthState
  remember session auth = record auth { session = session; session_ref = session }

  unfoldable pub update_session : Printer → Option SessionState → Page → Page
  update_session printer value page =
      if sessions_equal printer page.auth.session_ref value
      then page
      else record { auth = remember value page.auth; world = store_session value page.world }

  -- `logout`; the page is left for "/" then.
  unfoldable pub logout : Page → Page
  logout page = record { auth = remember none page.auth; world = store_session none page.world }

  unfoldable pub extend_session : Page → Page
  extend_session page = record page { auth = record page.auth { inactivity_warning = false } }

  -- `.then(…).finally(…)`
  abbrev pub restored : Result (Option SessionState) → AuthState → AuthState
  restored (ok session) auth = record (remember session auth) { hydrated = true }
  restored (err e) auth = record auth { hydrated = true }

  unfoldable pub restore : Page → Page
  restore page =
      let (result, world) = restore_session_from_refresh_cookie env page.world in
      record { auth = restored result page.auth; world = world }

  -- The effect behind the first rendering, on what the store has. Where the stored text is no JSON
  -- the effect throws, before it has changed anything.
  unfoldable pub mount_from : Option (Option SessionState) → Page → Option Page
  mount_from none page = none
  mount_from (some none) page = some (restore page)
  mount_from (some (some session)) page =
      some (record page { auth = record (remember (some session) page.auth) { hydrated = true } })

  unfoldable pub mount : Page → Option Page
  mount page = mount_from (env.store.get page.world.cell) page

-- What the components call.
pub data Call : Type 0 where
  update : Option SessionState → Call
  leave : Call
  extend : Call

module _ (env : Environment) (printer : Printer) where
  unfoldable pub run_call : Call → Page env → Page env
  run_call (update value) page = update_session env printer value page
  run_call leave page = logout env page
  run_call extend page = extend_session env page

  unfoldable pub run_calls : List Call → Page env → Page env
  run_calls [] page = page
  run_calls (call ∷ calls) page = run_calls calls (run_call call page)
