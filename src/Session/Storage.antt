-- ===== src/Session/Storage.antt =====
-- `getSession`, `setSession` and `clearSession` of web/src/lib/session.ts, in a browser: the item of
-- the session storage is a text or missing. `JSON.stringify` and `JSON.parse` on sessions are a
-- parameter with the law that the code relies on.
use corpershub_application.Base.{refl, Option, Text, none, ◌≡◌, some, is_nil, false, if◌then◌else◌}
use corpershub_application.Session.{SessionState}
use corpershub_application.Api.Environment.{SessionStore}

pub record Codec : Type 0 where
  pub stringify : SessionState → Text
  pub parse : Text → Option SessionState
  pub parse-stringify : (s : SessionState) → parse (stringify s) ≡ some s
  pub stringify_not_nil : (s : SessionState) → is_nil (stringify s) ≡ false

module _ (codec : Codec) where
  abbrev parsed : Option SessionState → Option (Option SessionState)
  parsed none = none
  parsed (some s) = some (some s)

  -- `value ? JSON.parse(value) : null`; none where the parser throws.
  abbrev read_item : Text → Option (Option SessionState)
  read_item value = if is_nil value then some none else parsed (codec.parse value)

  unfoldable pub get_session : Option Text → Option (Option SessionState)
  get_session none = some none
  get_session (some value) = read_item value

  unfoldable pub set_session : SessionState → Option Text → Option Text
  set_session session item = some (codec.stringify session)

  unfoldable pub clear_session : Option Text → Option Text
  clear_session item = none

  pub get-set_session :
      (s : SessionState) (item : Option Text) → get_session (set_session s item) ≡ some (some s)
  unfolding get_session set_session
  get-set_session s item = rw (codec.stringify_not_nil s, codec.parse-stringify s) refl

  pub get-clear_session : (item : Option Text) → get_session (clear_session item) ≡ some none
  unfolding get_session clear_session
  get-clear_session item = refl

  -- The storage of the browser is a store for the API client.
  abbrev pub session_storage : SessionStore
  session_storage = record {
    Cell = Option Text;
    get = get_session;
    set = set_session;
    clear = clear_session;
    get-set = get-set_session;
    get-clear = get-clear_session;
  }
