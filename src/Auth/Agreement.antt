-- ===== src/Auth/Agreement.antt =====
-- The session in memory and the one in the store.
use mathlib.Core.Path.{subst}
use corpershub_application.Session.{SessionUser}
use corpershub_application.Api.Action.{Result, ok}
use corpershub_application.Base.{[], List, if_lem, refl, none, some, ◌≡◌}
use corpershub_application.Session.{SessionState}
use corpershub_application.Api.Environment.{Environment}
use corpershub_application.Api.Client.{World, set_session, clear_session}
use corpershub_application.Api.Restoring.{Holds, restore_agrees}
use corpershub_application.Auth.{
  update, leave, extend, AuthState, store_session, restore, Page, true, Option, run_call,
  update_session, restored, mount, mount_from, run_calls, logout, Printer, sessions_equal,
  extend_session, false, Call, ◌∷◌,
}

some-injective {ℓ} : {A : Type ℓ} {a b : A} → some a ≡ some b → a ≡ b
some-injective e = cc

module _ (env : Environment) where
  open env use {get-set, get-clear}

  -- The components see the session of the ref, the store holds the same, and the loading is over.
  pub record InSync (page : Page env) : Type 0 where
    pub shown : page.auth.session ≡ page.auth.session_ref
    pub kept : Holds env page.auth.session page.world
    pub loaded : page.auth.hydrated ≡ true

  pub store_session-Holds :
      (session : Option SessionState) (w : World env)
      → Holds env session (store_session env session w)
  unfolding store_session set_session clear_session
  store_session-Holds none w = get-clear w.cell
  store_session-Holds (some session) w = get-set session w.cell

  after_restore :
      (r : Result (Option SessionState)) (w : World env) (auth : AuthState)
      (session : Option SessionState)
      → r ≡ ok session
      → Holds env session w
      → InSync (record { auth = restored env r auth; world = w })
  after_restore r w auth session e h = rw e (record { shown = refl; kept = h; loaded = refl })

  restore-InSync : (page : Page env) → InSync (restore env page)
  unfolding restore
  restore-InSync page =
      let (session, e, h) = restore_agrees env page.world in after_restore _ _ page.auth session e h

  mount_from-InSync :
      (cell : Option (Option SessionState)) (page next : Page env)
      → env.store.get page.world.cell ≡ cell
      → mount_from env cell page ≡ some next
      → InSync next
  unfolding mount_from
  mount_from-InSync none page next e h = cc
  mount_from-InSync (some none) page next e h =
      subst InSync (some-injective h) (restore-InSync page)
  mount_from-InSync (some (some session)) page next e h =
      subst InSync (some-injective h) (record { shown = refl; kept = e; loaded = refl })

  update_session-InSync :
      (printer : Printer) (value : Option SessionState) (page : Page env)
      → InSync page
      → InSync (update_session env printer value page)
  unfolding update_session
  update_session-InSync printer value page h =
      if_lem InSync (sessions_equal printer page.auth.session_ref value) (λ _. h)
        λ _. record { shown = refl; kept = store_session-Holds value page.world; loaded = h.loaded }

  pub run_call-InSync :
      (printer : Printer) (call : Call) (page : Page env)
      → InSync page
      → InSync (run_call env printer call page)
  unfolding run_call logout extend_session
  run_call-InSync printer (update value) page h = update_session-InSync printer value page h
  run_call-InSync printer leave page h = record {
    shown = refl;
    kept = store_session-Holds none page.world;
    loaded = h.loaded;
  }
  run_call-InSync printer extend page h = record {
    shown = h.shown;
    kept = h.kept;
    loaded = h.loaded;
  }

  run_calls-InSync :
      (printer : Printer) (calls : List Call) (page : Page env)
      → InSync page
      → InSync (run_calls env printer calls page)
  unfolding run_calls
  run_calls-InSync printer [] page h = h
  run_calls-InSync printer (call ∷ calls) page h =
      run_calls-InSync printer calls _ (run_call-InSync printer call page h)

  pub mount-InSync : (page next : Page env) → mount env page ≡ some next → InSync next
  unfolding mount
  mount-InSync page next h = mount_from-InSync _ page next refl h

  -- Once the page is mounted, by the stored session or by restoring one, and whatever the components
  -- then call in whatever order, they see the session that the store holds, or none where it holds
  -- none, and the loading is over. The stored text is JSON, or the mount throws.
  pub mounted-InSync :
      (printer : Printer) (page next : Page env) (calls : List Call)
      → mount env page ≡ some next
      → InSync (run_calls env printer calls next)
  mounted-InSync printer page next calls h =
      run_calls-InSync printer calls next (mount-InSync page next h)

  -- An update of the session that is not skipped stores the tokens of the provider: whatever the API
  -- client has put into the store since, such as renewed tokens, is replaced by the session that the
  -- provider remembers, with the new user.
  pub update_overwrites :
      (printer : Printer) (page : Page env) (session : SessionState) (user : SessionUser)
      → page.auth.session_ref ≡ some session
      → sessions_equal printer (some session) (some (record session { user = user })) ≡ false
      → Holds env
          (some (record session { user = user }))
          (update_session env printer (some (record session { user = user })) page).world
  unfolding update_session
  update_overwrites printer page session user e d =
      rw (e, d) (store_session-Holds (some (record session { user = user })) page.world)
