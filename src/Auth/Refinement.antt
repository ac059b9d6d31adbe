-- ===== src/Auth/Refinement.antt =====
-- The provider, its ref and the store together behave as one session that the calls replace.
use mathlib.Core.Path.{subst}
use corpershub_application.Base.{[], none, some, refl, ◌≡◌, ◌∙◌, ap, List, Option, ◌∷◌, if_lem}
use corpershub_application.Session.{SessionState}
use corpershub_application.Api.Environment.{Environment}
use corpershub_application.Api.Restoring.{Holds}
use corpershub_application.Auth.{
  Call, update, leave, extend, Page, Printer, sessions_equal, mount, run_call, run_calls,
  update_session, logout, extend_session,
}
use corpershub_application.Auth.Equality.{equal_sound}
use corpershub_application.Auth.Agreement.{InSync, mounted-InSync, run_call-InSync, mount-InSync}

-- The specification: one session, and what a call makes of it.
abbrev pub next_session : Call → Option SessionState → Option SessionState
next_session (update value) session = value
next_session leave session = none
next_session extend session = session

abbrev pub next_sessions : List Call → Option SessionState → Option SessionState
next_sessions [] session = session
next_sessions (call ∷ calls) session = next_sessions calls (next_session call session)

module _ (env : Environment) (printer : Printer) where
  call_refines :
      (call : Call) (page : Page env)
      → InSync env page
      → (run_call env printer call page).auth.session ≡ next_session call page.auth.session
  unfolding run_call update_session logout extend_session
  call_refines (update value) page h =
      if_lem (λ (p : Page env). p.auth.session ≡ value)
        (sessions_equal printer page.auth.session_ref value)
        (λ e. h.shown ∙ equal_sound printer page.auth.session_ref value e) λ e. refl
  call_refines leave page h = refl
  call_refines extend page h = refl

  calls_refine :
      (calls : List Call) (page : Page env)
      → InSync env page
      → (run_calls env printer calls page).auth.session ≡ next_sessions calls page.auth.session
  unfolding run_calls
  calls_refine [] page h = refl
  calls_refine (call ∷ calls) page h =
      calls_refine calls (run_call env printer call page) (run_call-InSync env printer call page h)
      ∙ ap (next_sessions calls) (call_refines call page h)

  -- The provider refines one session that an update replaces and that leaving takes away: after any
  -- of its calls behind a mount, with no request of the API client between them, the components see,
  -- and the store holds, the session that this specification gives, though an update that prints like
  -- the session is skipped. The stored text is JSON, or the mount throws.
  pub run_calls_refines :
      (page next : Page env) (calls : List Call)
      → mount env page ≡ some next
      → ((run_calls env printer calls next).auth.session ≡ next_sessions calls next.auth.session)
        × Holds env (next_sessions calls next.auth.session) (run_calls env printer calls next).world
  run_calls_refines page next calls h =
      let same = calls_refine calls next (mount-InSync env page next h) in
      let synced = mounted-InSync env printer page next calls h in
      (same, subst (λ s. Holds env s (run_calls env printer calls next).world) same synced.kept)
