-- ===== src/Api/Restoring.antt =====
-- The session that a call returns is the one that it leaves in the store.
use mathlib.Core.Path.{subst}
use corpershub_application.Base.{refl, Option, ◌≡◌, some, none, Bool-cases, inl, inr, Bool, Text}
use corpershub_application.Session.{SessionState}
use corpershub_application.Api.Json.{Json}
use corpershub_application.Api.Action.{Result, ok, err, continue, recover}
use corpershub_application.Api.Environment.{Environment, Response}
use corpershub_application.Api.Client.{
  World, Io, TokenState, clear_session, set_session, refresh_access_token, response_ok, fetch,
}
use corpershub_application.Api.Sessions.{
  restore_session_from_refresh_cookie, forget, accept_restored, keep_restored, restore_attempt,
  me_request, keep_login, login_with_credentials,
}

ok-injective {ℓ} : {A : Type ℓ} {a b : A} → ok a ≡ ok b → a ≡ b
ok-injective e = cc

module _ (env : Environment) where
  open env use {Cell, get, set, clear, get-set, get-clear, server, as_tokens, as_user}

  -- What is asked of a result that was returned; a thrown error is let through.
  abbrev pub Returned : {A : Type 0} → (A → World env → Type 0) → Result A × World env → Type 0
  Returned P (ok a, w) = P a w
  Returned P (err e, w) = Unit

  pub Returned-continue :
      {A B : Type 0} (P : B → World env → Type 0) (x : Result A × World env) (k : A → Io env B)
      → ((a : A) (w : World env) → Returned P (k a w))
      → Returned P (continue x k)
  Returned-continue P (ok a, w) k h = h a w
  Returned-continue P (err e, w) k h = tt

  pub returned-eq :
      {A : Type 0} (P : A → World env → Type 0) (x : Result A × World env) {a : A}
      → Returned P x
      → x.0 ≡ ok a
      → P a x.1
  returned-eq P (ok b, w) h e = subst (λ c. P c w) (ok-injective e) h
  returned-eq P (err f, w) h e = cc

  -- The store holds what was returned.
  abbrev pub Holds : Option SessionState → World env → Type 0
  Holds session w = get w.cell ≡ some session

  forget-Holds : (w : World env) → Returned Holds (forget env w)
  unfolding forget clear_session
  forget-Holds w = get-clear w.cell

  store_restored :
      (tokens : TokenState) (body : Json) (w : World env)
      → Returned Holds (keep_restored env tokens body w)
  unfolding keep_restored set_session
  store_restored tokens body w = get-set _ w.cell

  restore_answered :
      (tokens : TokenState) (r : Response) (w : World env)
      → Returned Holds (accept_restored env tokens r w)
  unfolding accept_restored
  restore_answered tokens r w = elim (Bool-cases (response_ok r)) [
    | inl e ↦ rw e (Returned-continue Holds _ _ (store_restored tokens))
    | inr e ↦ rw e (forget-Holds w)
  ]

  restore_attempt-Holds : (w : World env) → Returned Holds (restore_attempt env w)
  unfolding restore_attempt
  restore_attempt-Holds w = Returned-continue Holds (refresh_access_token env none w) _ λ tokens w'.
      Returned-continue Holds (fetch env (me_request env tokens.access_token) w') _
        (restore_answered tokens)

  caught :
      (x : Result (Option SessionState) × World env)
      → Returned Holds x
      → (session : Option SessionState) × ((recover x (λ _. forget env)).0 ≡ ok session)
        × Holds session (recover x (λ _. forget env)).1
  unfolding forget clear_session
  caught (ok session, w) h = (session, refl, h)
  caught (err e, w) h = (none, refl, get-clear w.cell)

  -- Restoring a session never throws, whatever the server answers, and afterwards the store holds
  -- exactly the session that was returned, or none where null was.
  pub restore_agrees :
      (w : World env)
      → (session : Option SessionState) × ((restore_session_from_refresh_cookie env w).0
          ≡ ok session)
        × Holds session (restore_session_from_refresh_cookie env w).1
  unfolding restore_session_from_refresh_cookie
  restore_agrees w = caught (restore_attempt env w) (restore_attempt-Holds w)

  keep_login-Holds :
      (remember_me : Option Bool) (body : Json) (w : World env)
      → Returned (λ session. Holds (some session)) (keep_login env remember_me body w)
  unfolding keep_login set_session
  keep_login-Holds remember_me body w = get-set _ w.cell

  -- A sign-in that returns leaves the session that it returns in the store.
  pub login-Holds :
      (email password : Text) (remember_me : Option Bool) (w : World env) (session : SessionState)
      → (login_with_credentials env email password remember_me w).0 ≡ ok session
      → Holds (some session) (login_with_credentials env email password remember_me w).1
  unfolding login_with_credentials
  login-Holds email password remember_me w session e =
      returned-eq (λ s. Holds (some s)) _
        (Returned-continue (λ s. Holds (some s)) _ _ (keep_login-Holds remember_me)) e
