-- ===== src/Api/Resolving.antt =====
-- What `resolveSessionUser` returns, and what it leaves in the store.
use corpershub_application.Base.{
  refl, Option, ◌≡◌, inl, Bool-cases, ◌⊎◌, some, is_nil, ◌==◌, ◌||◌, inr, none, ◌∷◌,
}
use corpershub_application.Session.{SessionState, SessionUser}
use corpershub_application.Api.Json.{Json}
use corpershub_application.Api.Action.{Result, ok, err, continue, recover, pure}
use corpershub_application.Api.Environment.{Environment, Request, Response, no_answer, answer}
use corpershub_application.Api.Client.{
  World, Io, get_session, set_session, TokenState, fetch, clear_session, response_ok, read_json,
  got, reply_result,
}
use corpershub_application.Api.Sessions.{
  resolve_session_user, renew, finish_me, keep_user, keep_renewed, ask_again, settled_me,
  resolve_with, forget_user, me_request,
}
use corpershub_application.Api.Refreshing.{Refreshed, refresh_cases}
use corpershub_application.Api.Restoring.{Returned, Returned-continue, returned-eq}

module _ (env : Environment) where
  open env use {Cell, get, set, clear, get-set, get-clear, server, as_tokens, as_user}

  -- For a user: the store holds a session of that user. For null: the store is as it was in `before`,
  -- or it holds no session.
  abbrev pub Resolved : Cell → Option SessionUser → World env → Type 0
  Resolved before (some user) w =
      (session : SessionState) × (get w.cell ≡ some (some session)) × (session.user ≡ user)
  Resolved before none w = (w.cell ≡ before) ⊎ (get w.cell ≡ some none)

  -- A null on the way is only returned with a store that may be returned with it.
  abbrev Passable : {A : Type 0} → Cell → Option A → World env → Type 0
  Passable before none w = (w.cell ≡ before) ⊎ (get w.cell ≡ some none)
  Passable before (some a) w = Unit

  Returned-bind :
      {A B : Type 0} (Q : A → World env → Type 0) (P : B → World env → Type 0)
      (x : Result A × World env) (k : A → Io env B)
      → Returned env Q x
      → ((a : A) (w : World env) → Q a w → Returned env P (k a w))
      → Returned env P (continue x k)
  Returned-bind Q P (ok a, w) k q h = h a w q
  Returned-bind Q P (err e, w) k q h = tt

  module _ (before : Cell) where
    fetch_keeps :
        (request : Request) (w : World env)
        → w.cell ≡ before
        → Returned env (λ r w'. w'.cell ≡ before) (fetch env request w)
    unfolding fetch
    fetch_keeps request w same =
        elim (server w.sent request)
          as (λ reply.
            Returned env (λ r w'. w'.cell ≡ before)
              (reply_result env reply, record w { sent = request ∷ w.sent })) [
                | no_answer ↦ tt
                | answer r ↦ same
              ]

    renew_caught :
        (session : SessionState) (w : World env) (x : Result TokenState × World env)
        → w.cell ≡ before
        → Refreshed env (some session) w x
        → Returned env
            (Passable before)
            (recover (continue x (keep_renewed env session)) (λ _. pure none))
    unfolding keep_renewed set_session
    renew_caught session w x same Refreshed.unanswered = inl same
    renew_caught session w x same Refreshed.refused = inr (get-clear w.cell)
    renew_caught session w x same Refreshed.garbled = inl same
    renew_caught session w x same (Refreshed.renewed tokens) = tt

    renew-Passable :
        (session : SessionState) (w : World env)
        → w.cell ≡ before
        → Returned env (Passable before) (renew env session w)
    unfolding renew
    renew-Passable session w same =
        renew_caught session w _ same (refresh_cases env (some session) w)

    ask_again-Passable :
        (renewed : Option SessionState) (w : World env)
        → Passable before renewed w
        → Returned env (Passable before) (ask_again env renewed w)
    unfolding ask_again
    ask_again-Passable none w h = h
    ask_again-Passable (some session) w h =
        Returned-continue env (Passable before) (fetch env (me_request env session.access_token) w)
          _ (λ r w'. tt)

    settled_me-Passable :
        (session : SessionState) (r : Response) (w : World env)
        → w.cell ≡ before
        → Returned env (Passable before) (settled_me env session r w)
    unfolding settled_me
    settled_me-Passable session r w same = elim (Bool-cases (r.status == 401)) [
      | inl e ↦ rw e (
          Returned-bind (Passable before) (Passable before) (renew env session w) _
            (renew-Passable session w same) ask_again-Passable)
      | inr e ↦ rw e tt
    ]

    accept_me-Resolved :
        (session : SessionState) (body : Json) (w : World env)
        → Returned env (Resolved before) (keep_user env session body w)
    unfolding keep_user set_session
    accept_me-Resolved session body w =
        (record session { user = as_user body }, get-set _ w.cell, refl)

    finish_me-Resolved :
        (settled : Option (SessionState × Response)) (w : World env)
        → Passable before settled w
        → Returned env (Resolved before) (finish_me env settled w)
    unfolding finish_me forget_user clear_session
    finish_me-Resolved none w h = h
    finish_me-Resolved (some (session, r)) w h =
        elim (Bool-cases (r.status == 401 || r.status == 403)) [
          | inl e ↦ rw e (inr (get-clear w.cell))
          | inr e ↦ elim (Bool-cases (response_ok r)) [
            | inl f ↦
                rw (e, f)
                  (Returned-continue env (Resolved before) (read_json env r w) _
                    (accept_me-Resolved session))
            | inr f ↦ rw (e, f) tt
          ]
        ]

    resolve_with-Resolved :
        (session : Option SessionState) (w : World env)
        → w.cell ≡ before
        → Returned env (Resolved before) (resolve_with env session w)
    unfolding resolve_with
    resolve_with-Resolved none w same = inl same
    resolve_with-Resolved (some session) w same = elim (Bool-cases (is_nil session.access_token)) [
      | inl e ↦ rw e (inl same)
      | inr e ↦ rw e (
          Returned-bind (λ _ w'. w'.cell ≡ before) (Resolved before)
            (fetch env (me_request env session.access_token) w) _
            (fetch_keeps (me_request env session.access_token) w same)
            (λ r w' kept.
              Returned-bind (Passable before) (Resolved before) (settled_me env session r w') _
                (settled_me-Passable session r w' kept) finish_me-Resolved))
    ]

  session_read : (w : World env) → Returned env (λ s w'. w'.cell ≡ w.cell) (get_session env w)
  unfolding get_session
  session_read w =
      elim (get w.cell) as (λ stored. Returned env (λ s w'. w'.cell ≡ w.cell) (got env stored, w)) [
        | none ↦ tt
        | some session ↦ refl
      ]

  -- If `resolveSessionUser` returns a user, the store holds a session of that user. If it returns
  -- null, the store is unchanged or holds no session.
  pub resolve_agrees :
      (w : World env) (user : Option SessionUser)
      → (resolve_session_user env w).0 ≡ ok user
      → Resolved w.cell user (resolve_session_user env w).1
  unfolding resolve_session_user get_session
  resolve_agrees w user e =
      returned-eq env (Resolved w.cell) _
        (Returned-bind (λ _ w'. w'.cell ≡ w.cell) (Resolved w.cell) (get_session env w) _
          (session_read w) (λ session w'. resolve_with-Resolved w.cell session w'))
        e
