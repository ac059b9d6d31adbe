-- ===== src/Payment/Leaving.antt =====
-- When the page of a payment leads away, and what it stores before.
use corpershub_application.Api.Resolving.{Resolved, resolve_agrees}
use corpershub_application.Auth.Equality.{equal_sound}
use corpershub_application.Auth.{sessions_equal}
use corpershub_application.Base.{
  none, some, refl, arith, Option, Bool, ◌≡◌, ◌&&◌, not, true, false, is_some, str_eq,
  if◌then◌else◌, String, ap, or_default, Bool-cases, inl, inr,
}
use corpershub_application.Session.{SessionUser, SessionState}
use corpershub_application.Api.Action.{ok}
use corpershub_application.Api.Environment.{Environment}
use corpershub_application.Api.Restoring.{Holds}
use corpershub_application.Api.Sessions.{resolve_session_user}
use corpershub_application.Auth.{Page, Printer, update_session}
use corpershub_application.Auth.Agreement.{store_session-Holds}
use corpershub_application.Payment.{
  status_name, StatusQuery, PaymentStatus, Status, success_redirect, effective_status,
  is_successful, is_reactivation_flow, is_cancelled, sync_session_user,
}

cancelled_test :
    (b : Bool) (s : String)
    → str_eq s "successful" ≡ b
    → str_eq (if true && not b then "cancelled" else s) "successful" ≡ b
cancelled_test true s e = e
cancelled_test false s e = refl

cancelled_not_successful :
    (cancelled loading : Bool) (payment : Option PaymentStatus)
    → str_eq
        (if cancelled && not (is_successful payment)
          then "cancelled"
          else status_name payment loading)
        "successful"
      ≡ is_successful payment
cancelled_not_successful true true none = refl
cancelled_not_successful true false none = refl
cancelled_not_successful false true none = refl
cancelled_not_successful false false none = refl
cancelled_not_successful false loading (some payment) = refl
cancelled_not_successful true loading (some payment) =
    cancelled_test (is_successful (some payment)) payment.status refl

effective_successful :
    (query : StatusQuery) (status : Status)
    → str_eq (effective_status query status) "successful" ≡ is_successful status.payment
unfolding effective_status
effective_successful query status =
    cancelled_not_successful (is_cancelled query) status.loading status.payment

-- The page leads to the page behind the payment exactly if the payment is there and successful, and
-- no account is reactivated: neither a sign of cancelling in the URL nor one of success counts.
pub success_redirect_iff :
    (query : StatusQuery) (status : Status)
    → is_some (success_redirect query status)
      ≡ (is_successful status.payment && not (is_reactivation_flow query))
unfolding success_redirect
success_redirect_iff query status = ground (arith, effective_successful query status)

user_of : {a b : SessionState} → some a ≡ some b → a.user ≡ b.user
user_of {a} h = ap (λ o. (or_default o a).user) h

module _ (env : Environment) (printer : Printer) where
  -- After a successful payment, where the server reports a user other than the one of the session,
  -- the request of the user has left a session of that user in the store, with whatever tokens it was
  -- given; behind it the components see, and the store holds, the session that the page had before,
  -- with its old tokens and that user. The provider and its ref have one session before.
  pub sync_session_user_overwrites :
      (page : Page env) (session : SessionState) (user : SessionUser)
      → page.auth.session ≡ some session
      → page.auth.session_ref ≡ some session
      → (resolve_session_user env page.world).0 ≡ ok (some user)
      → (session.user ≡ user → ⊥)
      → Resolved env page.world.cell (some user) (resolve_session_user env page.world).1
        × ((sync_session_user env printer page).auth.session
            ≡ some (record session { user = user }))
        × Holds env
            (some (record session { user = user }))
            (sync_session_user env printer page).world
  unfolding sync_session_user update_session
  sync_session_user_overwrites page session user e r h other =
      let next : Option SessionState = some (record session { user = user }) in
      elim (Bool-cases (sessions_equal printer (some session) next)) [
        | inl k ↦ absurd (other (user_of (equal_sound printer (some session) next k)))
        | inr k ↦ (
          resolve_agrees env page.world (some user) h,
          rw (e, h, r, k) refl,
          rw (e, h, r, k) (store_session-Holds env next (resolve_session_user env page.world).1),
        )
      ]
