-- ===== src/Payment/Tests.antt =====
-- A concrete payment page, and the properties applied to it.
use corpershub_application.Base.{
  Bool, Option, Text, true, false, Bool-clash, sym, ap, suc, refl, none, some, not, ◌≡◌, ◌∷◌, ◌++◌,
  ◌+◌, ◌&&◌, [], map, length, codes, is_some,
}
use corpershub_application.Session.{corper, SessionState}
use corpershub_application.Auth.{Page}
use corpershub_application.Api.Resolving.{Resolved}
use corpershub_application.Fixtures.{ada, ada_session}
use corpershub_application.Api.Action.{ok, err, network}
use corpershub_application.Api.Client.{
  get_session, fetch, refresh_access_token, accept_refresh, refresh_request, read_json, set_session,
  clear_session,
}
use corpershub_application.Api.Sample.{world_of_ada, start}
use corpershub_application.Api.Restoring.{Holds}
use corpershub_application.Api.Sessions.{
  resolve_session_user, resolve_with, settled_me, renew, keep_renewed, ask_again, finish_me,
  keep_user,
}
use corpershub_application.Auth.Sample.{by_fields, loaded_page}
use corpershub_application.Payment.{
  StatusQuery, PaymentStatus, Status, poll, initial_status, is_successful, is_reactivation_flow,
  success_redirect, sync_session_user, watch_payment,
}
use corpershub_application.Payment.Polling.{poll_settles, IsSettled}
use corpershub_application.Payment.Leaving.{success_redirect_iff, sync_session_user_overwrites}

abbrev query : StatusQuery
query = record {
  reference = some (codes "ref-1");
  billing_path = some (codes "/corper/billing");
  flow = none;
  role = some (codes "corper");
  gateway = some (codes "flutterwave");
  tx_ref = none;
  transaction_id = none;
  status = none;
  cancelled = some (codes "1");
}

abbrev pending_payment : PaymentStatus
pending_payment = record { status = "pending"; role = corper }

abbrev paid : PaymentStatus
paid = record { status = "successful"; role = corper }

poll_settles_example :
    IsSettled
      (ok paid)
      (length (pending_payment ∷ []) + suc (initial_status query).requests)
      (poll (map ok (pending_payment ∷ []) ++ ok paid ∷ err network ∷ []) (initial_status query))
poll_settles_example =
    poll_settles (pending_payment ∷ []) (ok paid) (err network ∷ []) (initial_status query) refl
      refl

abbrev shown : Status
shown = watch_payment query (ok pending_payment ∷ ok paid ∷ [])

success_redirect_iff_example :
    is_some (success_redirect query shown)
    ≡ (is_successful shown.payment && not (is_reactivation_flow query))
success_redirect_iff_example = success_redirect_iff query shown

user_resolved : (resolve_session_user world_of_ada start).0 ≡ ok (some ada)
unfolding resolve_session_user resolve_with settled_me renew keep_renewed ask_again finish_me
    keep_user get_session fetch refresh_access_token accept_refresh refresh_request read_json
    set_session clear_session
user_resolved = refl

-- The page of a session from before the profile was completed.
abbrev old_session : SessionState
old_session = record ada_session { user = record ada { profile_completed = some false } }

abbrev old_page : Page world_of_ada
old_page = record loaded_page {
  auth = record loaded_page.auth { session = some old_session; session_ref = some old_session };
}

abbrev completed_of : Option Bool → Bool
completed_of (some b) = b
completed_of none = true

other_user : old_session.user ≡ ada → ⊥
other_user h = Bool-clash true refl (sym (ap (λ u. completed_of u.profile_completed) h))

abbrev token_of : Option SessionState → Text
token_of none = []
token_of (some session) = session.access_token

-- The request has put new tokens into the store, and the sync puts the old ones back.
renewed_test : token_of (resolve_session_user world_of_ada start).1.cell ≡ codes "t2"
unfolding resolve_session_user resolve_with settled_me renew keep_renewed ask_again finish_me
    keep_user get_session fetch refresh_access_token accept_refresh refresh_request read_json
    set_session clear_session
renewed_test = refl

sync_session_user_overwrites_example :
    Resolved world_of_ada start.cell (some ada) (resolve_session_user world_of_ada start).1
    × ((sync_session_user world_of_ada by_fields old_page).auth.session
        ≡ some (record old_session { user = ada }))
    × Holds world_of_ada
        (some (record old_session { user = ada }))
        (sync_session_user world_of_ada by_fields old_page).world
sync_session_user_overwrites_example =
    sync_session_user_overwrites world_of_ada by_fields old_page old_session ada refl refl
      user_resolved other_user
