-- ===== src/Payment.antt =====
-- web/src/components/billing/billing-status-page.tsx: asking for the status of a payment until it is
-- settled, what is shown, and where the page leads. `encodeURIComponent` is a parameter.
pub mod Polling
pub mod Leaving
mod Tests
use corpershub_application.Base.{
  ℕ, suc, [], none, some, Option, String, List, Bool, Text, ◌∷◌, ◌++◌, ◌&&◌, ◌||◌, not, true, false,
  if◌then◌else◌, str_eq, text_eq, codes, is_nil, trim, or_default,
}
use corpershub_application.Session.{UserRole, company, corper, admin, SessionUser, SessionState}
use corpershub_application.Billing.{get_billing_path_for_role}
use corpershub_application.Api.Action.{Result, ok, err, Failure}
use corpershub_application.Api.Environment.{Environment}
use corpershub_application.Api.Client.{World}
use corpershub_application.Api.Sessions.{resolve_session_user}
use corpershub_application.Auth.{Page, Printer, update_session}

-- The values of the page's URL, each null where it is missing.
pub record StatusQuery : Type 0 where
  pub reference : Option Text
  pub billing_path : Option Text
  pub flow : Option Text
  pub role : Option Text
  pub gateway : Option Text
  pub tx_ref : Option Text
  pub transaction_id : Option Text
  pub status : Option Text
  pub cancelled : Option Text

pub record PaymentStatus : Type 0 where
  pub status : String
  pub role : UserRole

abbrev pub text_of : Option Text → Text
text_of value = or_default value []

abbrev pub trimmed : Option Text → Text
trimmed value = trim (text_of value)

abbrev pub is_reactivation_flow : StatusQuery → Bool
is_reactivation_flow query = text_eq (text_of query.flow) (codes "reactivation")

abbrev pub is_cancelled : StatusQuery → Bool
is_cancelled query = text_eq (text_of query.cancelled) (codes "1")

-- `value ? name + encodeURIComponent(value) : ""`
abbrev parameter : (Text → Text) → String → Text → Text
parameter encode name value = if is_nil value then [] else codes name ++ encode value

unfoldable pub status_url : (Text → Text) → StatusQuery → Text
status_url encode query =
    if text_eq (text_of query.gateway) (codes "flutterwave")
    then codes "/payments/transactions/flutterwave/verify/?reference="
      ++ encode
          (if is_nil (trimmed query.tx_ref) then trimmed query.reference else trimmed query.tx_ref)
      ++ parameter encode "&transaction_id=" (trimmed query.transaction_id)
      ++ parameter encode "&status=" (trimmed query.status)
    else codes "/payments/transactions/status/?reference=" ++ encode (trimmed query.reference)

abbrev pub is_pollable : PaymentStatus → Bool
is_pollable payment = str_eq payment.status "pending" || str_eq payment.status "processing"

pub data StatusError : Type 0 where
  missing_reference : StatusError
  unloaded : Failure → StatusError

-- The states of the page, whether a timer runs that asks again, and the requests so far.
pub record Status : Type 0 where
  pub payment : Option PaymentStatus
  pub error : Option StatusError
  pub loading : Bool
  pub timer : Bool
  pub requests : ℕ

abbrev pub initial_status : StatusQuery → Status
initial_status query = record {
  payment = none;
  error = none;
  loading = not (is_nil (trimmed query.reference));
  timer = false;
  requests = 0;
}

-- `loadStatus`: one request and its answer.
unfoldable pub load_status : Result PaymentStatus → Status → Status
load_status (ok payment) status = record {
  payment = some payment;
  error = none;
  loading = false;
  timer = is_pollable payment;
  requests = suc status.requests;
}
load_status (err e) status = record status {
  error = some (unloaded e);
  loading = false;
  timer = false;
  requests = suc status.requests;
}

-- The answers come one after the other, each asked for by the timer that the one before has set.
unfoldable pub poll : List (Result PaymentStatus) → Status → Status
poll [] status = status
poll (reply ∷ replies) status =
    let after = load_status reply status in
    let rest = poll replies after in if after.timer then rest else after

-- The effect behind the first rendering.
unfoldable pub watch_payment : StatusQuery → List (Result PaymentStatus) → Status
watch_payment query replies =
    if is_nil (trimmed query.reference)
    then record (initial_status query) { loading = false; error = some missing_reference }
    else poll replies (initial_status query)

abbrev pub is_successful : Option PaymentStatus → Bool
is_successful none = false
is_successful (some payment) = str_eq payment.status "successful"

abbrev pub status_name : Option PaymentStatus → Bool → String
status_name (some payment) loading = payment.status
status_name none loading = if loading then "pending" else "failed"

unfoldable pub effective_status : StatusQuery → Status → String
effective_status query status =
    if is_cancelled query && not (is_successful status.payment)
    then "cancelled"
    else status_name status.payment status.loading

abbrev role_from_url : StatusQuery → Option UserRole
role_from_url query =
    if text_eq (text_of query.role) (codes "company")
    then some company
    else if text_eq (text_of query.role) (codes "corper")
    then some corper
    else none

unfoldable pub resolved_role : StatusQuery → Option PaymentStatus → Option UserRole
resolved_role query none = role_from_url query
resolved_role query (some payment) = elim payment.role [
  | company ↦ some company
  | corper ↦ some corper
  | admin ↦ role_from_url query
]

pub record StatusPaths : Type 0 where
  pub success_path : Text
  pub back_to_billing_path : Text

abbrev fallback_path : Option UserRole → Text
fallback_path none = codes "/"
fallback_path (some role) = get_billing_path_for_role role

unfoldable pub resolve_billing_status_paths : Text → Bool → Option UserRole → StatusPaths
resolve_billing_status_paths billing_path is_reactivation role =
    let chosen = if is_nil billing_path then fallback_path role else billing_path in
    record {
      success_path = chosen;
      back_to_billing_path = if is_reactivation then chosen else fallback_path role;
    }

-- The page that the second effect leads to, after its timer; null where it leads nowhere.
unfoldable pub success_redirect : StatusQuery → Status → Option Text
success_redirect query status =
    if not (str_eq (effective_status query status) "successful") || is_reactivation_flow query
    then none
    else some
        (resolve_billing_status_paths (text_of query.billing_path) (is_reactivation_flow query)
          (resolved_role query status.payment)).success_path

-- What that effect makes of the session before it leads away.
module _ (env : Environment) (printer : Printer) where
  abbrev with_user : SessionState → Result (Option SessionUser) → Page env → Page env
  with_user session (ok (some user)) page =
      update_session env printer (some (record session { user = user })) page
  with_user session _ page = page

  abbrev pub sync_user_for : Option SessionState → Page env → Page env
  sync_user_for none page = page
  sync_user_for (some session) page =
      let (result, world) = resolve_session_user env page.world in
      with_user session result (record page { world = world })

  unfoldable pub sync_session_user : Page env → Page env
  sync_session_user page = sync_user_for page.auth.session page
