-- ===== src/Billing.antt =====
-- web/src/lib/subscriptions.ts, and the choices of
-- web/src/components/billing/subscription-billing-page.tsx: which subscription of a user counts, and
-- what a plan costs. An amount is a natural number of naira.
pub mod Choice
mod Tests
use corpershub_application.Base.{
  ℕ, [], none, some, false, List, Bool, String, Text, Option, codes, ◌&&◌, find, not, if◌then◌else◌,
  ◌||◌, ltb, str_eq, any, is_some, head_of,
}
use corpershub_application.Session.{UserRole, admin, company, corper}

pub record BillingPlan : Type 0 where
  pub code : String
  pub name : String
  pub amount_naira : ℕ

pub record BillingSubscription : Type 0 where
  pub id : String
  pub status : String
  pub ends_at : Option String
  pub plan : BillingPlan

abbrev pub has_status : String → BillingSubscription → Bool
has_status status subscription = str_eq subscription.status status

-- `subscription.status === "cancelled" && subscription.ends_at !== null`
abbrev pub is_ending : BillingSubscription → Bool
is_ending subscription = has_status "cancelled" subscription && is_some subscription.ends_at

-- `Boolean(subscription.ends_at)`: an empty text counts as none.
abbrev is_date : Option String → Bool
is_date none = false
is_date (some date) = not (str_eq date "")

abbrev pub has_end : BillingSubscription → Bool
has_end subscription = is_date subscription.ends_at

-- `a ?? b`
abbrev pub or_else :
    Option BillingSubscription → Option BillingSubscription → Option BillingSubscription
or_else none b = b
or_else (some a) b = some a

unfoldable pub resolve_current_subscription : List BillingSubscription → Option BillingSubscription
resolve_current_subscription subscriptions =
    or_else (find (has_status "active") subscriptions)
      (or_else (find (has_status "trial") subscriptions) (find is_ending subscriptions))

abbrev pub ends : Option BillingSubscription → Bool
ends none = false
ends (some subscription) = has_end subscription

unfoldable pub resolve_subscription_status_snapshot :
    List BillingSubscription → Option BillingSubscription
resolve_subscription_status_snapshot subscriptions =
    let active = find (has_status "active") subscriptions in
    let trial = find (has_status "trial") subscriptions in
    let cancelled = find is_ending subscriptions in
    let current = or_else active (or_else trial cancelled) in
    if ends current
    then current
    else or_else (find has_end subscriptions) (or_else current (head_of subscriptions))

unfoldable pub get_billing_path_for_role : UserRole → Text
get_billing_path_for_role corper = codes "/corper/billing"
get_billing_path_for_role company = codes "/company/dashboard"
get_billing_path_for_role admin = codes "/admin/overview"

abbrev pub is_paid : BillingSubscription → Bool
is_paid subscription = ltb 0 subscription.plan.amount_naira

unfoldable pub has_paid_corper_access : List BillingSubscription → Bool
has_paid_corper_access subscriptions =
    any
      (λ subscription.
        is_paid subscription && (has_status "active" subscription || is_ending subscription))
      subscriptions

unfoldable pub get_corper_plan_rank : Option String → Option ℕ
get_corper_plan_rank none = none
get_corper_plan_rank (some plan_code) =
    if str_eq plan_code "free"
    then some 0
    else if str_eq plan_code "three-months"
    then some 1
    else if str_eq plan_code "six-months"
    then some 2
    else if str_eq plan_code "twelve-months"
    then some 3
    else none

unfoldable pub resolve_latest_paid_subscription :
    List BillingSubscription → Option BillingSubscription
resolve_latest_paid_subscription subscriptions =
    find (λ subscription. is_paid subscription && not (has_status "past_due" subscription))
      subscriptions

pub record PlanAction : Type 0 where
  pub disabled : Bool
  pub label : String
  pub amount_due : ℕ
  pub note : Option String

-- The condition of `getPaidPlanAction`, which the page computes again as `browseUnlocked`.
abbrev pub is_unlocked : BillingSubscription → Bool
is_unlocked subscription =
    has_status "active" subscription || has_status "trial" subscription || is_ending subscription

abbrev free_choice : BillingPlan → PlanAction
free_choice plan = record {
  disabled = false;
  label = "Choose Plan";
  amount_due = plan.amount_naira;
  note = none;
}

unfoldable pub get_paid_plan_action : BillingPlan → Option BillingSubscription → PlanAction
get_paid_plan_action plan none = free_choice plan
get_paid_plan_action plan (some current) =
    let is_current_plan = str_eq current.plan.code plan.code in
    if is_unlocked current
    then record {
      disabled = is_current_plan;
      label = if is_current_plan then "Current Plan" else "Choose Plan";
      amount_due = if is_current_plan then 0 else plan.amount_naira;
      note =
          if is_current_plan
          then none
          else some
              "Choosing a new plan cancels your current plan immediately. Payments are non-refundable and the new plan starts today.";
    }
    else free_choice plan

abbrev pub browse_unlocked : Option BillingSubscription → Bool
browse_unlocked none = false
browse_unlocked (some current) = is_unlocked current

-- What `requestPayment` does: it asks first, naming the two plans, or starts the payment.
pub data Request : Type 0 where
  prompt : String → String → String → Request
  start : String → Request

abbrev pub prompted : String → BillingSubscription → Option BillingPlan → Request
prompted plan_code current none = start plan_code
prompted plan_code current (some selected) = prompt plan_code current.plan.name selected.name

unfoldable pub request_payment : List BillingPlan → Option BillingSubscription → String → Request
request_payment plans none plan_code = start plan_code
request_payment plans (some current) plan_code =
    let selected_plan = find (λ plan. str_eq plan.code plan_code) plans in
    let has_current_paid_plan =
      is_paid current && (has_status "active" current || is_ending current) in
    if has_current_paid_plan && not (str_eq current.plan.code plan_code)
    then prompted plan_code current selected_plan
    else start plan_code

-- The text on the page; the quotation is the source's.
unfoldable pub get_browse_access_message : Bool → Option String → Bool → String
get_browse_access_message has_plan none has_ends_at =
    if has_plan then "Upgrade to a paid plan to browse companies." else "No active plan."
get_browse_access_message has_plan (some status) has_ends_at =
    if str_eq status "active"
    then "Active plan, explore!."
    else if str_eq status "cancelled" && has_ends_at
    then "This plan has been cancelled and stays active until its expiry date."
    else if str_eq status "trial"
    then "Browse companies with trial plan; match score, interest, and chat not available on the trial plan."
    else if str_eq status "pending"
    then "Your payment is pending verification. Complete the payment and wait for confirmation — your subscription activates on successful confirmation."
    else if has_plan
    then "Upgrade to a paid plan to browse companies."
    else "No active plan."
