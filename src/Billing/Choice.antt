-- ===== src/Billing/Choice.antt =====
-- The current subscription, and what depends on it.
use corpershub_application.Base.{
  ◌||◌, str_eq, ℕ, [], none, some, Bool, if◌then◌else◌, List, ◌==◌, ◌≡◌, true, find, any, ◌∷◌,
  false, refl, arith, Option, ltb, ◌<◌, or_else, sym, find-none, ◌∙◌, find_sound, is_some, str_eq,
  not, Bool-clash, is_nil, String, ◌&&◌,
}
use corpershub_application.Billing.{
  start, prompt, BillingSubscription, has_status, is_ending, resolve_current_subscription,
  is_unlocked, BillingPlan, request_payment, Request, resolve_subscription_status_snapshot,
  get_paid_plan_action, has_paid_corper_access, browse_unlocked, prompt, start, ends, has_end,
  is_paid, prompted,
}

-- The order in which subscriptions count; 3 is that of one which does not.
abbrev pub standing : BillingSubscription → ℕ
standing s =
    if has_status "active" s
    then 0
    else if has_status "trial" s
    then 1
    else if is_ending s
    then 2
    else 3

abbrev pub is_before : ℕ → BillingSubscription → Bool
is_before n s = ltb (standing s) n

abbrev pub of_standing : ℕ → BillingSubscription → Bool
of_standing n s = standing s == n

-- What the current subscription of a list is: the first of those that stand best, and none only
-- where no subscription counts.
unfoldable pub IsCurrent : List BillingSubscription → Option BillingSubscription → Type 0
IsCurrent xs none = any is_unlocked xs ≡ false
IsCurrent xs (some s) =
    (is_unlocked s ≡ true)
    × (any (is_before (standing s)) xs ≡ false)
    × (find (of_standing (standing s)) xs ≡ some s)

find_same :
    (p q r : BillingSubscription → Bool) (xs : List BillingSubscription)
    → any r xs ≡ false
    → ((s : BillingSubscription) → r s ≡ false → p s ≡ q s)
    → find p xs ≡ find q xs
find_same p q r [] e h = refl
find_same p q r (s ∷ xs) e h = ground (arith, find_same p q r xs, h s)

none_of :
    (p q r : BillingSubscription → Bool) (xs : List BillingSubscription)
    → any p xs ≡ false
    → any q xs ≡ false
    → ((s : BillingSubscription) → p s ≡ false → q s ≡ false → r s ≡ false)
    → any r xs ≡ false
none_of p q r [] e f h = refl
none_of p q r (s ∷ xs) e f h = ground (arith, none_of p q r xs, h s)

standing_3 : (s : BillingSubscription) → is_unlocked s ≡ ltb (standing s) 3
standing_3 s = ground arith

found :
    (n : ℕ) (p : BillingSubscription → Bool) (xs : List BillingSubscription)
    (s : BillingSubscription)
    → n < 3
    → any (is_before n) xs ≡ false
    → ((t : BillingSubscription) → is_before n t ≡ false → p t ≡ of_standing n t)
    → find p xs ≡ some s
    → IsCurrent xs (some s)
unfolding IsCurrent
found n p xs s small e h f =
    let g : find (of_standing n) xs ≡ some s =
      sym (find_same p (of_standing n) (is_before n) xs e h) ∙ f in
    let stands : standing s ≡ n = ground (arith, find_sound (of_standing n) xs g) in
    (standing_3 s ∙ ground arith, rw stands e, rw stands g)

none_first : (xs : List BillingSubscription) → any (is_before 0) xs ≡ false
none_first [] = refl
none_first (s ∷ xs) = ground (arith, none_first xs)

-- The current subscription is the first of the best standing, active before trial before cancelled
-- with an end, whatever the list; there is none only if no subscription of the list has one of the
-- three.
pub resolve_current_subscription-IsCurrent :
    (subscriptions : List BillingSubscription)
    → IsCurrent subscriptions (resolve_current_subscription subscriptions)
unfolding resolve_current_subscription IsCurrent
resolve_current_subscription-IsCurrent xs = active (find (has_status "active") xs) refl
  where
    ending :
        (r : Option BillingSubscription)
        → find is_ending xs ≡ r
        → any (is_before 2) xs ≡ false
        → IsCurrent xs r
    ending none e h =
        none_of (is_before 2) is_ending is_unlocked xs h (find-none _ xs e)
          λ t k l. standing_3 t ∙ ground arith
    ending (some s) e h = found 2 is_ending xs s (omega arith) h (λ t k. ground arith) e

    trial :
        (r : Option BillingSubscription)
        → find (has_status "trial") xs ≡ r
        → any (is_before 1) xs ≡ false
        → IsCurrent xs (or_else r (find is_ending xs))
    trial none e h = ending (find is_ending xs) refl (
        none_of (is_before 1) (has_status "trial") (is_before 2) xs h (find-none _ xs e)
          λ t k l. ground arith)
    trial (some s) e h = found 1 (has_status "trial") xs s (omega arith) h (λ t k. ground arith) e

    active :
        (r : Option BillingSubscription)
        → find (has_status "active") xs ≡ r
        → IsCurrent xs (or_else r (or_else (find (has_status "trial") xs) (find is_ending xs)))
    active none e = trial (find (has_status "trial") xs) refl (
        none_of (has_status "active") (has_status "active") (is_before 1) xs (find-none _ xs e)
          (find-none _ xs e) λ t k l. ground arith)
    active (some s) e =
        found 0 (has_status "active") xs s (omega arith) (none_first xs) (λ t k. ground arith) e

paid_counts :
    (xs : List BillingSubscription) → any is_unlocked xs ≡ false → has_paid_corper_access xs ≡ false
unfolding has_paid_corper_access
paid_counts [] h = refl
paid_counts (s ∷ xs) h = ground (arith, paid_counts xs)

counts :
    (xs : List BillingSubscription) (s : BillingSubscription)
    → IsCurrent xs (some s)
    → is_unlocked s ≡ true
unfolding IsCurrent
counts xs s c = c.0

none_counts : (xs : List BillingSubscription) → IsCurrent xs none → any is_unlocked xs ≡ false
unfolding IsCurrent
none_counts xs c = c

-- A user with paid access may browse: where a paid subscription is active, or cancelled with an end,
-- the current subscription unlocks the companies.
pub paid_unlocks :
    (subscriptions : List BillingSubscription)
    → has_paid_corper_access subscriptions ≡ true
    → browse_unlocked (resolve_current_subscription subscriptions) ≡ true
paid_unlocks xs h =
    unlocks (resolve_current_subscription xs) (resolve_current_subscription-IsCurrent xs)
  where
    unlocks : (r : Option BillingSubscription) → IsCurrent xs r → browse_unlocked r ≡ true
    unlocks none c =
        absurd (Bool-clash (has_paid_corper_access xs) h (paid_counts xs (none_counts xs c)))
    unlocks (some s) c = counts xs s c

shown :
    (r f : Option BillingSubscription) (s : BillingSubscription)
    → is_some (if ends r then r else or_else f (or_else r (some s))) ≡ true
shown none none s = refl
shown none (some a) s = refl
shown (some c) none s = ground arith
shown (some c) (some a) s = ground arith

picked :
    (b : Bool) (x y : Option BillingSubscription)
    → (if b then x else if b then x else y) ≡ (if b then x else y)
picked true x y = refl
picked false x y = refl

-- The subscription of the status section is missing only where the user has none at all, and it is
-- the current one wherever that has an end.
pub snapshot_shows :
    (subscriptions : List BillingSubscription)
    → (is_some (resolve_subscription_status_snapshot subscriptions) ≡ not (is_nil subscriptions))
      × ((if ends (resolve_current_subscription subscriptions)
            then resolve_current_subscription subscriptions
            else resolve_subscription_status_snapshot subscriptions)
          ≡ resolve_subscription_status_snapshot subscriptions)
unfolding resolve_subscription_status_snapshot resolve_current_subscription
snapshot_shows [] = (refl, refl)
snapshot_shows (s ∷ xs) =
    let current = resolve_current_subscription (s ∷ xs) in
    let ended = find has_end (s ∷ xs) in
    (
      shown current ended s,
      picked (ends current) current (or_else ended (or_else current (some s))),
    )

-- The plan of a subscription.
abbrev pub covers : BillingPlan → Option BillingSubscription → Bool
covers plan none = false
covers plan (some s) = str_eq s.plan.code plan.code

action_none :
    (plan : BillingPlan)
    → ((get_paid_plan_action plan none).disabled ≡ covers plan none)
      × ((get_paid_plan_action plan none).amount_due
          ≡ (if covers plan none then 0 else plan.amount_naira))
unfolding get_paid_plan_action
action_none plan = (refl, refl)

action_some :
    (plan : BillingPlan) (s : BillingSubscription)
    → is_unlocked s ≡ true
    → ((get_paid_plan_action plan (some s)).disabled ≡ covers plan (some s))
      × ((get_paid_plan_action plan (some s)).amount_due
          ≡ (if covers plan (some s) then 0 else plan.amount_naira))
unfolding get_paid_plan_action
action_some plan s h = rw h (refl, refl)

-- The button of a plan is disabled exactly for the plan of the current subscription, and only that
-- one costs nothing now; the others cost their amount.
pub action_agrees :
    (plan : BillingPlan) (subscriptions : List BillingSubscription)
    → ((get_paid_plan_action plan (resolve_current_subscription subscriptions)).disabled
        ≡ covers plan (resolve_current_subscription subscriptions))
      × ((get_paid_plan_action plan (resolve_current_subscription subscriptions)).amount_due ≡ (
          if covers plan (resolve_current_subscription subscriptions)
          then 0
          else plan.amount_naira))
action_agrees plan xs =
    agrees (resolve_current_subscription xs) (resolve_current_subscription-IsCurrent xs)
  where
    agrees :
        (r : Option BillingSubscription)
        → IsCurrent xs r
        → ((get_paid_plan_action plan r).disabled ≡ covers plan r)
          × ((get_paid_plan_action plan r).amount_due
              ≡ (if covers plan r then 0 else plan.amount_naira))
    agrees none c = action_none plan
    agrees (some s) c = action_some plan s (counts xs s c)

abbrev pub is_prompt : Request → Bool
is_prompt (prompt plan_code current selected) = true
is_prompt (start plan_code) = false

prompt_needs :
    (code : String) (b : Bool) (r : Request)
    → is_prompt (if b then r else start code) ≡ true
    → b ≡ true
prompt_needs code true r h = refl
prompt_needs code false r h = h

-- Where the page asks before it changes a plan, the card of that plan has announced the change: its
-- button is enabled and its note is shown.
pub prompt_announced :
    (plans : List BillingPlan) (plan : BillingPlan) (current : Option BillingSubscription)
    → is_prompt (request_payment plans current plan.code) ≡ true
    → ((get_paid_plan_action plan current).disabled ≡ false)
      × (is_some (get_paid_plan_action plan current).note ≡ true)
unfolding request_payment get_paid_plan_action
prompt_announced plans plan none h = ground arith
prompt_announced plans plan (some s) h =
    let asked =
      prompt_needs plan.code
        ((is_paid s && (has_status "active" s || is_ending s))
          && not (str_eq s.plan.code plan.code))
        (prompted plan.code s (find (λ p. str_eq p.code plan.code) plans)) h in
    let unlocked : is_unlocked s ≡ true = ground arith in
    let other : str_eq s.plan.code plan.code ≡ false = ground arith in
    rw (unlocked, other) (refl, refl)
