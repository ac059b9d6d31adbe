-- ===== src/Billing/Tests.antt =====
-- Concrete subscriptions, and the properties applied to them.
use corpershub_application.Base.{refl, none, some, ◌∷◌, [], ◌≡◌, true}
use corpershub_application.Billing.{
  BillingPlan, request_payment, resolve_subscription_status_snapshot, browse_unlocked,
  resolve_current_subscription, has_paid_corper_access, BillingSubscription,
}
use corpershub_application.Billing.Choice.{
  resolve_current_subscription-IsCurrent, paid_unlocks, IsCurrent, is_prompt,
}

abbrev quarter : BillingPlan
quarter = record { code = "three-months"; name = "Corper 3 Months"; amount_naira = 3000 }

abbrev year : BillingPlan
year = record { code = "twelve-months"; name = "Corper 12 Months"; amount_naira = 9000 }

abbrev old : BillingSubscription
old = record { id = "s1"; status = "expired"; ends_at = some "2025-12-01"; plan = quarter }

abbrev ending : BillingSubscription
ending = record { id = "s2"; status = "cancelled"; ends_at = some "2026-06-01"; plan = quarter }

abbrev running : BillingSubscription
running = record { id = "s3"; status = "active"; ends_at = some "2026-12-01"; plan = year }

current_test : resolve_current_subscription (old ∷ ending ∷ running ∷ []) ≡ some running
unfolding resolve_current_subscription
current_test = refl

snapshot_test :
    resolve_subscription_status_snapshot (record ending { ends_at = none } ∷ old ∷ []) ≡ some old
unfolding resolve_subscription_status_snapshot
snapshot_test = refl

paid : has_paid_corper_access (old ∷ ending ∷ []) ≡ true
unfolding has_paid_corper_access
paid = refl

asked : is_prompt (request_payment (quarter ∷ year ∷ []) (some running) quarter.code) ≡ true
unfolding request_payment
asked = refl

resolve_current_subscription-IsCurrent_example :
    IsCurrent
      (old ∷ ending ∷ running ∷ [])
      (resolve_current_subscription (old ∷ ending ∷ running ∷ []))
resolve_current_subscription-IsCurrent_example =
    resolve_current_subscription-IsCurrent (old ∷ ending ∷ running ∷ [])

paid_unlocks_example : browse_unlocked (resolve_current_subscription (old ∷ ending ∷ [])) ≡ true
paid_unlocks_example = paid_unlocks (old ∷ ending ∷ []) paid
