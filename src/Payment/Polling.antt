-- ===== src/Payment/Polling.antt =====
-- Asking for the status of a payment ends with the first answer that settles it.
use corpershub_application.Base.{
  Bool-clash, ◌∙◌, ℕ, suc, [], none, some, refl, arith, List, Bool, ◌∷◌, ◌++◌, ◌+◌, ◌≡◌, true,
  false, map, length, all, if_lem, not,
}
use corpershub_application.Api.Action.{Result, ok, err}
use corpershub_application.Payment.{PaymentStatus, Status, unloaded, load_status, poll, is_pollable}

-- An answer that sets no timer.
abbrev pub is_settling : Result PaymentStatus → Bool
is_settling (ok payment) = not (is_pollable payment)
is_settling (err e) = true

-- The page shows this answer: the payment, or an error.
abbrev pub Shows : Result PaymentStatus → Status → Type 0
Shows (ok payment) status = (status.payment ≡ some payment) × (status.error ≡ none)
Shows (err e) status = status.error ≡ some (unloaded e)

abbrev pub IsSettled : Result PaymentStatus → ℕ → Status → Type 0
IsSettled reply count status =
    Shows reply status
    × (status.timer ≡ false)
    × (status.loading ≡ false)
    × (status.requests ≡ count)

poll_last :
    (reply : Result PaymentStatus) (rest : List (Result PaymentStatus)) (status : Status)
    → is_settling reply ≡ true
    → IsSettled reply (suc status.requests) (poll (reply ∷ rest) status)
unfolding poll load_status
poll_last (ok payment) rest status h =
    let stopped : is_pollable payment ≡ false = ground arith in
    rw stopped ((refl, refl), refl, refl, refl)
poll_last (err e) rest status h = (refl, refl, refl, refl)

counted :
    (reply : Result PaymentStatus) {m n : ℕ} (status : Status)
    → m ≡ n
    → IsSettled reply m status
    → IsSettled reply n status
counted reply status e (a, b, c, d) = (a, b, c, d ∙ e)

-- While the answers are payments that are pending or being processed the page asks again; the first
-- other one, a settled payment or an error, is shown, and the page asks no more: as many requests are
-- sent as there are answers up to that one, whatever would come after it.
pub poll_settles :
    (pending : List PaymentStatus) (reply : Result PaymentStatus)
    (rest : List (Result PaymentStatus)) (status : Status)
    → all is_pollable pending ≡ true
    → is_settling reply ≡ true
    → IsSettled reply
        (length pending + suc status.requests)
        (poll (map ok pending ++ reply ∷ rest) status)
unfolding poll load_status
poll_settles [] reply rest status h k =
    counted reply _ (omega arith) (poll_last reply rest status k)
poll_settles (payment ∷ pending) reply rest status h k =
    let going : is_pollable payment ≡ true = ground arith in
    let later =
      poll_settles pending reply rest (load_status (ok payment) status) (ground arith) k in
    if_lem (λ after. IsSettled reply (length (payment ∷ pending) + suc status.requests) after)
      (is_pollable payment) (λ e. counted reply _ (omega arith) later)
      λ e. absurd (Bool-clash (is_pollable payment) going e)
