-- ===== src/Inactivity/Invariant.antt =====
-- What holds of the timer whatever happens, and what activity does while the dialog is shown.
use corpershub_application.Base.{
  if◌then◌else◌, ℕ, arith, [], ◌∷◌, true, false, ◌≡◌, List, Bool, ◌<◌, all, ◌⊎◌, and_true, ◌+◌, ◌≤◌,
}
use corpershub_application.Inactivity.{
  Options, Timer, Event, second, activity, extend, logout, set_enabled, step, run, initial,
  warning_seconds, logout_seconds,
}

-- Counters and flags agree: the dialog is shown exactly if the warning was triggered, and then the
-- countdown is what is shown and has not run out; otherwise a running timer has more left than the
-- warning seconds. The interval runs only while the listeners are there.
pub record IsValid (o : Options) (t : Timer) : Type 0 where
  pub dialog : t.is_warning ≡ t.warning_triggered
  pub heard : (t.timer_on ≡ false) ⊎ (t.listening ≡ true)
  pub countdown :
      (t.warning_triggered ≡ false)
      ⊎ ((0 < t.warning_remaining)
          × (t.warning_remaining ≤ o.warning_countdown_seconds)
          × (t.remaining_seconds ≡ t.warning_remaining))
  pub main :
      (t.warning_triggered ≡ true)
      ⊎ ((t.timer_on ≡ false)
          ⊎ ((warning_seconds o < t.main_remaining) × (t.main_remaining ≤ logout_seconds o)))

module _ (o : Options) (order : warning_seconds o < logout_seconds o)
    (some_time : 0 < o.warning_countdown_seconds) where
  step-IsValid : (e : Event) (t : Timer) → IsValid o t → IsValid o (step o e t)
  unfolding step
  step-IsValid second t v = ground arith
  step-IsValid activity t v = ground arith
  step-IsValid extend t v = ground arith
  step-IsValid logout t v = ground arith
  step-IsValid (set_enabled true) t v = ground arith
  step-IsValid (set_enabled false) t v = ground arith

  -- The invariant holds after every sequence of seconds, activity, buttons and sign-ins.
  pub run-IsValid : (events : List Event) (t : Timer) → IsValid o t → IsValid o (run o events t)
  unfolding run
  run-IsValid [] t v = v
  run-IsValid (e ∷ events) t v = run-IsValid events (step o e t) (step-IsValid e t v)

pub initial-IsValid : (o : Options) → IsValid o initial
initial-IsValid o = ground arith

-- Events that are not a click on a button of the dialog and no change of the session.
abbrev pub is_passive : Event → Bool
is_passive second = true
is_passive activity = true
is_passive _ = false

-- The dialog is shown and nobody was signed out yet, or the user was signed out, once.
abbrev pub ShownOrOut : ℕ → Timer → Type 0
ShownOrOut before t =
    ((t.warning_triggered ≡ true) × (t.is_warning ≡ true) × (t.logouts ≡ before))
    ⊎ ((t.timer_on ≡ false) × (t.warning_triggered ≡ false) × (t.logouts ≡ before + 1))

passive_step :
    (o : Options) (before : ℕ) (e : Event) (t : Timer)
    → is_passive e ≡ true
    → ShownOrOut before t
    → ShownOrOut before (step o e t)
unfolding step
passive_step o before second t p h = ground arith
passive_step o before activity t p h = ground arith
passive_step o before extend t p h = cc
passive_step o before logout t p h = cc
passive_step o before (set_enabled b) t p h = cc

-- Once the dialog is shown, neither time nor activity takes it away: until a button is pressed or
-- the session changes it stays, or the countdown has signed the user out, once.
pub dialog_stays :
    (o : Options) (before : ℕ) (events : List Event) (t : Timer)
    → all is_passive events ≡ true
    → ShownOrOut before t
    → ShownOrOut before (run o events t)
unfolding run
dialog_stays o before [] t p h = h
dialog_stays o before (e ∷ events) t p h =
    dialog_stays o before events (step o e t) (and_true (is_passive e) (all is_passive events) p).1
      (passive_step o before e t (and_true (is_passive e) (all is_passive events) p).0 h)

-- Activity, in a valid state: without the dialog all of the time is given back; with it, only the
-- countdown starts again and the dialog stays.
pub activity_restarts :
    (o : Options) (t : Timer)
    → IsValid o t
    → t.listening ≡ true
    → ((step o activity t).remaining_seconds
        ≡ (if t.is_warning then o.warning_countdown_seconds else logout_seconds o))
      × ((step o activity t).is_warning ≡ t.is_warning)
unfolding step
activity_restarts o t v h = (ground arith, ground arith)
