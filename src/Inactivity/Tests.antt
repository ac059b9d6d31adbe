-- ===== src/Inactivity/Tests.antt =====
-- Runs of the inactivity timer, and the theorems at concrete inputs.
use corpershub_application.Base.{refl, true, false, arith, ◌≡◌, List, ◌∷◌, ◌+◌, [], inl}
use corpershub_application.Inactivity.{
  Timer, initial, default_options, run, seconds, second, activity, extend, logout, set_enabled,
  step, run_effect, Options, Event,
}
use corpershub_application.Inactivity.Timing.{idle_warned, idle_signed_out}
use corpershub_application.Inactivity.Invariant.{
  IsValid, run-IsValid, initial-IsValid, dialog_stays, ShownOrOut,
}

-- With a warning at one minute left of two and a countdown of two seconds.
abbrev short : Options
short = record { warning_minutes = 1; warning_countdown_seconds = 2; logout_minutes = 2 }

abbrev signed_in : Timer
signed_in = run short (set_enabled true ∷ []) initial

short_run :
    ((seconds short 59 signed_in).is_warning ≡ false)
    × ((seconds short 60 signed_in).is_warning ≡ true)
    × ((seconds short 62 signed_in).logouts ≡ 1)
    × ((seconds short 99 signed_in).logouts ≡ 1)
    × ((step short extend (seconds short 61 signed_in)).remaining_seconds ≡ 120)
unfolding run seconds
short_run = (refl, refl, refl, refl, refl)

-- With the defaults of the hook the dialog is shown after five minutes.
idle_warned_example :
    let t' = seconds default_options 300 (run_effect default_options true initial) in
    (t'.is_warning ≡ true)
    × (t'.remaining_seconds + 0 ≡ 120)
    × (t'.warnings ≡ 0 + 1)
    × (t'.logouts ≡ 0)
idle_warned_example =
    idle_warned default_options initial (omega arith) 300 0 (omega arith) (omega arith)

-- With the defaults of the hook an idle user is signed out after seven minutes.
idle_signed_out_example :
    let t' = seconds default_options 420 (run_effect default_options true initial) in
    (t'.logouts ≡ 0 + 1) × (t'.timer_on ≡ false) × (t'.is_warning ≡ false) × (t'.warnings ≡ 0 + 1)
idle_signed_out_example =
    idle_signed_out default_options initial (omega arith) 420 (omega arith) (omega arith)

abbrev visit : List Event
visit = set_enabled true ∷ second ∷ activity ∷ second ∷ logout ∷ []

run-IsValid_example : IsValid default_options (run default_options visit initial)
run-IsValid_example =
    run-IsValid default_options (omega arith) (omega arith) visit initial
      (initial-IsValid default_options)

abbrev alarm : Timer
alarm = record initial {
  is_warning = true;
  warning_triggered = true;
  warning_remaining = 5;
  remaining_seconds = 5;
  timer_on = true;
  listening = true;
}

dialog_stays_example : ShownOrOut 0 (run default_options (activity ∷ second ∷ activity ∷ []) alarm)
dialog_stays_example =
    dialog_stays default_options 0 (activity ∷ second ∷ activity ∷ []) alarm refl
      (inl (refl, refl, refl))
