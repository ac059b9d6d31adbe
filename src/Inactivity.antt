-- ===== src/Inactivity.antt =====
-- web/src/hooks/use-inactivity-timeout.ts: the timer that warns an idle user and signs the user out.
pub mod Timing
pub mod Invariant
mod Tests
use corpershub_application.Base.{
  zero, suc, [], ◌∷◌, ℕ, if◌then◌else◌, ◌+◌, List, true, Bool, suc, ◌*◌, false, not, ◌∷◌, ◌-◌, leb,
}

-- The options of the hook. Minutes are whole numbers, as at its one call.
pub record Options : Type 0 where
  pub warning_minutes : ℕ
  pub warning_countdown_seconds : ℕ
  pub logout_minutes : ℕ

abbrev pub default_options : Options
default_options = record {
  warning_minutes = 25;
  warning_countdown_seconds = 120;
  logout_minutes = 30;
}

abbrev pub warning_seconds : Options → ℕ
warning_seconds o = o.warning_minutes * 60

abbrev pub logout_seconds : Options → ℕ
logout_seconds o = o.logout_minutes * 60

-- The two states and the refs of the hook, whether the interval runs and the listeners are there,
-- and how often the callbacks `onWarning` and `onLogout` were called.
pub record Timer : Type 0 where
  pub remaining_seconds : ℕ
  pub is_warning : Bool
  pub main_remaining : ℕ
  pub warning_remaining : ℕ
  pub warning_triggered : Bool
  pub timer_on : Bool
  pub listening : Bool
  pub warnings : ℕ
  pub logouts : ℕ

abbrev pub initial : Timer
initial = record {
  remaining_seconds = 0;
  is_warning = false;
  main_remaining = 0;
  warning_remaining = 0;
  warning_triggered = false;
  timer_on = false;
  listening = false;
  warnings = 0;
  logouts = 0;
}

unfoldable pub clear_timers : Timer → Timer
clear_timers t = record t { timer_on = false }

unfoldable pub stop : Timer → Timer
unfolding clear_timers
stop t = record (clear_timers t) {
  remaining_seconds = 0;
  is_warning = false;
  warning_triggered = false;
}

unfoldable pub logout_now : Timer → Timer
unfolding stop
logout_now t = record (stop t) { logouts = t.logouts + 1 }

unfoldable pub extend_session : Options → Timer → Timer
extend_session o t = record t {
  main_remaining = logout_seconds o;
  remaining_seconds = logout_seconds o;
  is_warning = false;
  warning_triggered = false;
}

unfoldable pub start_warning_countdown : Options → Timer → Timer
start_warning_countdown o t = record t {
  is_warning = true;
  warning_remaining = o.warning_countdown_seconds;
  remaining_seconds = o.warning_countdown_seconds;
  warnings = t.warnings + 1;
}

unfoldable pub handle_activity : Options → Timer → Timer
unfolding extend_session
handle_activity o t =
    if t.warning_triggered
    then record t {
      warning_remaining = o.warning_countdown_seconds;
      remaining_seconds = o.warning_countdown_seconds;
    }
    else extend_session o t

-- The callback of the interval. A counter that is 0 already stays 0 here where the source goes to
-- -1: both pass the test that follows, and nothing reads the counter before it is set again.
unfoldable pub count_main : Options → Timer → Timer
unfolding start_warning_countdown
count_main o t =
    let main = t.main_remaining - 1 in
    if leb main (warning_seconds o)
    then start_warning_countdown o (record t { main_remaining = main; warning_triggered = true })
    else record t { main_remaining = main; remaining_seconds = main }

unfoldable pub count_warning : Timer → Timer
unfolding logout_now
count_warning t =
    let left = t.warning_remaining - 1 in
    let counted = record t { warning_remaining = left; remaining_seconds = left } in
    if leb left 0 then logout_now counted else counted

unfoldable pub on_interval : Options → Timer → Timer
unfolding count_main count_warning
on_interval o t = if not t.warning_triggered then count_main o t else count_warning t

-- The effect: with `enabled` it sets the counters and starts the interval, without it stops.
unfoldable pub run_effect : Options → Bool → Timer → Timer
unfolding stop
run_effect o false t = stop t
run_effect o true t = record t {
  main_remaining = logout_seconds o;
  remaining_seconds = logout_seconds o;
  is_warning = false;
  warning_triggered = false;
  listening = true;
  timer_on = true;
}

-- What the effect returned: it runs before the next effect.
unfoldable pub clean_up : Timer → Timer
unfolding clear_timers
clean_up t = record (clear_timers t) { listening = false }

pub data Event : Type 0 where
  second activity extend logout : Event
  set_enabled : Bool → Event

-- A second is seen while the interval runs, and activity while the listeners are there; the two
-- buttons of the dialog call `extendSession` and `logoutNow`.
unfoldable pub step : Options → Event → Timer → Timer
unfolding on_interval handle_activity extend_session logout_now run_effect clean_up
step o second t = if t.timer_on then on_interval o t else t
step o activity t = if t.listening then handle_activity o t else t
step o extend t = extend_session o t
step o logout t = logout_now t
step o (set_enabled enabled) t = run_effect o enabled (clean_up t)

unfoldable pub run : Options → List Event → Timer → Timer
unfolding step
run o [] t = t
run o (e ∷ events) t = run o events (step o e t)

-- `n` seconds with nothing else happening.
unfoldable pub seconds : Options → ℕ → Timer → Timer
unfolding step
seconds o zero t = t
seconds o (suc n) t = step o second (seconds o n t)
