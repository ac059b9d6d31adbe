-- ===== src/Inactivity/Timing.antt =====
-- When an idle user is warned, and when signed out.
use corpershub_application.Base.{
  zero, suc, ℕ, arith, refl, suc, ◌+◌, false, true, ◌<◌, ◌≡◌, ◌-◌, ap, ◌∙◌, ◌≤◌,
}
use corpershub_application.Inactivity.{
  Options, Timer, second, seconds, step, run_effect, warning_seconds, logout_seconds,
}

module _ (o : Options) (t : Timer) where
  -- The timer with `main` seconds left, and the dialog shown with `left` seconds left.
  abbrev counting : ℕ → Timer
  counting main = record t {
    main_remaining = main;
    remaining_seconds = main;
    is_warning = false;
    warning_triggered = false;
    listening = true;
    timer_on = true;
  }

  abbrev alarmed : ℕ → Timer
  alarmed left = record t {
    main_remaining = warning_seconds o;
    remaining_seconds = left;
    warning_remaining = left;
    is_warning = true;
    warning_triggered = true;
    listening = true;
    timer_on = true;
    warnings = t.warnings + 1;
  }

  second_counting :
      (main : ℕ) → warning_seconds o < main → step o second (counting (suc main)) ≡ counting main
  unfolding step
  second_counting main h = ground arith

  second_warns :
      step o second (counting (suc (warning_seconds o))) ≡ alarmed o.warning_countdown_seconds
  unfolding step
  second_warns = ground arith

  second_alarmed : (left : ℕ) → step o second (alarmed (suc (suc left))) ≡ alarmed (suc left)
  unfolding step
  second_alarmed left = ground arith

  seconds-counting :
      (n main : ℕ)
      → main + n ≡ logout_seconds o
      → warning_seconds o < main
      → seconds o n (run_effect o true t) ≡ counting main
  unfolding seconds run_effect
  seconds-counting zero main e h = ground arith
  seconds-counting (suc n) main e h =
      ap (step o second) (seconds-counting n (suc main) (omega arith) (omega arith))
      ∙ second_counting main h

  second_left : (left : ℕ) → 0 < left → step o second (alarmed (suc left)) ≡ alarmed left
  second_left zero h = elim h [ ]
  second_left (suc left) h = second_alarmed left

  seconds-alarmed :
      (n c left : ℕ) → left + n ≡ c → 0 < left → seconds o n (alarmed c) ≡ alarmed left
  unfolding seconds
  seconds-alarmed zero c left e h =
      let same : c ≡ left = omega arith in ap (λ (k : ℕ). alarmed k) same
  seconds-alarmed (suc n) c left e h =
      ap (step o second) (seconds-alarmed n c (suc left) (omega arith) (omega arith))
      ∙ second_left left h

  -- The state once the countdown has run out.
  abbrev signed_out : Timer
  signed_out = record (alarmed 0) {
    remaining_seconds = 0;
    is_warning = false;
    warning_triggered = false;
    timer_on = false;
    logouts = t.logouts + 1;
  }

  second_signs_out : step o second (alarmed 1) ≡ signed_out
  unfolding step
  second_signs_out = ground arith

  seconds-signed_out : (n : ℕ) → seconds o n signed_out ≡ signed_out
  unfolding seconds
  seconds-signed_out zero = refl
  seconds-signed_out (suc n) = ap (step o second) (seconds-signed_out n) ∙ unfold step in refl

seconds-suc :
    (o : Options) (n : ℕ) (t : Timer) → seconds o (suc n) t ≡ step o second (seconds o n t)
unfolding seconds
seconds-suc o n t = refl

pub seconds-add :
    (o : Options) (m n : ℕ) (t : Timer) → seconds o (m + n) t ≡ seconds o m (seconds o n t)
unfolding seconds
seconds-add o zero n t = let e : zero + n ≡ n = omega arith in rw e refl
seconds-add o (suc m) n t =
    let e : suc m + n ≡ suc (m + n) = omega arith in rw e (ap (step o second) (seconds-add o m n t))

module _ (o : Options) (t : Timer) where
  start_to_warning :
      (n : ℕ)
      → n + warning_seconds o ≡ logout_seconds o
      → warning_seconds o < logout_seconds o
      → seconds o n (run_effect o true t) ≡ alarmed o t o.warning_countdown_seconds
  unfolding seconds
  start_to_warning zero e order = absurd (omega arith)
  start_to_warning (suc n) e order =
      ap (step o second)
        (seconds-counting o t n (suc (warning_seconds o)) (omega arith) (omega arith))
      ∙ second_warns o t

  -- The three phases, by the seconds since the start.
  before_warning :
      (n : ℕ)
      → n + warning_seconds o < logout_seconds o
      → seconds o n (run_effect o true t) ≡ counting o t (logout_seconds o - n)
  before_warning n h = seconds-counting o t n (logout_seconds o - n) (omega arith) (omega arith)

  in_warning :
      (n passed : ℕ)
      → warning_seconds o < logout_seconds o
      → n + warning_seconds o ≡ logout_seconds o + passed
      → passed < o.warning_countdown_seconds
      → seconds o n (run_effect o true t) ≡ alarmed o t (o.warning_countdown_seconds - passed)
  in_warning n passed order e h =
      let calm = logout_seconds o - warning_seconds o in
      let split : n ≡ passed + calm = omega arith in
      ap (λ k. seconds o k (run_effect o true t)) split
      ∙ seconds-add o passed calm (run_effect o true t)
      ∙ ap (seconds o passed) (start_to_warning calm (omega arith) order)
      ∙ seconds-alarmed o t passed _ _ (omega arith) (omega arith)

  after_warning :
      (n : ℕ)
      → warning_seconds o < logout_seconds o
      → logout_seconds o + o.warning_countdown_seconds ≤ n + warning_seconds o
      → 0 < o.warning_countdown_seconds
      → seconds o n (run_effect o true t) ≡ signed_out o t
  after_warning n order h c =
      let last = logout_seconds o - warning_seconds o + (o.warning_countdown_seconds - 1) in
      let rest = n - suc last in
      let split : n ≡ rest + suc last = omega arith in
      let shown =
        in_warning last (o.warning_countdown_seconds - 1) order (omega arith) (omega arith) in
      let one : o.warning_countdown_seconds - (o.warning_countdown_seconds - 1) ≡ 1 = omega arith in
      ap (λ k. seconds o k (run_effect o true t)) split
      ∙ seconds-add o rest (suc last) (run_effect o true t)
      ∙ ap (seconds o rest) (
          seconds-suc o last (run_effect o true t)
          ∙ ap (step o second) (shown ∙ ap (λ k. alarmed o t k) one)
          ∙ second_signs_out o t)
      ∙ seconds-signed_out o t rest

module _ (o : Options) (t : Timer) (order : warning_seconds o < logout_seconds o) (n : ℕ) where
  -- An idle user is not warned, and not signed out, while more than the warning seconds are left;
  -- what is shown is the time left.
  pub idle_before_warning :
      n + warning_seconds o < logout_seconds o
      → let t' = seconds o n (run_effect o true t) in
        (t'.is_warning ≡ false)
        × (t'.remaining_seconds + n ≡ logout_seconds o)
        × (t'.warnings ≡ t.warnings)
        × (t'.logouts ≡ t.logouts)
  idle_before_warning h = rw (before_warning o t n h) (refl, omega arith, refl, refl)

  -- An idle user is warned once, and sees the countdown, from the second on in which the time left
  -- comes down to the warning seconds.
  pub idle_warned :
      (passed : ℕ)
      → n + warning_seconds o ≡ logout_seconds o + passed
      → passed < o.warning_countdown_seconds
      → let t' = seconds o n (run_effect o true t) in
        (t'.is_warning ≡ true)
        × (t'.remaining_seconds + passed ≡ o.warning_countdown_seconds)
        × (t'.warnings ≡ t.warnings + 1)
        × (t'.logouts ≡ t.logouts)
  idle_warned passed e h = rw (in_warning o t n passed order e h) (refl, omega arith, refl, refl)

  -- From the second on in which the countdown has run out the user is signed out, exactly once, and
  -- the interval has stopped.
  pub idle_signed_out :
      logout_seconds o + o.warning_countdown_seconds ≤ n + warning_seconds o
      → 0 < o.warning_countdown_seconds
      → let t' = seconds o n (run_effect o true t) in
        (t'.logouts ≡ t.logouts + 1)
        × (t'.timer_on ≡ false)
        × (t'.is_warning ≡ false)
        × (t'.warnings ≡ t.warnings + 1)
  idle_signed_out h c = rw (after_warning o t n order h c) (refl, refl, refl, refl)
