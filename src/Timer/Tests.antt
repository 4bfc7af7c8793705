-- ===== src/Timer/Tests.antt =====
-- The theorems on the timers of kernel/os_timer.c at one registry: timers 1 and 2 run, timer 3 is
-- paused.
use ahura_rtos.Shared.{
  ℕ, ◌≡◌, refl, arith, true, false, ◌||◌, none, some, [], ◌∷◌, if◌then◌else◌, ◌==◌,
}
use ahura_rtos.Status.{ok}
use ahura_rtos.Timer.State.{Timers, one_shot, periodic, is_valid}
use ahura_rtos.Timer.Calls.{arm_timer, start, pause, pass_ticks}
use ahura_rtos.Timer.Registry.{IsValid, due_in}
use ahura_rtos.Timer.Life.{arm_timer-due, pause-left, start-pause}
use ahura_rtos.Timer.Expiry.{pass_ticks-due, due_later, falls_due}

abbrev pub timers : Timers
timers = record {
  is_self = λ r. true;
  period_ticks = λ r. 10;
  remaining_ticks = λ r. if r == 1 then 3 else (if r == 2 then 4 else 6);
  mode = λ r. if r == 1 then periodic else one_shot;
  active = λ r. if r == 1 then true else r == 2;
  paused = λ r. r == 3;
  queued = λ r. false;
  callback = λ r. some 100;
  context = λ r. 0;
  value = λ r. 0;
  pool = λ r. 0;
  pool_is_self = λ p. false;
  pool_entries = λ p. none;
  pool_count = λ p. 0;
  pool_delay = λ p. 0;
  pool_callback = λ p. none;
  free_list = λ p. [];
  pool_ready = λ p. false;
  running_list = 1 ∷ 2 ∷ [];
  ready_list = [];
  task = none;
}

pub timers-IsValid : IsValid timers
timers-IsValid = record {
  linked = λ r. ground arith;
  noted = λ r. refl;
  rests = λ r e. ground (arith, e);
  left = λ r e. ground (arith, e);
  periods = λ r. omega arith;
  finite = omega arith;
}

timer-is_valid : is_valid timers 1 ≡ true
unfolding is_valid
timer-is_valid = refl

arm_timer-due_example :
    IsValid (arm_timer 3 false 5 6 timers)
    × ((q : ℕ)
        → due_in (arm_timer 3 false 5 6 timers) q ≡ (if 3 == q then some 6 else due_in timers q))
arm_timer-due_example = arm_timer-due 3 false 5 6 timers timers-IsValid

pause-left_example :
    let (status, t') = pause 1 timers in
    (status ≡ ok)
    × (IsValid t'
        × ((t'.paused 1 ≡ true)
            × ((due_in timers 1 ≡ some (t'.remaining_ticks 1))
                × ((q : ℕ) → due_in t' q ≡ (if 1 == q then none else due_in timers q)))))
pause-left_example = pause-left 1 timers timers-IsValid timer-is_valid refl

start-pause_example :
    ((start 1 5 6 (pause 1 timers).1).0 ≡ ok)
    × ((q : ℕ) → due_in (start 1 5 6 (pause 1 timers).1).1 q ≡ due_in timers q)
start-pause_example =
    start-pause 1 5 6 timers timers-IsValid timer-is_valid refl refl (λ e. omega (arith, e))

-- After four ticks timer 1 is due again in ten, and both are queued.
pass_ticks-due_example :
    let t' = (pass_ticks 4 timers).1 in
    IsValid t'
    × ((q : ℕ)
        → (due_in t' q ≡ due_later timers 4 q) × (t'.queued q ≡ falls_due timers 4 q || false))
pass_ticks-due_example = pass_ticks-due 4 timers timers-IsValid
