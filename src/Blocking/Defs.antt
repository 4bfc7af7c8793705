-- ===== src/Blocking/Defs.antt =====
-- Timeouts, and the loop of a blocking call (kernel/os_internal.h: os_internal_timeout_to_ticks,
-- os_internal_wait_remaining, os_internal_can_block; the loop of os_sem_take).
use ahura_rtos.Shared.{
  ℕ, ◌+◌, ◌-◌, ◌*◌, ◌/◌, Bool, not, ◌&&◌, ◌||◌, Option, none, some, List, [], ◌∷◌, if◌then◌else◌,
  leb, ◌==◌, sub32,
}
use ahura_rtos.Status.{Status, timeout, wait_forever, wait_nothing}
use ahura_rtos.Task.State.{Config, Cpu, Sched}
use ahura_rtos.Task.Wait.{wait_signaled, wait_end}

-- The build's OS_CONFIG_TICK_HZ comes first. The product has 64 bits, which hold it.
unfoldable pub timeout_to_ticks : ℕ → ℕ → ℕ
timeout_to_ticks tick_hz timeout_ms =
    if timeout_ms == wait_forever
    then wait_forever
    else (if tick_hz == 1000
        then timeout_ms
        else (let ticks = (timeout_ms * tick_hz + 999) / 1000 in
            if leb wait_forever ticks then wait_forever - 1 else ticks))

-- OS_TICKS_FROM_MS
unfoldable pub ticks_from_ms : ℕ → ℕ → ℕ
ticks_from_ms tick_hz ms =
    let ticks = (ms * tick_hz + 999) / 1000 in
    if leb wait_forever ticks then wait_forever - 1 else ticks

-- os_internal_wait_remaining, `now` being what os_tick_get returns.
unfoldable pub wait_remaining : ℕ → ℕ → ℕ → ℕ
wait_remaining budget_ticks start_tick now =
    if budget_ticks == wait_forever
    then wait_forever
    else (let elapsed = sub32 now start_tick in
        if leb budget_ticks elapsed then 0 else budget_ticks - elapsed)

abbrev pub can_block : Cpu → Sched → Bool
can_block c s = s.kernel_running && (not c.in_isr && s.port.lock_count c.core == 0)

-- `(timeout_ms == OS_WAIT_NOTHING) || (!os_internal_can_block())`
unfoldable pub nonblocking : Cpu → ℕ → Sched → Bool
nonblocking c timeout_ms s = timeout_ms == wait_nothing || not (can_block c s)

-- The scheduler, os_tick_count, and the object that a call is about.
pub record World (O : Type 0) : Type 0 where
  pub sched : Sched
  pub now : ℕ
  pub object : O

-- The end of a critical section: the call returns, or it has begun to wait.
pub data Verdict : Type 0 where
  done : Status → Verdict
  wait : Verdict

abbrev pub Pause : Type 0 → Type 0
Pause O = World O → World O

module _ (k : Config) (c : Cpu) {O : Type 0} where
  -- What a call does that runs again: after a signal it goes on with what is left of its time, and
  -- otherwise its time is up.
  unfoldable pub try_later : ℕ → ℕ → World O → Verdict × ℕ × World O
  try_later budget_ticks start_tick w =
      if wait_signaled k c w.sched
      then (wait, wait_remaining budget_ticks start_tick w.now, w)
      else (done timeout, 0, record w { sched = wait_end k c w.sched })

module _ {O : Type 0} (pass : ℕ → World O → Verdict × World O)
    (resume : World O → Verdict × ℕ × World O) where
  -- `while (waiting)`, with what the others do in the waits so far. The result is none if the call
  -- still waits.
  unfoldable pub wait_loop : List (Pause O) → ℕ → World O → Option (Status × World O)
  wait_loop [] remaining_ticks w =
      let (verdict, w') = pass remaining_ticks w in
      elim verdict [ done status ↦ some (status, w') | wait ↦ none ]
  wait_loop (pause ∷ pauses) remaining_ticks w =
      let (verdict, w') = pass remaining_ticks w in
      let (verdict', remaining', back) = resume (pause w') in
      let again = wait_loop pauses remaining' back in
      elim verdict [
        | done status ↦ some (status, w')
        | wait ↦ elim verdict' [ done status ↦ some (status, back) | wait ↦ again ]
      ]
