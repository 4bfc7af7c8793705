-- ===== src/Delay/Defs.antt =====
-- os_delay_ms, os_delay_us and what they call in kernel/os_delay.c.
use ahura_rtos.Shared.{
  ℕ, zero, suc, ◌+◌, ◌-◌, ◌*◌, ◌/◌, ◌^◌, Option, none, some, List, [], ◌∷◌, if◌then◌else◌, ltb,
  ◌==◌, sub32, u32_max,
}
use ahura_rtos.Status.{wait_forever}
use ahura_rtos.Task.State.{Config, Cpu}
use ahura_rtos.Task.Wait.{sleep_ticks}
use ahura_rtos.Blocking.{can_block, World, Pause}

-- The port's counter of cycles: its frequency, or 0 if it has none, and what interrupts and other
-- cores do until it has moved on by some cycles.
pub record Counter (O : Type 0) : Type 0 where
  pub hz : ℕ
  pub pass : ℕ → Pause O

-- OS_DELAY_MAX_CYCLE_CHUNK
abbrev pub max_chunk : ℕ
max_chunk = 2 ^ 30

-- The ticks of a delay, rounded up. The product has 64 bits, which hold it.
unfoldable pub ms_to_ticks : ℕ → ℕ → ℕ
ms_to_ticks tick_hz milliseconds =
    let ticks = (milliseconds * tick_hz + 999) / 1000 in
    if ltb u32_max ticks then u32_max else ticks

module _ {O : Type 0} (counter : Counter O) where
  -- The loop of os_delay_cycle_wait, over at most so many chunks.
  unfoldable pub cycle_wait_upto : ℕ → ℕ → World O → World O
  cycle_wait_upto zero cycle_count w = w
  cycle_wait_upto (suc chunks) cycle_count w =
      let chunk = if ltb max_chunk cycle_count then max_chunk else cycle_count in
      let rest = cycle_wait_upto chunks (cycle_count - chunk) (counter.pass chunk w) in
      if cycle_count == 0 then w else rest

  -- os_delay_cycle_wait: all chunks but the last are of the same length.
  unfoldable pub cycle_wait : ℕ → World O → World O
  cycle_wait cycle_count w = cycle_wait_upto (cycle_count / max_chunk + 1) cycle_count w

  -- The busy wait of os_delay_ticks. Without a counter it traps, or does not wait.
  unfoldable pub busy_wait : ℕ → ℕ → World O → World O
  busy_wait tick_hz wait_ticks w =
      if counter.hz == 0 then w else cycle_wait (wait_ticks * counter.hz / tick_hz) w

  -- os_delay_us
  unfoldable pub delay_us : ℕ → World O → World O
  delay_us microseconds w =
      if microseconds == 0
      then w
      else (if counter.hz == 0
          then w
          else cycle_wait ((microseconds * counter.hz + 999999) / 1000000) w)

module _ (k : Config) (c : Cpu) {O : Type 0} where
  -- The loop of os_delay_ticks, with what the others do in the sleeps so far. The result is none if
  -- the task still sleeps.
  unfoldable pub delay_loop : ℕ → ℕ → List (Pause O) → ℕ → World O → Option (World O)
  delay_loop start_tick wait_ticks [] elapsed w = if ltb elapsed wait_ticks then none else some w
  delay_loop start_tick wait_ticks (pause ∷ pauses) elapsed w =
      let asleep : World O = record w { sched = sleep_ticks k c (wait_ticks - elapsed) w.sched } in
      let w' = pause asleep in
      let rest = delay_loop start_tick wait_ticks pauses (sub32 w'.now start_tick) w' in
      if ltb elapsed wait_ticks then rest else some w

  -- os_delay_forever, with what the others do in the sleeps so far.
  unfoldable pub delay_forever : List (Pause O) → World O → Option (World O)
  delay_forever [] w = if can_block c w.sched then none else some w
  delay_forever (pause ∷ pauses) w =
      let asleep : World O = record w { sched = sleep_ticks k c wait_forever w.sched } in
      let rest = delay_forever pauses (pause asleep) in if can_block c w.sched then rest else some w

  module _ (counter : Counter O) (tick_hz : ℕ) where
    -- os_delay_ticks
    unfoldable pub delay_ticks : ℕ → List (Pause O) → World O → Option (World O)
    delay_ticks ticks pauses w =
        let wait_ticks = if ticks == wait_forever then ticks - 1 else ticks in
        let slept = delay_loop w.now wait_ticks pauses 0 w in
        if ticks == 0
        then some w
        else (if can_block c w.sched then slept else some (busy_wait counter tick_hz wait_ticks w))

    -- os_delay_ms
    unfoldable pub delay_ms : ℕ → List (Pause O) → World O → Option (World O)
    delay_ms milliseconds pauses w =
        if milliseconds == wait_forever
        then delay_forever pauses w
        else delay_ticks (ms_to_ticks tick_hz milliseconds) pauses w
