-- ===== src/Delay/Lasts.antt =====
-- A delay lasts as long as it should, and ends then (kernel/os_delay.c).
use ahura_rtos.Shared.{
  ℕ, ◌+◌, ◌-◌, ◌*◌, ◌/◌, ◌%◌, ◌≤◌, ◌<◌, ◌≡◌, refl, ap, ◌∙◌, Option, some, List, [], ◌∷◌, ◌++◌,
  arith, true, false, if◌then◌else◌, ltb, ◌==◌, sub32, u32_mod, u32_max, Bool-cases, inl, inr,
}
use Prim.Native.Nat.{min}
use ahura_rtos.Status.{wait_forever}
use ahura_rtos.Task.State.{Config, Cpu}
use ahura_rtos.Task.Wait.{sleep_ticks}
use ahura_rtos.Blocking.{can_block, World, Pause}
use ahura_rtos.Blocking.Loop.{AllLead}
use ahura_rtos.Blocking.Ends.{Outlasts, sleep_ticks-Timed}
use ahura_rtos.Delay.Defs.{Counter, ms_to_ticks, delay_loop, delay_ticks, delay_ms}

-- The call has returned, and its ticks have passed by the clock.
abbrev pub Lasted : {O : Type 0} → ℕ → ℕ → Option (World O) → Type 0
Lasted {O} start wait_ticks o = (w : World O) × ((o ≡ some w) × (wait_ticks ≤ sub32 w.now start))

elapsed_lem :
    (start elapsed : ℕ)
    → start < u32_mod
    → elapsed < u32_mod
    → sub32 ((start + elapsed) % u32_mod) start ≡ elapsed
elapsed_lem start elapsed word small = omega arith

module _ (k : Config) (c : Cpu) {O : Type 0} (start wait_ticks : ℕ) (word : start < u32_mod) where
  ended :
      (pauses : List (Pause O)) (w : World O)
      → ltb (sub32 w.now start) wait_ticks ≡ false
      → Lasted start wait_ticks (delay_loop k c start wait_ticks pauses (sub32 w.now start) w)
  unfolding delay_loop
  ended [] w over = (w, (rw (delay_loop, over) refl, ground (arith, over)))
  ended (pause ∷ pauses) w over = (w, (rw (delay_loop, over) refl, ground (arith, over)))

  loop-Lasted :
      (early : List (Pause O)) (late : Pause O) (rest : List (Pause O)) (w : World O)
      → wait_ticks < wait_forever
      → can_block c w.sched ≡ true
      → AllLead (λ v. Unit) (λ v. can_block c v.sched ≡ true) early
      → Outlasts k c wait_ticks start late
      → Lasted start wait_ticks
          (delay_loop k c start wait_ticks (early ++ late ∷ rest) (sub32 w.now start) w)
  unfolding delay_loop
  loop-Lasted [] late rest w finite able again long =
      elim (Bool-cases (ltb (sub32 w.now start) wait_ticks)) [
        | inl short ↦
            let asleep : World O = record w {
              sched = sleep_ticks k c (wait_ticks - sub32 w.now start) w.sched;
            } in
            let (elapsed, (over, (small, now))) = long asleep (
              sleep_ticks-Timed k c (wait_ticks - sub32 w.now start) w.sched (ground (arith, short))
                (omega (arith, finite)) able) in
            let passed : sub32 (late asleep).now start ≡ elapsed =
              ap (λ t. sub32 t start) now ∙ elapsed_lem start elapsed word small in
            rw (delay_loop, short) (ended rest (late asleep) (ground (arith, passed, over)))
        | inr over ↦ ended (late ∷ rest) w over
      ]
  loop-Lasted (pause ∷ early) late rest w finite able again long =
      elim (Bool-cases (ltb (sub32 w.now start) wait_ticks)) [
        | inl short ↦
            let asleep : World O = record w {
              sched = sleep_ticks k c (wait_ticks - sub32 w.now start) w.sched;
            } in
            rw (delay_loop, short)
              (loop-Lasted early late rest (pause asleep) finite (again.0 asleep tt) again.1 long)
        | inr over ↦ ended (pause ∷ early ++ late ∷ rest) w over
      ]

-- The ticks that a delay has to last: rounded up, and at most two less than 2 ^ 32.
abbrev pub owed : ℕ → ℕ → ℕ
owed tick_hz milliseconds = min ((milliseconds * tick_hz + 999) / 1000) (wait_forever - 1)

waited_lem :
    (raw : ℕ)
    → (let ticks = if ltb u32_max raw then u32_max else raw in
        (if ticks == wait_forever then ticks - 1 else ticks) ≡ min raw (wait_forever - 1))
waited_lem raw = ground arith

nothing_owed :
    (raw : ℕ)
    → ((if ltb u32_max raw then u32_max else raw) == 0) ≡ true
    → min raw (wait_forever - 1) ≡ 0
nothing_owed raw e = ground (arith, e)

-- os_delay_ms, for a number of milliseconds other than OS_WAIT_FOREVER and a task that may block,
-- now and whenever it runs again, ends, provided that one of its sleeps lasts until its ticks are
-- used up, if it puts the task among the sleepers; of a sleep without a deadline nothing is
-- assumed. When it ends, at least those ticks have passed since the call, over the wrap of the tick
-- counter too.
pub delay_ms-Lasted :
    (k : Config) (c : Cpu) {O : Type 0} (counter : Counter O) (tick_hz milliseconds : ℕ)
    (early : List (Pause O)) (late : Pause O) (rest : List (Pause O)) (w : World O)
    → milliseconds < wait_forever
    → w.now < u32_mod
    → can_block c w.sched ≡ true
    → AllLead (λ v. Unit) (λ v. can_block c v.sched ≡ true) early
    → Outlasts k c (owed tick_hz milliseconds) w.now late
    → Lasted w.now
        (owed tick_hz milliseconds)
        (delay_ms k c counter tick_hz milliseconds (early ++ late ∷ rest) w)
unfolding delay_ms delay_ticks ms_to_ticks
delay_ms-Lasted k c counter tick_hz milliseconds early late rest w finite word able again long =
    let raw = (milliseconds * tick_hz + 999) / 1000 in
    let ticks = if ltb u32_max raw then u32_max else raw in
    let at_first : sub32 w.now w.now ≡ 0 = omega arith in
    let ends : (milliseconds == wait_forever) ≡ false = ground (arith, finite) in
    elim (Bool-cases (ticks == 0)) [
      | inl nothing ↦
          let none_owed = nothing_owed raw nothing in
          rw (ends, nothing) (w, (refl, omega (arith, none_owed)))
      | inr something ↦
          let lasted =
            loop-Lasted k c w.now (owed tick_hz milliseconds) word early late rest w (omega arith)
              able again long in
          rw (ends, something, able, waited_lem raw) (rw at_first at lasted)
    ]
