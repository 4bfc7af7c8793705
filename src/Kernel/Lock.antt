-- ===== src/Kernel/Lock.antt =====
-- What the scheduler lock of kernel/os_kernel.c does to requests for a context switch.
use ahura_rtos.Shared.{
  ℕ, ◌+◌, ◌-◌, ◌^◌, ◌<◌, ◌≡◌, refl, Bool, true, false, ◌||◌, Option, none, some, List, [], ◌∷◌,
  arith, if◌then◌else◌, ◌==◌, leb, length, update, Bool-cases, inl, inr,
}
use ahura_rtos.Task.State.{Config, Cpu, Sched, is_running, switch_on}
use ahura_rtos.Task.Port.{switch_request, port_switch}
use ahura_rtos.Task.Dispatch.{stack_save_current, save_task}
use ahura_rtos.Kernel.Defs.{lock, unlock, unlock_last}

-- What happens on a task's core: os_kernel_lock, os_kernel_unlock, a request for a switch, by a call
-- or an interrupt, or the handler of a switch that was requested before, which saves the task.
pub data Op : Type 0 where
  locks unlocks asks : Op
  saves : ℕ → Op

module _ (k : Config) (c : Cpu) where
  abbrev step : Op → Sched → Sched
  step locks s = lock c s
  step unlocks s = unlock c s
  step asks s = switch_request k c s
  step (saves stack_ptr) s = stack_save_current k c stack_ptr s

  abbrev pub run : List Op → Sched → Sched
  run [] s = s
  run (o ∷ os) s = run os (step o s)

-- How deep the lock is nested after some operations, if it is held throughout.
abbrev pub depth_after : ℕ → List Op → Option ℕ
depth_after d [] = some d
depth_after d (locks ∷ os) = depth_after (d + 1) os
depth_after d (unlocks ∷ os) = if leb d 1 then none else depth_after (d - 1) os
depth_after d (asks ∷ os) = depth_after d os
depth_after d (saves _ ∷ os) = depth_after d os

abbrev pub asked : List Op → Bool
asked [] = false
asked (asks ∷ os) = true
asked (saves _ ∷ os) = true
asked (_ ∷ os) = asked os

-- No request is made while the lock is held, and none is lost.
record Held (c : Cpu) (pending : Bool) (depth : ℕ) (s t : Sched) : Type 0 where
  count : t.port.lock_count c.core ≡ depth
  requests : t.port.requests ≡ s.port.requests
  owed : t.port.switch_pending c.core ≡ pending
  running : t.kernel_running ≡ s.kernel_running

module _ (k : Config) (core : ℕ) where
  abbrev here : Cpu
  here = record { core = core; in_isr = false }

  abbrev pended : Sched → Sched
  pended s = record s {
    port = record s.port { switch_pending = update s.port.switch_pending core true };
  }

  switch_request-held :
      (s : Sched) → (s.port.lock_count core == 0) ≡ false → switch_request k here s ≡ pended s
  unfolding switch_request port_switch
  switch_request-held s held = rw (switch_request, port_switch, held) refl

  abbrev lowered : Sched → Sched
  lowered s = record s {
    port = record s.port {
      lock_count = update s.port.lock_count core (s.port.lock_count core - 1);
    };
  }

  unlock-held : (s : Sched) → 1 < s.port.lock_count core → unlock here s ≡ lowered s
  unfolding unlock
  unlock-held s nested =
      let held : (s.port.lock_count core == 0) ≡ false = ground (arith, nested) in
      let deeper : ((lowered s).port.lock_count core == 0) ≡ false = ground (arith, nested) in
      rw (unlock, held, deeper) refl

  abbrev saved : ℕ → ℕ → Sched → Sched
  saved r stack_ptr s = record (pended s) { stack_ptr = update s.stack_ptr r stack_ptr }

  save-held :
      (s : Sched) (r stack_ptr : ℕ)
      → s.current core ≡ some r
      → is_running (s.state r) ≡ true
      → (s.port.lock_count core == 0) ≡ false
      → stack_save_current k here stack_ptr s ≡ saved r stack_ptr s
  unfolding stack_save_current save_task
  save-held s r stack_ptr on runs held = rw (stack_save_current, on, save_task, runs, held) refl

  run-Held :
      (ops : List Op) (s : Sched) (d d' : ℕ)
      → s.port.lock_count core ≡ d
      → 0 < d
      → d + length ops < 2 ^ 32
      → depth_after d ops ≡ some d'
      → (r : ℕ) → s.current core ≡ some r
      → is_running (s.state r) ≡ true
      → Held here (s.port.switch_pending core || asked ops) d' s (run k here ops s)
  unfolding lock unlock switch_request port_switch
  run-Held [] s d d' count some_lock word e r on active = record {
    count = ground (arith, count, e);
    requests = refl;
    owed = ground arith;
    running = refl;
  }
  run-Held (locks ∷ ops) s d d' count some_lock word e r on active =
      let h =
        run-Held ops (lock here s) (d + 1) d' (ground (arith, count, word)) (omega arith)
          (omega (arith, word)) e r on active in
      record { count = h.count; requests = h.requests; owed = h.owed; running = h.running }
  run-Held (unlocks ∷ ops) s d d' count some_lock word e r on active = elim (Bool-cases (leb d 1)) [
    | inl last ↦ ground (arith, e, last)
    | inr nested ↦
        let e' : depth_after (d - 1) ops ≡ some d' = ground (arith, e, nested) in
        let h =
          run-Held ops (lowered s) (d - 1) d' (ground (arith, count)) (ground (arith, nested))
            (omega (arith, word)) e' r on active in
        rw (unlock-held s (ground (arith, nested, count)))
          (record { count = h.count; requests = h.requests; owed = h.owed; running = h.running })
  ]
  run-Held (asks ∷ ops) s d d' count some_lock word e r on active =
      let h = run-Held ops (pended s) d d' count some_lock (omega (arith, word)) e r on active in
      rw (switch_request-held s (ground (arith, count, some_lock))) (record {
        count = h.count;
        requests = h.requests;
        owed = ground (arith, h.owed);
        running = h.running;
      })
  run-Held (saves stack_ptr ∷ ops) s d d' count some_lock word e r on active =
      let h =
        run-Held ops (saved r stack_ptr s) d d' count some_lock (omega (arith, word)) e r on
          active in
      rw (save-held s r stack_ptr on active (ground (arith, count, some_lock))) (record {
        count = h.count;
        requests = h.requests;
        owed = ground (arith, h.owed);
        running = h.running;
      })

  -- The last unlock makes the request that waited for it.
  unlock-one :
      (u : Sched)
      → u.port.lock_count core ≡ 1
      → u.kernel_running ≡ true
      → let t = unlock here u in
        (t.port.requests ≡ (
          if u.port.switch_pending core then switch_on core ∷ u.port.requests else u.port.requests))
        × ((t.port.lock_count core ≡ 0) × (t.port.switch_pending core ≡ false))
  unfolding unlock unlock_last
  unlock-one u one runs =
      let held : (u.port.lock_count core == 0) ≡ false = ground (arith, one) in
      let free : ((lowered u).port.lock_count core == 0) ≡ true = ground (arith, one) in
      elim (Bool-cases (u.port.switch_pending core)) [
        | inl owed ↦
            rw (unlock, held, free, unlock_last, owed, runs)
              (refl, (ground (arith, one), ground arith))
        | inr settled ↦
            rw (unlock, held, free, unlock_last, settled)
              (refl, (ground (arith, one), ground arith))
      ]

  -- When a running task takes the scheduler lock, not yet held, on a running kernel with no switch
  -- owed, and undoes it after any sequence of nested locks, unlocks, requests for a switch and
  -- handlers of earlier requests, in which the lock stays held: no request reaches the port
  -- meanwhile. At the end one does exactly if there was a request or a handler among them, and the
  -- lock is as it was.
  pub lock-unlock :
      (ops : List Op) (s : Sched) (r : ℕ)
      → s.current core ≡ some r
      → is_running (s.state r) ≡ true
      → s.port.lock_count core ≡ 0
      → s.port.switch_pending core ≡ false
      → s.kernel_running ≡ true
      → length ops < 2 ^ 31
      → depth_after 1 ops ≡ some 1
      → let inside = run k here ops (lock here s) in
        let t = unlock here inside in
        (inside.port.requests ≡ s.port.requests)
        × ((t.port.requests
              ≡ (if asked ops then switch_on core ∷ s.port.requests else s.port.requests))
            × ((t.port.lock_count core ≡ 0) × (t.port.switch_pending core ≡ false)))
  unfolding lock
  lock-unlock ops s r on active free settled runs short stays =
      let h =
        run-Held ops (lock here s) 1 1 (ground (arith, free)) (omega arith) (omega (arith, short))
          stays r on active in
      let (made, (gone, settled')) =
        unlock-one (run k here ops (lock here s)) h.count (ground (arith, h.running, runs)) in
      (h.requests, (ground (arith, made, h.owed, h.requests, settled), (gone, settled')))
