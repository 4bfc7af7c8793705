-- ===== src/Task/Consistent/Switch.antt =====
-- os_task_stack_save_current and os_task_create_any of kernel/os_task.c keep the lists consistent.
use ahura_rtos.Shared.{
  ℕ, ◌≡◌, refl, subst, Bool, true, false, not, ◌&&◌, none, some, arith, if◌then◌else◌, ◌==◌, update,
  count, Bool-cases, Option-cases, inl, inr,
}
use ahura_rtos.Delta.Span.{span-update}
use ahura_rtos.Task.State.{
  TaskState, is_running, is_inactive, Config, Cpu, Sched, in_table, idle_tcb,
}
use ahura_rtos.Task.Queues.{make_ready}
use ahura_rtos.Task.Wait.{current_task}
use ahura_rtos.Task.Dispatch.{save_task, stack_save_current}
use ahura_rtos.Task.Life.{TaskConfig, claim_slot, create_claim, free_slot, handle_taken}
use ahura_rtos.Task.Registry.{free_slot-Found}
use ahura_rtos.Task.Consistent.Defs.{IsConsistent, nobody}
use ahura_rtos.Task.Consistent.Moves.{make_ready-IsConsistent}
use ahura_rtos.Task.Consistent.Waiters.{Descending-update}
use ahura_rtos.Task.Consistent.Priority.{update-update_back}

module _ (k : Config) (c : Cpu) (s : Sched) (r : ℕ) (h : IsConsistent k nobody s) where
  -- A running task is in no list.
  module _ (runs : is_running (s.state r) ≡ true) where
    running-IsConsistent : IsConsistent k (update nobody r true) s
    running-IsConsistent = record {
      ready = record {
        listed = λ q p. ground (arith, runs, h.ready.listed q p);
        bit_set = h.ready.bit_set;
      };
      delayed = record {
        listed = λ q. ground (arith, runs, h.delayed.listed q);
        finite = h.delayed.finite;
      };
      waiting = h.waiting;
    }

    running_waits_not : s.wait_list r ≡ none
    running_waits_not = elim (Option-cases (s.wait_list r)) [
      | inl free ↦ free
      | inr (l, waits) ↦ ground (arith, runs, h.waiting.blocked_only r l waits)
    ]

    preempted-IsConsistent : in_table k r ≡ true → IsConsistent k nobody (make_ready r s)
    preempted-IsConsistent inside =
        subst (λ e. IsConsistent k e (make_ready r s)) (update-update_back nobody r refl)
          (make_ready-IsConsistent k (update nobody r true) r s inside (ground arith)
            running_waits_not running-IsConsistent)

  rested-IsConsistent :
      is_running (s.state r) ≡ true
      → in_table k r ≡ false
      → IsConsistent k nobody (record s { state = update s.state r TaskState.ready })
  rested-IsConsistent runs outside = record {
    ready = record {
      listed = λ q p. ground (arith, outside, h.ready.listed q p);
      bit_set = h.ready.bit_set;
    };
    delayed = record {
      listed = λ q. ground (arith, outside, h.delayed.listed q);
      finite = h.delayed.finite;
    };
    waiting = record {
      listed = h.waiting.listed;
      blocked_only = λ q l e. ground (arith, runs, h.waiting.blocked_only q l e);
      inside = h.waiting.inside;
      sorted = h.waiting.sorted;
    };
  }

  vacant_waits_not : is_inactive (s.state r) ≡ true → (l : ℕ) → count r (s.waiters l) ≡ 0
  vacant_waits_not vacant l =
      ground (arith, vacant, h.waiting.listed r l, h.waiting.blocked_only r l)

  -- A slot that is free is in no list, and its next task is suspended at first.
  claim_slot-IsConsistent :
      (config : TaskConfig) (stack_ptr : ℕ) (system_task : Bool)
      → is_inactive (s.state r) ≡ true
      → IsConsistent k nobody (claim_slot r config stack_ptr system_task s).1
  unfolding claim_slot
  claim_slot-IsConsistent config stack_ptr system_task vacant = record {
    ready = record {
      listed = λ q p. ground (arith, vacant, h.ready.listed q p);
      bit_set = h.ready.bit_set;
    };
    delayed = record {
      listed = λ q. ground (arith, vacant, h.delayed.listed q);
      finite = ground (
        arith,
        vacant,
        h.delayed.listed r,
        h.delayed.finite,
        span-update s.delay_ticks s.delay_list r 0,
      );
    };
    waiting = record {
      listed = h.waiting.listed;
      blocked_only = λ q l e. ground (arith, vacant, h.waiting.blocked_only q l e);
      inside = h.waiting.inside;
      sorted = λ l.
          Descending-update s.priority r config.priority (s.waiters l) (vacant_waits_not vacant l)
            (h.waiting.sorted l);
    };
  }

module _ (k : Config) (c : Cpu) where
  -- The task that is switched away from, if it is to run again: the idle task only changes its
  -- state, any other goes to the end of its ready list.
  displaced-IsConsistent :
      (r : ℕ) (s : Sched)
      → is_running (s.state r) ≡ true
      → ((r == idle_tcb k c.core) ≡ false → in_table k r ≡ true)
      → IsConsistent k nobody s
      → IsConsistent k nobody (
          if r == idle_tcb k c.core
          then record s { state = update s.state r TaskState.ready }
          else make_ready r s)
  displaced-IsConsistent r s runs inside h = elim (Bool-cases (r == idle_tcb k c.core)) [
    | inl idle ↦ rw idle (rested-IsConsistent k c s r h runs (ground (arith, idle)))
    | inr task ↦ rw task (preempted-IsConsistent k c s r h runs (inside task))
  ]

  save_task-IsConsistent :
      (r stack_ptr : ℕ) (s : Sched)
      → ((r == idle_tcb k c.core) ≡ false → in_table k r ≡ true)
      → IsConsistent k nobody s
      → IsConsistent k nobody (save_task k c r stack_ptr s)
  unfolding save_task
  save_task-IsConsistent r stack_ptr s inside h =
      elim (Bool-cases (is_running (s.state r) && not (s.port.lock_count c.core == 0))) [
        | inl held ↦ rw held (record { ready = h.ready; delayed = h.delayed; waiting = h.waiting })
        | inr free ↦ rw free (elim (Bool-cases (is_running (s.state r))) [
          | inl runs ↦ rw runs (
              displaced-IsConsistent r _ runs inside
                (record { ready = h.ready; delayed = h.delayed; waiting = h.waiting }))
          | inr rests ↦
              rw rests (record { ready = h.ready; delayed = h.delayed; waiting = h.waiting })
        ])
      ]

  -- os_task_stack_save_current keeps the lists consistent.
  pub stack_save_current-IsConsistent :
      (stack_ptr : ℕ) (s : Sched)
      → ((r : ℕ) → current_task k c s ≡ some r → in_table k r ≡ true)
      → IsConsistent k nobody s
      → IsConsistent k nobody (stack_save_current k c stack_ptr s)
  unfolding stack_save_current
  stack_save_current-IsConsistent stack_ptr s inside h = elim (Option-cases (s.current c.core)) [
    | inl nobody_there ↦ rw (nobody_there, stack_save_current) h
    | inr (r, e) ↦
        rw (e, stack_save_current)
          (save_task-IsConsistent r stack_ptr s (λ task. inside r (ground (arith, e, task))) h)
  ]

  -- The second critical section of os_task_create_any keeps the lists consistent.
  pub create_claim-IsConsistent :
      (handle : ℕ) (config : TaskConfig) (stack_ptr : ℕ) (system_task : Bool) (s : Sched)
      → IsConsistent k nobody s
      → IsConsistent k nobody (create_claim k c handle config stack_ptr system_task s).2
  unfolding create_claim
  create_claim-IsConsistent handle config stack_ptr system_task s h =
      elim (Bool-cases (handle_taken k c handle s)) [
        | inl taken ↦ rw taken h
        | inr fresh ↦ rw fresh (elim (Option-cases (free_slot s.state k.table_size 0)) [
          | inl none_left ↦ rw (none_left, create_claim) h
          | inr (r, found) ↦
              rw (found, create_claim)
                (claim_slot-IsConsistent k c s r h config stack_ptr system_task
                  (free_slot-Found s.state k.table_size 0 r found).vacant)
        ])
      ]
