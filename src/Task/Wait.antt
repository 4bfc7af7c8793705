-- ===== src/Task/Wait.antt =====
-- Blocking and waking (kernel/os_task.c: os_task_sleep_ticks, os_task_wait_begin to
-- os_task_wait_result_get, os_task_wake_locked, os_task_waiters_wake_match,
-- os_task_waiters_wake_one, os_task_waiters_wake_all, os_task_wake_compensate).
use ahura_rtos.Shared.{
  ℕ, zero, suc, ◌+◌, Bool, true, false, not, ◌&&◌, Option, none, some, List, [], ◌∷◌, if◌then◌else◌,
  ◌==◌, update, length,
}
use ahura_rtos.Status.{wait_forever}
use ahura_rtos.Task.State.{TaskState, is_ready, is_blocked, Config, Cpu, Sched, idle_tcb}
use ahura_rtos.Task.Port.{switch_request, preempt_if_running}
use ahura_rtos.Task.Ids.{find_by_id}
use ahura_rtos.Task.Queues.{make_ready, delay_insert, wait_node_insert}
use ahura_rtos.Task.Inherit.{unlink}

-- os_task_waiters_wake_match's callback: the two words of wait data and the callback's context in;
-- whether to wake, what to deliver, and the context out.
pub record Match (X : Type 0) : Type 0 where
  pub satisfied : Bool
  pub result : ℕ
  pub context : X

module _ (k : Config) (c : Cpu) where
  -- `(current != NULL) && (current != &os_task_idle_tcb[core])`
  abbrev pub current_task : Sched → Option ℕ
  current_task s = elim (s.current c.core) [
    | none ↦ none
    | some r ↦ if r == idle_tcb k c.core then none else some r
  ]

  -- BLOCKED for a duration, with an entry in the delay list if it is finite.
  unfoldable pub block : ℕ → ℕ → Sched → Sched
  block r ticks s =
      let blocked : Sched = record s {
        delay_ticks = update s.delay_ticks r ticks;
        state = update s.state r TaskState.blocked;
      } in
      if ticks == wait_forever then blocked else delay_insert r ticks blocked

  unfoldable pub sleep_ticks : ℕ → Sched → Sched
  sleep_ticks ticks s = elim (current_task s) [
    | none ↦ s
    | some r ↦
        if not (ticks == 0) && (s.kernel_running && (not c.in_isr && s.port.lock_count c.core == 0))
        then switch_request k c (block r ticks s)
        else s
  ]

  unfoldable pub wait_begin : ℕ → ℕ → Sched → Sched
  wait_begin list timeout_ticks s = elim (current_task s) [
    | none ↦ s
    | some r ↦
        let joined : Sched = wait_node_insert list r s in
        let waiting : Sched = record joined {
          wait_list = update joined.wait_list r (some list);
          wait_signaled = update joined.wait_signaled r false;
          woken_from = update joined.woken_from r none;
        } in
        switch_request k c (block r timeout_ticks waiting)
  ]

  -- os_task_wait_end_locked
  unfoldable pub wait_end : Sched → Sched
  wait_end s = if c.in_isr then s else elim (s.current c.core) [
    | none ↦ s
    | some r ↦ record s {
      wait_signaled = update s.wait_signaled r false;
      woken_from = update s.woken_from r none;
      pi_owner_id = update s.pi_owner_id r 0;
      blocked_on_mutex = update s.blocked_on_mutex r none;
      blocked_forever = update s.blocked_forever r false;
    }
  ]

  unfoldable pub wait_signaled : Sched → Bool
  wait_signaled s = elim (s.current c.core) [ none ↦ false | some r ↦ s.wait_signaled r ]

  unfoldable pub wait_data_set : ℕ → ℕ → Sched → Sched
  wait_data_set data0 data1 s = elim (s.current c.core) [
    | none ↦ s
    | some r ↦ record s {
      wait_data0 = update s.wait_data0 r data0;
      wait_data1 = update s.wait_data1 r data1;
      wait_result = update s.wait_result r 0;
    }
  ]

  unfoldable pub wait_result_get : Sched → ℕ
  wait_result_get s = elim (s.current c.core) [ none ↦ 0 | some r ↦ s.wait_result r ]

  -- os_task_wake_locked, for a TCB that is not NULL.
  unfoldable pub wake_locked : ℕ → Sched → Sched
  wake_locked r s =
      if is_blocked (s.state r)
      then (let out = unlink k c r s in
          let signaled : Sched = record out { wait_signaled = update out.wait_signaled r true } in
          preempt_if_running k c r (make_ready r signaled))
      else s

  -- os_task_wake
  unfoldable pub wake : ℕ → Sched → Sched
  wake task_id s = elim (find_by_id k task_id s) [ none ↦ s | some r ↦ wake_locked r s ]

  -- A waiter leaves its list for the ready list, signaled by the list's object.
  unfoldable pub signal : ℕ → ℕ → Sched → Sched
  signal list r s =
      let out = unlink k c r s in
      let signaled : Sched = record out {
        wait_signaled = update out.wait_signaled r true;
        woken_from = update out.woken_from r (some list);
      } in
      preempt_if_running k c r (make_ready r signaled)

  -- os_task_waiters_wake_one, on the waiters that the list holds.
  unfoldable pub wake_first : ℕ → List ℕ → Sched → Bool × Sched
  wake_first list [] s = (false, s)
  wake_first list (r ∷ _) s = (true, signal list r s)

  -- os_task_waiters_wake_one
  unfoldable pub wake_one : ℕ → Sched → Bool × Sched
  wake_one list s = wake_first list (s.waiters list) s

  -- os_task_waiters_wake_all, with the waiters that may still be woken.
  unfoldable pub wake_all_from : ℕ → ℕ → Sched → Sched
  wake_all_from zero list s = s
  wake_all_from (suc left) list s =
      let (woken, s') = wake_one list s in
      let rest = wake_all_from left list s' in if woken then rest else s'

  -- os_task_waiters_wake_all: as many waiters as stand in the list, and a last look at it.
  unfoldable pub wake_all : ℕ → Sched → Sched
  wake_all list s = wake_all_from (length (s.waiters list) + 1) list s

  -- A waiter leaves its list for the ready list, with what the callback has for it.
  unfoldable pub deliver : ℕ → ℕ → ℕ → Sched → Sched
  deliver list r result s =
      let out = unlink k c r s in
      let signaled : Sched = record out {
        wait_signaled = update out.wait_signaled r true;
        wait_result = update out.wait_result r result;
        woken_from = update out.woken_from r (some list);
      } in
      preempt_if_running k c r (make_ready r signaled)

  -- The walk of os_task_waiters_wake_match, on the waiters that it has not yet seen.
  unfoldable pub wake_match_walk :
      {X : Type 0} → (ℕ → ℕ → X → Match X) → ℕ → List ℕ → X → Sched → ℕ × X × Sched
  wake_match_walk match list [] x s = (0, x, s)
  wake_match_walk match list (r ∷ rs) x s =
      let m = match (s.wait_data0 r) (s.wait_data1 r) x in
      let (woken, x', s') =
        wake_match_walk match list rs m.context
          (if m.satisfied then deliver list r m.result s else s) in
      (if m.satisfied then woken + 1 else woken, x', s')

  -- os_task_waiters_wake_match
  unfoldable pub wake_match : {X : Type 0} → (ℕ → ℕ → X → Match X) → ℕ → X → Sched → ℕ × X × Sched
  wake_match match list x s = wake_match_walk match list (s.waiters list) x s

  unfoldable pub wake_compensate : ℕ → Sched → Sched
  wake_compensate r s = elim (s.woken_from r) [
    | none ↦ s
    | some list ↦
        if is_ready (s.state r) && s.wait_signaled r
        then (wake_one list (record s { woken_from = update s.woken_from r none })).1
        else s
  ]
