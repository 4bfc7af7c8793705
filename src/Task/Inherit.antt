-- ===== src/Task/Inherit.antt =====
-- Leaving the lists, effective priorities and priority inheritance, which call one another:
-- kernel/os_task.c (os_task_unlink, os_task_effective_priority_set) and kernel/os_task_mutex.c.
-- `os_task_unlink` of a waiter recomputes the priorities of the tasks that it was waiting behind,
-- and that unlinks tasks which are ready, and so wait for nothing. The depth of this nesting is the
-- first argument; two is enough.
use ahura_rtos.Shared.{
  ℕ, zero, suc, ◌+◌, ◌-◌, Bool, false, ◌&&◌, ◌||◌, Option, none, some, List, [], ◌∷◌, if◌then◌else◌,
  ltb, ◌==◌, update,
}
use ahura_rtos.Status.{prio_max}
use ahura_rtos.Task.State.{is_ready, is_running, Config, Cpu, Sched}
use ahura_rtos.Task.Port.{running_core_of, port_ipi, switch_request, preempt_if_running}
use ahura_rtos.Task.Ids.{find_by_id}
use ahura_rtos.Task.Queues.{make_ready, unlink_state, wait_node_insert, wait_node_remove}

-- OS_TASK_DEADLOCK_MAX_DEPTH
abbrev pub max_depth : ℕ
max_depth = 8

-- Whether a bit is set from a priority on: `(bitmap & ~((1 << n) - 1)) != 0`.
unfoldable pub some_bit : (ℕ → Bool) → ℕ → ℕ → Bool
some_bit bits zero n = false
some_bit bits (suc left) n = bits n || some_bit bits left (n + 1)

-- `top_waiter` of a held mutex against the highest priority so far.
unfoldable pub raised_by : (ℕ → ℕ) → List ℕ → ℕ → ℕ
raised_by priority [] highest = highest
raised_by priority (q ∷ _) highest = if ltb highest (priority q) then priority q else highest

-- The loop of os_task_mutex_effective_recompute over the mutexes that a task holds.
unfoldable pub inherited_priority : Sched → List ℕ → ℕ → ℕ
inherited_priority s [] highest = highest
inherited_priority s (m ∷ ms) highest =
    inherited_priority s ms (raised_by s.priority (s.waiters (s.mutex_waiters m)) highest)

-- The owner to whom a departing waiter lent its priority.
abbrev pub debt_owner : ℕ → Sched → ℕ
debt_owner r s = elim (s.blocked_on_mutex r) [
  | none ↦ s.pi_owner_id r
  | some m ↦ s.mutex_owner_id m
]

module _ (k : Config) (c : Cpu) where
  -- The branch for a running task whose priority falls.
  unfoldable pub lower_running : ℕ → ℕ → Sched → Sched
  lower_running r new_priority s =
      let core = running_core_of k r s in
      let lowered : Sched = record s { priority = update s.priority r new_priority } in
      if ltb core k.core_count
        && (ltb new_priority prio_max
            && some_bit s.ready_bitmap (prio_max - new_priority) (new_priority + 1))
      then (if core == c.core
          then switch_request k c lowered
          else record lowered { port = port_ipi core lowered.port })
      else lowered

  -- The branch for a task in no ready list: its place among the waiters follows its priority.
  unfoldable pub requeue_waiter : ℕ → ℕ → Sched → Sched
  requeue_waiter r new_priority s =
      let changed : Sched = record s { priority = update s.priority r new_priority } in
      elim (s.wait_list r) [
        | none ↦ changed
        | some list ↦ wait_node_insert list r (wait_node_remove list r changed)
      ]

  -- os_task_effective_priority_set, with what os_task_unlink does to a ready task.
  unfoldable pub effective_priority_set : (ℕ → Sched → Sched) → ℕ → ℕ → Sched → Sched
  effective_priority_set unlink_ready r new_priority s =
      if new_priority == s.priority r
      then s
      else (if is_ready (s.state r)
          then (let increasing = ltb (s.priority r) new_priority in
              let out = unlink_ready r s in
              let queued =
                make_ready r (record out { priority = update out.priority r new_priority }) in
              if increasing then preempt_if_running k c r queued else queued)
          else (if is_running (s.state r) && (ltb new_priority (s.priority r) && s.kernel_running)
              then lower_running r new_priority s
              else requeue_waiter r new_priority s))

  -- os_task_mutex_effective_recompute
  unfoldable pub effective_recompute : (ℕ → Sched → Sched) → ℕ → Sched → Sched
  effective_recompute unlink_ready r s =
      effective_priority_set unlink_ready r
        (inherited_priority s (s.owned_mutexes r) (s.base_priority r)) s

  -- os_task_mutex_priority_recompute, with the links that may still be followed.
  unfoldable pub priority_recompute : (ℕ → Sched → Sched) → ℕ → Option ℕ → Sched → Sched
  priority_recompute unlink_ready zero task s = s
  priority_recompute unlink_ready (suc depth) none s = s
  priority_recompute unlink_ready (suc depth) (some r) s =
      let s' = effective_recompute unlink_ready r s in
      elim (s'.blocked_on_mutex r) [
        | none ↦ s'
        | some m ↦ priority_recompute unlink_ready depth (find_by_id k (s'.mutex_owner_id m) s') s'
      ]

  -- os_task_mutex_waiter_depart_tcb
  unfoldable pub waiter_depart_tcb : (ℕ → Sched → Sched) → ℕ → Sched → Sched
  waiter_depart_tcb unlink_ready r s =
      let owner_id = debt_owner r s in
      let cleared : Sched = record s {
        pi_owner_id = update s.pi_owner_id r 0;
        blocked_on_mutex = update s.blocked_on_mutex r none;
        blocked_forever = update s.blocked_forever r false;
      } in
      if owner_id == 0
      then cleared
      else priority_recompute unlink_ready max_depth (find_by_id k owner_id cleared) cleared

  -- The end of os_task_unlink: out of the waiter list, and the boost goes with it.
  unfoldable pub unlink_waiter : (ℕ → Sched → Sched) → ℕ → Sched → Sched
  unlink_waiter unlink_ready r s = elim (s.wait_list r) [
    | none ↦ s
    | some list ↦
        let out = wait_node_remove list r s in
        waiter_depart_tcb unlink_ready r (record out { wait_list = update out.wait_list r none })
  ]

  -- os_task_unlink, to a depth of calls of itself.
  unfoldable pub unlink_depth : ℕ → ℕ → Sched → Sched
  unlink_depth zero r s = s
  unlink_depth (suc depth) r s = unlink_waiter (unlink_depth depth) r (unlink_state r s)

  -- os_task_unlink
  unfoldable pub unlink : ℕ → Sched → Sched
  unlink r s = unlink_depth 2 r s

  -- os_task_mutex_waiter_depart
  unfoldable pub waiter_depart : Sched → Sched
  waiter_depart s = elim (s.current c.core) [ none ↦ s | some r ↦ waiter_depart_tcb unlink r s ]
