-- ===== src/Task/Keeps.antt =====
-- What the scheduler's list operations leave alone (kernel/os_task.c and kernel/os_task_mutex.c):
-- who holds which mutex, which is up to kernel/os_mutex.c, and what a
-- wait is about and has brought.
use ahura_rtos.Shared.{
  ℕ, zero, suc, ◌+◌, ◌-◌, ◌≡◌, refl, ap, Bool, false, update, ◌++◌, erase, ◌&&◌, Option, none, some,
  List, [], ◌∷◌, ltb, ◌==◌, is_empty, not, ◌∙◌, Bool-cases, Option-cases, inl, inr,
}
use ahura_rtos.Status.{wait_forever, prio_max}
use ahura_rtos.Task.State.{Config, Cpu, Sched, is_ready, is_running, is_blocked}
use ahura_rtos.Task.Ids.{find_by_id}
use ahura_rtos.Task.Port.{running_core_of, switch_request, preempt_if_running}
use ahura_rtos.Task.Queues.{
  make_ready, delay_insert, delay_remove, ready_remove, unlink_state, wait_node_insert,
  wait_node_remove,
}
use ahura_rtos.Task.Inherit.{
  max_depth, some_bit, lower_running, requeue_waiter, effective_priority_set, effective_recompute,
  priority_recompute, waiter_depart_tcb, unlink_waiter, unlink_depth, unlink, waiter_depart,
  debt_owner, inherited_priority,
}
use ahura_rtos.Task.Owner.{
  owner_link, boost, priority_inherit, owner_unlink_and_reprioritize, blocked_on_set,
}
use ahura_rtos.Task.Wait.{current_task, block, wait_begin, wait_end, signal, wake_first, wake_one}

-- os_mutex_t, for all mutexes.
pub record Mutexes : Type 0 where
  pub locked : ℕ → Bool
  pub owner_id : ℕ → ℕ
  pub waiters : ℕ → ℕ

-- The mutexes, and what all waits are about and have brought.
pub record Kept : Type 0 where
  pub mutexes : Mutexes
  pub wait_data0 : ℕ → ℕ
  pub wait_data1 : ℕ → ℕ
  pub wait_result : ℕ → ℕ
  pub wait_signaled : ℕ → Bool
  pub woken_from : ℕ → Option ℕ

abbrev pub mutexes_of : Sched → Mutexes
mutexes_of s = record {
  locked = s.mutex_locked;
  owner_id = s.mutex_owner_id;
  waiters = s.mutex_waiters;
}

abbrev kept : Sched → Kept
kept s = record {
  mutexes = mutexes_of s;
  wait_data0 = s.wait_data0;
  wait_data1 = s.wait_data1;
  wait_result = s.wait_result;
  wait_signaled = s.wait_signaled;
  woken_from = s.woken_from;
}

abbrev Keeps : (Sched → Sched) → Type 0
Keeps f = (s : Sched) → kept (f s) ≡ kept s

abbrev KeepsMutexes : (Sched → Sched) → Type 0
KeepsMutexes f = (s : Sched) → mutexes_of (f s) ≡ mutexes_of s

unlink_state-Keeps : (r : ℕ) → Keeps (unlink_state r)
unfolding unlink_state ready_remove delay_remove
unlink_state-Keeps r s = elim (Bool-cases (is_ready (s.state r))) [
  | inl ready ↦ rw (unlink_state, ready) refl
  | inr other ↦
      elim (Bool-cases (is_blocked (s.state r) && not (s.delay_ticks r == wait_forever))) [
        | inl delayed ↦ rw (unlink_state, other, delayed) refl
        | inr free ↦ rw (unlink_state, other, free) refl
      ]
]

abbrev departed : ℕ → Sched → Sched
departed r s = record s {
  pi_owner_id = update s.pi_owner_id r 0;
  blocked_on_mutex = update s.blocked_on_mutex r none;
  blocked_forever = update s.blocked_forever r false;
}

module _ (k : Config) (c : Cpu) where
  lower_running-Keeps : (r p : ℕ) → Keeps (lower_running k c r p)
  unfolding lower_running switch_request
  lower_running-Keeps r p s =
      elim (Bool-cases (
        ltb (running_core_of k r s) k.core_count
        && (ltb p prio_max && some_bit s.ready_bitmap (prio_max - p) (p + 1)))) [
          | inl outranked ↦ elim (Bool-cases (running_core_of k r s == c.core)) [
            | inl here ↦ rw (lower_running, outranked, here) refl
            | inr there ↦ rw (lower_running, outranked, there) refl
          ]
          | inr stays ↦ rw (lower_running, stays) refl
        ]

  requeue_waiter-Keeps : (r p : ℕ) → Keeps (requeue_waiter k c r p)
  unfolding requeue_waiter wait_node_insert wait_node_remove
  requeue_waiter-Keeps r p s = elim (Option-cases (s.wait_list r)) [
    | inl free ↦ rw (requeue_waiter, free) refl
    | inr (l, waits) ↦ rw (requeue_waiter, waits) refl
  ]

  module _ (u : ℕ → Sched → Sched) (ku : (r : ℕ) → Keeps (u r)) where
    effective_priority_set-Keeps : (r p : ℕ) → Keeps (effective_priority_set k c u r p)
    unfolding effective_priority_set make_ready preempt_if_running
    effective_priority_set-Keeps r p s = elim (Bool-cases (p == s.priority r)) [
      | inl same ↦ rw (effective_priority_set, same) refl
      | inr differs ↦ elim (Bool-cases (is_ready (s.state r))) [
        | inl ready ↦ elim (Bool-cases (ltb (s.priority r) p)) [
          | inl up ↦ rw (effective_priority_set, differs, ready, up) (ku r s)
          | inr down ↦ rw (effective_priority_set, differs, ready, down) (ku r s)
        ]
        | inr other ↦
            elim (Bool-cases
              (is_running (s.state r) && (ltb p (s.priority r) && s.kernel_running))) [
                | inl runs ↦
                    rw (effective_priority_set, differs, other, runs) (lower_running-Keeps r p s)
                | inr rests ↦
                    rw (effective_priority_set, differs, other, rests) (requeue_waiter-Keeps r p s)
              ]
      ]
    ]

    priority_recompute-Keeps :
        (depth : ℕ) (task : Option ℕ) → Keeps (priority_recompute k c u depth task)
    unfolding priority_recompute effective_recompute
    priority_recompute-Keeps zero task s = refl
    priority_recompute-Keeps (suc depth) none s = refl
    priority_recompute-Keeps (suc depth) (some r) s =
        let p = inherited_priority s (s.owned_mutexes r) (s.base_priority r) in
        let s' = effective_priority_set k c u r p s in
        let first = effective_priority_set-Keeps r p s in
        elim (Option-cases (s'.blocked_on_mutex r)) [
          | inl free ↦ rw (priority_recompute, free) first
          | inr (m, waits) ↦
              rw (priority_recompute, waits)
                (priority_recompute-Keeps depth (find_by_id k (s'.mutex_owner_id m) s') s' ∙ first)
        ]

    waiter_depart_tcb-Keeps : (r : ℕ) → Keeps (waiter_depart_tcb k c u r)
    unfolding waiter_depart_tcb
    waiter_depart_tcb-Keeps r s = elim (Bool-cases (debt_owner r s == 0)) [
      | inl nobody ↦ rw (waiter_depart_tcb, nobody) refl
      | inr owed ↦
          rw (waiter_depart_tcb, owed)
            (priority_recompute-Keeps max_depth (find_by_id k (debt_owner r s) (departed r s))
              (departed r s))
    ]

    unlink_waiter-Keeps : (r : ℕ) → Keeps (unlink_waiter k c u r)
    unfolding unlink_waiter wait_node_remove
    unlink_waiter-Keeps r s = elim (Option-cases (s.wait_list r)) [
      | inl free ↦ rw (unlink_waiter, free) refl
      | inr (l, waits) ↦
          rw (unlink_waiter, waits)
            (waiter_depart_tcb-Keeps r
              (record (wait_node_remove l r s) { wait_list = update s.wait_list r none }))
    ]

  unlink_depth-Keeps : (depth r : ℕ) → Keeps (unlink_depth k c depth r)
  unfolding unlink_depth
  unlink_depth-Keeps zero r s = refl
  unlink_depth-Keeps (suc depth) r s =
      unlink_waiter-Keeps (unlink_depth k c depth) (unlink_depth-Keeps depth) r (unlink_state r s)
      ∙ unlink_state-Keeps r s

  pub unlink-Keeps : (r : ℕ) → Keeps (unlink k c r)
  unfolding unlink
  unlink-Keeps r s = unlink_depth-Keeps 2 r s

  pub waiter_depart-Keeps : Keeps (waiter_depart k c)
  unfolding waiter_depart
  waiter_depart-Keeps s = elim (Option-cases (s.current c.core)) [
    | inl nobody ↦ rw (waiter_depart, nobody) refl
    | inr (r, e) ↦ rw (waiter_depart, e) (waiter_depart_tcb-Keeps (unlink k c) unlink-Keeps r s)
  ]

  recompute-Keeps : (task : Option ℕ) → Keeps (priority_recompute k c (unlink k c) max_depth task)
  recompute-Keeps = priority_recompute-Keeps (unlink k c) unlink-Keeps max_depth

  pub owner_link-Keeps : (m : ℕ) → Keeps (owner_link k c m)
  unfolding owner_link
  owner_link-Keeps m s = elim (Option-cases (s.current c.core)) [
    | inl nobody ↦ rw (owner_link, nobody) refl
    | inr (r, e) ↦ elim (Bool-cases (s.id r == 0)) [
      | inl idle ↦ rw (owner_link, e, idle) refl
      | inr named ↦ elim (Bool-cases (is_empty (s.waiters (s.mutex_waiters m)))) [
        | inl alone ↦ rw (owner_link, e, named, alone) refl
        | inr wanted ↦
            rw (owner_link, e, named, wanted)
              (recompute-Keeps (some r) (record s {
                owned_mutexes = update s.owned_mutexes r (s.owned_mutexes r ++ m ∷ []);
              }))
      ]
    ]
  ]

  boost-Keeps : (r owner : ℕ) → Keeps (boost k c r owner)
  unfolding boost
  boost-Keeps r owner s =
      let raised = effective_priority_set k c (unlink k c) owner (s.priority r) s in
      let first = effective_priority_set-Keeps (unlink k c) unlink-Keeps owner (s.priority r) s in
      elim (Option-cases (raised.blocked_on_mutex owner)) [
        | inl free ↦ rw (boost, free) first
        | inr (m, waits) ↦
            rw (boost, waits)
              (recompute-Keeps (find_by_id k (raised.mutex_owner_id m) raised) raised ∙ first)
      ]

  pub priority_inherit-Keeps : (owner_id : ℕ) → Keeps (priority_inherit k c owner_id)
  unfolding priority_inherit
  priority_inherit-Keeps owner_id s = elim (Option-cases (s.current c.core)) [
    | inl nobody ↦ rw (priority_inherit, nobody) refl
    | inr (r, e) ↦ elim (Option-cases (find_by_id k owner_id s)) [
      | inl unknown ↦ rw (priority_inherit, e, unknown) refl
      | inr (owner, f) ↦ elim (Bool-cases (ltb (s.priority owner) (s.priority r))) [
        | inl outranked ↦
            rw (priority_inherit, e, f, outranked)
              (boost-Keeps r owner (record s { pi_owner_id = update s.pi_owner_id r owner_id }))
        | inr above ↦ rw (priority_inherit, e, f, above) refl
      ]
    ]
  ]

  pub owner_unlink-Keeps : (owner_id m : ℕ) → Keeps (owner_unlink_and_reprioritize k c owner_id m)
  unfolding owner_unlink_and_reprioritize
  owner_unlink-Keeps owner_id m s = elim (Option-cases (find_by_id k owner_id s)) [
    | inl unknown ↦ rw (owner_unlink_and_reprioritize, unknown) refl
    | inr (owner, e) ↦ elim (Bool-cases (is_empty (s.waiters (s.mutex_waiters m)))) [
      | inl alone ↦ rw (owner_unlink_and_reprioritize, e, alone) refl
      | inr wanted ↦
          rw (owner_unlink_and_reprioritize, e, wanted)
            (recompute-Keeps (some owner) (record s {
              owned_mutexes = update s.owned_mutexes owner (erase m (s.owned_mutexes owner));
            }))
    ]
  ]

  pub blocked_on_set-Keeps :
      (mutex : Option ℕ) (forever : Bool) → Keeps (blocked_on_set k c mutex forever)
  unfolding blocked_on_set
  blocked_on_set-Keeps mutex forever s = elim (Option-cases (s.current c.core)) [
    | inl nobody ↦ rw (blocked_on_set, nobody) refl
    | inr (r, e) ↦ rw (blocked_on_set, e) refl
  ]

  pub wait_end-Keeps : KeepsMutexes (wait_end k c)
  unfolding wait_end
  wait_end-Keeps s = elim (Bool-cases c.in_isr) [
    | inl from_isr ↦ rw (wait_end, from_isr) refl
    | inr from_task ↦ elim (Option-cases (s.current c.core)) [
      | inl nobody ↦ rw (wait_end, from_task, nobody) refl
      | inr (r, e) ↦ rw (wait_end, from_task, e) refl
    ]
  ]

  pub wait_begin-Keeps : (list ticks : ℕ) → KeepsMutexes (wait_begin k c list ticks)
  unfolding wait_begin switch_request block wait_node_insert delay_insert
  wait_begin-Keeps list ticks s = elim (Option-cases (current_task k c s)) [
    | inl nobody ↦ rw (wait_begin, nobody) refl
    | inr (r, e) ↦ elim (Bool-cases (ticks == wait_forever)) [
      | inl forever ↦ rw (wait_begin, e, forever) refl
      | inr finite ↦ rw (wait_begin, e, finite) refl
    ]
  ]

  wake_first-Keeps :
      (list : ℕ) (rs : List ℕ) (s : Sched) → mutexes_of (wake_first k c list rs s).1 ≡ mutexes_of s
  unfolding wake_first signal make_ready preempt_if_running
  wake_first-Keeps list [] s = refl
  wake_first-Keeps list (r ∷ rs) s = ap (λ u. u.mutexes) (unlink-Keeps r s)

  pub wake_one-Keeps : (list : ℕ) (s : Sched) → mutexes_of (wake_one k c list s).1 ≡ mutexes_of s
  unfolding wake_one
  wake_one-Keeps list s = wake_first-Keeps list (s.waiters list) s
