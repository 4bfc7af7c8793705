-- ===== src/Task/Consistent/Priority.antt =====
-- A change of a task's effective priority keeps the lists consistent (kernel/os_task.c:
-- os_task_effective_priority_set; kernel/os_task_mutex.c).
use ahura_rtos.Shared.{
  ℕ, ◌≡◌, sym, subst, fun_ext, Bool, true, false, ◌&&◌, none, some, arith, if◌then◌else◌, ltb, ◌==◌,
  update, erase, count-erase_self, count-erase_ne, Bool-cases, ==_refl, Option-cases, inl, inr,
}
use ahura_rtos.Task.State.{is_ready, is_running, Config, Cpu, Port, Sched, in_table}
use ahura_rtos.Task.Port.{preempt_if_running, switch_request}
use ahura_rtos.Task.Queues.{wait_node_insert, wait_node_remove, make_ready, unlink_state}
use ahura_rtos.Task.Inherit.{lower_running, requeue_waiter, effective_priority_set}
use ahura_rtos.Task.Consistent.Defs.{ReadyLists, IsConsistent, Descending}
use ahura_rtos.Task.Consistent.Moves.{
  make_ready-IsConsistent, unlink_state-IsConsistent, unlink_state_frame,
}
use ahura_rtos.Task.Consistent.Waiters.{
  count-wait_place, Descending-wait_place, Descending-erase, Descending-update,
}

module _ (k : Config) (ex : ℕ → Bool) (s : Sched) (h : IsConsistent k ex s) where
  pub port-IsConsistent : (p : Port) → IsConsistent k ex (record s { port = p })
  port-IsConsistent p = record { ready = h.ready; delayed = h.delayed; waiting = h.waiting }

  -- A ready task waits for nothing.
  pub wait_list_of_ready : (r : ℕ) → is_ready (s.state r) ≡ true → s.wait_list r ≡ none
  wait_list_of_ready r e = elim (Option-cases (s.wait_list r)) [
    | inl free ↦ free
    | inr (l, waits) ↦ ground (arith, h.waiting.blocked_only r l waits)
  ]

  pub wait_list_of_running : (r : ℕ) → is_running (s.state r) ≡ true → s.wait_list r ≡ none
  wait_list_of_running r e = elim (Option-cases (s.wait_list r)) [
    | inl free ↦ free
    | inr (l, waits) ↦ ground (arith, h.waiting.blocked_only r l waits)
  ]

  module _ (r v : ℕ) (idle : (is_ready (s.state r) ≡ true → ex r ≡ true)) where
    priority-Ready : ReadyLists k ex s.state (update s.priority r v) s.ready_list s.ready_bitmap
    priority-Ready = record {
      listed = λ q p. ground (arith, h.ready.listed q p, idle);
      bit_set = h.ready.bit_set;
    }

    -- The priority of a task that is in no list ordered by it.
    pub priority-IsConsistent :
        s.wait_list r ≡ none → IsConsistent k ex (record s { priority = update s.priority r v })
    priority-IsConsistent free = record {
      ready = priority-Ready;
      delayed = h.delayed;
      waiting = record {
        listed = h.waiting.listed;
        blocked_only = h.waiting.blocked_only;
        inside = h.waiting.inside;
        sorted = λ l.
            Descending-update s.priority r v (s.waiters l) (ground (arith, h.waiting.listed r l))
              (h.waiting.sorted l);
      };
    }

    requeued_sorted :
        (l : ℕ)
        → s.wait_list r ≡ some l
        → (l' : ℕ)
        → Descending (update s.priority r v) (
            (wait_node_insert l r
                (wait_node_remove l r (record s { priority = update s.priority r v }))).waiters
              l')
    unfolding wait_node_insert wait_node_remove
    requeued_sorted l waits l' = elim (Bool-cases (l == l')) [
      | inl same ↦
          rw (same, ==_refl l)
            (Descending-wait_place (update s.priority r v) r (erase r (s.waiters l)) (
              Descending-update s.priority r v (erase r (s.waiters l))
                (ground (arith, h.waiting.listed r l, count-erase_self r (s.waiters l)))
                (Descending-erase s.priority r (s.waiters l) (h.waiting.sorted l))))
      | inr other ↦ rw other (
          Descending-update s.priority r v (s.waiters l') (ground (arith, h.waiting.listed r l'))
            (h.waiting.sorted l'))
    ]

    requeue-IsConsistent :
        (l : ℕ)
        → s.wait_list r ≡ some l
        → IsConsistent k ex (
            wait_node_insert l r
              (wait_node_remove l r (record s { priority = update s.priority r v })))
    unfolding wait_node_insert wait_node_remove
    requeue-IsConsistent l waits = record {
      ready = priority-Ready;
      delayed = h.delayed;
      waiting = record {
        listed = λ q l'. ground (
          arith,
          h.waiting.listed q l',
          count-wait_place (update s.priority r v) r (erase r (s.waiters l)) q,
          count-erase_self r (s.waiters l),
          count-erase_ne q r (s.waiters l),
        );
        blocked_only = h.waiting.blocked_only;
        inside = h.waiting.inside;
        sorted = requeued_sorted l waits;
      };
    }

-- os_task_unlink of a ready task leaves its ready list, and no more.
abbrev pub Unlinks : (ℕ → Sched → Sched) → Type 0
Unlinks unlink_ready =
    (r : ℕ) (s : Sched) → s.wait_list r ≡ none → unlink_ready r s ≡ unlink_state r s

-- A task that an operation has taken out of its lists is not ready.
abbrev pub Dormant : (ℕ → Bool) → Sched → Type 0
Dormant ex s = (r : ℕ) → ex r ≡ true → is_ready (s.state r) ≡ false

pub update-update_back :
    (ex : ℕ → Bool) (r : ℕ) → ex r ≡ false → update (update ex r true) r false ≡ ex
update-update_back ex r e = fun_ext (λ q. ground arith)

pub preempt-IsConsistent :
    (k : Config) (c : Cpu) (ex : ℕ → Bool) (s : Sched)
    → IsConsistent k ex s
    → (r : ℕ) → IsConsistent k ex (preempt_if_running k c r s)
unfolding preempt_if_running
preempt-IsConsistent k c ex s h r = record {
  ready = h.ready;
  delayed = h.delayed;
  waiting = h.waiting;
}

module _ (k : Config) (c : Cpu) (ex : ℕ → Bool) (s : Sched) (h : IsConsistent k ex s) where
  -- A ready task moves to the ready list of its new priority.
  ready_move-IsConsistent :
      (r v : ℕ)
      → in_table k r ≡ true
      → ex r ≡ false
      → is_ready (s.state r) ≡ true
      → IsConsistent k ex (
          make_ready r
            (record (unlink_state r s) { priority = update (unlink_state r s).priority r v }))
  ready_move-IsConsistent r v inside unmarked is =
      let free : (unlink_state r s).wait_list r ≡ none =
        subst (λ (t : Sched). t.wait_list r ≡ none) (sym (unlink_state_frame r s))
          (wait_list_of_ready k ex s h r is) in
      subst
        (λ e. IsConsistent k e (
          make_ready r
            (record (unlink_state r s) { priority = update (unlink_state r s).priority r v })))
        (update-update_back ex r unmarked)
        (make_ready-IsConsistent k (update ex r true) r
          (record (unlink_state r s) { priority = update (unlink_state r s).priority r v }) inside
          (ground arith) free
          (priority-IsConsistent k (update ex r true) (unlink_state r s)
            (unlink_state-IsConsistent k ex r s unmarked h) r v (λ e. ground arith) free))

  ready_moved :
      (r v : ℕ)
      → in_table k r ≡ true
      → ex r ≡ false
      → is_ready (s.state r) ≡ true
      → (let queued =
            make_ready r
              (record (unlink_state r s) { priority = update (unlink_state r s).priority r v }) in
          IsConsistent k ex
            (if ltb (s.priority r) v then preempt_if_running k c r queued else queued))
  ready_moved r v inside unmarked is = elim (Bool-cases (ltb (s.priority r) v)) [
    | inl up ↦ rw up (
        preempt-IsConsistent k c ex
          (make_ready r
            (record (unlink_state r s) { priority = update (unlink_state r s).priority r v }))
          (ready_move-IsConsistent r v inside unmarked is) r)
    | inr down ↦ rw down (ready_move-IsConsistent r v inside unmarked is)
  ]

  unmarked : Dormant ex s → (r : ℕ) → is_ready (s.state r) ≡ true → ex r ≡ false
  unmarked dormant r is = ground (arith, dormant r)

  pub lower_running_frame :
      (r v : ℕ)
      → lower_running k c r v s
        ≡ record s { priority = update s.priority r v; port = (lower_running k c r v s).port }
  unfolding lower_running switch_request
  lower_running_frame r v = ground arith

  lower_running-IsConsistent :
      (r v : ℕ) → is_running (s.state r) ≡ true → IsConsistent k ex (lower_running k c r v s)
  lower_running-IsConsistent r v is = subst (IsConsistent k ex) (sym (lower_running_frame r v)) (
      port-IsConsistent k ex (record s { priority = update s.priority r v })
        (priority-IsConsistent k ex s h r v (λ e. ground arith)
          (wait_list_of_running k ex s h r is))
        (lower_running k c r v s).port)

  requeue_waiter-IsConsistent :
      (r v : ℕ) → is_ready (s.state r) ≡ false → IsConsistent k ex (requeue_waiter k c r v s)
  unfolding requeue_waiter
  requeue_waiter-IsConsistent r v is = elim (Option-cases (s.wait_list r)) [
    | inl free ↦
        rw (free, requeue_waiter) (priority-IsConsistent k ex s h r v (λ e. ground arith) free)
    | inr (l, waits) ↦
        rw (waits, requeue_waiter) (requeue-IsConsistent k ex s h r v (λ e. ground arith) l waits)
  ]

  -- os_task_effective_priority_set keeps the lists consistent.
  pub effective_priority_set-IsConsistent :
      (unlink_ready : ℕ → Sched → Sched)
      → Unlinks unlink_ready
      → Dormant ex s
      → (r v : ℕ) → in_table k r ≡ true
      → IsConsistent k ex (effective_priority_set k c unlink_ready r v s)
  unfolding effective_priority_set
  effective_priority_set-IsConsistent unlink_ready unlinks dormant r v inside =
      elim (Bool-cases (v == s.priority r)) [
        | inl same ↦ rw same h
        | inr changed ↦ rw changed (elim (Bool-cases (is_ready (s.state r))) [
          | inl is ↦
              rw (is, unlinks r s (wait_list_of_ready k ex s h r is))
                (ready_moved r v inside (unmarked dormant r is) is)
          | inr isnt ↦
              rw isnt
                (elim (Bool-cases
                  (is_running (s.state r) && (ltb v (s.priority r) && s.kernel_running))) [
                    | inl falls ↦ rw falls (lower_running-IsConsistent r v (ground arith))
                    | inr stays ↦ rw stays (requeue_waiter-IsConsistent r v isnt)
                  ])
        ])
      ]
