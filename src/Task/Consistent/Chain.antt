-- ===== src/Task/Consistent/Chain.antt =====
-- Priority inheritance along a chain of owners keeps the lists consistent, and moves tasks only
-- within the ready lists and the waiter lists (kernel/os_task_mutex.c).
use ahura_rtos.Shared.{
  ℕ, zero, suc, ◌≡◌, refl, sym, ap, ◌∙◌, subst, fun_ext, Bool, true, ◌&&◌, Option, none, some,
  arith, if◌then◌else◌, ltb, ◌==◌, update, Bool-cases, Option-cases, inl, inr,
}
use ahura_rtos.Task.State.{TaskState, ready, is_ready, is_running, Config, Cpu, Sched, in_table}
use ahura_rtos.Task.Port.{preempt_if_running, switch_request}
use ahura_rtos.Task.Ids.{find_by_id}
use ahura_rtos.Task.Queues.{
  wait_node_insert, wait_node_remove, make_ready, ready_remove, unlink_state,
}
use ahura_rtos.Task.Inherit.{
  lower_running, requeue_waiter, effective_priority_set, inherited_priority, effective_recompute,
  priority_recompute,
}
use ahura_rtos.Task.Consistent.Defs.{IsConsistent}
use ahura_rtos.Task.Consistent.Priority.{
  Unlinks, Dormant, wait_list_of_ready, effective_priority_set-IsConsistent,
}

-- `s` with the priorities and the orders of `t`.
abbrev pub rearranged : Sched → Sched → Sched
rearranged s t = record s {
  priority = t.priority;
  ready_list = t.ready_list;
  ready_bitmap = t.ready_bitmap;
  waiters = t.waiters;
  port = t.port;
}

-- `t` differs from `s` in no more than priorities, orders and requests.
abbrev pub Rearranges : Sched → Sched → Type 0
Rearranges s t = t ≡ rearranged s t

pub Rearranges-trans : (s t u : Sched) → Rearranges s t → Rearranges t u → Rearranges s u
Rearranges-trans s t u p q = q ∙ ap (λ x. rearranged x u) p

pub in_table-find_by_id :
    (k : Config) (id : ℕ) (s : Sched) {r : ℕ} → find_by_id k id s ≡ some r → in_table k r ≡ true
unfolding find_by_id
in_table-find_by_id k id s e = ground arith

pub record Reordered (k : Config) (ex : ℕ → Bool) (s t : Sched) : Type 0 where
  pub consistent : IsConsistent k ex t
  pub kept : Rearranges s t

update_same : (f : ℕ → TaskState) (r : ℕ) → f r ≡ ready → update f r ready ≡ f
update_same f r e = fun_ext λ q. ground arith

ready_of_is_ready : (t : TaskState) → is_ready t ≡ true → t ≡ ready
ready_of_is_ready t e = ground arith

module _ (k : Config) (c : Cpu) where
  ready_move_kept :
      (s : Sched) (r v : ℕ)
      → is_ready (s.state r) ≡ true
      → Rearranges s (
          make_ready r
            (record (unlink_state r s) { priority = update (unlink_state r s).priority r v }))
  unfolding make_ready unlink_state ready_remove
  ready_move_kept s r v is = rw (is, update_same s.state r (ready_of_is_ready (s.state r) is))

  preempt_kept : (s : Sched) (r : ℕ) → Rearranges s (preempt_if_running k c r s)
  unfolding preempt_if_running
  preempt_kept s r = refl

  lower_running_kept : (s : Sched) (r v : ℕ) → Rearranges s (lower_running k c r v s)
  unfolding lower_running switch_request
  lower_running_kept s r v = ground arith

  requeue_waiter_kept : (s : Sched) (r v : ℕ) → Rearranges s (requeue_waiter k c r v s)
  unfolding requeue_waiter wait_node_insert wait_node_remove
  requeue_waiter_kept s r v = elim (Option-cases (s.wait_list r)) [
    | inl free ↦ rw (free, requeue_waiter)
    | inr (l, waits) ↦ rw (waits, requeue_waiter)
  ]

  ready_moved_kept :
      (s : Sched) (r v : ℕ)
      → is_ready (s.state r) ≡ true
      → (let queued =
            make_ready r
              (record (unlink_state r s) { priority = update (unlink_state r s).priority r v }) in
          Rearranges s (if ltb (s.priority r) v then preempt_if_running k c r queued else queued))
  ready_moved_kept s r v is =
      let queued =
        make_ready r
          (record (unlink_state r s) { priority = update (unlink_state r s).priority r v }) in
      elim (Bool-cases (ltb (s.priority r) v)) [
        | inl up ↦ rw up (
            Rearranges-trans s queued (preempt_if_running k c r queued) (ready_move_kept s r v is)
              (preempt_kept queued r))
        | inr down ↦ rw down (ready_move_kept s r v is)
      ]

  effective_priority_set_kept :
      (ex : ℕ → Bool) (unlink_ready : ℕ → Sched → Sched) (s : Sched)
      → Unlinks unlink_ready
      → IsConsistent k ex s
      → (r v : ℕ) → Rearranges s (effective_priority_set k c unlink_ready r v s)
  unfolding effective_priority_set
  effective_priority_set_kept ex unlink_ready s unlinks h r v =
      elim (Bool-cases (v == s.priority r)) [
        | inl same ↦ rw same
        | inr changed ↦ rw changed (elim (Bool-cases (is_ready (s.state r))) [
          | inl is ↦
              rw (is, unlinks r s (wait_list_of_ready k ex s h r is)) (ready_moved_kept s r v is)
          | inr isnt ↦
              rw isnt
                (elim (Bool-cases
                  (is_running (s.state r) && (ltb v (s.priority r) && s.kernel_running))) [
                    | inl falls ↦ rw falls (lower_running_kept s r v)
                    | inr stays ↦ rw stays (requeue_waiter_kept s r v)
                  ])
        ])
      ]

  module _ (ex : ℕ → Bool) (unlink_ready : ℕ → Sched → Sched) (unlinks : Unlinks unlink_ready) where
    pub effective_recompute-Reordered :
        (s : Sched) (r : ℕ)
        → in_table k r ≡ true
        → IsConsistent k ex s
        → Dormant ex s
        → Reordered k ex s (effective_recompute k c unlink_ready r s)
    unfolding effective_recompute
    effective_recompute-Reordered s r inside h dormant =
        let v = inherited_priority s (s.owned_mutexes r) (s.base_priority r) in
        record {
          consistent =
              effective_priority_set-IsConsistent k c ex s h unlink_ready unlinks dormant r v
                inside;
          kept = effective_priority_set_kept ex unlink_ready s unlinks h r v;
        }

    pub Dormant-Rearranges : (s t : Sched) → Rearranges s t → Dormant ex s → Dormant ex t
    Dormant-Rearranges s t e = subst (Dormant ex) (sym e)

    Reordered-after :
        (s s' : Sched) (depth : ℕ) (task : Option ℕ)
        → Reordered k ex s s'
        → Reordered k ex s' (priority_recompute k c unlink_ready depth task s')
        → Reordered k ex s (priority_recompute k c unlink_ready depth task s')
    Reordered-after s s' depth task first rest = record {
      consistent = rest.consistent;
      kept = Rearranges-trans s s' _ first.kept rest.kept;
    }

    -- os_task_mutex_priority_recompute, whatever the chain of owners.
    pub priority_recompute-Reordered :
        (depth : ℕ) (task : Option ℕ) (s : Sched)
        → ((r : ℕ) → task ≡ some r → in_table k r ≡ true)
        → IsConsistent k ex s
        → Dormant ex s
        → Reordered k ex s (priority_recompute k c unlink_ready depth task s)
    unfolding priority_recompute
    priority_recompute-Reordered zero task s inside h dormant = record {
      consistent = h;
      kept = refl;
    }
    priority_recompute-Reordered (suc depth) none s inside h dormant = record {
      consistent = h;
      kept = refl;
    }
    priority_recompute-Reordered (suc depth) (some r) s inside h dormant =
        let s' = effective_recompute k c unlink_ready r s in
        let first = effective_recompute-Reordered s r (inside r refl) h dormant in
        elim (Option-cases (s'.blocked_on_mutex r)) [
          | inl last ↦ rw (last, priority_recompute) first
          | inr (m, waits) ↦
              rw (waits, priority_recompute)
                (Reordered-after s s' depth (find_by_id k (s'.mutex_owner_id m) s') first (
                  priority_recompute-Reordered depth (find_by_id k (s'.mutex_owner_id m) s') s'
                    (λ q. in_table-find_by_id k (s'.mutex_owner_id m) s') first.consistent
                    (Dormant-Rearranges s s' first.kept dormant)))
        ]
