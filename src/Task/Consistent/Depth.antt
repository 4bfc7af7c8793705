-- ===== src/Task/Consistent/Depth.antt =====
-- How deep os_task_unlink of kernel/os_task.c calls itself: taking a task out of its lists may
-- change the priority of a ready task, which is unlinked in turn, and that is all. So a model that
-- stops at a second call computes what the code does.
use ahura_rtos.Shared.{
  ℕ, zero, suc, ◌≡◌, refl, subst, Bool, true, false, Option, none, some, ◌==◌, update, Bool-cases,
  Option-cases, inl, inr,
}
use ahura_rtos.Task.State.{is_ready, Config, Cpu, Sched, in_table}
use ahura_rtos.Task.Ids.{find_by_id}
use ahura_rtos.Task.Queues.{unlink_state}
use ahura_rtos.Task.Inherit.{
  max_depth, debt_owner, inherited_priority, effective_priority_set, effective_recompute,
  priority_recompute, waiter_depart_tcb, unlink_waiter, unlink_depth, unlink,
}
use ahura_rtos.Task.Consistent.Defs.{IsConsistent}
use ahura_rtos.Task.Consistent.Moves.{unlink_state-IsConsistent}
use ahura_rtos.Task.Consistent.Priority.{Unlinks, Dormant, wait_list_of_ready}
use ahura_rtos.Task.Consistent.Chain.{
  in_table-find_by_id, effective_recompute-Reordered, Dormant-Rearranges,
}
use ahura_rtos.Task.Consistent.Unlink.{
  unlink_depth-Unlinks, left_waiters, cleared, left_waiters-IsConsistent, left_waiters-Dormant,
}

module _ (k : Config) (c : Cpu) (ex : ℕ → Bool) (u v : ℕ → Sched → Sched) (uu : Unlinks u)
    (vv : Unlinks v) where
  effective_priority_set_same :
      (r p : ℕ) (s : Sched)
      → IsConsistent k ex s
      → effective_priority_set k c u r p s ≡ effective_priority_set k c v r p s
  unfolding effective_priority_set
  effective_priority_set_same r p s h = elim (Bool-cases (is_ready (s.state r))) [
    | inl is ↦ let free = wait_list_of_ready k ex s h r is in rw (is, uu r s free, vv r s free) refl
    | inr isnt ↦ rw isnt refl
  ]

  effective_recompute_same :
      (r : ℕ) (s : Sched)
      → IsConsistent k ex s
      → effective_recompute k c u r s ≡ effective_recompute k c v r s
  unfolding effective_recompute
  effective_recompute_same r s h =
      effective_priority_set_same r (inherited_priority s (s.owned_mutexes r) (s.base_priority r)) s
        h

  -- The walk with `v`, once the effective priority of a task is recomputed.
  abbrev recompute_next : ℕ → ℕ → Sched → Sched
  recompute_next depth r x = elim (x.blocked_on_mutex r) [
    | none ↦ x
    | some m ↦ priority_recompute k c v depth (find_by_id k (x.mutex_owner_id m) x) x
  ]

  priority_recompute_same :
      (depth : ℕ) (task : Option ℕ) (s : Sched)
      → ((r : ℕ) → task ≡ some r → in_table k r ≡ true)
      → IsConsistent k ex s
      → Dormant ex s
      → priority_recompute k c u depth task s ≡ priority_recompute k c v depth task s
  unfolding priority_recompute
  priority_recompute_same zero task s inside h dormant = refl
  priority_recompute_same (suc depth) none s inside h dormant = refl
  priority_recompute_same (suc depth) (some r) s inside h dormant =
      let s' = effective_recompute k c u r s in
      let first = effective_recompute-Reordered k c ex u uu s r (inside r refl) h dormant in
      subst (λ x. priority_recompute k c u (suc depth) (some r) s ≡ recompute_next depth r x)
        (effective_recompute_same r s h)
        (elim (Option-cases (s'.blocked_on_mutex r)) [
          | inl last ↦ rw (last, recompute_next, priority_recompute) refl
          | inr (m, waits) ↦
              rw (waits, recompute_next, priority_recompute)
                (priority_recompute_same depth (find_by_id k (s'.mutex_owner_id m) s') s'
                  (λ q. in_table-find_by_id k (s'.mutex_owner_id m) s') first.consistent
                  (Dormant-Rearranges k c ex u uu s s' first.kept dormant))
        ])

  pub waiter_depart_tcb_same :
      (r : ℕ) (s : Sched)
      → IsConsistent k ex s
      → Dormant ex s
      → waiter_depart_tcb k c u r s ≡ waiter_depart_tcb k c v r s
  unfolding waiter_depart_tcb
  waiter_depart_tcb_same r s h dormant =
      let gone = cleared r s in
      elim (Bool-cases (debt_owner r s == 0)) [
        | inl alone ↦ rw alone refl
        | inr owned ↦ rw owned (
            priority_recompute_same max_depth (find_by_id k (debt_owner r s) gone) gone
              (λ q. in_table-find_by_id k (debt_owner r s) gone)
              (record { ready = h.ready; delayed = h.delayed; waiting = h.waiting }) dormant)
      ]

module _ (k : Config) (c : Cpu) (ex : ℕ → Bool) where
  -- In a consistent state, also while some tasks that are not ready are being moved, os_task_unlink of
  -- another task calls itself no more than once: a model that allows it
  -- any greater depth computes the same.
  pub unlink_depth-enough :
      (depth r : ℕ) (s : Sched)
      → ex r ≡ false
      → Dormant ex s
      → IsConsistent k ex s
      → unlink_depth k c (suc (suc depth)) r s ≡ unlink k c r s
  unfolding unlink unlink_depth unlink_waiter
  unlink_depth-enough depth r s unmarked dormant h =
      let out = unlink_state r s in
      let h' = unlink_state-IsConsistent k ex r s unmarked h in
      elim (Option-cases (out.wait_list r)) [
        | inl free ↦ rw (free, unlink_waiter) refl
        | inr (l, waits) ↦
            rw (waits, unlink_waiter)
              (waiter_depart_tcb_same k c (update ex r true) (unlink_depth k c (suc depth))
                (unlink_depth k c 1) (unlink_depth-Unlinks k c depth) (unlink_depth-Unlinks k c 0) r
                (left_waiters l r out)
                (left_waiters-IsConsistent k c (update ex r true) r out l waits h')
                (left_waiters-Dormant k c ex r s l waits h' dormant))
      ]
