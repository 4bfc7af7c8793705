-- ===== src/Task/Consistent/Owner.antt =====
-- The mutex side of the scheduler keeps the lists consistent (kernel/os_task_mutex.c).
use ahura_rtos.Shared.{
  ℕ, ◌≡◌, true, false, Option, some, List, arith, if◌then◌else◌, ltb, ◌==◌, is_empty, Bool-cases,
  Option-cases, inl, inr,
}
use ahura_rtos.Task.State.{Config, Cpu, Sched, in_table}
use ahura_rtos.Task.Ids.{find_by_id}
use ahura_rtos.Task.Inherit.{
  max_depth, unlink, effective_priority_set, priority_recompute, waiter_depart,
}
use ahura_rtos.Task.Owner.{owner_link, boost, priority_inherit, owner_unlink_and_reprioritize}
use ahura_rtos.Task.Consistent.Defs.{IsConsistent, nobody}
use ahura_rtos.Task.Consistent.Priority.{Unlinks, effective_priority_set-IsConsistent}
use ahura_rtos.Task.Consistent.Chain.{in_table-find_by_id, priority_recompute-Reordered}
use ahura_rtos.Task.Consistent.Unlink.{unlink_depth-Unlinks, waiter_depart_tcb-Reordered}

module _ (k : Config) (c : Cpu) where
  unlink-Unlinks : Unlinks (unlink k c)
  unfolding unlink
  unlink-Unlinks = unlink_depth-Unlinks k c 1

  recomputed-IsConsistent :
      (task : Option ℕ) (s : Sched)
      → ((r : ℕ) → task ≡ some r → in_table k r ≡ true)
      → IsConsistent k nobody s
      → IsConsistent k nobody (priority_recompute k c (unlink k c) max_depth task s)
  recomputed-IsConsistent task s inside h =
      (priority_recompute-Reordered k c nobody (unlink k c) unlink-Unlinks max_depth task s inside h
        (λ q e. cc)).consistent

  boost-IsConsistent :
      (r owner : ℕ) (s : Sched)
      → in_table k owner ≡ true
      → IsConsistent k nobody s
      → IsConsistent k nobody (boost k c r owner s)
  unfolding boost
  boost-IsConsistent r owner s inside h =
      let raised = effective_priority_set k c (unlink k c) owner (s.priority r) s in
      let x =
        effective_priority_set-IsConsistent k c nobody s h (unlink k c) unlink-Unlinks (λ q e. cc)
          owner (s.priority r) inside in
      elim (Option-cases (raised.blocked_on_mutex owner)) [
        | inl free ↦ rw (free, boost) x
        | inr (m, waits) ↦
            rw (waits, boost)
              (recomputed-IsConsistent (find_by_id k (raised.mutex_owner_id m) raised) raised
                (λ q. in_table-find_by_id k (raised.mutex_owner_id m) raised) x)
      ]

  -- os_task_mutex_priority_inherit keeps the lists consistent.
  pub priority_inherit-IsConsistent :
      (owner_id : ℕ) (s : Sched)
      → IsConsistent k nobody s
      → IsConsistent k nobody (priority_inherit k c owner_id s)
  unfolding priority_inherit
  priority_inherit-IsConsistent owner_id s h = elim (Option-cases (s.current c.core)) [
    | inl nobody_there ↦ rw (nobody_there, priority_inherit) h
    | inr (r, e) ↦
        rw (e, priority_inherit)
          (elim (Option-cases (find_by_id k owner_id s)) [
            | inl unknown ↦ rw (unknown, priority_inherit) h
            | inr (owner, found) ↦
                rw (found, priority_inherit)
                  (elim (Bool-cases (ltb (s.priority owner) (s.priority r))) [
                    | inl higher ↦ rw higher (
                        boost-IsConsistent r owner _ (in_table-find_by_id k owner_id s found)
                          (record { ready = h.ready; delayed = h.delayed; waiting = h.waiting }))
                    | inr lower ↦
                        rw lower
                          (record { ready = h.ready; delayed = h.delayed; waiting = h.waiting })
                  ])
          ])
  ]

  reprioritized-IsConsistent :
      (m : ℕ) (r : ℕ) (s : Sched) (owned : ℕ → List ℕ)
      → in_table k r ≡ true
      → IsConsistent k nobody s
      → IsConsistent k nobody (
          if is_empty (s.waiters (s.mutex_waiters m))
          then record s { owned_mutexes = owned }
          else priority_recompute k c
              (unlink k c)
              max_depth
              (some r)
              (record s { owned_mutexes = owned }))
  reprioritized-IsConsistent m r s owned inside h =
      let h' : IsConsistent k nobody (record s { owned_mutexes = owned }) = record {
        ready = h.ready;
        delayed = h.delayed;
        waiting = h.waiting;
      } in
      elim (Bool-cases (is_empty (s.waiters (s.mutex_waiters m)))) [
        | inl alone ↦ rw alone h'
        | inr wanted ↦
            rw wanted (recomputed-IsConsistent (some r) _ (λ q e. ground (arith, e, inside)) h')
      ]

  -- os_task_mutex_owner_unlink_and_reprioritize keeps the lists consistent.
  pub owner_unlink_and_reprioritize-IsConsistent :
      (owner_id m : ℕ) (s : Sched)
      → IsConsistent k nobody s
      → IsConsistent k nobody (owner_unlink_and_reprioritize k c owner_id m s)
  unfolding owner_unlink_and_reprioritize
  owner_unlink_and_reprioritize-IsConsistent owner_id m s h =
      elim (Option-cases (find_by_id k owner_id s)) [
        | inl unknown ↦ rw (unknown, owner_unlink_and_reprioritize) h
        | inr (owner, found) ↦
            rw (found, owner_unlink_and_reprioritize)
              (reprioritized-IsConsistent m owner s _ (in_table-find_by_id k owner_id s found) h)
      ]

  -- os_task_mutex_owner_link by a task of the table, or by one without an id, keeps the lists
  -- consistent.
  pub owner_link-IsConsistent :
      (m : ℕ) (s : Sched)
      → ((r : ℕ) → s.current c.core ≡ some r → (s.id r == 0) ≡ false → in_table k r ≡ true)
      → IsConsistent k nobody s
      → IsConsistent k nobody (owner_link k c m s)
  unfolding owner_link
  owner_link-IsConsistent m s inside h = elim (Option-cases (s.current c.core)) [
    | inl nobody_there ↦ rw (nobody_there, owner_link) h
    | inr (r, e) ↦
        rw (e, owner_link)
          (elim (Bool-cases (s.id r == 0)) [
            | inl idle ↦ rw idle h
            | inr task ↦ rw task (reprioritized-IsConsistent m r s _ (inside r e task) h)
          ])
  ]

  -- os_task_mutex_waiter_depart keeps the lists consistent.
  pub waiter_depart-IsConsistent :
      (s : Sched) → IsConsistent k nobody s → IsConsistent k nobody (waiter_depart k c s)
  unfolding waiter_depart
  waiter_depart-IsConsistent s h = elim (Option-cases (s.current c.core)) [
    | inl nobody_there ↦ rw (nobody_there, waiter_depart) h
    | inr (r, e) ↦
        rw (e, waiter_depart)
          (waiter_depart_tcb-Reordered k c nobody r (unlink k c) unlink-Unlinks s h
            (λ q x. cc)).consistent
  ]
