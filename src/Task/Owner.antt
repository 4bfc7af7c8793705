-- ===== src/Task/Owner.antt =====
-- What kernel/os_mutex.c calls of kernel/os_task_mutex.c: os_task_mutex_owner_link,
-- os_task_mutex_priority_inherit, os_task_mutex_owner_unlink_and_reprioritize,
-- os_task_mutex_blocked_on_set and the verdict of os_task_mutex_deadlock_check.
use ahura_rtos.Shared.{
  ℕ, zero, suc, Bool, true, false, Option, none, some, [], ◌∷◌, ◌++◌, if◌then◌else◌, ltb, ◌==◌,
  update, erase, is_empty,
}
use ahura_rtos.Task.State.{Config, Cpu, Sched}
use ahura_rtos.Task.Ids.{find_by_id}
use ahura_rtos.Task.Inherit.{max_depth, effective_priority_set, priority_recompute, unlink}

module _ (k : Config) (c : Cpu) where
  unfoldable pub owner_link : ℕ → Sched → Sched
  owner_link m s = elim (s.current c.core) [
    | none ↦ s
    | some r ↦
        let linked : Sched = record s {
          owned_mutexes = update s.owned_mutexes r (s.owned_mutexes r ++ m ∷ []);
        } in
        if s.id r == 0
        then s
        else (if is_empty (s.waiters (s.mutex_waiters m))
            then linked
            else priority_recompute k c (unlink k c) max_depth (some r) linked)
  ]

  -- The boost of an owner by a waiter of higher priority, and of those that the owner waits behind.
  unfoldable pub boost : ℕ → ℕ → Sched → Sched
  boost r owner s =
      let raised = effective_priority_set k c (unlink k c) owner (s.priority r) s in
      elim (raised.blocked_on_mutex owner) [
        | none ↦ raised
        | some m ↦
            priority_recompute k c (unlink k c) max_depth
              (find_by_id k (raised.mutex_owner_id m) raised) raised
      ]

  unfoldable pub priority_inherit : ℕ → Sched → Sched
  priority_inherit owner_id s = elim (s.current c.core) [
    | none ↦ s
    | some r ↦ elim (find_by_id k owner_id s) [
      | none ↦ s
      | some owner ↦
          let marked : Sched = record s { pi_owner_id = update s.pi_owner_id r owner_id } in
          if ltb (s.priority owner) (s.priority r) then boost r owner marked else marked
    ]
  ]

  unfoldable pub owner_unlink_and_reprioritize : ℕ → ℕ → Sched → Sched
  owner_unlink_and_reprioritize owner_id m s = elim (find_by_id k owner_id s) [
    | none ↦ s
    | some owner ↦
        let released : Sched = record s {
          owned_mutexes = update s.owned_mutexes owner (erase m (s.owned_mutexes owner));
        } in
        if is_empty (s.waiters (s.mutex_waiters m))
        then released
        else priority_recompute k c (unlink k c) max_depth (some owner) released
  ]

  unfoldable pub blocked_on_set : Option ℕ → Bool → Sched → Sched
  blocked_on_set mutex forever s = elim (s.current c.core) [
    | none ↦ s
    | some r ↦ record s {
      blocked_on_mutex = update s.blocked_on_mutex r mutex;
      blocked_forever = update s.blocked_forever r forever;
    }
  ]

  -- The walk of os_task_mutex_deadlock_check for a task, with the links that may still be followed.
  unfoldable pub deadlock_walk : ℕ → ℕ → Option ℕ → Sched → Bool
  deadlock_walk zero r link s = false
  deadlock_walk (suc depth) r none s = false
  deadlock_walk (suc depth) r (some m) s = elim (find_by_id k (s.mutex_owner_id m) s) [
    | none ↦ false
    | some owner ↦
        let rest =
          deadlock_walk depth r (if s.blocked_forever owner then s.blocked_on_mutex owner else none)
            s in
        if owner == r then true else rest
  ]

  unfoldable pub deadlock_check : ℕ → Sched → Bool
  deadlock_check mutex s = elim (s.current c.core) [
    | none ↦ false
    | some r ↦ deadlock_walk max_depth r (some mutex) s
  ]
