-- ===== src/Task/Consistent/Unlink.antt =====
-- os_task_unlink of kernel/os_task.c takes a task out of every list, and settles what the tasks
-- that it waited behind were lent.
use ahura_rtos.Shared.{
  ℕ, suc, ◌≡◌, refl, sym, ap, ◌∙◌, subst, fun_ext, Bool, true, false, Option, none, some, arith,
  ◌==◌, update, count-erase_self, count-erase_ne, Bool-cases, Option-cases, inl, inr,
}
use ahura_rtos.Task.State.{Config, Cpu, Sched}
use ahura_rtos.Task.Ids.{find_by_id}
use ahura_rtos.Task.Queues.{wait_node_remove, unlink_state}
use ahura_rtos.Task.Inherit.{
  max_depth, debt_owner, waiter_depart_tcb, unlink_waiter, unlink_depth, unlink,
}
use ahura_rtos.Task.Consistent.Defs.{Waiting, IsConsistent}
use ahura_rtos.Task.Consistent.Moves.{unlink_state_frame, unlink_state-IsConsistent}
use ahura_rtos.Task.Consistent.Waiters.{Descending-erase}
use ahura_rtos.Task.Consistent.Priority.{Unlinks, Dormant}
use ahura_rtos.Task.Consistent.Chain.{Reordered, in_table-find_by_id, priority_recompute-Reordered}

-- The task's own fields after it has left a waiter list.
abbrev pub cleared : ℕ → Sched → Sched
cleared r s = record s {
  pi_owner_id = update s.pi_owner_id r 0;
  blocked_on_mutex = update s.blocked_on_mutex r none;
  blocked_forever = update s.blocked_forever r false;
}

abbrev pub left_waiters : ℕ → ℕ → Sched → Sched
left_waiters list r s =
    let out = wait_node_remove list r s in record out { wait_list = update out.wait_list r none }

module _ (k : Config) (c : Cpu) (ex : ℕ → Bool) (r : ℕ) where
  left_waiters-Waiting :
      (s : Sched) (l : ℕ) → s.wait_list r ≡ some l → Waiting k s → Waiting k (left_waiters l r s)
  unfolding wait_node_remove
  left_waiters-Waiting s l waits h = record {
    listed = λ q l'.
        ground (
          arith,
          h.listed q l',
          count-erase_self r (s.waiters l),
          count-erase_ne q r (s.waiters l),
        );
    blocked_only = λ q l' e. ground (arith, h.blocked_only q l');
    inside = λ q l' e. ground (arith, h.inside q l');
    sorted = λ l'. elim (Bool-cases (l == l')) [
      | inl same ↦ rw same (Descending-erase s.priority r (s.waiters l) (h.sorted l))
      | inr other ↦ rw other (h.sorted l')
    ];
  }

  pub left_waiters-IsConsistent :
      (s : Sched) (l : ℕ)
      → s.wait_list r ≡ some l
      → IsConsistent k ex s
      → IsConsistent k ex (left_waiters l r s)
  unfolding wait_node_remove
  left_waiters-IsConsistent s l waits h = record {
    ready = h.ready;
    delayed = h.delayed;
    waiting = left_waiters-Waiting s l waits h.waiting;
  }

  module _ (unlink_ready : ℕ → Sched → Sched) (unlinks : Unlinks unlink_ready) where
    pub waiter_depart_tcb-Reordered :
        (s : Sched)
        → IsConsistent k ex s
        → Dormant ex s
        → Reordered k ex (cleared r s) (waiter_depart_tcb k c unlink_ready r s)
    unfolding waiter_depart_tcb
    waiter_depart_tcb-Reordered s h dormant =
        let same : IsConsistent k ex (cleared r s) = record {
          ready = h.ready;
          delayed = h.delayed;
          waiting = h.waiting;
        } in
        elim (Bool-cases (debt_owner r s == 0)) [
          | inl nobody ↦ rw nobody (record { consistent = same; kept = refl })
          | inr owed ↦ rw owed (
              priority_recompute-Reordered k c ex unlink_ready unlinks max_depth
                (find_by_id k (debt_owner r s) (cleared r s)) (cleared r s)
                (λ q. in_table-find_by_id k (debt_owner r s) (cleared r s)) same dormant)
        ]

update-none : (f : ℕ → Option ℕ) (r : ℕ) → f r ≡ none → f ≡ update f r none
update-none f r e = fun_ext λ q. ground (arith, e)

-- The task is in no list; the other fields that the callers read are as they were.
pub record Unlinked (k : Config) (ex : ℕ → Bool) (r : ℕ) (s t : Sched) : Type 0 where
  pub consistent : IsConsistent k (update ex r true) t
  pub free : t.wait_list r ≡ none
  pub waits : t.wait_list ≡ update s.wait_list r none
  pub state : t.state ≡ s.state
  pub delay_list : t.delay_list ≡ (unlink_state r s).delay_list
  pub delay_ticks : t.delay_ticks ≡ (unlink_state r s).delay_ticks
  pub current : t.current ≡ s.current
  pub kernel_running : t.kernel_running ≡ s.kernel_running

module _ (k : Config) (c : Cpu) where
  -- A task that waits for nothing only leaves the list of its state.
  pub unlink_depth-Unlinks : (depth : ℕ) → Unlinks (unlink_depth k c (suc depth))
  unfolding unlink_depth unlink_waiter
  unlink_depth-Unlinks depth r s free =
      let still : (unlink_state r s).wait_list r ≡ none =
        subst (λ (t : Sched). t.wait_list r ≡ none) (sym (unlink_state_frame r s)) free in
      rw (still, unlink_waiter)

  module _ (ex : ℕ → Bool) (r : ℕ) (s : Sched) where
    Unlinked-alone :
        IsConsistent k (update ex r true) (unlink_state r s)
        → (unlink_state r s).wait_list r ≡ none
        → Unlinked k ex r s (unlink_state r s)
    Unlinked-alone h free = record {
      consistent = h;
      free = free;
      waits =
          update-none (unlink_state r s).wait_list r free
          ∙ ap (λ f. update f r none) (ap (λ t. t.wait_list) (unlink_state_frame r s));
      state = ap (λ t. t.state) (unlink_state_frame r s);
      delay_list = refl;
      delay_ticks = refl;
      current = ap (λ t. t.current) (unlink_state_frame r s);
      kernel_running = ap (λ t. t.kernel_running) (unlink_state_frame r s);
    }

    Unlinked-waiter :
        (l : ℕ) (t : Sched)
        → Reordered k (update ex r true) (cleared r (left_waiters l r (unlink_state r s))) t
        → Unlinked k ex r s t
    unfolding wait_node_remove
    Unlinked-waiter l t e =
        let frame = unlink_state_frame r s in
        record {
          consistent = e.consistent;
          free = subst (λ (u : Sched). u.wait_list r ≡ none) (sym e.kept) (ground arith);
          waits =
              ap (λ u. u.wait_list) e.kept
              ∙ ap (λ f. update f r none) (ap (λ u. u.wait_list) frame);
          state = ap (λ u. u.state) e.kept ∙ ap (λ u. u.state) frame;
          delay_list = ap (λ u. u.delay_list) e.kept;
          delay_ticks = ap (λ u. u.delay_ticks) e.kept;
          current = ap (λ u. u.current) e.kept ∙ ap (λ u. u.current) frame;
          kernel_running = ap (λ u. u.kernel_running) e.kept ∙ ap (λ u. u.kernel_running) frame;
        }

    pub left_waiters-Dormant :
        (l : ℕ)
        → (unlink_state r s).wait_list r ≡ some l
        → IsConsistent k (update ex r true) (unlink_state r s)
        → Dormant ex s
        → Dormant (update ex r true) (left_waiters l r (unlink_state r s))
    unfolding wait_node_remove
    left_waiters-Dormant l waits h dormant q e = ground (
      arith,
      h.waiting.blocked_only r l waits,
      dormant q,
      ap (λ (u : Sched). u.state q) (unlink_state_frame r s),
    )

    -- A task that is in its lists; one in a waiter list is blocked, so not ready.
    unlink_depth-Unlinked :
        (depth : ℕ)
        → ex r ≡ false
        → Dormant ex s
        → IsConsistent k ex s
        → Unlinked k ex r s (unlink_depth k c (suc (suc depth)) r s)
    unfolding unlink_depth unlink_waiter
    unlink_depth-Unlinked depth unmarked dormant h =
        let out = unlink_state r s in
        let h' = unlink_state-IsConsistent k ex r s unmarked h in
        elim (Option-cases (out.wait_list r)) [
          | inl free ↦ rw (free, unlink_waiter) (Unlinked-alone h' free)
          | inr (l, waits) ↦
              rw (waits, unlink_waiter)
                (Unlinked-waiter l _ (
                  waiter_depart_tcb-Reordered k c (update ex r true) r
                    (unlink_depth k c (suc depth)) (unlink_depth-Unlinks depth)
                    (left_waiters l r out)
                    (left_waiters-IsConsistent k c (update ex r true) r out l waits h')
                    (left_waiters-Dormant l waits h' dormant)))
        ]

  -- os_task_unlink takes a task out of all lists, and leaves the lists consistent.
  pub unlink-Unlinked :
      (ex : ℕ → Bool) (r : ℕ) (s : Sched)
      → ex r ≡ false
      → Dormant ex s
      → IsConsistent k ex s
      → Unlinked k ex r s (unlink k c r s)
  unfolding unlink
  unlink-Unlinked ex r s unmarked dormant h = unlink_depth-Unlinked ex r s 0 unmarked dormant h
