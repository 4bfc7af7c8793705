-- ===== src/Task/Consistent/Wake.antt =====
-- Waking keeps the lists consistent: os_task_waiters_wake_one and the others of kernel/os_task.c
-- that take a waiter or a sleeper out of its lists and make it ready.
use ahura_rtos.Shared.{
  ℕ, ◌≡◌, ◌≢◌, refl, subst, Bool, true, ◌&&◌, none, some, List, [], ◌∷◌, arith, update, count,
  Bool-cases, Option-cases, inl, inr,
}
use ahura_rtos.Task.State.{is_ready, is_blocked, Config, Cpu, Sched, in_table}
use ahura_rtos.Task.Port.{preempt_if_running}
use ahura_rtos.Task.Ids.{find_by_id}
use ahura_rtos.Task.Queues.{make_ready}
use ahura_rtos.Task.Wait.{wake_locked, wake, signal, wake_first, wake_one, wake_compensate}
use ahura_rtos.Task.Consistent.Defs.{IsConsistent, nobody}
use ahura_rtos.Task.Consistent.Moves.{make_ready-IsConsistent}
use ahura_rtos.Task.Consistent.Priority.{preempt-IsConsistent, update-update_back}
use ahura_rtos.Task.Consistent.Chain.{in_table-find_by_id}
use ahura_rtos.Task.Consistent.Unlink.{unlink-Unlinked}

-- The first waiter of a list is one that waits in it.
pub count-head : (r : ℕ) (rs : List ℕ) → count r (r ∷ rs) ≢ 0
count-head r rs = ground arith

-- Whoever stands in a waiter list names it.
pub wait_list_of_count :
    (k : Config) (ex : ℕ → Bool) (s : Sched) (r l : ℕ)
    → IsConsistent k ex s
    → count r (s.waiters l) ≢ 0
    → s.wait_list r ≡ some l
wait_list_of_count k ex s r l h stands = ground (arith, h.waiting.listed r l)

pub in_table_of_count :
    (k : Config) (ex : ℕ → Bool) (s : Sched) (r l : ℕ)
    → IsConsistent k ex s
    → count r (s.waiters l) ≢ 0
    → in_table k r ≡ true
in_table_of_count k ex s r l h stands =
    h.waiting.inside r l (wait_list_of_count k ex s r l h stands)

module _ (k : Config) (c : Cpu) where
  -- A task that is in no list is made ready and may preempt.
  pub readied-IsConsistent :
      (r : ℕ) (s : Sched)
      → in_table k r ≡ true
      → s.wait_list r ≡ none
      → IsConsistent k (update nobody r true) s
      → IsConsistent k nobody (preempt_if_running k c r (make_ready r s))
  readied-IsConsistent r s inside free h =
      preempt-IsConsistent k c nobody (make_ready r s)
        (subst (λ e. IsConsistent k e (make_ready r s)) (update-update_back nobody r refl)
          (make_ready-IsConsistent k (update nobody r true) r s inside (==_refl_update r) free h))
        r
    where
      ==_refl_update : (q : ℕ) → update nobody q true q ≡ true
      ==_refl_update q = ground arith

  -- The waiter that a list's object signals.
  pub signal-IsConsistent :
      (list r : ℕ) (s : Sched)
      → in_table k r ≡ true
      → IsConsistent k nobody s
      → IsConsistent k nobody (signal k c list r s)
  unfolding signal
  signal-IsConsistent list r s inside h =
      let u = unlink-Unlinked k c nobody r s refl (λ q e. cc) h in
      readied-IsConsistent r _ inside u.free (record {
        ready = u.consistent.ready;
        delayed = u.consistent.delayed;
        waiting = u.consistent.waiting;
      })

  pub wake_first-IsConsistent :
      (list : ℕ) (rs : List ℕ) (s : Sched)
      → s.waiters list ≡ rs
      → IsConsistent k nobody s
      → IsConsistent k nobody (wake_first k c list rs s).1
  unfolding wake_first
  wake_first-IsConsistent list [] s e h = h
  wake_first-IsConsistent list (r ∷ rs) s e h =
      signal-IsConsistent list r s (in_table_of_count k nobody s r list h (rw e (count-head r rs)))
        h

  -- os_task_waiters_wake_one
  pub wake_one-IsConsistent :
      (list : ℕ) (s : Sched)
      → IsConsistent k nobody s
      → IsConsistent k nobody (wake_one k c list s).1
  unfolding wake_one
  wake_one-IsConsistent list s h = wake_first-IsConsistent list (s.waiters list) s refl h

  pub wake_locked-IsConsistent :
      (r : ℕ) (s : Sched)
      → in_table k r ≡ true
      → IsConsistent k nobody s
      → IsConsistent k nobody (wake_locked k c r s)
  unfolding wake_locked
  wake_locked-IsConsistent r s inside h = elim (Bool-cases (is_blocked (s.state r))) [
    | inl is ↦
        let u = unlink-Unlinked k c nobody r s refl (λ q e. cc) h in
        rw is (
          readied-IsConsistent r _ inside u.free (record {
            ready = u.consistent.ready;
            delayed = u.consistent.delayed;
            waiting = u.consistent.waiting;
          }))
    | inr isnt ↦ rw isnt h
  ]

  -- os_task_wake
  pub wake-IsConsistent :
      (id : ℕ) (s : Sched) → IsConsistent k nobody s → IsConsistent k nobody (wake k c id s)
  unfolding wake
  wake-IsConsistent id s h = elim (Option-cases (find_by_id k id s)) [
    | inl unknown ↦ rw (unknown, wake) h
    | inr (r, found) ↦
        rw (found, wake) (wake_locked-IsConsistent r s (in_table-find_by_id k id s found) h)
  ]

  -- os_task_wake_compensate
  pub wake_compensate-IsConsistent :
      (r : ℕ) (s : Sched)
      → IsConsistent k nobody s
      → IsConsistent k nobody (wake_compensate k c r s)
  unfolding wake_compensate
  wake_compensate-IsConsistent r s h = elim (Option-cases (s.woken_from r)) [
    | inl fresh ↦ rw (fresh, wake_compensate) h
    | inr (list, from) ↦
        rw (from, wake_compensate)
          (elim (Bool-cases (is_ready (s.state r) && s.wait_signaled r)) [
            | inl pending ↦ rw pending (
                wake_one-IsConsistent list _
                  (record { ready = h.ready; delayed = h.delayed; waiting = h.waiting }))
            | inr consumed ↦ rw consumed h
          ])
  ]
