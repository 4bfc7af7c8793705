-- ===== src/Task/Consistent/Wakes.antt =====
-- Waking several waiters keeps the lists consistent (kernel/os_task.c: os_task_waiters_wake_all,
-- os_task_waiters_wake_match).
use ahura_rtos.Shared.{
  ℕ, zero, suc, ◌+◌, ◌≤◌, ◌<◌, ◌≡◌, ◌≢◌, refl, ap, subst, points_to, none, erase, length,
  length-erase, length_of_count, count-erase_self, count-erase_ne, true, false, List, [], ◌∷◌,
  arith, if◌then◌else◌, ◌==◌, update, count, Bool-cases, inl, inr,
}
use ahura_rtos.Task.State.{ready, Config, Cpu, Sched, in_table}
use ahura_rtos.Task.Port.{preempt_if_running}
use ahura_rtos.Task.Queues.{make_ready}
use ahura_rtos.Task.Wait.{
  Match, deliver, signal, wake_first, wake_one, wake_all, wake_all_from, wake_match_walk,
  wake_match,
}
use ahura_rtos.Task.Consistent.Defs.{IsConsistent, nobody}
use ahura_rtos.Task.Consistent.Defs.{Descending}
use ahura_rtos.Task.Consistent.Waiters.{Descending-head}
use ahura_rtos.Task.Consistent.Unlink.{unlink-Unlinked}
use ahura_rtos.Task.Consistent.Wake.{
  readied-IsConsistent, wake_one-IsConsistent, in_table_of_count, count-head, signal-IsConsistent,
}

module _ (k : Config) (c : Cpu) where
  -- os_task_waiters_wake_all, however many waiters it wakes.
  pub wake_all_from-IsConsistent :
      (left list : ℕ) (s : Sched)
      → IsConsistent k nobody s
      → IsConsistent k nobody (wake_all_from k c left list s)
  unfolding wake_all_from
  wake_all_from-IsConsistent zero list s h = h
  wake_all_from-IsConsistent (suc left) list s h =
      let h' = wake_one-IsConsistent k c list s h in
      elim (Bool-cases (wake_one k c list s).0) [
        | inl woken ↦ rw woken (wake_all_from-IsConsistent left list (wake_one k c list s).1 h')
        | inr gone ↦ rw gone h'
      ]

  signal_waits :
      (list r : ℕ) (s : Sched)
      → IsConsistent k nobody s
      → (signal k c list r s).wait_list ≡ update s.wait_list r none
  unfolding signal make_ready preempt_if_running
  signal_waits list r s h = (unlink-Unlinked k c nobody r s refl (λ q e. cc) h).waits

  signal_leaves :
      (list r : ℕ) (s : Sched)
      → IsConsistent k nobody s
      → count r (s.waiters list) ≢ 0
      → (q : ℕ)
      → count q ((signal k c list r s).waiters list)
        ≡ (if r == q then 0 else count q (s.waiters list))
  signal_leaves list r s h stands q =
      let h' = signal-IsConsistent k c list r s (in_table_of_count k nobody s r list h stands) h in
      let gone = signal_waits list r s h in
      ground (arith, h'.waiting.listed q list, h.waiting.listed q list, ap (λ f. f q) gone)

  -- The list of a waiter that is woken is shorter by one.
  signal_shorter :
      (list r : ℕ) (s : Sched)
      → IsConsistent k nobody s
      → count r (s.waiters list) ≢ 0
      → suc (length ((signal k c list r s).waiters list)) ≡ length (s.waiters list)
  signal_shorter list r s h stands =
      let t = signal k c list r s in
      let same = length_of_count (t.waiters list) (erase r (s.waiters list)) (λ q. ground (
        arith,
        h.waiting.listed r list,
        signal_leaves list r s h stands q,
        count-erase_self r (s.waiters list),
        count-erase_ne q r (s.waiters list),
      )) in
      ground (arith, same, length-erase r (s.waiters list) stands)

  signal_state : (list r : ℕ) (s : Sched) → (signal k c list r s).state r ≡ ready
  unfolding signal make_ready preempt_if_running
  signal_state list r s = ground arith

  signal_signaled : (list r : ℕ) (s : Sched) → (signal k c list r s).wait_signaled r ≡ true
  unfolding signal make_ready preempt_if_running
  signal_signaled list r s = ground arith

  -- In a consistent state, with a task in the list: os_task_waiters_wake_one makes the first waiter
  -- ready, marks it signaled and takes it off the list, in which all others stay; it alone names the
  -- list no longer, no waiter has a higher priority than that one, and the lists are consistent.
  pub wake_one-highest :
      (list r : ℕ) (rs : List ℕ) (s : Sched)
      → IsConsistent k nobody s
      → s.waiters list ≡ r ∷ rs
      → (let (woken, t) = wake_one k c list s in
          (woken ≡ true)
          × (t.state r ≡ ready)
          × (t.wait_signaled r ≡ true)
          × (t.wait_list ≡ update s.wait_list r none)
          × IsConsistent k nobody t
          × ((q : ℕ) → count q (t.waiters list) ≡ (if r == q then 0 else count q (s.waiters list)))
          × ((q : ℕ) → count q (s.waiters list) ≢ 0 → s.priority q ≤ s.priority r))
  unfolding wake_one wake_first
  wake_one-highest list r rs s h front =
      rw (front, wake_one, wake_first)
        (
          refl,
          signal_state list r s,
          signal_signaled list r s,
          signal_waits list r s h,
          rw (front, wake_one, wake_first) at (wake_one-IsConsistent k c list s h),
          λ q. rw front at (signal_leaves list r s h (rw front (count-head r rs)) q),
          λ q stands.
              Descending-head s.priority r rs q
                (subst (Descending s.priority) front (h.waiting.sorted list)) stands,
        )

  wake_first_shorter :
      (list : ℕ) (rs : List ℕ) (s : Sched)
      → s.waiters list ≡ rs
      → IsConsistent k nobody s
      → (wake_first k c list rs s).0 ≡ true
      → suc (length ((wake_first k c list rs s).1.waiters list)) ≡ length (s.waiters list)
  unfolding wake_first
  wake_first_shorter list [] s e h woken = ground (arith, woken)
  wake_first_shorter list (r ∷ rs) s e h woken = signal_shorter list r s h (rw e (count-head r rs))

  wake_first_last :
      (list : ℕ) (rs : List ℕ) (s : Sched)
      → s.waiters list ≡ rs
      → (wake_first k c list rs s).0 ≡ false
      → (wake_first k c list rs s).1.waiters list ≡ []
  unfolding wake_first
  wake_first_last list [] s e gone = e
  wake_first_last list (r ∷ rs) s e gone = ground (arith, gone)

  wake_all_from-empties :
      (left list : ℕ) (s : Sched)
      → IsConsistent k nobody s
      → length (s.waiters list) < left
      → (wake_all_from k c left list s).waiters list ≡ []
  unfolding wake_all_from wake_one
  wake_all_from-empties zero list s h enough = ground (arith, enough)
  wake_all_from-empties (suc left) list s h enough =
      elim (Bool-cases (wake_first k c list (s.waiters list) s).0) [
        | inl woken ↦ rw woken (
            wake_all_from-empties left list (wake_one k c list s).1
              (wake_one-IsConsistent k c list s h)
              (ground (arith, enough, wake_first_shorter list (s.waiters list) s refl h woken)))
        | inr gone ↦ rw gone (wake_first_last list (s.waiters list) s refl gone)
      ]

  pub wake_all-IsConsistent :
      (list : ℕ) (s : Sched) → IsConsistent k nobody s → IsConsistent k nobody (wake_all k c list s)
  unfolding wake_all
  wake_all-IsConsistent list s h = wake_all_from-IsConsistent (length (s.waiters list) + 1) list s h

  -- In a consistent state os_task_waiters_wake_all ends with nobody in the list, and nobody who names
  -- it.
  pub wake_all-empties :
      (list : ℕ) (s : Sched)
      → IsConsistent k nobody s
      → ((wake_all k c list s).waiters list ≡ [])
        × ((q : ℕ) → points_to ((wake_all k c list s).wait_list q) list ≡ false)
  unfolding wake_all
  wake_all-empties list s h =
      let empty = wake_all_from-empties (length (s.waiters list) + 1) list s h (omega arith) in
      let h' = wake_all_from-IsConsistent (length (s.waiters list) + 1) list s h in
      (empty, λ q. ground (arith, ap (λ l. count q l) empty, h'.waiting.listed q list))

  pub deliver-IsConsistent :
      (list r result : ℕ) (s : Sched)
      → in_table k r ≡ true
      → IsConsistent k nobody s
      → IsConsistent k nobody (deliver k c list r result s)
  unfolding deliver
  deliver-IsConsistent list r result s inside h =
      let u = unlink-Unlinked k c nobody r s refl (λ q e. cc) h in
      readied-IsConsistent k c r _ inside u.free (record {
        ready = u.consistent.ready;
        delayed = u.consistent.delayed;
        waiting = u.consistent.waiting;
      })

  module _ {X : Type 0} (match : ℕ → ℕ → X → Match X) (list : ℕ) where
    wake_match_walk-IsConsistent :
        (rs : List ℕ) (x : X) (s : Sched)
        → ((q : ℕ) → count q rs ≢ 0 → in_table k q ≡ true)
        → IsConsistent k nobody s
        → IsConsistent k nobody (wake_match_walk k c match list rs x s).2
    unfolding wake_match_walk
    wake_match_walk-IsConsistent [] x s inside h = h
    wake_match_walk-IsConsistent (r ∷ rs) x s inside h =
        let m = match (s.wait_data0 r) (s.wait_data1 r) x in
        wake_match_walk-IsConsistent rs m.context
          (if m.satisfied then deliver k c list r m.result s else s)
          (λ q stands. inside q (ground (arith, stands)))
          (elim (Bool-cases m.satisfied) [
            | inl woken ↦
                rw woken (deliver-IsConsistent list r m.result s (inside r (count-head r rs)) h)
            | inr passed ↦ rw passed h
          ])

    -- os_task_waiters_wake_match, whatever its callback answers.
    pub wake_match-IsConsistent :
        (x : X) (s : Sched)
        → IsConsistent k nobody s
        → IsConsistent k nobody (wake_match k c match list x s).2
    unfolding wake_match
    wake_match-IsConsistent x s h =
        wake_match_walk-IsConsistent (s.waiters list) x s
          (λ q. in_table_of_count k nobody s q list h) h
