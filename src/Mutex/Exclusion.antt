-- ===== src/Mutex/Exclusion.antt =====
-- Mutual exclusion: who holds a mutex of kernel/os_mutex.c over any sequence of calls.
use ahura_rtos.Shared.{
  ℕ, suc, ◌≡◌, ◌≢◌, refl, ap, ◌∙◌, true, false, not, ◌&&◌, ◌||◌, some, List, [], ◌∷◌, arith,
  if◌then◌else◌, ◌==◌, update, erase, Bool-cases, inl, inr,
}
use ahura_rtos.Status.{Status, ok, wait_forever}
use ahura_rtos.Task.State.{Config, Cpu, Sched}
use ahura_rtos.Task.Owner.{
  owner_link, priority_inherit, owner_unlink_and_reprioritize, blocked_on_set,
}
use ahura_rtos.Task.Inherit.{waiter_depart}
use ahura_rtos.Task.Wait.{wait_signaled, wake_one}
use ahura_rtos.Task.Query.{current_id_get}
use ahura_rtos.Blocking.{World, Verdict, done, nonblocking}
use ahura_rtos.Mutex.Defs.{
  mutex_set, give_up, acquire, queue_up, lock_pass, lock_resume, release, unlock,
}
use ahura_rtos.Task.Keeps.{
  mutexes_of, waiter_depart-Keeps, owner_link-Keeps, priority_inherit-Keeps, owner_unlink-Keeps,
  blocked_on_set-Keeps, wait_end-Keeps, wait_begin-Keeps, wake_one-Keeps,
}

module _ (k : Config) (c : Cpu) where
  give_up-kept : (w : World ℕ) → mutexes_of (give_up k c w).sched ≡ mutexes_of w.sched
  unfolding give_up
  give_up-kept w =
      wait_end-Keeps k c (waiter_depart k c w.sched)
      ∙ ap (λ u. u.mutexes) (waiter_depart-Keeps k c w.sched)

  acquire-kept :
      (self_id : ℕ) (w : World ℕ)
      → mutexes_of (acquire k c self_id w).sched
        ≡ mutexes_of (mutex_set w.object true self_id w.sched)
  unfolding acquire
  acquire-kept self_id w =
      let taken = mutex_set w.object true self_id w.sched in
      wait_end-Keeps k c (owner_link k c w.object taken)
      ∙ ap (λ u. u.mutexes) (owner_link-Keeps k c w.object taken)

  queue_up-kept :
      (timeout_ms n : ℕ) (w : World ℕ)
      → mutexes_of (queue_up k c timeout_ms n w).sched ≡ mutexes_of w.sched
  unfolding queue_up
  queue_up-kept timeout_ms n w =
      let m = w.object in
      let lent = priority_inherit k c (w.sched.mutex_owner_id m) w.sched in
      let marked = blocked_on_set k c (some m) (timeout_ms == wait_forever) lent in
      wait_begin-Keeps k c (marked.mutex_waiters m) n marked
      ∙ ap (λ u. u.mutexes) (blocked_on_set-Keeps k c (some m) (timeout_ms == wait_forever) lent)
      ∙ ap (λ u. u.mutexes) (priority_inherit-Keeps k c (w.sched.mutex_owner_id m) w.sched)

  release-kept :
      (m : ℕ) (w : World ℕ)
      → mutexes_of (release k c m w).sched ≡ mutexes_of (mutex_set m false 0 w.sched)
  unfolding release
  release-kept m w =
      let owner_id = w.sched.mutex_owner_id m in
      let freed = mutex_set m false 0 w.sched in
      let parted = owner_unlink_and_reprioritize k c owner_id m freed in
      wake_one-Keeps k c (parted.mutex_waiters m) parted
      ∙ ap (λ u. u.mutexes) (owner_unlink-Keeps k c owner_id m freed)

-- The tasks that were given the mutex and have not given it back.
abbrev pub granted : ℕ → Verdict → List ℕ → List ℕ
granted self_id (done ok) ids = self_id ∷ ids
granted self_id _ ids = ids

-- A task gives back what it was given; before the kernel runs, the caller is nobody.
abbrev pub released : ℕ → ℕ → Status → List ℕ → List ℕ
released self_id owner_id ok ids = erase (if self_id == 0 then owner_id else self_id) ids
released self_id owner_id _ ids = ids

-- Any sequence of passes of os_mutex_lock, of what it does when its task runs again and of calls of
-- os_mutex_unlock, by any tasks on any cores, while the others do anything to the scheduler but
-- leave the mutex to these calls; and the tasks that were given the mutex and have not given it
-- back. The id of a task is not 0.
pub data Run (k : Config) (w : World ℕ) : List ℕ → World ℕ → Type 0 where
  start : Run k w [] w
  locks_pass :
      {ids : List ℕ} {v : World ℕ} (c : Cpu) (id timeout_ms remaining : ℕ)
      → Run k w ids v
      → Run k w
          (granted (suc id) (lock_pass k c (suc id) timeout_ms remaining v).0 ids)
          (lock_pass k c (suc id) timeout_ms remaining v).1
  resumes :
      {ids : List ℕ} {v : World ℕ} (c : Cpu) (budget origin : ℕ)
      → Run k w ids v
      → Run k w ids (lock_resume k c budget origin v).2
  unlocks :
      {ids : List ℕ} {v : World ℕ} (c : Cpu)
      → Run k w ids v
      → Run k w
          (released
            (current_id_get k c v.sched)
            (v.sched.mutex_owner_id v.object)
            (unlock k c v).0
            ids)
          (unlock k c v).1
  others :
      {ids : List ℕ} {v : World ℕ} (s : Sched) (now : ℕ)
      → Run k w ids v
      → Run k w ids (record v {
        now = now;
        sched = record s {
          mutex_locked = update s.mutex_locked v.object (v.sched.mutex_locked v.object);
          mutex_owner_id = update s.mutex_owner_id v.object (v.sched.mutex_owner_id v.object);
        };
      })

-- The mutex is locked exactly while one task has it, whose id it holds.
pub record Exclusive (ids : List ℕ) (v : World ℕ) : Type 0 where
  pub held :
      ids ≡ (if v.sched.mutex_locked v.object then v.sched.mutex_owner_id v.object ∷ [] else [])
  pub owned : v.sched.mutex_locked v.object ≡ true → v.sched.mutex_owner_id v.object ≢ 0

-- As a mutex goes, so does who holds it.
same-Exclusive :
    (ids : List ℕ) (v v' : World ℕ)
    → v'.object ≡ v.object
    → mutexes_of v'.sched ≡ mutexes_of v.sched
    → Exclusive ids v
    → Exclusive ids v'
same-Exclusive ids v v' o e x =
    let locked = ap (λ l. l.locked v'.object) e in
    let owner = ap (λ l. l.owner_id v'.object) e in
    record {
      held = ground (arith, o, locked, owner, x.held);
      owned = λ h. ground (arith, o, locked, owner, h, x.owned);
    }

module _ (k : Config) (c : Cpu) (ids : List ℕ) (v : World ℕ) (x : Exclusive ids v) where
  give_up-Exclusive : Exclusive ids (give_up k c v)
  unfolding give_up
  give_up-Exclusive = same-Exclusive ids v (give_up k c v) refl (give_up-kept k c v) x

  lock_pass-Exclusive :
      (id timeout_ms n : ℕ)
      → Exclusive
          (granted (suc id) (lock_pass k c (suc id) timeout_ms n v).0 ids)
          (lock_pass k c (suc id) timeout_ms n v).1
  unfolding lock_pass acquire queue_up
  lock_pass-Exclusive id timeout_ms n = elim (Bool-cases (v.sched.mutex_locked v.object)) [
    | inl locked ↦
        elim (Bool-cases (
          (not (suc id == 0) && v.sched.mutex_owner_id v.object == suc id)
          || nonblocking c timeout_ms v.sched)) [
            | inl at_once ↦ rw (lock_pass, locked, at_once) give_up-Exclusive
            | inr may_wait ↦ elim (Bool-cases (n == 0)) [
              | inl late ↦ rw (lock_pass, locked, may_wait, late) give_up-Exclusive
              | inr early ↦
                  rw (lock_pass, locked, may_wait, early)
                    (same-Exclusive ids v (queue_up k c timeout_ms n v) refl
                      (queue_up-kept k c timeout_ms n v) x)
            ]
          ]
    | inr free ↦
        let e = acquire-kept k c (suc id) v in
        let locked = ap (λ l. l.locked v.object) e in
        let owner = ap (λ l. l.owner_id v.object) e in
        rw (lock_pass, free)
          (record {
            held = ground (arith, locked, owner, x.held, free);
            owned = λ h. ground (arith, owner);
          })
  ]

  unlock-Exclusive :
      Exclusive
        (released
          (current_id_get k c v.sched)
          (v.sched.mutex_owner_id v.object)
          (unlock k c v).0
          ids)
        (unlock k c v).1
  unfolding unlock release current_id_get wake_one
  unlock-Exclusive =
      let self_id = current_id_get k c v.sched in
      let owner_id = v.sched.mutex_owner_id v.object in
      elim (Bool-cases c.in_isr) [
        | inl from_isr ↦ rw (unlock, from_isr) x
        | inr from_task ↦ elim (Bool-cases (v.sched.mutex_locked v.object)) [
          | inr free ↦ rw (unlock, from_task, free) x
          | inl locked ↦
              elim (Bool-cases
                (not (owner_id == 0) && (not (self_id == 0) && not (owner_id == self_id)))) [
                  | inl foreign ↦ rw (unlock, from_task, locked, foreign) x
                  | inr own ↦
                      let e = release-kept k c v.object v in
                      let gone = ap (λ l. l.locked v.object) e in
                      rw (unlock, from_task, locked, own)
                        (record {
                          held = ground (arith, gone, x.held, x.owned, locked, own);
                          owned = λ h. ground (arith, gone, h);
                        })
                ]
        ]
      ]

  lock_resume-Exclusive : (budget origin : ℕ) → Exclusive ids (lock_resume k c budget origin v).2
  unfolding lock_resume
  lock_resume-Exclusive budget origin = elim (Bool-cases (wait_signaled k c v.sched)) [
    | inl signaled ↦ rw (lock_resume, signaled) x
    | inr silent ↦ rw (lock_resume, silent) give_up-Exclusive
  ]

-- A mutex that begins unlocked is held by at most one task at any time: after any sequence of calls
-- by any tasks, the tasks that were given it and have not given it back are none if it is
-- unlocked, and else the one whose id it holds. So no pass grants a held mutex, and no unlock of a
-- task takes it from another.
pub Run-Exclusive :
    (k : Config) (w : World ℕ) {ids : List ℕ} {v : World ℕ}
    → w.sched.mutex_locked w.object ≡ false
    → Run k w ids v
    → Exclusive ids v
Run-Exclusive k w free start = record {
  held = ground (arith, free);
  owned = λ h. ground (arith, h, free);
}
Run-Exclusive k w free (locks_pass {ids} {v} c id timeout_ms n run) =
    lock_pass-Exclusive k c ids v (Run-Exclusive k w free run) id timeout_ms n
Run-Exclusive k w free (resumes {ids} {v} c budget origin run) =
    lock_resume-Exclusive k c ids v (Run-Exclusive k w free run) budget origin
Run-Exclusive k w free (unlocks {ids} {v} c run) =
    unlock-Exclusive k c ids v (Run-Exclusive k w free run)
Run-Exclusive k w free (others {ids} {v} s now run) =
    let x = Run-Exclusive k w free run in
    record { held = ground (arith, x.held); owned = λ h. ground (arith, h, x.owned) }
