-- ===== src/Notify/Mailbox.antt =====
-- A task's notifications are a mailbox for one value, the last one given (kernel/os_notify.c).
use ahura_rtos.Shared.{
  ℕ, ◌≡◌, refl, true, false, ◌&&◌, ◌||◌, Option, none, some, arith, if◌then◌else◌, ◌==◌, update,
  is_null, Bool-cases, inl, inr,
}
use ahura_rtos.Status.{ok, empty, timeout}
use ahura_rtos.Task.State.{ready, is_blocked, Config, Cpu, Sched}
use ahura_rtos.Task.Port.{preempt_if_running}
use ahura_rtos.Task.Queues.{make_ready}
use ahura_rtos.Task.Wait.{current_task, wake_locked}
use ahura_rtos.Blocking.{World, done, wait, nonblocking}
use ahura_rtos.Notify.Defs.{Slots, Waiter, receiver, give, wait_pass}

-- What is in a task's mailbox.
abbrev pub mail : Slots → ℕ → Option ℕ
mail n r = if n.pending r then some (n.value r) else none

module _ (k : Config) (c : Cpu) where
  woken-state :
      (r : ℕ) (s : Sched) → is_blocked (s.state r) ≡ true → (wake_locked k c r s).state r ≡ ready
  unfolding wake_locked make_ready preempt_if_running
  woken-state r s blocked = rw blocked (ground arith)

  -- For a task that os_notify_give finds: the value is in its mailbox, whatever was there, the
  -- other mailboxes are as they were, and a task that was blocked in os_notify_wait is ready.
  pub give-mail :
      (task : Option ℕ) (value r : ℕ) (w : World Slots)
      → receiver k c task w.sched ≡ some r
      → (let (status, w') = give k c task value w in
          (status ≡ ok)
          × (((q : ℕ) → mail w'.object q ≡ update (mail w.object) r (some value) q)
              × ((is_blocked (w.sched.state r) && w.object.waiting r) ≡ true
                  → w'.sched.state r ≡ ready)))
  unfolding give
  give-mail task value r w found =
      elim (Bool-cases (is_blocked (w.sched.state r) && w.object.waiting r)) [
        | inl asleep ↦
            rw (give, found, asleep)
              (refl, ((λ q. ground arith), λ e. woken-state r w.sched (ground (arith, asleep))))
        | inr awake ↦ rw (give, found, awake) (refl, ((λ q. ground arith), λ e. ground (arith, e)))
      ]

  -- For a waiting task r: a pass of os_notify_wait takes what is in its mailbox, tells it if the
  -- caller asked for the value, and leaves the mailbox empty; with an empty mailbox it answers as
  -- the timeout says. The other mailboxes are as they were.
  pub wait_pass-mail :
      (timeout_ms remaining r : ℕ) (w : World Waiter)
      → current_task k c w.sched ≡ some r
      → (let n = w.object.slots in
          let (verdict, w') = wait_pass k c timeout_ms remaining w in
          (verdict ≡ (
            if is_null (mail n r)
            then (if nonblocking c timeout_ms w.sched
                then done empty
                else (if remaining == 0 then done timeout else wait))
            else done ok))
          × (((q : ℕ) → mail w'.object.slots q ≡ update (mail n) r none q)
              × (w'.object.value_out ≡ (
                  if is_null w.object.value_out || is_null (mail n r)
                  then w.object.value_out
                  else mail n r))))
  unfolding wait_pass
  wait_pass-mail timeout_ms remaining r w runs = elim (Bool-cases (w.object.slots.pending r)) [
    | inl there ↦
        rw (wait_pass, runs, there)
          (refl, ((λ q. ground (arith, there)), told w.object.value_out (w.object.slots.value r)))
    | inr nothing ↦ elim (Bool-cases (nonblocking c timeout_ms w.sched)) [
      | inl now ↦
          rw (wait_pass, runs, nothing, now)
            (refl, ((λ q. ground (arith, nothing)), kept_value w.object.value_out))
      | inr later ↦ elim (Bool-cases (remaining == 0)) [
        | inl late ↦
            rw (wait_pass, runs, nothing, later, late)
              (refl, ((λ q. ground (arith, nothing)), kept_value w.object.value_out))
        | inr early ↦
            rw (wait_pass, runs, nothing, later, early)
              (refl, ((λ q. ground (arith, nothing)), kept_value w.object.value_out))
      ]
    ]
  ]
    where
      told :
          (o : Option ℕ) (v : ℕ)
          → Path
              (Option ℕ)
              (elim o [ none ↦ none | some old ↦ some v ])
              (if is_null o || false then o else some v)
      told none v = refl
      told (some old) v = refl

      kept_value : (o : Option ℕ) → o ≡ (if is_null o || true then o else none)
      kept_value none = refl
      kept_value (some old) = refl
