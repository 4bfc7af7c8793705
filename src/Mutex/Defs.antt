-- ===== src/Mutex/Defs.antt =====
-- os_mutex_init, os_mutex_lock and os_mutex_unlock of kernel/os_mutex.c. The object of the world is
-- the number of the mutex.
use ahura_rtos.Shared.{
  ℕ, Bool, true, false, not, ◌&&◌, ◌||◌, Option, some, List, [], if◌then◌else◌, ◌==◌, is_empty,
  update,
}
use ahura_rtos.Status.{Status, ok, error, busy, isr, not_owner, timeout, wait_forever}
use ahura_rtos.Task.State.{Config, Cpu, Sched}
use ahura_rtos.Task.Inherit.{waiter_depart}
use ahura_rtos.Task.Owner.{
  owner_link, priority_inherit, owner_unlink_and_reprioritize, blocked_on_set,
}
use ahura_rtos.Task.Wait.{wait_begin, wait_end, wait_signaled, wake_one}
use ahura_rtos.Task.Query.{current_id_get}
use ahura_rtos.Blocking.{
  timeout_to_ticks, wait_remaining, nonblocking, World, Verdict, done, wait, Pause, wait_loop,
}

-- os_mutex_init
unfoldable pub init : World ℕ → Status × World ℕ
init w =
    let m = w.object in
    let s = w.sched in
    if not (is_empty (s.waiters (s.mutex_waiters m))) || s.mutex_locked m then (busy, w) else (
      ok,
      record w {
        sched = record s {
          mutex_locked = update s.mutex_locked m false;
          mutex_owner_id = update s.mutex_owner_id m 0;
          waiters = update s.waiters (s.mutex_waiters m) [];
        };
      },
    )

-- `mutex->locked` and `mutex->owner_id`
abbrev pub mutex_set : ℕ → Bool → ℕ → Sched → Sched
mutex_set m locked owner_id s = record s {
  mutex_locked = update s.mutex_locked m locked;
  mutex_owner_id = update s.mutex_owner_id m owner_id;
}

module _ (k : Config) (c : Cpu) where
  -- The end of a call without the mutex.
  unfoldable pub give_up : World ℕ → World ℕ
  give_up w = record w { sched = wait_end k c (waiter_depart k c w.sched) }

  unfoldable pub acquire : ℕ → World ℕ → World ℕ
  acquire self_id w =
      let taken = mutex_set w.object true self_id w.sched in
      record w { sched = wait_end k c (owner_link k c w.object taken) }

  -- The wait for the owner, to whom the task lends its priority.
  unfoldable pub queue_up : ℕ → ℕ → World ℕ → World ℕ
  queue_up timeout_ms remaining_ticks w =
      let m = w.object in
      let lent = priority_inherit k c (w.sched.mutex_owner_id m) w.sched in
      let marked = blocked_on_set k c (some m) (timeout_ms == wait_forever) lent in
      record w { sched = wait_begin k c (marked.mutex_waiters m) remaining_ticks marked }

  -- The critical section of os_mutex_lock.
  unfoldable pub lock_pass : ℕ → ℕ → ℕ → World ℕ → Verdict × World ℕ
  lock_pass self_id timeout_ms remaining_ticks w =
      let m = w.object in
      let held_by_self = not (self_id == 0) && w.sched.mutex_owner_id m == self_id in
      if not (w.sched.mutex_locked m)
      then (done ok, acquire self_id w)
      else (if held_by_self || nonblocking c timeout_ms w.sched
          then (done busy, give_up w)
          else (if remaining_ticks == 0
              then (done timeout, give_up w)
              else (wait, queue_up timeout_ms remaining_ticks w)))

  -- What os_mutex_lock does when the task runs again.
  unfoldable pub lock_resume : ℕ → ℕ → World ℕ → Verdict × ℕ × World ℕ
  lock_resume budget_ticks start_tick w =
      if wait_signaled k c w.sched
      then (wait, wait_remaining budget_ticks start_tick w.now, w)
      else (done timeout, 0, give_up w)

  -- os_mutex_lock, with what the others do while it waits.
  unfoldable pub lock : ℕ → ℕ → List (Pause ℕ) → World ℕ → Option (Status × World ℕ)
  lock tick_hz timeout_ms pauses w =
      let self_id = current_id_get k c w.sched in
      let budget_ticks = timeout_to_ticks tick_hz timeout_ms in
      if c.in_isr
      then some (isr, w)
      else wait_loop (lock_pass self_id timeout_ms) (lock_resume budget_ticks w.now) pauses
          budget_ticks w

  -- The mutex goes, and with it what its owner inherited; the first waiter may try again.
  unfoldable pub release : ℕ → World ℕ → World ℕ
  release m w =
      let owner_id = w.sched.mutex_owner_id m in
      let freed = mutex_set m false 0 w.sched in
      let parted = owner_unlink_and_reprioritize k c owner_id m freed in
      record w { sched = (wake_one k c (parted.mutex_waiters m) parted).1 }

  -- os_mutex_unlock
  unfoldable pub unlock : World ℕ → Status × World ℕ
  unlock w =
      let m = w.object in
      let owner_id = w.sched.mutex_owner_id m in
      let self_id = current_id_get k c w.sched in
      if c.in_isr
      then (isr, w)
      else (if not (w.sched.mutex_locked m)
          then (error, w)
          else (if not (owner_id == 0) && (not (self_id == 0) && not (owner_id == self_id))
              then (not_owner, w)
              else (ok, release m w)))
