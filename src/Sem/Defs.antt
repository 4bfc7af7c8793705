-- ===== src/Sem/Defs.antt =====
-- os_sem_init, os_sem_give and os_sem_take of kernel/os_sem.c.
use ahura_rtos.Shared.{
  ℕ, ◌-◌, not, ◌&&◌, Option, List, [], if◌then◌else◌, ltb, leb, ◌==◌, is_empty, update, add32,
}
use ahura_rtos.Status.{Status, ok, invalid_arg, busy, full, empty, timeout}
use ahura_rtos.Task.State.{Config, Cpu}
use ahura_rtos.Task.Wait.{wait_begin, wait_end, wake_one}
use ahura_rtos.Blocking.{
  timeout_to_ticks, nonblocking, World, Verdict, done, wait, Pause, try_later, wait_loop,
}

-- os_sem_t
pub record Sem : Type 0 where
  pub count : ℕ
  pub max_count : ℕ
  pub waiters : ℕ

-- os_sem_init
unfoldable pub init : ℕ → ℕ → World Sem → Status × World Sem
init initial_count max_count w =
    let sem = w.object in
    if not (max_count == 0) && leb initial_count max_count
    then (if not (is_empty (w.sched.waiters sem.waiters)) then (busy, w) else (
      ok,
      record w {
        sched = record w.sched { waiters = update w.sched.waiters sem.waiters [] };
        object = record sem { count = initial_count; max_count = max_count };
      },
    ))
    else (invalid_arg, w)

module _ (k : Config) (c : Cpu) where
  -- os_sem_give
  unfoldable pub give : World Sem → Status × World Sem
  give w =
      let sem = w.object in
      if leb sem.max_count sem.count then (full, w) else (
        ok,
        record w {
          sched = (wake_one k c sem.waiters w.sched).1;
          object = record sem { count = add32 sem.count 1 };
        },
      )

  -- The critical section of os_sem_take.
  unfoldable pub take_pass : ℕ → ℕ → World Sem → Verdict × World Sem
  take_pass timeout_ms remaining_ticks w =
      let sem = w.object in
      let ended : World Sem = record w { sched = wait_end k c w.sched } in
      if ltb 0 sem.count
      then (done ok, record ended { object = record sem { count = sem.count - 1 } })
      else (if nonblocking c timeout_ms w.sched
          then (done empty, ended)
          else (if remaining_ticks == 0
              then (done timeout, ended)
              else (wait, record w { sched = wait_begin k c sem.waiters remaining_ticks w.sched })))

  -- os_sem_take, with what the others do while it waits.
  unfoldable pub take : ℕ → ℕ → List (Pause Sem) → World Sem → Option (Status × World Sem)
  take tick_hz timeout_ms pauses w =
      let budget_ticks = timeout_to_ticks tick_hz timeout_ms in
      wait_loop (take_pass timeout_ms) (try_later k c budget_ticks w.now) pauses budget_ticks w
