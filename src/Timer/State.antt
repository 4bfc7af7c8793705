-- ===== src/Timer/State.antt =====
-- The state of kernel/os_timer.c. A timer and a pool are numbers, and a field of os_timer_t or of
-- os_timer_pool_t is a function of that number.
use ahura_rtos.Shared.{ℕ, Bool, true, false, not, ◌&&◌, Option, List, is_null, ◌==◌}
use ahura_rtos.Status.{wait_forever}

-- os_timer_mode_t
pub data Mode : Type 0 where
  one_shot periodic submit : Mode

abbrev pub is_periodic : Mode → Bool
is_periodic periodic = true
is_periodic _ = false

abbrev pub is_submit : Mode → Bool
is_submit submit = true
is_submit _ = false

pub record Timers : Type 0 where
  -- os_timer_t: is_self says whether `self` holds the timer's own address; os_timer_entry_t
  pub is_self : ℕ → Bool
  pub period_ticks : ℕ → ℕ
  pub remaining_ticks : ℕ → ℕ
  pub mode : ℕ → Mode
  pub active : ℕ → Bool
  pub paused : ℕ → Bool
  pub queued : ℕ → Bool
  pub callback : ℕ → Option ℕ
  pub context : ℕ → ℕ
  pub value : ℕ → ℕ
  pub pool : ℕ → ℕ
  -- os_timer_pool_t: the first of its entries, which follow one another
  pub pool_is_self : ℕ → Bool
  pub pool_entries : ℕ → Option ℕ
  pub pool_count : ℕ → ℕ
  pub pool_delay : ℕ → ℕ
  pub pool_callback : ℕ → Option ℕ
  pub free_list : ℕ → List ℕ
  pub pool_ready : ℕ → Bool
  -- os_timer_running_list, os_timer_ready_list, os_timer_task_tcb
  pub running_list : List ℕ
  pub ready_list : List ℕ
  pub task : Option ℕ

-- OS_TIMER_VALID, for a timer that is not NULL.
unfoldable pub is_valid : Timers → ℕ → Bool
is_valid t r = t.is_self r && not (is_submit (t.mode r))

-- OS_TIMER_POOL_VALID, for a pool that is not NULL.
unfoldable pub is_pool_valid : Timers → ℕ → Bool
is_pool_valid t p =
    t.pool_is_self p
    && (not (is_null (t.pool_entries p))
        && (not (t.pool_count p == 0)
            && (not (is_null (t.pool_callback p)) && not (t.pool_delay p == wait_forever))))
