-- ===== src/Task/Tests.antt =====
-- A small system at work: one core and three tasks, of which one runs, one waits with a timeout
-- for a kernel object, and one is ready.
use ahura_rtos.Shared.{ℕ, true, false, none, some, [], ◌∷◌, arith, if◌then◌else◌, ◌==◌}
use ahura_rtos.Task.State.{inactive, ready, running, blocked, Config, Cpu, Port, Sched}
use ahura_rtos.Task.Consistent.{IsConsistent, nobody}
use ahura_rtos.Task.Consistent.Block.{CurrentRuns}

abbrev pub config : Config
config = record { core_count = 1; table_size = 3; time_slice = 0 }

abbrev pub cpu : Cpu
cpu = record { core = 0; in_isr = false }

abbrev pub port : Port
port = record { lock_count = λ core. 0; switch_pending = λ core. false; requests = [] }

-- The waiter list of the object that task 1 waits for.
abbrev pub queue : ℕ
queue = 7

abbrev pub by_task : {A : Type 0} → A → A → A → A → ℕ → A
by_task a b c other r = if r == 0 then a else (if r == 1 then b else (if r == 2 then c else other))

abbrev pub busy_system : Sched
busy_system = record {
  priority = by_task 3 6 5 0;
  base_priority = by_task 3 6 5 0;
  id = by_task 16777217 33554433 50331649 0;
  delay_ticks = by_task 0 10 0 0;
  core_affinity = λ r. 0;
  state = by_task running blocked ready inactive;
  running_core = by_task 0 1 1 1;
  stack_ptr = λ r. 64;
  wait_list = by_task none (some queue) none none;
  wait_signaled = λ r. false;
  system_task = λ r. false;
  wait_data0 = by_task 0 6 0 0;
  wait_data1 = by_task 0 3 0 0;
  wait_result = λ r. 0;
  woken_from = λ r. none;
  owned_mutexes = λ r. [];
  pi_owner_id = λ r. 0;
  blocked_on_mutex = λ r. none;
  blocked_forever = λ r. false;
  current = λ core. if core == 0 then some 0 else none;
  ready_list = λ p. if p == 5 then 2 ∷ [] else [];
  ready_bitmap = λ p. p == 5;
  delay_list = 1 ∷ [];
  next_generation = λ slot. 2;
  slice_left = λ core. 0;
  kernel_running = true;
  port = port;
  waiters = λ l. if l == queue then 1 ∷ [] else [];
  mutex_locked = λ m. false;
  mutex_owner_id = λ m. 0;
  mutex_waiters = λ m. m;
}

pub busy_system-IsConsistent : IsConsistent config nobody busy_system
busy_system-IsConsistent = record {
  ready = record { listed = λ r p. ground arith; bit_set = λ p. ground arith };
  delayed = record { listed = λ r. ground arith; finite = ground arith };
  waiting = record {
    listed = λ r l. ground arith;
    blocked_only = λ r l e. ground (arith, e);
    inside = λ r l e. ground (arith, e);
    sorted = λ l. ground arith;
  };
}

pub busy_system-CurrentRuns : CurrentRuns config cpu busy_system
busy_system-CurrentRuns = record {
  runs = λ r e. ground (arith, e);
  inside = λ r e. ground (arith, e);
}
