-- ===== src/Task/System.antt =====
-- The scheduler as a whole: any sequence of calls into kernel/os_task.c and
-- kernel/os_task_mutex.c, each one step, by whichever core and from a task or an interrupt.
use ahura_rtos.Shared.{ℕ, ◌≤◌, ◌<◌, ◌≡◌, Bool, true, false, Option, none, some, [], ◌==◌}
use ahura_rtos.Status.{wait_forever}
use ahura_rtos.Task.State.{Config, Cpu, Sched, in_table}
use ahura_rtos.Task.Wait.{
  Match, current_task, sleep_ticks, wait_begin, wait_end, wait_data_set, wake_locked, wake,
  wake_one, wake_all, wake_match,
}
use ahura_rtos.Task.Dispatch.{tick_update, slice_tick, stack_save_current, stack_select_next}
use ahura_rtos.Task.Inherit.{waiter_depart}
use ahura_rtos.Task.Owner.{
  owner_link, priority_inherit, owner_unlink_and_reprioritize, blocked_on_set,
}
use ahura_rtos.Task.Life.{
  TaskConfig, create_claim, start, pause, delete, yield, priority_set, core_affinity_set,
}
use ahura_rtos.Task.Boot.{system_init, idle_create}
use ahura_rtos.Task.Consistent.{IsConsistent, nobody}
use ahura_rtos.Task.Consistent.Block.{
  CurrentRuns, wait_begin-IsConsistent, sleep_ticks-IsConsistent,
}
use ahura_rtos.Task.Consistent.Boot.{system_init-IsConsistent, idle_create-IsConsistent}
use ahura_rtos.Task.Consistent.Frame.{
  slice_tick-IsConsistent, yield-IsConsistent, wait_end-IsConsistent, wait_data_set-IsConsistent,
  blocked_on_set-IsConsistent, core_affinity_set-IsConsistent,
}
use ahura_rtos.Task.Consistent.Life.{
  start-IsConsistent, pause-IsConsistent, delete-IsConsistent, priority_set-IsConsistent,
}
use ahura_rtos.Task.Consistent.Owner.{
  owner_link-IsConsistent, priority_inherit-IsConsistent,
  owner_unlink_and_reprioritize-IsConsistent, waiter_depart-IsConsistent,
}
use ahura_rtos.Task.Consistent.Select.{stack_select_next-IsConsistent}
use ahura_rtos.Task.Consistent.Switch.{stack_save_current-IsConsistent, create_claim-IsConsistent}
use ahura_rtos.Task.Consistent.Tick.{tick_update-Elapsed}
use ahura_rtos.Task.Consistent.Wake.{
  wake_locked-IsConsistent, wake-IsConsistent, wake_one-IsConsistent,
}
use ahura_rtos.Task.Consistent.Wakes.{wake_all-IsConsistent, wake_match-IsConsistent}

-- A call into the scheduler. A task that calls os_task_wait_begin, os_task_sleep_ticks or
-- os_task_priority_set is running; the words it passes are words. os_task_wake_tcb, which timers,
-- the log and notifications call, gets a control block of the table.
pub data Step (k : Config) (s : Sched) : Sched → Type 0 where
  tick : (c : Cpu) (elapsed : ℕ) → 0 < elapsed → Step k s (tick_update k c elapsed s)
  slice : (c : Cpu) (elapsed : ℕ) → Step k s (slice_tick k c elapsed s)
  save :
      (c : Cpu) (stack_ptr : ℕ)
      → ((r : ℕ) → current_task k c s ≡ some r → in_table k r ≡ true)
      → Step k s (stack_save_current k c stack_ptr s)
  select : (c : Cpu) → Step k s (stack_select_next k c s).1
  sleep :
      (c : Cpu) (ticks : ℕ)
      → ticks ≤ wait_forever
      → CurrentRuns k c s
      → Step k s (sleep_ticks k c ticks s)
  wait :
      (c : Cpu) (list ticks : ℕ)
      → ticks ≤ wait_forever
      → CurrentRuns k c s
      → Step k s (wait_begin k c list ticks s)
  waited : (c : Cpu) → Step k s (wait_end k c s)
  wait_data : (c : Cpu) (data0 data1 : ℕ) → Step k s (wait_data_set k c data0 data1 s)
  wakes : (c : Cpu) (id : ℕ) → Step k s (wake k c id s)
  wakes_one : (c : Cpu) (list : ℕ) → Step k s (wake_one k c list s).1
  wakes_all : (c : Cpu) (list : ℕ) → Step k s (wake_all k c list s)
  wakes_match :
      (c : Cpu) (match : ℕ → ℕ → ℕ × ℕ → Match (ℕ × ℕ)) (list : ℕ) (x : ℕ × ℕ)
      → Step k s (wake_match k c match list x s).2
  creates :
      (c : Cpu) (handle : ℕ) (config : TaskConfig) (stack_ptr : ℕ) (system_task : Bool)
      → Step k s (create_claim k c handle config stack_ptr system_task s).2
  starts : (c : Cpu) (handle : ℕ) → Step k s (start k c handle s).1
  pauses : (c : Cpu) (task : Option ℕ) → Step k s (pause k c task s).1
  deletes : (c : Cpu) (task : Option ℕ) → Step k s (delete k c task s).1
  yields : (c : Cpu) → Step k s (yield k c s)
  sets_priority :
      (c : Cpu) (task : Option ℕ) (value : ℕ)
      → CurrentRuns k c s
      → Step k s (priority_set k c task value s).1
  sets_affinity :
      (c : Cpu) (task : Option ℕ) (affinity : ℕ)
      → Step k s (core_affinity_set k c task affinity s).1
  links_owner :
      (c : Cpu) (m : ℕ)
      → ((r : ℕ) → s.current c.core ≡ some r → (s.id r == 0) ≡ false → in_table k r ≡ true)
      → Step k s (owner_link k c m s)
  inherits : (c : Cpu) (owner_id : ℕ) → Step k s (priority_inherit k c owner_id s)
  unlinks_owner :
      (c : Cpu) (owner_id m : ℕ) → Step k s (owner_unlink_and_reprioritize k c owner_id m s)
  departs : (c : Cpu) → Step k s (waiter_depart k c s)
  wakes_tcb : (c : Cpu) (r : ℕ) → in_table k r ≡ true → Step k s (wake_locked k c r s)
  creates_idle : (initialized : ℕ → Option ℕ) → Step k s (idle_create k initialized s).1
  blocks_on :
      (c : Cpu) (mutex : Option ℕ) (forever : Bool) → Step k s (blocked_on_set k c mutex forever s)

pub data Reachable (k : Config) : Sched → Type 0 where
  booted :
      (s : Sched)
      → ((l : ℕ) → s.waiters l ≡ [])
      → ((r : ℕ) → s.wait_list r ≡ none)
      → Reachable k (system_init k s)
  later : {s t : Sched} → Reachable k s → Step k s t → Reachable k t

module _ (k : Config) (s : Sched) (h : IsConsistent k nobody s) where
  pub Step-IsConsistent : {t : Sched} → Step k s t → IsConsistent k nobody t
  Step-IsConsistent (tick c elapsed positive) =
      (tick_update-Elapsed k c elapsed s h positive).consistent
  Step-IsConsistent (slice c elapsed) = slice_tick-IsConsistent k c s h elapsed
  Step-IsConsistent (save c stack_ptr inside) =
      stack_save_current-IsConsistent k c stack_ptr s inside h
  Step-IsConsistent (select c) = stack_select_next-IsConsistent k c s h
  Step-IsConsistent (sleep c ticks word who) = sleep_ticks-IsConsistent k c s h ticks word who
  Step-IsConsistent (wait c list ticks word who) =
      wait_begin-IsConsistent k c s h list ticks word who
  Step-IsConsistent (waited c) = wait_end-IsConsistent k c s h
  Step-IsConsistent (wait_data c data0 data1) = wait_data_set-IsConsistent k c s h data0 data1
  Step-IsConsistent (wakes c id) = wake-IsConsistent k c id s h
  Step-IsConsistent (wakes_one c list) = wake_one-IsConsistent k c list s h
  Step-IsConsistent (wakes_all c list) = wake_all-IsConsistent k c list s h
  Step-IsConsistent (wakes_match c match list x) = wake_match-IsConsistent k c match list x s h
  Step-IsConsistent (creates c handle config stack_ptr system_task) =
      create_claim-IsConsistent k c handle config stack_ptr system_task s h
  Step-IsConsistent (starts c handle) = start-IsConsistent k c handle s h
  Step-IsConsistent (pauses c task) = pause-IsConsistent k c task s h
  Step-IsConsistent (deletes c task) = delete-IsConsistent k c task s h
  Step-IsConsistent (yields c) = yield-IsConsistent k c s h
  Step-IsConsistent (sets_priority c task value who) =
      priority_set-IsConsistent k c task value s who h
  Step-IsConsistent (sets_affinity c task affinity) =
      core_affinity_set-IsConsistent k c s h task affinity
  Step-IsConsistent (links_owner c m inside) = owner_link-IsConsistent k c m s inside h
  Step-IsConsistent (inherits c owner_id) = priority_inherit-IsConsistent k c owner_id s h
  Step-IsConsistent (unlinks_owner c owner_id m) =
      owner_unlink_and_reprioritize-IsConsistent k c owner_id m s h
  Step-IsConsistent (departs c) = waiter_depart-IsConsistent k c s h
  Step-IsConsistent (wakes_tcb c r inside) = wake_locked-IsConsistent k c r s inside h
  Step-IsConsistent (creates_idle initialized) = idle_create-IsConsistent k initialized s h
  Step-IsConsistent (blocks_on c mutex forever) = blocked_on_set-IsConsistent k c s h mutex forever

-- From os_task_system_init with no waiters, by any sequence of calls of tasks and interrupts on any
-- cores, where a task that waits, sleeps or sets a priority is a running task of the table or an
-- idle task, as is one that takes a mutex or that the core switches from, a control block that is
-- woken is one of the table, and ticks that pass are not none and other words are words: after each call the ready lists, the ready bitmap, the
-- delay list and the waiter lists agree with the control blocks.
pub Reachable-IsConsistent : (k : Config) {s : Sched} → Reachable k s → IsConsistent k nobody s
Reachable-IsConsistent k (booted s alone free) = system_init-IsConsistent k s alone free
Reachable-IsConsistent k (later {s} before step) =
    Step-IsConsistent k s (Reachable-IsConsistent k before) step
