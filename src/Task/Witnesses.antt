-- ===== src/Task/Witnesses.antt =====
-- The theorems about kernel/os_task.c and kernel/os_task_mutex.c at concrete inputs.
use ahura_rtos.Shared.{
  ℕ, ◌≤◌, ◌≡◌, ◌≢◌, refl, true, false, Option, none, some, [], arith, update, if◌then◌else◌, ◌==◌,
  points_to, count,
}
use ahura_rtos.Task.State.{TaskState, ready, Sched}
use ahura_rtos.Task.Ids.{id_slot, find_by_id}
use ahura_rtos.Task.Inherit.{unlink, unlink_depth}
use ahura_rtos.Task.Wait.{wake_one, wake_all}
use ahura_rtos.Task.Dispatch.{tick_update, stack_select_next}
use ahura_rtos.Task.Port.{running_core_of, running_core_from}
use ahura_rtos.Task.Life.{
  TaskConfig, Storage, StackRules, create, create_claim, delete, start, create_any, create_args_ok,
  free_slot, delete_target, refused,
}
use ahura_rtos.Task.Boot.{system_init}
use ahura_rtos.Task.Registry.{create-find_by_id, delete-find_by_id}
use ahura_rtos.Task.Consistent.{IsConsistent, nobody}
use ahura_rtos.Task.Consistent.Depth.{unlink_depth-enough}
use ahura_rtos.Task.Consistent.Select.{Selects, stack_select_next-Selects}
use ahura_rtos.Task.Consistent.Tick.{Elapsed, tick_update-Elapsed}
use ahura_rtos.Task.Consistent.Wakes.{wake_one-highest, wake_all-empties}
use ahura_rtos.Task.System.{booted, later, creates, starts, select, tick, Reachable-IsConsistent}
use ahura_rtos.Task.Tests.{config, cpu, queue, busy_system, busy_system-IsConsistent}

abbrev blank : Sched
blank = record busy_system { waiters = λ l. []; wait_list = λ r. none }

abbrev worker : TaskConfig
worker = record { entry = some 4096; priority = 7; core_affinity = 0 }

abbrev created : Sched
created = (create_claim config cpu 0 worker 64 false (system_init config blank)).2

abbrev started : Sched
started = (start config cpu 16777217 created).1

abbrev dispatched : Sched
dispatched = (stack_select_next config cpu started).1

Reachable-IsConsistent_example : IsConsistent config nobody (tick_update config cpu 3 dispatched)
Reachable-IsConsistent_example =
    Reachable-IsConsistent config {s = tick_update config cpu 3 dispatched} (
      later
        (later
          (later (later (booted blank (λ l. refl) (λ r. refl)) (creates cpu 0 worker 64 false))
            (starts cpu 16777217))
          (select cpu))
        (tick cpu 3 (omega arith)))

stack_select_next-Selects_example :
    Selects config cpu busy_system
      (stack_select_next config cpu busy_system).0
      (stack_select_next config cpu busy_system).1
stack_select_next-Selects_example =
    stack_select_next-Selects config cpu busy_system busy_system-IsConsistent (λ q. ground arith)
      refl

tick_update-Elapsed_example : Elapsed config 12 busy_system (tick_update config cpu 12 busy_system)
tick_update-Elapsed_example =
    tick_update-Elapsed config cpu 12 busy_system busy_system-IsConsistent (omega arith)

wake_one-highest_example :
    (let (woken, t) = wake_one config cpu queue busy_system in
      (woken ≡ true)
      × (t.state 1 ≡ ready)
      × (t.wait_signaled 1 ≡ true)
      × (t.wait_list ≡ update busy_system.wait_list 1 none)
      × IsConsistent config nobody t
      × ((q : ℕ)
          → count q (t.waiters queue) ≡ (if 1 == q then 0 else count q (busy_system.waiters queue)))
      × ((q : ℕ)
          → count q (busy_system.waiters queue) ≢ 0
          → busy_system.priority q ≤ busy_system.priority 1))
wake_one-highest_example =
    wake_one-highest config cpu queue 1 [] busy_system busy_system-IsConsistent refl

wake_all-empties_example :
    ((wake_all config cpu queue busy_system).waiters queue ≡ [])
    × ((q : ℕ) → points_to ((wake_all config cpu queue busy_system).wait_list q) queue ≡ false)
wake_all-empties_example = wake_all-empties config cpu queue busy_system busy_system-IsConsistent

unlink_depth-enough_example :
    unlink_depth config cpu 5 1 busy_system ≡ unlink config cpu 1 busy_system
unlink_depth-enough_example =
    unlink_depth-enough config cpu nobody 3 1 busy_system refl (λ q e. cc) busy_system-IsConsistent

abbrev rules : StackRules
rules = record { min_bytes = 128; alignment = 8 }

abbrev storage : Option Storage
storage = some (record { stack_memory = some 1024; stack_bytes = 512 })

abbrev vacated : Sched
vacated = record busy_system {
  state = λ r. if r == 0 then TaskState.running else TaskState.inactive;
}

create-find_by_id_example :
    find_by_id config 33554434
      (create config cpu rules storage 0 worker (some 64) (λ t. t) vacated).2
    ≡ (if 33554434 == (create config cpu rules storage 0 worker (some 64) (λ t. t) vacated).1
        then some (id_slot (create config cpu rules storage 0 worker (some 64) (λ t. t) vacated).1)
        else find_by_id config 33554434 vacated)
unfolding create create_any create_args_ok create_claim free_slot
create-find_by_id_example =
    create-find_by_id config cpu rules storage 0 worker (some 64) (λ t. t) vacated 33554434
      (omega arith) refl

delete-find_by_id_example :
    find_by_id config 50331649 (delete config cpu (some 50331649) busy_system).1 ≡ none
unfolding delete delete_target find_by_id id_slot refused running_core_of running_core_from
delete-find_by_id_example = delete-find_by_id config cpu 50331649 busy_system refl
