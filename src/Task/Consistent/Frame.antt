-- ===== src/Task/Consistent/Frame.antt =====
-- The calls of kernel/os_task.c and kernel/os_task_mutex.c that touch no list.
use ahura_rtos.Shared.{
  ℕ, Bool, true, false, not, ◌&&◌, Option, if◌then◌else◌, ltb, ◌==◌, update, ◌/◌, ◌^◌, Bool-cases,
  Option-cases, inl, inr,
}
use ahura_rtos.Task.State.{Config, Cpu, Sched, test_bit}
use ahura_rtos.Task.Port.{switch_request, running_core_of, port_ipi}
use ahura_rtos.Task.Wait.{wait_end, wait_data_set}
use ahura_rtos.Task.Dispatch.{slice_tick}
use ahura_rtos.Task.Owner.{blocked_on_set}
use ahura_rtos.Task.Life.{yield, core_affinity_set, resolve}
use ahura_rtos.Task.Consistent.Defs.{IsConsistent, nobody}
use ahura_rtos.Task.Consistent.Block.{switched-IsConsistent}

module _ (k : Config) (c : Cpu) (s : Sched) (h : IsConsistent k nobody s) where
  pub slice_tick-IsConsistent : (elapsed : ℕ) → IsConsistent k nobody (slice_tick k c elapsed s)
  unfolding slice_tick
  slice_tick-IsConsistent elapsed = elim (Bool-cases (ltb 0 k.time_slice)) [
    | inl sliced ↦ rw sliced (record { ready = h.ready; delayed = h.delayed; waiting = h.waiting })
    | inr unsliced ↦ rw unsliced h
  ]

  pub yield-IsConsistent : IsConsistent k nobody (yield k c s)
  unfolding yield
  yield-IsConsistent = elim (Bool-cases (s.kernel_running && not c.in_isr)) [
    | inl may ↦ rw may (switched-IsConsistent k c s h)
    | inr mustnt ↦ rw mustnt h
  ]

  pub wait_end-IsConsistent : IsConsistent k nobody (wait_end k c s)
  unfolding wait_end
  wait_end-IsConsistent = elim (Option-cases (s.current c.core)) [
    | inl nobody_there ↦ elim (Bool-cases c.in_isr) [
      | inl from_isr ↦ rw (from_isr, wait_end) h
      | inr from_task ↦ rw (from_task, nobody_there, wait_end) h
    ]
    | inr (r, e) ↦ elim (Bool-cases c.in_isr) [
      | inl from_isr ↦ rw (from_isr, wait_end) h
      | inr from_task ↦
          rw (from_task, e, wait_end)
            (record { ready = h.ready; delayed = h.delayed; waiting = h.waiting })
    ]
  ]

  pub wait_data_set-IsConsistent :
      (data0 data1 : ℕ) → IsConsistent k nobody (wait_data_set k c data0 data1 s)
  unfolding wait_data_set
  wait_data_set-IsConsistent data0 data1 = elim (Option-cases (s.current c.core)) [
    | inl nobody_there ↦ rw (nobody_there, wait_data_set) h
    | inr (r, e) ↦
        rw (e, wait_data_set) (record { ready = h.ready; delayed = h.delayed; waiting = h.waiting })
  ]

  pub blocked_on_set-IsConsistent :
      (mutex : Option ℕ) (forever : Bool)
      → IsConsistent k nobody (blocked_on_set k c mutex forever s)
  unfolding blocked_on_set
  blocked_on_set-IsConsistent mutex forever = elim (Option-cases (s.current c.core)) [
    | inl nobody_there ↦ rw (nobody_there, blocked_on_set) h
    | inr (r, e) ↦
        rw (e, blocked_on_set)
          (record { ready = h.ready; delayed = h.delayed; waiting = h.waiting })
  ]

  affinity_changed :
      (r affinity running : ℕ) (moves here : Bool)
      → (let changed : Sched = record s { core_affinity = update s.core_affinity r affinity } in
          IsConsistent k nobody (
            if moves
            then (if here
                then switch_request k c changed
                else record changed { port = port_ipi running changed.port })
            else changed))
  unfolding switch_request
  affinity_changed r affinity running true true = record {
    ready = h.ready;
    delayed = h.delayed;
    waiting = h.waiting;
  }
  affinity_changed r affinity running true false = record {
    ready = h.ready;
    delayed = h.delayed;
    waiting = h.waiting;
  }
  affinity_changed r affinity running false here = record {
    ready = h.ready;
    delayed = h.delayed;
    waiting = h.waiting;
  }

  pub core_affinity_set-IsConsistent :
      (task : Option ℕ) (affinity : ℕ)
      → IsConsistent k nobody (core_affinity_set k c task affinity s).1
  unfolding core_affinity_set
  core_affinity_set-IsConsistent task affinity =
      elim (Bool-cases (affinity / 2 ^ k.core_count == 0)) [
        | inr outside ↦ rw outside h
        | inl within ↦ rw within (elim (Option-cases (resolve k c task s)) [
          | inl unknown ↦ rw (unknown, core_affinity_set) h
          | inr (r, e) ↦
              rw (e, core_affinity_set)
                (let running =
                    running_core_of k r
                      (record s { core_affinity = update s.core_affinity r affinity }) in
                  affinity_changed r affinity running
                    (ltb running k.core_count
                      && (s.kernel_running
                          && (not (affinity == 0) && not (test_bit affinity running))))
                    (running == c.core))
        ])
      ]
