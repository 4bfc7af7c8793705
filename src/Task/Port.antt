-- ===== src/Task/Port.antt =====
-- Requests for a context switch (kernel/os_task.c: os_task_running_core, os_task_switch_request,
-- os_task_preempt_request). They change nothing but the port.
use ahura_rtos.Shared.{
  ℕ, zero, suc, ◌+◌, Bool, true, not, ◌&&◌, ◌||◌, Option, none, some, ◌∷◌, if◌then◌else◌, ltb, ◌==◌,
  points_to, update,
}
use ahura_rtos.Task.State.{Config, Cpu, switch_on, ipi_to, Port, Sched, test_bit}

-- The loop of os_task_running_core from a core on, over the cores that are left.
unfoldable pub running_core_from : (ℕ → Option ℕ) → ℕ → ℕ → ℕ → ℕ
running_core_from current r zero core = core
running_core_from current r (suc left) core =
    let rest = running_core_from current r left (core + 1) in
    if points_to (current core) r then core else rest

-- The core that runs a task, or the number of cores.
unfoldable pub running_core_of : Config → ℕ → Sched → ℕ
running_core_of k r s = running_core_from s.current r k.core_count 0

unfoldable pub port_switch : ℕ → Port → Port
port_switch core p =
    if p.lock_count core == 0
    then record p { requests = switch_on core ∷ p.requests }
    else record p { switch_pending = update p.switch_pending core true }

unfoldable pub port_ipi : ℕ → Port → Port
port_ipi core p = record p { requests = ipi_to core ∷ p.requests }

-- os_arch_lowest_bit_get, from a bit on.
unfoldable pub lowest_bit_from : ℕ → ℕ → ℕ → ℕ
lowest_bit_from mask zero n = n
lowest_bit_from mask (suc left) n =
    let rest = lowest_bit_from mask left (n + 1) in if test_bit mask n then n else rest

-- Whether a task of this priority takes over from what a core runs.
abbrev pub outranks : (ℕ → ℕ) → ℕ → Option ℕ → Bool
outranks priority r none = true
outranks priority r (some q) = ltb (priority q) (priority r)

-- OS_TASK_CORE_ANY, or the core's bit.
abbrev pub allowed_on : ℕ → ℕ → Bool
allowed_on affinity core = affinity == 0 || test_bit affinity core

module _ (k : Config) (c : Cpu) where
  -- os_task_switch_request
  unfoldable pub switch_request : Sched → Sched
  switch_request s = record s { port = port_switch c.core s.port }

  -- The loop over the other cores, from one on.
  unfoldable pub preempt_other : ℕ → Sched → ℕ → ℕ → Port
  preempt_other r s zero other = s.port
  preempt_other r s (suc left) other =
      let rest = preempt_other r s left (other + 1) in
      if not (other == c.core)
        && (allowed_on (s.core_affinity r) other && outranks s.priority r (s.current other))
      then port_ipi other s.port
      else rest

  unfoldable pub preempt_port : ℕ → Sched → Port
  preempt_port r s =
      if ltb 1 k.core_count && not (allowed_on (s.core_affinity r) c.core)
      then port_ipi (lowest_bit_from (s.core_affinity r) 32 0) s.port
      else (if outranks s.priority r (s.current c.core)
          then port_switch c.core s.port
          else (if ltb 1 k.core_count then preempt_other r s k.core_count 0 else s.port))

  -- os_task_preempt_request
  unfoldable pub preempt_request : ℕ → Sched → Sched
  preempt_request r s = record s { port = preempt_port r s }

  -- `if (os_kernel_is_running()) os_task_preempt_request(tcb);`
  unfoldable pub preempt_if_running : ℕ → Sched → Sched
  preempt_if_running r s = record s { port = if s.kernel_running then preempt_port r s else s.port }
