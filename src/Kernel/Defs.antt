-- ===== src/Kernel/Defs.antt =====
-- os_kernel_lock, os_kernel_unlock and os_kernel_is_locked of kernel/os_kernel.c.
use ahura_rtos.Shared.{◌-◌, Bool, false, not, ◌&&◌, ◌||◌, ◌∷◌, if◌then◌else◌, ◌==◌, update, add32}
use ahura_rtos.Task.State.{Cpu, switch_on, Port, Sched}

module _ (c : Cpu) where
  -- os_kernel_lock
  unfoldable pub lock : Sched → Sched
  lock s =
      let p = s.port in
      if c.in_isr then s else record s {
        port = record p { lock_count = update p.lock_count c.core (add32 (p.lock_count c.core) 1) };
      }

  -- OS_ARCH_CONTEXT_SWITCH_REQUEST on this core.
  abbrev pub request_switch : Port → Port
  request_switch p = record p { requests = switch_on c.core ∷ p.requests }

  -- The last of the locks is undone: a switch that waited for it is due.
  unfoldable pub unlock_last : Sched → Sched
  unlock_last s =
      let p = s.port in
      let settled : Port = record p { switch_pending = update p.switch_pending c.core false } in
      record s {
        port =
            if p.switch_pending c.core && s.kernel_running then request_switch settled else settled;
      }

  -- os_kernel_unlock
  unfoldable pub unlock : Sched → Sched
  unlock s =
      let p = s.port in
      let less : Sched = record s {
        port = record p { lock_count = update p.lock_count c.core (p.lock_count c.core - 1) };
      } in
      if c.in_isr || p.lock_count c.core == 0
      then s
      else (if less.port.lock_count c.core == 0 then unlock_last less else less)

  -- os_kernel_is_locked
  unfoldable pub is_locked : Sched → Bool
  is_locked s = not (s.port.lock_count c.core == 0)
