-- ===== src/Sem/System.antt =====
-- Tasks that use a semaphore of kernel/os_sem.c among everything else that the scheduler does.
use ahura_rtos.Shared.{ℕ, ◌≤◌}
use ahura_rtos.Status.{wait_forever}
use ahura_rtos.Task.State.{Config, Cpu, Sched}
use ahura_rtos.Task.Consistent.Block.{CurrentRuns}
use ahura_rtos.Task.System.{Step}
use ahura_rtos.Blocking.{World, try_later}
use ahura_rtos.Sem.Defs.{Sem, give, take_pass}

-- What happens to a semaphore and the scheduler, one critical section after another: a give; a pass
-- of a take, of a running task or of an idle one; what a take does that runs again; any other call
-- into the scheduler, at any time.
pub data Interleaving (k : Config) (w : World Sem) : World Sem → Type 0 where
  begun : Interleaving k w w
  given : {v : World Sem} (c : Cpu) → Interleaving k w v → Interleaving k w (give k c v).1
  tried :
      {v : World Sem} (c : Cpu) (timeout_ms remaining_ticks : ℕ)
      → remaining_ticks ≤ wait_forever
      → CurrentRuns k c v.sched
      → Interleaving k w v
      → Interleaving k w (take_pass k c timeout_ms remaining_ticks v).1
  resumed :
      {v : World Sem} (c : Cpu) (budget_ticks start_tick : ℕ)
      → Interleaving k w v
      → Interleaving k w (try_later k c budget_ticks start_tick v).2
  elsewhere :
      {v : World Sem} {s : Sched} (now : ℕ)
      → Step k v.sched s
      → Interleaving k w v
      → Interleaving k w (record v { sched = s; now = now })
