-- ===== src/Tick/Defs.antt =====
-- The operations of kernel/os_tick.c.
use ahura_rtos.Shared.{ℕ, ◌-◌, ◌*◌, ◌/◌, ◌&&◌, if◌then◌else◌, ltb, ◌==◌, add32, u32_max}
use ahura_rtos.Task.State.{Config, Cpu, Sched}
use ahura_rtos.Task.Query.{current_is_idle}
use ahura_rtos.Task.Dispatch.{tick_update, slice_tick, reschedule_possible, next_delay_ticks_get}
use ahura_rtos.Timer.State.{Timers}
use ahura_rtos.Timer.Calls.{tick_process, next_expiry_ticks_get}
use ahura_rtos.Kernel.{request_switch}
use ahura_rtos.Blocking.{World}

-- os_tick_usage_total_ticks and os_tick_usage_idle_ticks, beside the timers.
pub record Clock : Type 0 where
  pub timers : Timers
  pub usage_total_ticks : ℕ
  pub usage_idle_ticks : ℕ

-- os_tick_init
unfoldable pub init : World Clock → World Clock
init w = record w { now = 0 }

-- What a tick and an announcement count.
abbrev pub used : ℕ → ℕ → Clock → Clock
used total idle t = record t {
  usage_total_ticks = add32 t.usage_total_ticks total;
  usage_idle_ticks = add32 t.usage_idle_ticks idle;
}

module _ (k : Config) (c : Cpu) where
  -- Time passes for the timers and then for the sleepers.
  unfoldable pub pass_time : ℕ → World Clock → World Clock
  pass_time elapsed w =
      let timed : World Timers =
        tick_process k c elapsed
          (record { sched = w.sched; now = w.now; object = w.object.timers }) in
      record w {
        sched = tick_update k c elapsed timed.sched;
        object = record w.object { timers = timed.object };
      }

  -- A switch on this core, if there is someone to switch to.
  unfoldable pub reschedule : Sched → Sched
  reschedule s =
      if s.kernel_running && reschedule_possible k c s
      then record s { port = request_switch c s.port }
      else s

  -- os_tick_handler
  unfoldable pub handler : World Clock → World Clock
  handler w =
      let idle = if current_is_idle k c w.sched then 1 else 0 in
      let counted : World Clock = record w { now = add32 w.now 1; object = used 1 idle w.object } in
      let timed = if c.core == 0 then pass_time 1 counted else w in
      record timed { sched = reschedule (slice_tick k c 1 timed.sched) }

  -- os_tick_announce
  unfoldable pub announce : ℕ → World Clock → World Clock
  announce elapsed w =
      let counted : World Clock = record w {
        now = add32 w.now elapsed;
        object = used elapsed elapsed w.object;
      } in
      let timed = pass_time elapsed counted in
      record timed { sched = reschedule (slice_tick k c elapsed timed.sched) }

-- os_cpu_usage_get: the per cent of the ticks since the last call that were not idle.
unfoldable pub cpu_usage_get : Clock → ℕ × Clock
cpu_usage_get t =
    let total = t.usage_total_ticks in
    let idle = if ltb total t.usage_idle_ticks then total else t.usage_idle_ticks in
    (
      if total == 0 then 0 else (total - idle) * 100 / total,
      record t { usage_total_ticks = 0; usage_idle_ticks = 0 },
    )

-- os_tickless_expected_idle_ticks_get
unfoldable pub expected_idle_ticks_get : Config → Cpu → World Clock → ℕ
expected_idle_ticks_get k c w =
    let timer = next_expiry_ticks_get w.object.timers in
    let nearest = if ltb timer u32_max then timer else u32_max in
    let sleeper = next_delay_ticks_get k c w.sched in
    if ltb sleeper nearest then sleeper else nearest
