-- ===== src/Timer/Lists.antt =====
-- The lists of kernel/os_timer.c: os_timer_running_insert, os_timer_running_remove,
-- os_timer_unlink_locked, os_timer_detach_locked.
use ahura_rtos.Shared.{
  ℕ, Bool, true, false, Option, none, some, List, [], ◌∷◌, if◌then◌else◌, ◌==◌, update, erase,
  add32,
}
use ahura_rtos.Delta
use ahura_rtos.Delta.{Deltas}
use ahura_rtos.Timer.State.{Timers}

abbrev pub running : Timers → Deltas
running t = record { order = t.running_list; ticks = t.remaining_ticks }

-- os_timer_member_locked
unfoldable pub member_locked : List ℕ → ℕ → Bool
member_locked [] r = false
member_locked (x ∷ xs) r = if x == r then true else member_locked xs r

-- os_timer_running_insert
unfoldable pub running_insert : ℕ → Timers → Timers
running_insert r t =
    let d = Delta.insert r (t.remaining_ticks r) (running t) in
    record t { running_list = d.order; remaining_ticks = d.ticks }

-- The first loop of os_timer_running_remove: the ticks up to a timer, if it is found.
unfoldable pub absolute_ticks : (ℕ → ℕ) → List ℕ → ℕ → ℕ → Option ℕ
absolute_ticks ticks [] r absolute = none
absolute_ticks ticks (x ∷ xs) r absolute =
    if x == r
    then some (add32 absolute (ticks x))
    else absolute_ticks ticks xs r (add32 absolute (ticks x))

-- os_timer_running_remove, whose result is the time left.
unfoldable pub running_remove : ℕ → Timers → ℕ × Timers
running_remove r t = elim (absolute_ticks t.remaining_ticks t.running_list r 0) [
  | none ↦ (0, t)
  | some absolute ↦
      let d = Delta.remove r (running t) in
      (absolute, record t { running_list = d.order; remaining_ticks = update d.ticks r absolute })
]

-- os_timer_unlink_locked on the ready list, once the timer is found there.
unfoldable pub ready_unlink : ℕ → Timers → Timers
ready_unlink r t =
    if member_locked t.ready_list r then record t { ready_list = erase r t.ready_list } else t

-- os_timer_detach_locked
unfoldable pub detach_locked : ℕ → Timers → Timers
detach_locked r t =
    let out = ready_unlink r (running_remove r t).1 in
    record out { queued = update out.queued r false }
