-- ===== src/Timer/Calls.antt =====
-- The calls of kernel/os_timer.c, for a timer or a pool that is not NULL.
use ahura_rtos.Shared.{
  ℕ, zero, suc, ◌+◌, Bool, true, false, not, ◌&&◌, ◌||◌, Option, none, some, List, [], ◌∷◌, ◌++◌,
  if◌then◌else◌, ◌==◌, is_null, is_empty, update, u32_max,
}
use ahura_rtos.Status.{Status, ok, error, invalid_arg, full, wait_forever}
use ahura_rtos.Delta
use ahura_rtos.Task.State.{Config, Cpu}
use ahura_rtos.Task.Wait.{wake_locked}
use ahura_rtos.Blocking.{World, ticks_from_ms}
use ahura_rtos.Timer.State.{Timers, submit, is_periodic, is_submit, is_valid, is_pool_valid}
use ahura_rtos.Timer.Lists.{running_insert, running_remove, ready_unlink, detach_locked}

-- A full period; an expiry that waits for its callback belongs to the old one, and goes with it.
unfoldable pub reload_timer : ℕ → Timers → Timers
reload_timer r t =
    let loaded : Timers = record t {
      remaining_ticks = update t.remaining_ticks r (t.period_ticks r);
    } in
    if t.queued r
    then (let unlinked = ready_unlink r loaded in
        record unlinked { queued = update unlinked.queued r false })
    else loaded

-- os_timer_arm, once its arguments are found valid.
unfoldable pub arm_timer : ℕ → Bool → ℕ → ℕ → Timers → Timers
arm_timer r reload context value t =
    let out = (running_remove r t).1 in
    let told : Timers = record out {
      context = update out.context r context;
      value = update out.value r value;
    } in
    let armed =
      running_insert r (if reload || not (told.paused r) then reload_timer r told else told) in
    record armed { paused = update armed.paused r false; active = update armed.active r true }

-- os_timer_arm
unfoldable pub arm : ℕ → Bool → ℕ → ℕ → Timers → Status × Timers
arm r reload context value t =
    if is_valid t r && (not (is_null (t.callback r)) && not (t.period_ticks r == 0))
    then (ok, arm_timer r reload context value t)
    else (invalid_arg, t)

-- os_timer_start
unfoldable pub start : ℕ → ℕ → ℕ → Timers → Status × Timers
start r context value t = arm r false context value t

-- os_timer_restart
unfoldable pub restart : ℕ → ℕ → ℕ → Timers → Status × Timers
restart r context value t = arm r true context value t

-- os_timer_pause
unfoldable pub pause : ℕ → Timers → Status × Timers
pause r t =
    if is_valid t r
    then (if t.active r
        then (
          ok,
          (running_remove r
              (record t { active = update t.active r false; paused = update t.paused r true })).1,
        )
        else (if t.paused r then ok else error, t))
    else (invalid_arg, t)

-- os_timer_stop
unfoldable pub stop : ℕ → Timers → Status × Timers
stop r t =
    if is_valid t r
    then (
      ok,
      detach_locked r
          (record t { active = update t.active r false; paused = update t.paused r false }),
    )
    else (invalid_arg, t)

-- os_timer_period_set
unfoldable pub period_set : ℕ → ℕ → ℕ → Timers → Status × Timers
period_set tick_hz r period_ms t =
    if is_valid t r && (not (period_ms == 0) && not (period_ms == wait_forever))
    then (ok, record t { period_ticks = update t.period_ticks r (ticks_from_ms tick_hz period_ms) })
    else (invalid_arg, t)

-- os_timer_callback_set
unfoldable pub callback_set : ℕ → Option ℕ → Timers → Status × Timers
callback_set r callback t =
    if is_valid t r && not (is_null callback)
    then (ok, record t { callback = update t.callback r callback })
    else (invalid_arg, t)

-- os_timer_value_set
unfoldable pub value_set : ℕ → ℕ → Timers → Status × Timers
value_set r value t =
    if is_valid t r then (ok, record t { value = update t.value r value }) else (invalid_arg, t)

-- The loop of os_timer_pool_prepare_locked over the entries from one on.
unfoldable pub prepare_entries : ℕ → ℕ → ℕ → Timers → Timers
prepare_entries p zero r t = t
prepare_entries p (suc left) r t = prepare_entries p left (r + 1) (record t {
  pool = update t.pool r p;
  is_self = update t.is_self r true;
  mode = update t.mode r submit;
  callback = update t.callback r (t.pool_callback p);
  active = update t.active r false;
  paused = update t.paused r false;
  queued = update t.queued r false;
  period_ticks = update t.period_ticks r (if t.pool_delay p == 0 then 1 else t.pool_delay p);
  free_list = update t.free_list p (t.free_list p ++ r ∷ []);
})

-- os_timer_pool_prepare_locked, for a pool whose entries begin with a timer.
unfoldable pub pool_prepare : ℕ → ℕ → Timers → Timers
pool_prepare p first t =
    if t.pool_ready p
    then t
    else (let prepared =
          prepare_entries p (t.pool_count p) first
            (record t { free_list = update t.free_list p [] }) in
        record prepared { pool_ready = update prepared.pool_ready p true })

abbrev pub first_entry : Timers → ℕ → ℕ
first_entry t p = elim (t.pool_entries p) [ none ↦ 0 | some first ↦ first ]

-- An entry of a pool with no delay goes to the timer task at once, and otherwise it runs.
unfoldable pub submit_entry : ℕ → ℕ → ℕ → ℕ → Timers → Timers
submit_entry p r context value t =
    let told : Timers = record t {
      context = update t.context r context;
      value = update t.value r value;
    } in
    let delayed : Timers = record told {
      remaining_ticks = update told.remaining_ticks r (told.pool_delay p);
      paused = update told.paused r false;
      active = update told.active r true;
    } in
    if told.pool_delay p == 0
    then record told {
      active = update told.active r false;
      paused = update told.paused r false;
      remaining_ticks = update told.remaining_ticks r 0;
      queued = update told.queued r true;
      ready_list = told.ready_list ++ r ∷ [];
    }
    else running_insert r delayed

module _ (k : Config) (c : Cpu) where
  -- os_task_wake_tcb(os_timer_task_tcb)
  unfoldable pub wake_task : World Timers → World Timers
  wake_task w = elim w.object.task [
    | none ↦ w
    | some r ↦ record w { sched = wake_locked k c r w.sched }
  ]

  -- os_timer_submit
  unfoldable pub submit_call : ℕ → ℕ → ℕ → World Timers → Status × World Timers
  submit_call p context value w =
      let t = w.object in
      let prepared = pool_prepare p (first_entry t p) t in
      if is_pool_valid t p
      then elim (prepared.free_list p) [
        | [] ↦ (full, record w { object = prepared })
        | r ∷ rest ↦
            let taken : Timers = record prepared { free_list = update prepared.free_list p rest } in
            let w' : World Timers = record w { object = submit_entry p r context value taken } in
            (ok, if t.pool_delay p == 0 then wake_task w' else w')
      ]
      else (invalid_arg, w)

-- A timer that fell due: whether it was queued for its callback just now, and the timers.
unfoldable pub expire_timer : ℕ → Timers → Bool × Timers
expire_timer r t =
    let again =
      running_insert r
        (record t { remaining_ticks = update t.remaining_ticks r (t.period_ticks r) }) in
    let over : Timers = record t {
      remaining_ticks = update t.remaining_ticks r 0;
      active = update t.active r false;
    } in
    let t' = if is_periodic (t.mode r) then again else over in
    if t'.queued r then (false, t') else (
      true,
      record t' { queued = update t'.queued r true; ready_list = t'.ready_list ++ r ∷ [] },
    )

-- The second loop of os_timer_tick_process, over the timers that fell due.
unfoldable pub expire_timers : List ℕ → Timers → Bool × Timers
expire_timers [] t = (false, t)
expire_timers (r ∷ rs) t =
    let (queued, t') = expire_timer r t in
    let (more, t'') = expire_timers rs t' in (queued || more, t'')

-- What both loops do to the timers.
unfoldable pub pass_ticks : ℕ → Timers → Bool × Timers
pass_ticks elapsed_ticks t =
    let x = Delta.expire t.running_list elapsed_ticks t.remaining_ticks in
    expire_timers x.due (record t { running_list = x.order; remaining_ticks = x.ticks })

module _ (k : Config) (c : Cpu) where
  -- os_timer_tick_process
  unfoldable pub tick_process : ℕ → World Timers → World Timers
  tick_process elapsed_ticks w =
      let (wake_needed, t) = pass_ticks elapsed_ticks w.object in
      let w' : World Timers = record w { object = t } in
      if elapsed_ticks == 0 then w else (if wake_needed then wake_task k c w' else w')

-- os_timer_next_expiry_ticks_get
unfoldable pub next_expiry_ticks_get : Timers → ℕ
next_expiry_ticks_get t =
    if not (is_empty t.ready_list)
    then 0
    else elim t.running_list [ [] ↦ u32_max | r ∷ _ ↦ t.remaining_ticks r ]

-- What the timer task calls: the callback, its context and its value.
pub record Due : Type 0 where
  pub callback : Option ℕ
  pub context : ℕ
  pub value : ℕ

-- os_timer_expired_fetch takes the oldest timer off the ready list. One that is over leaves the
-- running list, and an entry of a pool goes back to the pool.
unfoldable pub fetch_timer : ℕ → Timers → Timers
fetch_timer r t =
    let fetched : Timers = record t { queued = update t.queued r false } in
    let out = (running_remove r fetched).1 in
    let p = out.pool r in
    let returned : Timers = record out {
      context = update out.context r 0;
      value = update out.value r 0;
      free_list = update out.free_list p (out.free_list p ++ r ∷ []);
    } in
    if not (fetched.active r) && not (fetched.paused r)
    then (if is_submit (out.mode r) then returned else out)
    else fetched

-- os_timer_expired_fetch
unfoldable pub expired_fetch : Timers → Option Due × Timers
expired_fetch t = elim t.ready_list [
  | [] ↦ (none, t)
  | r ∷ rest ↦ (
    some (record { callback = t.callback r; context = t.context r; value = t.value r }),
    fetch_timer r (record t { ready_list = rest }),
  )
]
