-- ===== src/Task/Consistent/Life.antt =====
-- The calls that start, pause, delete and re-prioritise tasks (kernel/os_task.c) keep the lists
-- consistent, and so does os_task_stack_save_current.
use ahura_rtos.Shared.{
  ℕ, ◌≡◌, refl, Bool, true, false, ◌&&◌, ◌||◌, Option, none, some, arith, if◌then◌else◌, ◌==◌, ltb,
  leb, update, points_to, is_null, Bool-cases, Option-cases, inl, inr,
}
use ahura_rtos.Status.{Status, prio_lowest, prio_highest}
use ahura_rtos.Delta.Span.{span-update}
use ahura_rtos.Task.State.{
  TaskState, suspended, running, is_ready, is_blocked, Config, Cpu, Sched, in_table, idle_tcb,
}
use ahura_rtos.Task.Port.{switch_request, preempt_if_running, running_core_of}
use ahura_rtos.Task.Ids.{find_by_id}
use ahura_rtos.Task.Queues.{make_ready}
use ahura_rtos.Task.Inherit.{unlink, priority_recompute, max_depth}
use ahura_rtos.Task.Wait.{wake_compensate}
use ahura_rtos.Task.Life.{
  tcb_clear, start_task, start, cut_wait, suspend, pause_task, pause, refused, delete_task, delete,
  delete_target, priority_set, resolve, self_tcb,
}
use ahura_rtos.Task.Consistent.Defs.{IsConsistent, nobody}
use ahura_rtos.Task.Consistent.Waiters.{Descending-update}
use ahura_rtos.Task.Consistent.Priority.{preempt-IsConsistent}
use ahura_rtos.Task.Consistent.Chain.{in_table-find_by_id, priority_recompute-Reordered}
use ahura_rtos.Task.Consistent.Unlink.{unlink-Unlinked, unlink_depth-Unlinks}
use ahura_rtos.Task.Consistent.Wake.{readied-IsConsistent, wake_compensate-IsConsistent}
use ahura_rtos.Task.Consistent.Block.{CurrentRuns, switched-IsConsistent}

-- Changes to a task that is in no list.
module _ (k : Config) (c : Cpu) (s : Sched) (r : ℕ) where
  ticks-IsConsistent :
      (ticks : ℕ)
      → IsConsistent k (update nobody r true) s
      → IsConsistent k
          (update nobody r true)
          (record s { delay_ticks = update s.delay_ticks r ticks })
  ticks-IsConsistent ticks h = record {
    ready = h.ready;
    delayed = record {
      listed = λ q. ground (arith, h.delayed.listed q);
      finite = ground (
        arith,
        h.delayed.listed r,
        h.delayed.finite,
        span-update s.delay_ticks s.delay_list r ticks,
      );
    };
    waiting = h.waiting;
  }

  -- It gets a state that no list is for.
  resting-IsConsistent :
      (state : TaskState)
      → is_ready state ≡ false
      → is_blocked state ≡ false
      → s.wait_list r ≡ none
      → IsConsistent k (update nobody r true) s
      → IsConsistent k nobody (record s { state = update s.state r state })
  resting-IsConsistent state unready unblocked free h = record {
    ready = record {
      listed = λ q p. ground (arith, unready, h.ready.listed q p);
      bit_set = h.ready.bit_set;
    };
    delayed = record {
      listed = λ q. ground (arith, unblocked, h.delayed.listed q);
      finite = h.delayed.finite;
    };
    waiting = record {
      listed = h.waiting.listed;
      blocked_only = λ q l e. ground (arith, free, e, h.waiting.blocked_only q l);
      inside = h.waiting.inside;
      sorted = h.waiting.sorted;
    };
  }

module _ (k : Config) (c : Cpu) where
  -- What os_task_start makes of a task that it has taken out of its lists.
  placed-IsConsistent :
      (r : ℕ) (s : Sched)
      → in_table k r ≡ true
      → s.wait_list r ≡ none
      → IsConsistent k (update nobody r true) s
      → IsConsistent k nobody (
          preempt_if_running k c r (
            if ltb (running_core_of k r s) k.core_count
            then record s { state = update s.state r running }
            else make_ready r s))
  placed-IsConsistent r s inside free h =
      elim (Bool-cases (ltb (running_core_of k r s) k.core_count)) [
        | inl on ↦ rw on (
            preempt-IsConsistent k c nobody _
              (resting-IsConsistent k c s r running refl refl free h) r)
        | inr off ↦ rw off (readied-IsConsistent k c r s inside free h)
      ]

  start_task-IsConsistent :
      (r : ℕ) (s : Sched)
      → in_table k r ≡ true
      → IsConsistent k nobody s
      → IsConsistent k nobody (start_task k c r s)
  unfolding start_task
  start_task-IsConsistent r s inside h =
      let u = unlink-Unlinked k c nobody r s refl (λ q e. cc) h in
      elim (Bool-cases (is_blocked (s.state r))) [
        | inl cut ↦ rw cut (
            placed-IsConsistent r _ inside u.free (record {
              ready = u.consistent.ready;
              delayed = u.consistent.delayed;
              waiting = u.consistent.waiting;
            }))
        | inr rested ↦ rw rested (
            placed-IsConsistent r _ inside u.free
              (ticks-IsConsistent k c (unlink k c r s) r 0 u.consistent))
      ]

  -- os_task_start keeps the lists consistent.
  pub start-IsConsistent :
      (handle : ℕ) (s : Sched)
      → IsConsistent k nobody s
      → IsConsistent k nobody (start k c handle s).1
  unfolding start
  start-IsConsistent handle s h = elim (Option-cases (find_by_id k handle s)) [
    | inl unknown ↦ rw (unknown, start) h
    | inr (r, found) ↦
        rw (found, start) (start_task-IsConsistent r s (in_table-find_by_id k handle s found) h)
  ]

  -- A freed control block: os_task_tcb_clear of a task that is in no list.
  pub tcb_clear-IsConsistent :
      (r : ℕ) (s : Sched)
      → s.wait_list r ≡ none
      → IsConsistent k (update nobody r true) s
      → IsConsistent k nobody (tcb_clear k r s)
  unfolding tcb_clear
  tcb_clear-IsConsistent r s free h = record {
    ready = record {
      listed = λ q p. ground (arith, h.ready.listed q p);
      bit_set = h.ready.bit_set;
    };
    delayed = record {
      listed = λ q. ground (arith, h.delayed.listed q);
      finite = (ticks-IsConsistent k c s r 0 h).delayed.finite;
    };
    waiting = record {
      listed = λ q l. ground (arith, free, h.waiting.listed q l);
      blocked_only = λ q l e. ground (arith, free, e, h.waiting.blocked_only q l);
      inside = λ q l e. ground (arith, free, e, h.waiting.inside q l);
      sorted = λ l.
          Descending-update s.priority r 0 (s.waiters l)
            (ground (arith, free, h.waiting.listed r l)) (h.waiting.sorted l);
    };
  }

  -- A request for a switch, and the core's current task, are of no concern to the lists.
  departed-IsConsistent :
      (s : Sched) (current : ℕ → Option ℕ) (is_self wanted : Bool)
      → IsConsistent k nobody s
      → (let gone : Sched = if is_self then record s { current = current } else s in
          IsConsistent k nobody (if wanted then switch_request k c gone else gone))
  departed-IsConsistent s current true true h =
      switched-IsConsistent k c _
        (record { ready = h.ready; delayed = h.delayed; waiting = h.waiting })
  departed-IsConsistent s current true false h = record {
    ready = h.ready;
    delayed = h.delayed;
    waiting = h.waiting;
  }
  departed-IsConsistent s current false true h = switched-IsConsistent k c s h
  departed-IsConsistent s current false false h = h

  delete_task-IsConsistent :
      (r : ℕ) (s : Sched) → IsConsistent k nobody s → IsConsistent k nobody (delete_task k c r s)
  unfolding delete_task
  delete_task-IsConsistent r s h =
      let passed = wake_compensate-IsConsistent k c r s h in
      let u = unlink-Unlinked k c nobody r (wake_compensate k c r s) refl (λ q e. cc) passed in
      departed-IsConsistent _ _ _ _ (tcb_clear-IsConsistent r _ u.free u.consistent)

  cut_wait-IsConsistent :
      (r : ℕ) (s : Sched) → IsConsistent k nobody s → IsConsistent k nobody (cut_wait k c r s)
  unfolding cut_wait
  cut_wait-IsConsistent r s h = elim (Bool-cases (is_blocked (s.state r))) [
    | inl cut ↦ rw cut (record { ready = h.ready; delayed = h.delayed; waiting = h.waiting })
    | inr rests ↦ rw rests h
  ]

  suspend-IsConsistent :
      (r : ℕ) (s : Sched)
      → s.wait_list r ≡ none
      → IsConsistent k (update nobody r true) s
      → IsConsistent k nobody (suspend k c r s)
  unfolding suspend
  suspend-IsConsistent r s free h =
      resting-IsConsistent k c (record s { delay_ticks = update s.delay_ticks r 0 }) r suspended
        refl refl free (ticks-IsConsistent k c s r 0 h)

  pause_task-IsConsistent :
      (r : ℕ) (s : Sched) → IsConsistent k nobody s → IsConsistent k nobody (pause_task k c r s)
  unfolding pause_task
  pause_task-IsConsistent r s h =
      let cut = cut_wait-IsConsistent r _ (wake_compensate-IsConsistent k c r s h) in
      let u =
        unlink-Unlinked k c nobody r (cut_wait k c r (wake_compensate k c r s)) refl (λ q e. cc)
          cut in
      departed-IsConsistent _ (λ core. none) false _ (suspend-IsConsistent r _ u.free u.consistent)

  -- A refusal changes nothing.
  guarded-IsConsistent :
      (b : Bool) (status : Status) (s : Sched) (done : Status × Sched)
      → IsConsistent k nobody s
      → IsConsistent k nobody done.1
      → IsConsistent k nobody (if b then (status, s) else done).1
  guarded-IsConsistent true status s done h x = h
  guarded-IsConsistent false status s done h x = x

  -- os_task_pause keeps the lists consistent.
  pub pause-IsConsistent :
      (task : Option ℕ) (s : Sched)
      → IsConsistent k nobody s
      → IsConsistent k nobody (pause k c task s).1
  unfolding pause
  pause-IsConsistent task s h =
      guarded-IsConsistent c.in_isr _ s _ h (elim (Option-cases (resolve k c task s)) [
        | inl unknown ↦ rw (unknown, pause) h
        | inr (r, found) ↦
            rw (found, pause)
              (guarded-IsConsistent (r == idle_tcb k c.core || refused k c r s) _ s _ h
                (pause_task-IsConsistent r s h))
      ])

  -- os_task_delete keeps the lists consistent.
  pub delete-IsConsistent :
      (task : Option ℕ) (s : Sched)
      → IsConsistent k nobody s
      → IsConsistent k nobody (delete k c task s).1
  unfolding delete
  delete-IsConsistent task s h = guarded-IsConsistent c.in_isr _ s _ h (
      guarded-IsConsistent (is_null task && points_to (self_tcb k c s) (idle_tcb k c.core)) _ s _ h
        (elim (Option-cases (delete_target k c task s)) [
          | inl unknown ↦ rw (unknown, delete) h
          | inr (r, found) ↦
              rw (found, delete)
                (guarded-IsConsistent (refused k c r s) _ s _ h (delete_task-IsConsistent r s h))
        ]))

  set_base-IsConsistent :
      (r value : ℕ) (s : Sched)
      → in_table k r ≡ true
      → IsConsistent k nobody s
      → IsConsistent k nobody (
          priority_recompute k c
            (unlink k c)
            max_depth
            (some r)
            (record s { base_priority = update s.base_priority r value }))
  unfolding unlink
  set_base-IsConsistent r value s inside h =
      (priority_recompute-Reordered k c nobody (unlink k c) (unlink_depth-Unlinks k c 1) max_depth
        (some r) (record s { base_priority = update s.base_priority r value })
        (λ q e. ground (arith, e, inside))
        (record { ready = h.ready; delayed = h.delayed; waiting = h.waiting })
        (λ q e. cc)).consistent

  inside_of_resolve :
      (task : Option ℕ) (r : ℕ) (s : Sched)
      → CurrentRuns k c s
      → resolve k c task s ≡ some r
      → (r == idle_tcb k c.core) ≡ false
      → in_table k r ≡ true
  inside_of_resolve none r s who e other = ground (arith, e, other, who.inside r)
  inside_of_resolve (some handle) r s who e other = in_table-find_by_id k handle s e

  -- os_task_priority_set keeps the lists consistent.
  pub priority_set-IsConsistent :
      (task : Option ℕ) (value : ℕ) (s : Sched)
      → CurrentRuns k c s
      → IsConsistent k nobody s
      → IsConsistent k nobody (priority_set k c task value s).1
  unfolding priority_set
  priority_set-IsConsistent task value s who h =
      elim (Bool-cases (leb prio_lowest value && leb value prio_highest)) [
        | inr outside ↦ rw outside h
        | inl within ↦ rw within (elim (Option-cases (resolve k c task s)) [
          | inl unknown ↦ rw (unknown, priority_set) h
          | inr (r, found) ↦
              rw (found, priority_set)
                (elim (Bool-cases (r == idle_tcb k c.core || s.system_task r)) [
                  | inl held ↦ rw held h
                  | inr free ↦ rw free (
                      set_base-IsConsistent r value s
                        (inside_of_resolve task r s who found (ground (arith, free))) h)
                ])
        ])
      ]
