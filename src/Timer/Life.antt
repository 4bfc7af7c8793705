-- ===== src/Timer/Life.antt =====
-- The life of a timer in kernel/os_timer.c: what starting, restarting, pausing and stopping do.
use ahura_rtos.Shared.{
  ℕ, ◌≡◌, ◌≢◌, refl, ap, Bool, true, false, not, ◌&&◌, ◌||◌, none, some, arith, if◌then◌else◌, ◌==◌,
  update, count, Bool-cases, inl, inr, is_null,
}
use ahura_rtos.Status.{ok}
use ahura_rtos.Delta.Finite.{due-le-span}
use ahura_rtos.Timer.State.{Timers, is_valid}
use ahura_rtos.Timer.Lists.{running_insert, running_remove}
use ahura_rtos.Timer.Calls.{reload_timer, arm_timer, arm, start, pause}
use ahura_rtos.Timer.Registry.{IsValid, Removed, due_in}
use ahura_rtos.Timer.Almost.{Almost, IsValid-Almost, remove-Removed, remove-Almost, rest-IsValid}
use ahura_rtos.Timer.Keeps.{
  marked, run-Runs, reload-ticks, reload-due, reload-absent, reload-Almost,
}

-- Arming with the arguments in order.
module _ (r : ℕ) (reload : Bool) (context value : ℕ) (t : Timers) (v : IsValid t) where
  abbrev told : Timers
  told =
      let out = (running_remove r t).1 in
      record out { context = update out.context r context; value = update out.value r value }

  out-Removed : Removed r t (running_remove r t).1
  out-Removed = remove-Removed r t (IsValid-Almost r t v)

  told-Almost : Almost r told
  told-Almost =
      let a = remove-Almost r t (IsValid-Almost r t v) in
      record {
        once = a.once;
        linked = a.linked;
        noted = a.noted;
        rests = a.rests;
        left = a.left;
        periods = a.periods;
        finite = a.finite;
      }

  told-absent : count r told.running_list ≡ 0
  told-absent = ground (arith, out-Removed.linked r)

  told-paused : told.paused r ≡ t.paused r
  told-paused = ap (λ w. w.paused r) out-Removed.frame

  told-period : told.period_ticks r ≡ t.period_ticks r
  told-period = ap (λ w. w.period_ticks r) out-Removed.frame

  abbrev Armed : Timers → Type 0
  Armed u =
      IsValid u
      × ((q : ℕ)
          → due_in u q ≡ (
              if r == q
              then some
                  (if reload || not (t.paused r) then t.period_ticks r else t.remaining_ticks r)
              else due_in t q))

  armed-full :
      reload || not (t.paused r) ≡ true
      → arm_timer r reload context value t ≡ running_insert r (marked r (reload_timer r told))
  unfolding arm_timer running_insert
  armed-full full = rw (arm_timer, told-paused, full) refl

  armed-part :
      reload || not (t.paused r) ≡ false
      → arm_timer r reload context value t ≡ running_insert r (marked r told)
  unfolding arm_timer running_insert
  armed-part part = rw (arm_timer, told-paused, part) refl

  full-Armed : reload || not (t.paused r) ≡ true → Armed (arm_timer r reload context value t)
  full-Armed full =
      let ticks = ap (λ f. f r) (reload-ticks r told told-Almost told-absent) in
      let (valid, set) =
        run-Runs r (reload_timer r told) (reload-Almost r told told-Almost told-absent)
          (reload-absent r told told-Almost told-absent)
          (ground (arith, ticks, told-period, v.periods r)) in
      rw (armed-full full) (
        valid,
        λ q. ground (
          arith,
          full,
          set q,
          ticks,
          told-period,
          reload-due r told told-Almost told-absent q,
          out-Removed.due_kept q,
        ),
      )

  part-Armed : reload || not (t.paused r) ≡ false → Armed (arm_timer r reload context value t)
  part-Armed part =
      let asleep : t.paused r ≡ true = ground (arith, part) in
      let idle = out-Removed.idle (ground (arith, v.linked r, v.rests r, asleep)) in
      let (valid, set) =
        run-Runs r told told-Almost told-absent (ground (arith, idle, v.left r, asleep)) in
      rw (armed-part part) (valid, λ q. ground (arith, part, set q, idle, out-Removed.due_kept q))

  -- Among valid timers, arming a timer, running, paused or idle, keeps all timers valid, and it is then due after its
  -- period, or, when it was paused and is not to be reloaded, after the ticks that it had left;
  -- no other timer is due at another time.
  pub arm_timer-due :
      IsValid (arm_timer r reload context value t)
      × ((q : ℕ)
          → due_in (arm_timer r reload context value t) q ≡ (
              if r == q
              then some
                  (if reload || not (t.paused r) then t.period_ticks r else t.remaining_ticks r)
              else due_in t q))
  arm_timer-due = elim (Bool-cases (reload || not (t.paused r))) [
    | inl full ↦ full-Armed full
    | inr part ↦ part-Armed part
  ]

-- Pausing a running timer.
module _ (r : ℕ) (t : Timers) (v : IsValid t) where
  abbrev idled : Bool → Timers
  idled rests = record t { active = update t.active r false; paused = update t.paused r rests }

  idled-Almost : (rests : Bool) → Almost r (idled rests)
  idled-Almost rests = record {
    once = ground (arith, v.linked r);
    linked = λ q ne. ground (arith, ne, v.linked q);
    noted = v.noted;
    rests = λ q ne e. ground (arith, ne, e, v.rests q);
    left = λ q ne e. ground (arith, ne, e, v.left q);
    periods = v.periods;
    finite = v.finite;
  }

  -- Pausing a valid running timer takes it out of the running list with the ticks that it had
  -- left, and no other timer is due at another time.
  pub pause-left :
      is_valid t r ≡ true
      → t.active r ≡ true
      → let (status, t') = pause r t in
        (status ≡ ok)
        × (IsValid t'
            × ((t'.paused r ≡ true)
                × ((due_in t r ≡ some (t'.remaining_ticks r))
                    × ((q : ℕ) → due_in t' q ≡ (if r == q then none else due_in t q)))))
  unfolding pause
  pause-left valid on =
      let a = idled-Almost true in
      let x = remove-Removed r (idled true) a in
      let there : count r t.running_list ≡ 1 = ground (arith, on, v.linked r) in
      let left : due_in t r ≡ some ((running_remove r (idled true)).1.remaining_ticks r) =
        ground (arith, x.left, there) in
      rw (pause, valid, on)
        (
          refl,
          (
            rest-IsValid r (running_remove r (idled true)).1 (remove-Almost r (idled true) a)
                (ground (arith, x.linked r)) (ground (arith, ap (λ w. w.active r) x.frame))
                (λ e.
                  ground (arith, v.finite, due-le-span t.remaining_ticks t.running_list r _ left)),
            (ground (arith, ap (λ w. w.paused r) x.frame), (left, x.due_kept)),
          ),
        )

-- Starting a paused timer again, no tick having passed, undoes the pause: every timer is due when
-- it was before, for a valid running timer with a callback and a period.
pub start-pause :
    (r context value : ℕ) (t : Timers)
    → IsValid t
    → is_valid t r ≡ true
    → t.active r ≡ true
    → is_null (t.callback r) ≡ false
    → t.period_ticks r ≢ 0
    → let t' = (pause r t).1 in
      ((start r context value t').0 ≡ ok)
      × ((q : ℕ) → due_in (start r context value t').1 q ≡ due_in t q)
unfolding pause start arm is_valid
start-pause r context value t v valid on called periodic =
    let (_, (v', (paused, (left, others)))) = pause-left r t v valid on in
    rw (start, arm, guard)
      (
        refl,
        λ q. ground (
          arith,
          (arm_timer-due r false context value (pause r t).1 v').1 q,
          paused,
          left,
          others q,
        ),
      )
  where
    paused-frame : (pause r t).1 ≡ record t {
      active = update t.active r false;
      paused = update t.paused r true;
      running_list = (pause r t).1.running_list;
      remaining_ticks = (pause r t).1.remaining_ticks;
    }
    paused-frame =
        rw (pause, valid, on) (remove-Removed r (idled r t v true) (idled-Almost r t v true)).frame

    guard :
        is_valid (pause r t).1 r
          && (not (is_null ((pause r t).1.callback r)) && not ((pause r t).1.period_ticks r == 0))
        ≡ true
    guard = ground (
      arith,
      valid,
      called,
      periodic,
      ap (λ w. is_valid w r) paused-frame,
      ap (λ w. w.callback r) paused-frame,
      ap (λ w. w.period_ticks r) paused-frame,
    )
