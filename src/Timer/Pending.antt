-- ===== src/Timer/Pending.antt =====
-- A timer that fell due, in the second loop of os_timer_tick_process (kernel/os_timer.c).
use ahura_rtos.Shared.{
  ℕ, ◌+◌, ◌<◌, ◌≡◌, refl, ap, Bool, true, false, ◌||◌, Option, none, some, List, [], ◌∷◌, ◌++◌,
  arith, count-append, if◌then◌else◌, ◌==◌, update, count, Bool-cases, inl, inr,
}
use ahura_rtos.Status.{wait_forever}
use ahura_rtos.Delta.Due.{span, Distinct, due-update, due_absent}
use ahura_rtos.Delta.Span.{span-update}
use ahura_rtos.Delta.Finite.{Distinct-of_count}
use ahura_rtos.Timer.State.{Timers, is_periodic}
use ahura_rtos.Timer.Lists.{running_insert}
use ahura_rtos.Timer.Calls.{expire_timer}
use ahura_rtos.Timer.Registry.{Inserted, due_in, running_insert-Inserted}

-- All is as it should be, but the timers of a list fell due and are still to be dealt with.
pub record Pending (rs : List ℕ) (t : Timers) : Type 0 where
  pub linked : (q : ℕ) → count q rs + count q t.running_list ≡ (if t.active q then 1 else 0)
  pub noted : (q : ℕ) → count q t.ready_list ≡ (if t.queued q then 1 else 0)
  pub rests : (q : ℕ) → t.paused q ≡ true → t.active q ≡ false
  pub left : (q : ℕ) → t.paused q ≡ true → t.remaining_ticks q < wait_forever
  pub periods : (q : ℕ) → t.period_ticks q < wait_forever
  pub finite : span t.remaining_ticks t.running_list < wait_forever

-- When a timer that fell due does so again.
abbrev pub again_in : Timers → ℕ → Option ℕ
again_in t q = if is_periodic (t.mode q) then some (t.period_ticks q) else none

-- Some timers were dealt with, and no other was touched.
pub record Settled (among : ℕ → Bool) (t t' : Timers) : Type 0 where
  pub modes : (q : ℕ) → t'.mode q ≡ t.mode q
  pub periods : (q : ℕ) → t'.period_ticks q ≡ t.period_ticks q
  pub due_set : (q : ℕ) → due_in t' q ≡ (if among q then again_in t q else due_in t q)
  pub queued_set : (q : ℕ) → t'.queued q ≡ among q || t.queued q

module _ (r : ℕ) (rs : List ℕ) (t : Timers) (p : Pending (r ∷ rs) t) where
  absent : count r t.running_list ≡ 0
  absent = ground (arith, p.linked r)

  on : t.active r ≡ true
  on = ground (arith, p.linked r)

  distinct : Distinct t.running_list
  distinct = Distinct-of_count t.running_list (λ q. ground (arith, p.linked q))

  abbrev again : Timers
  again =
      running_insert r
        (record t { remaining_ticks = update t.remaining_ticks r (t.period_ticks r) })

  abbrev over : Timers
  over = record t {
    remaining_ticks = update t.remaining_ticks r 0;
    active = update t.active r false;
  }

  again-Inserted :
      Inserted r
        (record t { remaining_ticks = update t.remaining_ticks r (t.period_ticks r) })
        again
  again-Inserted =
      running_insert-Inserted r
        (record t { remaining_ticks = update t.remaining_ticks r (t.period_ticks r) }) distinct
        absent
        (rw (span-update t.remaining_ticks t.running_list r (t.period_ticks r) absent) p.finite)
        (ground (arith, p.periods r))

  again-Pending : Pending rs again
  again-Pending =
      let x = again-Inserted in
      record {
        linked = λ q. ground (arith, x.linked q, p.linked q, on, ap (λ u. u.active q) x.frame);
        noted = λ q. ground (
          arith,
          p.noted q,
          ap (λ u. u.queued q) x.frame,
          ap (λ u. count q u.ready_list) x.frame,
        );
        rests = λ q e.
            ground
              (arith, e, p.rests q, ap (λ u. u.active q) x.frame, ap (λ u. u.paused q) x.frame);
        left = λ q e. ground (
          arith,
          e,
          on,
          p.left q,
          p.rests q,
          p.linked q,
          x.others q,
          ap (λ u. u.paused q) x.frame,
        );
        periods = λ q. ground (arith, p.periods q, ap (λ u. u.period_ticks q) x.frame);
        finite = x.finite;
      }

  over-Pending : Pending rs over
  over-Pending = record {
    linked = λ q. ground (arith, p.linked q, absent, on);
    noted = p.noted;
    rests = λ q e. ground (arith, e, p.rests q);
    left = λ q e. ground (arith, e, p.left q, p.rests q, on);
    periods = p.periods;
    finite = rw (span-update t.remaining_ticks t.running_list r 0 absent) p.finite;
  }

  abbrev renewed : Timers
  renewed = if is_periodic (t.mode r) then again else over

  renewed-Pending : Pending rs renewed
  renewed-Pending = elim (Bool-cases (is_periodic (t.mode r))) [
    | inl periodic ↦ rw periodic again-Pending
    | inr once ↦ rw once over-Pending
  ]

  again-Settled :
      is_periodic (t.mode r) ≡ true
      → (q : ℕ)
      → (again.mode q ≡ t.mode q)
        × ((again.period_ticks q ≡ t.period_ticks q)
            × ((again.queued q ≡ t.queued q)
                × (due_in again q ≡ (if r == q then again_in t q else due_in t q))))
  again-Settled periodic q =
      let x = again-Inserted in
      (
        ap (λ u. u.mode q) x.frame,
        (
          ap (λ u. u.period_ticks q) x.frame,
          (
            ap (λ u. u.queued q) x.frame,
            ground (
              arith,
              periodic,
              x.due_set q,
              due-update t.remaining_ticks t.running_list r (t.period_ticks r) q absent,
            ),
          ),
        ),
      )

  over-Settled :
      is_periodic (t.mode r) ≡ false
      → (q : ℕ)
      → (over.mode q ≡ t.mode q)
        × ((over.period_ticks q ≡ t.period_ticks q)
            × ((over.queued q ≡ t.queued q)
                × (due_in over q ≡ (if r == q then again_in t q else due_in t q))))
  over-Settled once q = (
    refl,
    (
      refl,
      (
        refl,
        ground (
          arith,
          once,
          due_absent t.remaining_ticks t.running_list r absent,
          due-update t.remaining_ticks t.running_list r 0 q absent,
        ),
      ),
    ),
  )

  renewed-Settled :
      (q : ℕ)
      → (renewed.mode q ≡ t.mode q)
        × ((renewed.period_ticks q ≡ t.period_ticks q)
            × ((renewed.queued q ≡ t.queued q)
                × (due_in renewed q ≡ (if r == q then again_in t q else due_in t q))))
  renewed-Settled q = elim (Bool-cases (is_periodic (t.mode r))) [
    | inl periodic ↦ rw periodic (again-Settled periodic q)
    | inr once ↦ rw once (over-Settled once q)
  ]

  abbrev pub noticed : Timers
  noticed = if renewed.queued r then renewed else record renewed {
    queued = update renewed.queued r true;
    ready_list = renewed.ready_list ++ r ∷ [];
  }

  pub expire_timer-noticed : (expire_timer r t).1 ≡ noticed
  unfolding expire_timer
  expire_timer-noticed = elim (Bool-cases (renewed.queued r)) [
    | inl waits ↦ rw (expire_timer, waits) refl
    | inr gone ↦ rw (expire_timer, gone) refl
  ]

  pub noticed-Settled : Settled (λ q. r == q) t noticed
  noticed-Settled = elim (Bool-cases (renewed.queued r)) [
    | inl waits ↦ rw waits (record {
      modes = λ q. (renewed-Settled q).0;
      periods = λ q. (renewed-Settled q).1.0;
      due_set = λ q. (renewed-Settled q).1.1.1;
      queued_set = λ q. ground (arith, waits, (renewed-Settled q).1.1.0);
    })
    | inr gone ↦ rw gone (record {
      modes = λ q. (renewed-Settled q).0;
      periods = λ q. (renewed-Settled q).1.0;
      due_set = λ q. (renewed-Settled q).1.1.1;
      queued_set = λ q. ground (arith, gone, (renewed-Settled q).1.1.0);
    })
  ]

  pub noticed-Pending : Pending rs noticed
  noticed-Pending =
      let p' = renewed-Pending in
      elim (Bool-cases (renewed.queued r)) [
        | inl waits ↦ rw waits p'
        | inr gone ↦ rw gone (record {
          linked = p'.linked;
          noted = λ q. ground (arith, gone, p'.noted q, count-append q renewed.ready_list (r ∷ []));
          rests = p'.rests;
          left = p'.left;
          periods = p'.periods;
          finite = p'.finite;
        })
      ]
