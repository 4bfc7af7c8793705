-- ===== src/Timer/Keeps.antt =====
-- The two steps of os_timer_arm in kernel/os_timer.c: reloading a timer, and putting it in its place.
use ahura_rtos.Shared.{
  ℕ, ◌<◌, ◌≡◌, refl, ap, true, false, not, some, List, [], ◌∷◌, arith, if◌then◌else◌, ◌==◌, update,
  count, erase, count-erase_self, count-erase_ne, erase_absent, Bool-cases, inl, inr,
}
use ahura_rtos.Status.{wait_forever}
use ahura_rtos.Delta.Due.{due-update}
use ahura_rtos.Delta.Span.{span-update}
use ahura_rtos.Timer.State.{Timers}
use ahura_rtos.Timer.Lists.{member_locked, ready_unlink, running_insert}
use ahura_rtos.Timer.Calls.{reload_timer}
use ahura_rtos.Timer.Registry.{IsValid, due_in}
use ahura_rtos.Timer.Almost.{Almost, insert-Inserted, run-IsValid}

member_locked-count : (xs : List ℕ) (r : ℕ) → member_locked xs r ≡ not (count r xs == 0)
unfolding member_locked
member_locked-count [] r = refl
member_locked-count (x ∷ xs) r = ground (arith, member_locked-count xs r)

-- A timer off the ready list, however it stood there.
ready_unlink-queue : (r : ℕ) (t : Timers) → (ready_unlink r t).ready_list ≡ erase r t.ready_list
unfolding ready_unlink
ready_unlink-queue r t =
    ground (arith, member_locked-count t.ready_list r, erase_absent r t.ready_list)

-- What reloading does.
record Reloaded (r : ℕ) (t t' : Timers) : Type 0 where
  frame : t' ≡ record t {
    remaining_ticks = update t.remaining_ticks r (t.period_ticks r);
    ready_list = t'.ready_list;
    queued = t'.queued;
  }
  noted : (q : ℕ) → count q t'.ready_list ≡ (if r == q then 0 else count q t.ready_list)
  flagged : (q : ℕ) → t'.queued q ≡ (if r == q then false else t.queued q)

reload_timer-Reloaded :
    (r : ℕ) (t : Timers)
    → ((q : ℕ) → count q t.ready_list ≡ (if t.queued q then 1 else 0))
    → Reloaded r t (reload_timer r t)
unfolding reload_timer ready_unlink
reload_timer-Reloaded r t noted = elim (Bool-cases (t.queued r)) [
  | inl waits ↦
      let there : member_locked t.ready_list r ≡ true =
        ground (arith, member_locked-count t.ready_list r, noted r, waits) in
      rw (reload_timer, waits, ready_unlink, there)
        (record {
          frame = refl;
          noted = λ q. ground (
            arith,
            waits,
            noted r,
            count-erase_self r t.ready_list,
            count-erase_ne q r t.ready_list,
          );
          flagged = λ q. ground arith;
        })
  | inr gone ↦
      rw (reload_timer, gone)
        (record {
          frame = refl;
          noted = λ q. ground (arith, gone, noted r);
          flagged = λ q. ground (arith, gone);
        })
]

abbrev pub marked : ℕ → Timers → Timers
marked r u = record u { paused = update u.paused r false; active = update u.active r true }

-- A timer that is in no list but perhaps the ready list is put in its place.
module _ (r : ℕ) (u : Timers) (a : Almost r u) (absent : count r u.running_list ≡ 0)
    (small : u.remaining_ticks r < wait_forever) where
  marked-Almost : Almost r (marked r u)
  marked-Almost = record {
    once = a.once;
    linked = λ q ne. ground (arith, ne, a.linked q);
    noted = a.noted;
    rests = λ q ne e. ground (arith, ne, e, a.rests q);
    left = λ q ne e. ground (arith, ne, e, a.left q);
    periods = a.periods;
    finite = a.finite;
  }

  pub run-Runs :
      IsValid (running_insert r (marked r u))
      × ((q : ℕ)
          → due_in (running_insert r (marked r u)) q
            ≡ (if r == q then some (u.remaining_ticks r) else due_in u q))
  run-Runs = (
    run-IsValid r (marked r u) marked-Almost absent small (ground arith) (ground arith),
    (insert-Inserted r (marked r u) marked-Almost absent small).due_set,
  )

-- Reloading a timer that is out of the running list.
module _ (r : ℕ) (u : Timers) (a : Almost r u) (absent : count r u.running_list ≡ 0) where
  loaded : Reloaded r u (reload_timer r u)
  loaded = reload_timer-Reloaded r u a.noted

  pub reload-order : (reload_timer r u).running_list ≡ u.running_list
  reload-order = ap (λ w. w.running_list) loaded.frame

  pub reload-ticks :
      (reload_timer r u).remaining_ticks ≡ update u.remaining_ticks r (u.period_ticks r)
  reload-ticks = ap (λ w. w.remaining_ticks) loaded.frame

  pub reload-due : (q : ℕ) → due_in (reload_timer r u) q ≡ due_in u q
  reload-due q =
      rw (reload-order, reload-ticks)
        (due-update u.remaining_ticks u.running_list r (u.period_ticks r) q absent)

  pub reload-absent : count r (reload_timer r u).running_list ≡ 0
  reload-absent = rw reload-order absent

  pub reload-Almost : Almost r (reload_timer r u)
  reload-Almost = record {
    once = rw reload-order a.once;
    linked = λ q ne. rw (reload-order, ap (λ w. w.active q) loaded.frame) (a.linked q ne);
    noted = λ q. ground (arith, loaded.noted q, loaded.flagged q, a.noted q);
    rests = λ q ne e. ground (
      arith,
      ne,
      e,
      a.rests q,
      ap (λ w. w.active q) loaded.frame,
      ap (λ w. w.paused q) loaded.frame,
    );
    left = λ q ne e. ground (
      arith,
      ne,
      e,
      a.left q,
      ap (λ w. w.remaining_ticks q) loaded.frame,
      ap (λ w. w.paused q) loaded.frame,
    );
    periods = λ q. ground (arith, a.periods q, ap (λ w. w.period_ticks q) loaded.frame);
    finite =
        rw
          (
            reload-order,
            reload-ticks,
            span-update u.remaining_ticks u.running_list r (u.period_ticks r) absent,
          )
          a.finite;
  }
