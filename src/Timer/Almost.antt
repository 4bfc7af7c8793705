-- ===== src/Timer/Almost.antt =====
-- A timer between the lists of kernel/os_timer.c: the steps from which the calls are made keep the
-- other timers valid.
use ahura_rtos.Shared.{ℕ, ◌≤◌, ◌<◌, ◌≡◌, ◌≢◌, ap, true, false, arith, if◌then◌else◌, count}
use ahura_rtos.Status.{wait_forever}
use ahura_rtos.Delta.Due.{span, Distinct}
use ahura_rtos.Delta.Finite.{Distinct-of_count}
use ahura_rtos.Timer.State.{Timers}
use ahura_rtos.Timer.Lists.{running_insert, running_remove}
use ahura_rtos.Timer.Registry.{
  IsValid, Removed, Inserted, running_remove-Removed, running_insert-Inserted,
}

-- All is as it should be but for one timer's place in the running list.
pub record Almost (r : ℕ) (t : Timers) : Type 0 where
  pub once : count r t.running_list ≤ 1
  pub linked : (q : ℕ) → r ≢ q → count q t.running_list ≡ (if t.active q then 1 else 0)
  pub noted : (q : ℕ) → count q t.ready_list ≡ (if t.queued q then 1 else 0)
  pub rests : (q : ℕ) → r ≢ q → t.paused q ≡ true → t.active q ≡ false
  pub left : (q : ℕ) → r ≢ q → t.paused q ≡ true → t.remaining_ticks q < wait_forever
  pub periods : (q : ℕ) → t.period_ticks q < wait_forever
  pub finite : span t.remaining_ticks t.running_list < wait_forever

module _ (r : ℕ) (t : Timers) where
  pub IsValid-Almost : IsValid t → Almost r t
  IsValid-Almost v = record {
    once = ground (arith, v.linked r);
    linked = λ q ne. v.linked q;
    noted = v.noted;
    rests = λ q ne. v.rests q;
    left = λ q ne. v.left q;
    periods = v.periods;
    finite = v.finite;
  }

  module _ (a : Almost r t) where
    pub Almost-Distinct : Distinct t.running_list
    Almost-Distinct = Distinct-of_count t.running_list (λ q. ground (arith, a.once, a.linked q))

    pub remove-Removed : Removed r t (running_remove r t).1
    remove-Removed = running_remove-Removed t Almost-Distinct a.finite r

    -- Out of the running list.
    pub remove-Almost : Almost r (running_remove r t).1
    remove-Almost =
        let x = remove-Removed in
        let t' = (running_remove r t).1 in
        record {
          once = ground (arith, x.linked r);
          linked = λ q ne. ground (arith, ne, x.linked q, a.linked q, ap (λ u. u.active q) x.frame);
          noted = λ q. ground (
            arith,
            a.noted q,
            ap (λ u. u.queued q) x.frame,
            ap (λ u. count q u.ready_list) x.frame,
          );
          rests = λ q ne e.
              ground (
                arith,
                ne,
                e,
                a.rests q,
                ap (λ u. u.active q) x.frame,
                ap (λ u. u.paused q) x.frame,
              );
          left = λ q ne e. ground (
            arith,
            ne,
            e,
            a.left q,
            a.rests q,
            a.linked q,
            x.others q,
            ap (λ u. u.paused q) x.frame,
          );
          periods = λ q. ground (arith, a.periods q, ap (λ u. u.period_ticks q) x.frame);
          finite = omega (arith, x.shorter, a.finite);
        }

    -- A timer that does not run, once it is out of the list.
    pub rest-IsValid :
        count r t.running_list ≡ 0
        → t.active r ≡ false
        → (t.paused r ≡ true → t.remaining_ticks r < wait_forever)
        → IsValid t
    rest-IsValid absent idle small = record {
      linked = λ q. ground (arith, absent, idle, a.linked q);
      noted = a.noted;
      rests = λ q e. ground (arith, e, idle, a.rests q);
      left = λ q e. ground (arith, e, small, a.left q);
      periods = a.periods;
      finite = a.finite;
    }

    -- A timer that runs, in its place in the list.
    module _ (absent : count r t.running_list ≡ 0)
        (small : t.remaining_ticks r < wait_forever) where
      pub insert-Inserted : Inserted r t (running_insert r t)
      insert-Inserted = running_insert-Inserted r t Almost-Distinct absent a.finite small

      pub run-IsValid : t.active r ≡ true → t.paused r ≡ false → IsValid (running_insert r t)
      run-IsValid on awake =
          let x = insert-Inserted in
          record {
            linked = λ q. ground (arith, on, x.linked q, a.linked q, ap (λ u. u.active q) x.frame);
            noted = λ q. ground (
              arith,
              a.noted q,
              ap (λ u. u.queued q) x.frame,
              ap (λ u. count q u.ready_list) x.frame,
            );
            rests = λ q e. ground (
              arith,
              e,
              awake,
              a.rests q,
              ap (λ u. u.active q) x.frame,
              ap (λ u. u.paused q) x.frame,
            );
            left = λ q e. ground (
              arith,
              e,
              awake,
              a.left q,
              a.rests q,
              a.linked q,
              x.others q,
              ap (λ u. u.paused q) x.frame,
            );
            periods = λ q. ground (arith, a.periods q, ap (λ u. u.period_ticks q) x.frame);
            finite = x.finite;
          }
