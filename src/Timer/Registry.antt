-- ===== src/Timer/Registry.antt =====
-- The registry of running timers in kernel/os_timer.c: what os_timer_running_insert and
-- os_timer_running_remove do to it.
use ahura_rtos.Shared.{
  ℕ, ◌+◌, ◌-◌, ◌≤◌, ◌<◌, ◌≡◌, ◌≢◌, refl, ap, ◌∙◌, true, false, Option, none, some, List, [], ◌∷◌,
  arith, if◌then◌else◌, ◌==◌, update, count, add32, u32_mod, mod_low, count-erase_self,
  count-erase_ne, Bool-cases, Option-cases, inl, inr,
}
use ahura_rtos.Status.{wait_forever}
use ahura_rtos.Delta
use ahura_rtos.Delta.Due.{
  due, due-update, shift, span, Distinct, due-remove, due-insert, due_absent, remove-ticks,
  insert_walk-ticks, count-insert,
}
use ahura_rtos.Delta.Span.{span-remove, span-insert, span-update}
use ahura_rtos.Delta.Finite.{order-remove, Distinct-of_count}
use ahura_rtos.Timer.State.{Timers}
use ahura_rtos.Timer.Lists.{running, running_insert, running_remove, absolute_ticks}

-- The ticks until a timer falls due, if it runs.
abbrev pub due_in : Timers → ℕ → Option ℕ
due_in t r = due t.remaining_ticks t.running_list r

-- Every timer is in the running list once, exactly while it is active, and the last one falls due
-- before OS_WAIT_FOREVER ticks; every timer is in the ready list once, exactly while it is queued;
-- a paused timer does not run; periods and what a paused timer has left are finite.
pub record IsValid (t : Timers) : Type 0 where
  pub linked : (r : ℕ) → count r t.running_list ≡ (if t.active r then 1 else 0)
  pub noted : (r : ℕ) → count r t.ready_list ≡ (if t.queued r then 1 else 0)
  pub rests : (r : ℕ) → t.paused r ≡ true → t.active r ≡ false
  pub left : (r : ℕ) → t.paused r ≡ true → t.remaining_ticks r < wait_forever
  pub periods : (r : ℕ) → t.period_ticks r < wait_forever
  pub finite : span t.remaining_ticks t.running_list < wait_forever

absolute_ticks-due :
    (ticks : ℕ → ℕ) (xs : List ℕ) (r absolute : ℕ)
    → absolute + span ticks xs < u32_mod
    → absolute_ticks ticks xs r absolute ≡ shift absolute (due ticks xs r)
unfolding absolute_ticks
absolute_ticks-due ticks [] r absolute h = refl
absolute_ticks-due ticks (x ∷ xs) r absolute h = ground (
  arith,
  mod_low (absolute + ticks x) u32_mod,
  absolute_ticks-due ticks xs r (add32 absolute (ticks x)),
  shift_shift (due ticks xs r),
)
  where
    shift_shift : (o : Option ℕ) → shift (absolute + ticks x) o ≡ shift absolute (shift (ticks x) o)
    shift_shift none = refl
    shift_shift (some n) = ground arith

count-due :
    (ticks : ℕ → ℕ) (xs : List ℕ) (r : ℕ) → count r xs ≢ 0 → (n : ℕ) × (due ticks xs r ≡ some n)
count-due ticks [] r h = absurd (h refl)
count-due ticks (x ∷ xs) r h = elim (Bool-cases (x == r)) [
  | inl here ↦ (ticks x, rw here refl)
  | inr on ↦
      let (n, e) = count-due ticks xs r (ground (arith, h, on)) in (ticks x + n, rw (on, e) refl)
]

count-Distinct : (xs : List ℕ) (r : ℕ) → Distinct xs → count r xs ≤ 1
count-Distinct [] r d = omega arith
count-Distinct (x ∷ xs) r d = ground (arith, d, count-Distinct xs r d.1)

-- A timer leaves the running list: it keeps the ticks that it had left, and all others stay due
-- when they were.
pub record Removed (r : ℕ) (t t' : Timers) : Type 0 where
  pub frame : t' ≡ record t { running_list = t'.running_list; remaining_ticks = t'.remaining_ticks }
  pub linked : (q : ℕ) → count q t'.running_list ≡ (if r == q then 0 else count q t.running_list)
  pub due_kept : (q : ℕ) → due_in t' q ≡ (if r == q then none else due_in t q)
  pub shorter : span t'.remaining_ticks t'.running_list ≤ span t.remaining_ticks t.running_list
  pub left :
      due_in t r ≡ (if count r t.running_list == 0 then none else some (t'.remaining_ticks r))
  pub idle : count r t.running_list ≡ 0 → t'.remaining_ticks r ≡ t.remaining_ticks r
  pub others :
      (q : ℕ) → r ≢ q → count q t.running_list ≡ 0 → t'.remaining_ticks q ≡ t.remaining_ticks q

module _ (t : Timers) (distinct : Distinct t.running_list)
    (finite : span t.remaining_ticks t.running_list < wait_forever) (r : ℕ) where
  absolute_lem : absolute_ticks t.remaining_ticks t.running_list r 0 ≡ due_in t r
  absolute_lem =
      absolute_ticks-due t.remaining_ticks t.running_list r 0 (omega (arith, finite))
      ∙ shift_zero (due_in t r)
    where
      shift_zero : (o : Option ℕ) → shift 0 o ≡ o
      shift_zero none = refl
      shift_zero (some n) = ground arith

  idle-Removed : count r t.running_list ≡ 0 → Removed r t t
  idle-Removed absent =
      let never = due_absent t.remaining_ticks t.running_list r absent in
      record {
        frame = refl;
        linked = λ q. ground (arith, absent);
        due_kept = λ q. ground (arith, never);
        shorter = omega arith;
        left = rw (absent, never) refl;
        idle = λ out. refl;
        others = λ q ne out. refl;
      }

  abbrev taken_out : ℕ → Timers
  taken_out absolute =
      let d = Delta.remove r (running t) in
      record t { running_list = d.order; remaining_ticks = update d.ticks r absolute }

  active-Removed :
      (n : ℕ) → count r t.running_list ≢ 0 → due_in t r ≡ some n → Removed r t (taken_out n)
  active-Removed n on e =
      let d = Delta.remove r (running t) in
      let order = order-remove r (running t) in
      let once = count-Distinct t.running_list r distinct in
      let absent : count r d.order ≡ 0 =
        ground (arith, ap (λ l. count r l) order, count-erase_self r t.running_list, once) in
      record {
        frame = refl;
        linked = λ q. ground (
          arith,
          ap (λ l. count q l) order,
          count-erase_self r t.running_list,
          count-erase_ne q r t.running_list,
          once,
        );
        due_kept = λ q.
            due-update d.ticks d.order r n q absent
            ∙ due-remove r (running t) q distinct (omega (arith, finite));
        shorter = omega (
          arith,
          span-update d.ticks d.order r n absent,
          span-remove r (running t) distinct (omega (arith, finite)),
        );
        left = ground (arith, on, e);
        idle = λ out. absurd (on out);
        others =
            λ q ne out. ground (arith, ne, remove-ticks r q t.running_list t.remaining_ticks out);
      }

  -- os_timer_running_remove of a timer, whether it runs or not.
  pub running_remove-Removed : Removed r t (running_remove r t).1
  unfolding running_remove
  running_remove-Removed = elim (Option-cases (due_in t r)) [
    | inl never ↦ rw (running_remove, absolute_lem, never) (idle-Removed (absent never))
    | inr (n, e) ↦
        rw (running_remove, absolute_lem, e)
          (active-Removed n
            (λ absent. ground (arith, e, due_absent t.remaining_ticks t.running_list r absent)) e)
  ]
    where
      absent : due_in t r ≡ none → count r t.running_list ≡ 0
      absent never = elim (Bool-cases (count r t.running_list == 0)) [
        | inl out ↦ ground (arith, out)
        | inr on ↦
            let (n, e) =
              count-due t.remaining_ticks t.running_list r (λ z. ground (arith, z, on)) in
            ground (arith, never, e)
      ]

pub running-Distinct : (t : Timers) → IsValid t → Distinct t.running_list
running-Distinct t v = Distinct-of_count t.running_list (λ r. ground (arith, v.linked r))

-- A timer joins the running list, to fall due after the ticks that it has left.
pub record Inserted (r : ℕ) (t t' : Timers) : Type 0 where
  pub frame : t' ≡ record t { running_list = t'.running_list; remaining_ticks = t'.remaining_ticks }
  pub linked : (q : ℕ) → count q t'.running_list ≡ (if r == q then 1 else count q t.running_list)
  pub due_set : (q : ℕ) → due_in t' q ≡ (if r == q then some (t.remaining_ticks r) else due_in t q)
  pub finite : span t'.remaining_ticks t'.running_list < wait_forever
  pub others :
      (q : ℕ) → r ≢ q → count q t.running_list ≡ 0 → t'.remaining_ticks q ≡ t.remaining_ticks q

pub running_insert-Inserted :
    (r : ℕ) (t : Timers)
    → Distinct t.running_list
    → count r t.running_list ≡ 0
    → span t.remaining_ticks t.running_list < wait_forever
    → t.remaining_ticks r < wait_forever
    → Inserted r t (running_insert r t)
unfolding running_insert Delta.insert Delta.insert_walk
running_insert-Inserted r t distinct absent finite small = record {
  frame = refl;
  linked = λ q. ground (arith, absent, count-insert r (t.remaining_ticks r) (running t) q);
  due_set = λ q. due-insert r (t.remaining_ticks r) (running t) q distinct absent;
  finite = omega (
    arith,
    span-insert r (t.remaining_ticks r) (running t) (wait_forever - 1) distinct absent (omega arith)
        (omega arith),
  );
  others = λ q ne out.
      insert_walk-ticks r t.running_list (t.remaining_ticks r) t.remaining_ticks q out ne;
}
