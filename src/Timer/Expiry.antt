-- ===== src/Timer/Expiry.antt =====
-- Time that passes for the timers of kernel/os_timer.c: the two loops of os_timer_tick_process.
use ahura_rtos.Shared.{
  ℕ, ◌-◌, ◌≡◌, refl, Bool, false, not, ◌||◌, Option, none, some, List, [], ◌∷◌, ◌∙◌, arith,
  if◌then◌else◌, ◌==◌, leb, count, Bool-cases, Option-cases, inl, inr,
}
use ahura_rtos.Delta
use ahura_rtos.Delta.Due.{due_after, due_absent, due-expire, count-expire}
use ahura_rtos.Delta.Span.{span-expire}
use ahura_rtos.Delta.Finite.{due_none}
use ahura_rtos.Timer.State.{Timers}
use ahura_rtos.Timer.Calls.{expire_timer, expire_timers, pass_ticks}
use ahura_rtos.Timer.Registry.{IsValid, due_in, running-Distinct}
use ahura_rtos.Timer.Pending.{
  Pending, Settled, again_in, expire_timer-noticed, noticed-Settled, noticed-Pending,
}

-- The loop over the timers that fell due.
expire_timers-Settled :
    (rs : List ℕ) (t : Timers)
    → Pending rs t
    → Pending [] (expire_timers rs t).1
      × Settled (λ q. not (count q rs == 0)) t (expire_timers rs t).1
unfolding expire_timers
expire_timers-Settled [] t p = (
  p,
  record { modes = λ q. refl; periods = λ q. refl; due_set = λ q. refl; queued_set = λ q. refl },
)
expire_timers-Settled (r ∷ rs) t p =
    let (p', s) =
      expire_timers-Settled rs (expire_timer r t).1
        (rw (expire_timer-noticed r rs t p) (noticed-Pending r rs t p)) in
    let s1 : Settled (λ q. r == q) t (expire_timer r t).1 =
      rw (expire_timer-noticed r rs t p) (noticed-Settled r rs t p) in
    (
      p',
      record {
        modes = λ q. s.modes q ∙ s1.modes q;
        periods = λ q. s.periods q ∙ s1.periods q;
        due_set = λ q. ground (arith, s.due_set q, s1.due_set q, s1.modes q, s1.periods q);
        queued_set = λ q. ground (arith, s.queued_set q, s1.queued_set q);
      },
    )

-- What becomes of a timer that falls due after so many ticks, if it runs.
abbrev pub due_later : Timers → ℕ → ℕ → Option ℕ
due_later t elapsed q = elim (due_in t q) [
  | none ↦ none
  | some n ↦ if leb n elapsed then again_in t q else some (n - elapsed)
]

abbrev pub falls_due : Timers → ℕ → ℕ → Bool
falls_due t elapsed q = elim (due_in t q) [ none ↦ false | some n ↦ leb n elapsed ]

expire-ticks :
    (es : List ℕ) (elapsed : ℕ) (ticks : ℕ → ℕ) (q : ℕ)
    → count q es ≡ 0
    → (Delta.expire es elapsed ticks).ticks q ≡ ticks q
unfolding Delta.expire
expire-ticks [] elapsed ticks q h = refl
expire-ticks (x ∷ xs) elapsed ticks q h =
    ground (arith, expire-ticks xs (elapsed - ticks x) ticks q)

module _ (elapsed : ℕ) (t : Timers) (v : IsValid t) where
  abbrev x : Delta.Expired
  x = Delta.expire t.running_list elapsed t.remaining_ticks

  abbrev passed : Timers
  passed = record t { running_list = x.order; remaining_ticks = x.ticks }

  passed-Pending : Pending x.due passed
  passed-Pending = record {
    linked =
        λ q. ground (arith, v.linked q, count-expire t.running_list elapsed t.remaining_ticks q);
    noted = v.noted;
    rests = v.rests;
    left = λ q e. ground (
      arith,
      e,
      v.left q,
      v.rests q,
      v.linked q,
      expire-ticks t.running_list elapsed t.remaining_ticks q,
    );
    periods = v.periods;
    finite = omega (
      arith,
      v.finite,
      span-expire t.running_list elapsed t.remaining_ticks (running-Distinct t v),
    );
  }

  passed-due : (q : ℕ) → due_in passed q ≡ due_after elapsed (due_in t q)
  passed-due q = due-expire t.running_list elapsed t.remaining_ticks q (running-Distinct t v)

  due-falls : (q : ℕ) → not (count q x.due == 0) ≡ falls_due t elapsed q
  due-falls q =
      let split = count-expire t.running_list elapsed t.remaining_ticks q in
      let once = v.linked q in
      elim (Option-cases (due_in t q)) [
        | inl never ↦
            rw (falls_due, never)
              (ground (arith, never, split, due_none t.remaining_ticks t.running_list q))
        | inr (n, e) ↦
            rw (falls_due, e)
              (elim (Bool-cases (leb n elapsed)) [
                | inl by ↦ ground (
                  arith,
                  e,
                  by,
                  split,
                  passed-due q,
                  due_none x.ticks x.order q,
                  due_absent t.remaining_ticks t.running_list q,
                )
                | inr later ↦
                    ground
                      (arith, e, later, split, once, passed-due q, due_absent x.ticks x.order q)
              ])
      ]

-- Among valid timers, when ticks pass, every timer that falls due by then is queued for its callback, and a periodic
-- one runs again for its period, while any other is over; a timer that is not due by then is due
-- that much sooner and is queued only if it was; and all timers stay valid.
pub pass_ticks-due :
    (elapsed : ℕ) (t : Timers)
    → IsValid t
    → let t' = (pass_ticks elapsed t).1 in
      IsValid t'
      × ((q : ℕ)
          → (due_in t' q ≡ due_later t elapsed q)
            × (t'.queued q ≡ falls_due t elapsed q || t.queued q))
unfolding pass_ticks
pass_ticks-due elapsed t v =
    let (p, s) =
      expire_timers-Settled (x elapsed t v).due (passed elapsed t v) (passed-Pending elapsed t v) in
    (
      record {
        linked = λ r. ground (arith, p.linked r);
        noted = p.noted;
        rests = p.rests;
        left = p.left;
        periods = p.periods;
        finite = p.finite;
      },
      λ q. (
        elim (Option-cases (due_in t q)) [
          | inl never ↦
              rw (due_later, never)
                (ground
                  (arith, never, s.due_set q, passed-due elapsed t v q, due-falls elapsed t v q))
          | inr (n, e) ↦
              rw (due_later, e)
                (ground (arith, e, s.due_set q, passed-due elapsed t v q, due-falls elapsed t v q))
        ],
        ground (arith, s.queued_set q, due-falls elapsed t v q),
      ),
    )
