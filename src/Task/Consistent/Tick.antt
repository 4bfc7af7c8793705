-- ===== src/Task/Consistent/Tick.antt =====
-- The passing of time (kernel/os_task.c: os_task_tick_update): the lists stay consistent, the
-- sleepers whose time has come are ready, and all others are that much nearer to theirs.
use ahura_rtos.Shared.{
  ℕ, ◌-◌, ◌<◌, ◌≡◌, ◌≢◌, refl, sym, ap, ◌∙◌, subst, Bool, true, false, Option, none, some, List, [],
  ◌∷◌, arith, if◌then◌else◌, ◌==◌, ltb, leb, update, count, Bool-cases, inl, inr, ==_false,
}
use ahura_rtos.Status.{wait_forever}
use ahura_rtos.Delta
use ahura_rtos.Delta.{Deltas}
use ahura_rtos.Delta.Due.{due, shift, due_after, due-update, due_absent, due-remove, Distinct, span}
use ahura_rtos.Delta.Span.{span-update}
use ahura_rtos.Delta.Finite.{order-remove}
use ahura_rtos.Task.State.{ready, is_blocked, Config, Cpu, Sched, in_table}
use ahura_rtos.Task.Port.{preempt_if_running}
use ahura_rtos.Task.Queues.{make_ready, delay_remove, unlink_state, sleepers}
use ahura_rtos.Task.Inherit.{unlink}
use ahura_rtos.Task.Dispatch.{expire_sleeper, tick_walk, tick_update}
use ahura_rtos.Task.Consistent.Defs.{IsConsistent, nobody}
use ahura_rtos.Task.Consistent.Moves.{Delayed-Distinct}
use ahura_rtos.Task.Consistent.Unlink.{unlink-Unlinked}
use ahura_rtos.Task.Consistent.Wake.{count-head, readied-IsConsistent}

module _ (k : Config) (c : Cpu) (s : Sched) (h : IsConsistent k nobody s) where
  -- A sleeper is blocked, and in the table.
  pub sleeper_blocked : (r : ℕ) → count r s.delay_list ≢ 0 → is_blocked (s.state r) ≡ true
  sleeper_blocked r stands = ground (arith, h.delayed.listed r)

  pub sleeper_inside : (r : ℕ) → count r s.delay_list ≢ 0 → in_table k r ≡ true
  sleeper_inside r stands = ground (arith, h.delayed.listed r)

  module _ (r : ℕ) (rs : List ℕ) (front : s.delay_list ≡ r ∷ rs) where
    abbrev woken : Sched
    woken = record s { delay_ticks = update s.delay_ticks r 0 }

    head_stands : count r s.delay_list ≢ 0
    head_stands = rw front (count-head r rs)

    head_Distinct : Distinct (r ∷ rs)
    head_Distinct = subst Distinct front (Delayed-Distinct k nobody r s h.delayed)

    shorter : span s.delay_ticks (r ∷ rs) < wait_forever
    shorter = subst (λ (l : List ℕ). span s.delay_ticks l < wait_forever) front h.delayed.finite

    woken-IsConsistent : IsConsistent k nobody woken
    woken-IsConsistent = record {
      ready = h.ready;
      delayed = record {
        listed = λ q. ground (arith, h.delayed.listed q, head_stands);
        finite =
            rw front (ground (arith, shorter, span-update s.delay_ticks rs r 0 head_Distinct.0));
      };
      waiting = h.waiting;
    }

    woken_unlinked : unlink_state r woken ≡ delay_remove r woken
    unfolding unlink_state
    woken_unlinked = ground (arith, sleeper_blocked r head_stands)

    abbrev rest : Deltas
    rest = Delta.remove r (sleepers woken)

    rest_order : rest.order ≡ rs
    rest_order = order-remove r (sleepers woken) ∙ rw front (ground arith)

    rest_due : (q : ℕ) → due rest.ticks rs q ≡ due s.delay_ticks rs q
    rest_due q =
        ap (λ l. due rest.ticks l q) (sym rest_order)
        ∙ (due-remove r (sleepers woken) q (Delayed-Distinct k nobody r s h.delayed)
              (omega (arith, woken-IsConsistent.delayed.finite))
            ∙ ap (λ l. if r == q then none else due woken.delay_ticks l q) front
            ∙ ground (
              arith,
              due-update s.delay_ticks rs r 0 q head_Distinct.0,
              due_absent s.delay_ticks rs q,
              head_Distinct.0,
            ))

    -- The rest of the list is as it was, and every entry of it is due when it was.
    order_left : (unlink_state r woken).delay_list ≡ rs
    unfolding delay_remove
    order_left = rw woken_unlinked rest_order

    due_left : (q : ℕ) → due (unlink_state r woken).delay_ticks rs q ≡ due s.delay_ticks rs q
    unfolding delay_remove
    due_left q = rw woken_unlinked (rest_due q)

    record Expiry (t : Sched) : Type 0 where
      consistent : IsConsistent k nobody t
      order : t.delay_list ≡ rs
      due_kept : (q : ℕ) → due t.delay_ticks rs q ≡ due s.delay_ticks rs q
      state : t.state ≡ update s.state r ready

    expire_sleeper-Expiry : Expiry (expire_sleeper k c r s)
    unfolding expire_sleeper make_ready preempt_if_running
    expire_sleeper-Expiry =
        let u = unlink-Unlinked k c nobody r woken refl (λ q e. cc) woken-IsConsistent in
        record {
          consistent =
              readied-IsConsistent k c r (unlink k c r woken) (sleeper_inside r head_stands) u.free
                u.consistent;
          order = u.delay_list ∙ order_left;
          due_kept = λ q. ap (λ f. due f rs q) u.delay_ticks ∙ due_left q;
          state = ap (λ f. update f r ready) u.state;
        }

    -- The head is not due yet: it is charged with the elapsed ticks.
    abbrev charged : ℕ → Sched
    charged elapsed = record s { delay_ticks = update s.delay_ticks r (s.delay_ticks r - elapsed) }

    charged-IsConsistent : (elapsed : ℕ) → IsConsistent k nobody (charged elapsed)
    charged-IsConsistent elapsed = record {
      ready = h.ready;
      delayed = record {
        listed = λ q. ground (arith, h.delayed.listed q, head_stands, shorter);
        finite = rw front (
            ground (
              arith,
              shorter,
              span-update s.delay_ticks rs r (s.delay_ticks r - elapsed) head_Distinct.0,
            ));
      };
      waiting = h.waiting;
    }

    charged_due :
        (elapsed q : ℕ)
        → ltb elapsed (s.delay_ticks r) ≡ true
        → due (charged elapsed).delay_ticks (r ∷ rs) q
          ≡ due_after elapsed (due s.delay_ticks (r ∷ rs) q)
    charged_due elapsed q early =
        ground (arith, due-update s.delay_ticks rs r (s.delay_ticks r - elapsed) q head_Distinct.0)

-- Whether an entry falls due within some ticks.
abbrev pub is_due : ℕ → Option ℕ → Bool
is_due elapsed none = false
is_due elapsed (some m) = leb m elapsed

-- What the passing of `elapsed` ticks makes of a state.
pub record Elapsed (k : Config) (elapsed : ℕ) (s t : Sched) : Type 0 where
  pub consistent : IsConsistent k nobody t
  pub due_later :
      (q : ℕ)
      → due t.delay_ticks t.delay_list q ≡ due_after elapsed (due s.delay_ticks s.delay_list q)
  pub woken :
      (q : ℕ)
      → t.state q ≡ (if is_due elapsed (due s.delay_ticks s.delay_list q) then ready else s.state q)

module _ (k : Config) (c : Cpu) where
  Elapsed-after :
      (r : ℕ) (rs : List ℕ) (elapsed : ℕ) (s s' t : Sched)
      → (h : IsConsistent k nobody s) → (front : s.delay_list ≡ r ∷ rs)
      → ltb elapsed (s.delay_ticks r) ≡ false
      → Expiry k c s h r rs front s'
      → Elapsed k (elapsed - s.delay_ticks r) s' t
      → Elapsed k elapsed s t
  Elapsed-after r rs elapsed s s' t h front now x later = record {
    consistent = later.consistent;
    due_later = λ q. rw front (
        ground (
          arith,
          later.due_later q,
          middle q,
          due_absent s.delay_ticks rs q,
          (head_Distinct k c s h r rs front).0,
        ));
    woken = λ q. rw front (
        ground (
          arith,
          later.woken q,
          middle q,
          ap (λ f. f q) x.state,
          due_absent s.delay_ticks rs q,
          (head_Distinct k c s h r rs front).0,
        ));
  }
    where
      middle : (q : ℕ) → due s'.delay_ticks s'.delay_list q ≡ due s.delay_ticks rs q
      middle q = ap (λ l. due s'.delay_ticks l q) x.order ∙ x.due_kept q

  Elapsed-charged :
      (r : ℕ) (rs : List ℕ) (elapsed : ℕ) (s : Sched)
      → (h : IsConsistent k nobody s) → (front : s.delay_list ≡ r ∷ rs)
      → ltb elapsed (s.delay_ticks r) ≡ true
      → Elapsed k elapsed s (charged k c s h r rs front elapsed)
  Elapsed-charged r rs elapsed s h front early = record {
    consistent = charged-IsConsistent k c s h r rs front elapsed;
    due_later = λ q. rw front (charged_due k c s h r rs front elapsed q early);
    woken = λ q. rw front (ground (arith, early_lem (due s.delay_ticks rs q)));
  }
    where
      early_lem : (o : Option ℕ) → is_due elapsed (shift (s.delay_ticks r) o) ≡ false
      early_lem none = refl
      early_lem (some m) = ground arith

  Elapsed-none :
      (elapsed : ℕ) (s : Sched)
      → IsConsistent k nobody s
      → s.delay_list ≡ []
      → Elapsed k elapsed s s
  Elapsed-none elapsed s h empty = record {
    consistent = h;
    due_later = λ q. rw empty;
    woken = λ q. rw empty;
  }

  tick_walk-Elapsed :
      (es : List ℕ) (elapsed : ℕ) (s : Sched)
      → s.delay_list ≡ es
      → IsConsistent k nobody s
      → Elapsed k elapsed s (tick_walk k c es elapsed s)
  unfolding tick_walk
  tick_walk-Elapsed [] elapsed s front h = Elapsed-none elapsed s h front
  tick_walk-Elapsed (r ∷ rs) elapsed s front h = elim (Bool-cases (ltb elapsed (s.delay_ticks r))) [
    | inl early ↦ rw early (Elapsed-charged r rs elapsed s h front early)
    | inr now ↦
        let x = expire_sleeper-Expiry k c s h r rs front in
        rw now (
          Elapsed-after r rs elapsed s (expire_sleeper k c r s) _ h front now x (
            tick_walk-Elapsed rs (elapsed - s.delay_ticks r) (expire_sleeper k c r s) x.order
              x.consistent))
  ]

  -- In a consistent state, when `elapsed` ticks have passed, and not none, exactly the sleepers that were due by then are ready, every
  -- other one is due that many ticks sooner, no other task's state has changed, and the lists are
  -- consistent.
  pub tick_update-Elapsed :
      (elapsed : ℕ) (s : Sched)
      → IsConsistent k nobody s
      → 0 < elapsed
      → Elapsed k elapsed s (tick_update k c elapsed s)
  unfolding tick_update
  tick_update-Elapsed elapsed s h positive =
      rw (==_false elapsed 0 (omega arith)) (tick_walk-Elapsed s.delay_list elapsed s refl h)
