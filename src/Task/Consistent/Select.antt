-- ===== src/Task/Consistent/Select.antt =====
-- os_task_stack_select_next of kernel/os_task.c runs a ready task of the highest priority that may
-- run on the core, and keeps the lists consistent.
use ahura_rtos.Shared.{
  ℕ, zero, suc, ◌+◌, ◌≤◌, ◌<◌, ◌≡◌, ◌≢◌, ◌⊎◌, refl, Bool, true, false, not, ◌&&◌, none, some, List,
  [], ◌∷◌, arith, ◌==◌, eq_of_==, subst, count, Bool-cases, Option-cases, inl, inr,
  count-erase_self, count-erase_ne,
}
use ahura_rtos.Status.{prio_max}
use ahura_rtos.Task.State.{running, is_running, Config, Cpu, Sched, idle_tcb}
use ahura_rtos.Task.Dispatch.{
  is_eligible, first_eligible, pick, take_ready, run_task, select_ready, stack_select_next,
}
use ahura_rtos.Task.Consistent.Defs.{IsConsistent, Ready, queued_ready, nobody}

module _ (k : Config) (c : Cpu) (s : Sched) where
  -- Waiting for a core, and allowed on this one.
  abbrev pub contends : ℕ → Bool
  contends q = queued_ready k nobody s.state q && is_eligible k c s q

  first_eligible-none :
      (rs : List ℕ) (q : ℕ)
      → first_eligible k c s rs ≡ none
      → count q rs ≢ 0
      → is_eligible k c s q ≡ false
  unfolding first_eligible
  first_eligible-none [] q e stands = absurd (stands refl)
  first_eligible-none (r ∷ rs) q e stands = ground (arith, e, stands, first_eligible-none rs q)

  first_eligible-stands : (rs : List ℕ) (r : ℕ) → first_eligible k c s rs ≡ some r → count r rs ≢ 0
  unfolding first_eligible
  first_eligible-stands [] r e = ground (arith, e)
  first_eligible-stands (q ∷ rs) r e = ground (arith, e, first_eligible-stands rs r)

  first_eligible-eligible :
      (rs : List ℕ) (r : ℕ) → first_eligible k c s rs ≡ some r → is_eligible k c s r ≡ true
  unfolding first_eligible
  first_eligible-eligible [] r e = ground (arith, e)
  first_eligible-eligible (q ∷ rs) r e = ground (arith, e, first_eligible-eligible rs r)

  module _ (h : Ready k nobody s) where
    list_of_contender : (q : ℕ) → contends q ≡ true → count q (s.ready_list (s.priority q)) ≢ 0
    list_of_contender q e = ground (arith, e, h.listed q (s.priority q))

    bit_of_member : (q p : ℕ) → count q (s.ready_list p) ≢ 0 → s.ready_bitmap p ≡ true
    bit_of_member q p stands = ground (arith, stands, h.bit_set p)

    record Best (n p r : ℕ) : Type 0 where
      queued : queued_ready k nobody s.state r ≡ true
      at_priority : s.priority r ≡ p
      eligible : is_eligible k c s r ≡ true
      highest : (q : ℕ) → s.priority q < n → contends q ≡ true → s.priority q ≤ p

    without_bit : (q n : ℕ) → s.ready_bitmap n ≡ false → s.priority q ≡ n → contends q ≡ false
    without_bit q n e at = elim (Bool-cases (contends q)) [
      | inr out ↦ out
      | inl wants ↦ ground (arith, e, at, list_of_contender q wants, bit_of_member q n)
    ]

    without_eligible :
        (q n : ℕ)
        → first_eligible k c s (s.ready_list n) ≡ none
        → s.priority q ≡ n
        → contends q ≡ false
    without_eligible q n e at = elim (Bool-cases (contends q)) [
      | inr out ↦ out
      | inl wants ↦
          ground (arith, at, list_of_contender q wants, first_eligible-none (s.ready_list n) q e)
    ]

    level_free :
        (q n : ℕ) (free : (q : ℕ) → s.priority q ≡ n → contends q ≡ false)
        → ((q : ℕ) → s.priority q < n → contends q ≡ false)
        → s.priority q < suc n
        → contends q ≡ false
    level_free q n free below low = elim (Bool-cases (s.priority q == n)) [
      | inl at ↦ free q (eq_of_== (s.priority q) n at)
      | inr off ↦ below q (ground (arith, off, low))
    ]

    pick-none : (n : ℕ) → pick k c n s ≡ none → (q : ℕ) → s.priority q < n → contends q ≡ false
    unfolding pick
    pick-none zero = λ e q low. ground arith
    pick-none (suc n) = elim (Bool-cases (s.ready_bitmap n)) [
      | inr off ↦ rw off λ e q low. level_free q n (λ q. without_bit q n off) (pick-none n e) low
      | inl on ↦ rw on (elim (Option-cases (first_eligible k c s (s.ready_list n))) [
        | inl gone ↦
            rw gone λ e q low. level_free q n (λ q. without_eligible q n gone) (pick-none n e) low
        | inr (r, found) ↦ rw found λ e. ground (arith, e)
      ])
    ]

    Best-above :
        (n p r : ℕ)
        → ((q : ℕ) → s.priority q ≡ n → contends q ≡ false)
        → Best n p r
        → Best (suc n) p r
    Best-above n p r free b = record {
      queued = b.queued;
      at_priority = b.at_priority;
      eligible = b.eligible;
      highest = λ q low wants. ground (arith, low, wants, free q, b.highest q);
    }

    Best-here : (n r : ℕ) → first_eligible k c s (s.ready_list n) ≡ some r → Best (suc n) n r
    Best-here n r found =
        let stands = first_eligible-stands (s.ready_list n) r found in
        record {
          queued = ground (arith, stands, h.listed r n);
          at_priority = ground (arith, stands, h.listed r n);
          eligible = first_eligible-eligible (s.ready_list n) r found;
          highest = λ q low wants. ground (arith, low);
        }

    pick-Best : (n p r : ℕ) → pick k c n s ≡ some (p, r) → Best n p r
    unfolding pick
    pick-Best zero p r = λ e. ground (arith, e)
    pick-Best (suc n) p r = elim (Bool-cases (s.ready_bitmap n)) [
      | inr off ↦ rw off λ e. Best-above n p r (λ q. without_bit q n off) (pick-Best n p r e)
      | inl on ↦ rw on (elim (Option-cases (first_eligible k c s (s.ready_list n))) [
        | inl gone ↦
            rw gone λ e. Best-above n p r (λ q. without_eligible q n gone) (pick-Best n p r e)
        | inr (x, found) ↦ rw found λ e.
            subst (λ m. Best (suc n) m r) (ground (arith, e))
              (subst (λ q. Best (suc n) n q) (ground (arith, e)) (Best-here n x found))
      ])
    ]

  -- What running a task comes to: it was waiting for a core, no other that could run on this core
  -- has a higher priority, and only where there is none that could is it the idle task.
  pub record Selects (r : ℕ) (t : Sched) : Type 0 where
    pub dispatched : t.state r ≡ running
    pub current : t.current c.core ≡ some r
    pub chosen : (r ≡ idle_tcb k c.core) ⊎ (contends r ≡ true)
    pub highest : (q : ℕ) → contends q ≡ true → (contends r ≡ true) × (s.priority q ≤ s.priority r)
    pub consistent : IsConsistent k nobody t

  module _ (h : IsConsistent k nobody s) where
    run_task-state : (r : ℕ) (t : Sched) → (run_task k c r t).state r ≡ running
    unfolding run_task
    run_task-state r t = ground arith

    run_task-current : (r : ℕ) (t : Sched) → (run_task k c r t).current c.core ≡ some r
    unfolding run_task
    run_task-current r t = ground arith

    take_ready-Ready :
        (r : ℕ)
        → queued_ready k nobody s.state r ≡ true
        → Ready k nobody (run_task k c r (take_ready k c (s.priority r) r s))
    unfolding run_task take_ready
    take_ready-Ready r is = record {
      listed = λ q p. ground (
        arith,
        is,
        h.ready.listed q p,
        h.ready.listed r p,
        count-erase_self r (s.ready_list p),
        count-erase_ne q r (s.ready_list p),
      );
      bit_set = λ p. ground (arith, h.ready.bit_set p);
    }

    dispatch-IsConsistent :
        (r : ℕ)
        → queued_ready k nobody s.state r ≡ true
        → IsConsistent k nobody (run_task k c r (take_ready k c (s.priority r) r s))
    unfolding run_task take_ready
    dispatch-IsConsistent r is = record {
      ready = take_ready-Ready r is;
      delayed = record {
        listed = λ q. ground (arith, is, h.delayed.listed q);
        finite = h.delayed.finite;
      };
      waiting = record {
        listed = h.waiting.listed;
        blocked_only = λ q l e. ground (arith, is, h.waiting.blocked_only q l e);
        inside = h.waiting.inside;
        sorted = h.waiting.sorted;
      };
    }

    idle-IsConsistent : IsConsistent k nobody (run_task k c (idle_tcb k c.core) s)
    unfolding run_task
    idle-IsConsistent = record {
      ready = record {
        listed = λ q p. ground (arith, h.ready.listed q p);
        bit_set = h.ready.bit_set;
      };
      delayed = record {
        listed = λ q. ground (arith, h.delayed.listed q);
        finite = h.delayed.finite;
      };
      waiting = record {
        listed = h.waiting.listed;
        blocked_only =
            λ q l e. ground (arith, h.waiting.inside q l e, h.waiting.blocked_only q l e);
        inside = h.waiting.inside;
        sorted = h.waiting.sorted;
      };
    }

    module _ (bounded : (q : ℕ) → s.priority q ≤ prio_max) where
      run_idle :
          pick k c (prio_max + 1) s ≡ none
          → Selects (idle_tcb k c.core) (run_task k c (idle_tcb k c.core) s)
      unfolding run_task
      run_idle e = record {
        dispatched = ground arith;
        current = ground arith;
        chosen = inl refl;
        highest = λ q wants. ground (arith, wants, bounded q, pick-none h.ready (prio_max + 1) e q);
        consistent = idle-IsConsistent;
      }

      run_picked :
          (p r : ℕ)
          → pick k c (prio_max + 1) s ≡ some (p, r)
          → Selects r (run_task k c r (take_ready k c p r s))
      run_picked p r e =
          let b = pick-Best h.ready (prio_max + 1) p r e in
          let run : Selects r (run_task k c r (take_ready k c (s.priority r) r s)) = record {
            dispatched = run_task-state r (take_ready k c (s.priority r) r s);
            current = run_task-current r (take_ready k c (s.priority r) r s);
            chosen = inr (ground (arith, b.queued, b.eligible));
            highest = λ q wants. (
              ground (arith, b.queued, b.eligible),
              ground (arith, b.at_priority, bounded q, b.highest q, wants),
            );
            consistent = dispatch-IsConsistent r b.queued;
          } in
          subst (λ m. Selects r (run_task k c r (take_ready k c m r s))) b.at_priority run

      select_ready-Selects : Selects (select_ready k c s).0 (select_ready k c s).1
      unfolding select_ready
      select_ready-Selects = elim (Option-cases (pick k c (prio_max + 1) s)) [
        | inl nobody_there ↦ rw (nobody_there, select_ready) (run_idle nobody_there)
        | inr ((p, r), found) ↦ rw (found, select_ready) (run_picked p r found)
      ]

      -- In a consistent state with priorities in range, unless the core's scheduler lock is held, os_task_stack_select_next runs a ready task that is
      -- allowed on the core and that none of these outranks, or the idle task where there is none,
      -- and the lists stay consistent.
      pub stack_select_next-Selects :
          s.port.lock_count c.core ≡ 0
          → Selects (stack_select_next k c s).0 (stack_select_next k c s).1
      unfolding stack_select_next
      stack_select_next-Selects unlocked = elim (Option-cases (s.current c.core)) [
        | inl nobody_there ↦ rw (nobody_there, stack_select_next) select_ready-Selects
        | inr (r, e) ↦ rw (e, unlocked, stack_select_next) select_ready-Selects
      ]

    select_ready-IsConsistent : IsConsistent k nobody (select_ready k c s).1
    unfolding select_ready
    select_ready-IsConsistent = elim (Option-cases (pick k c (prio_max + 1) s)) [
      | inl nobody_there ↦ rw (nobody_there, select_ready) idle-IsConsistent
      | inr ((p, r), found) ↦
          let b = pick-Best h.ready (prio_max + 1) p r found in
          rw (found, select_ready)
            (subst (λ m. IsConsistent k nobody (run_task k c r (take_ready k c m r s)))
              b.at_priority (dispatch-IsConsistent r b.queued))
    ]

    -- os_task_stack_select_next keeps the lists consistent, whatever it picks.
    pub stack_select_next-IsConsistent : IsConsistent k nobody (stack_select_next k c s).1
    unfolding stack_select_next
    stack_select_next-IsConsistent = elim (Option-cases (s.current c.core)) [
      | inl nobody_there ↦ rw (nobody_there, stack_select_next) select_ready-IsConsistent
      | inr (r, e) ↦
          rw (e, stack_select_next)
            (elim (Bool-cases (not (s.port.lock_count c.core == 0) && is_running (s.state r))) [
              | inl held ↦ rw held h
              | inr free ↦ rw free select_ready-IsConsistent
            ])
    ]
