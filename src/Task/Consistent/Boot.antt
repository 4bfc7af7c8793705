-- ===== src/Task/Consistent/Boot.antt =====
-- The start of the system gives consistent lists, and idle tasks for every core.
use ahura_rtos.Shared.{
  ℕ, zero, suc, ltb, ◌≡◌, refl, true, false, Option, none, [], arith, count, points_to, Bool-cases,
  Option-cases, inl, inr,
}
use ahura_rtos.Delta.Span.{span-update}
use ahura_rtos.Status.{Status, ok, prio_idle}
use ahura_rtos.Task.State.{TaskState, is_inactive, Config, Sched, idle_tcb, in_table}
use ahura_rtos.Task.Life.{tcb_clear}
use ahura_rtos.Task.Boot.{
  clear_slots, core_init, cores_init, lists_init, system_init, idle_claim, idle_next,
  idle_create_upto, idle_create,
}
use ahura_rtos.Task.Consistent.Defs.{IsConsistent, nobody}
use ahura_rtos.Task.Consistent.Waiters.{Descending-update}

pub record Cleared (n : ℕ) (s t : Sched) : Type 0 where
  pub waiters : t.waiters ≡ s.waiters
  pub waits_for_none : ((r : ℕ) → s.wait_list r ≡ none) → (r : ℕ) → t.wait_list r ≡ none
  pub inactive : (r : ℕ) → ltb r n ≡ true → t.state r ≡ TaskState.inactive

pub clear_slots-Cleared : (k : Config) (n : ℕ) (s : Sched) → Cleared n s (clear_slots k n s)
unfolding clear_slots tcb_clear
clear_slots-Cleared k zero s = record {
  waiters = refl;
  waits_for_none = λ h r. h r;
  inactive = λ r e. ground arith;
}
clear_slots-Cleared k (suc n) s =
    let h = clear_slots-Cleared k n s in
    record {
      waiters = h.waiters;
      waits_for_none = λ free r. ground (arith, h.waits_for_none free r);
      inactive = λ r e. ground (arith, h.inactive r);
    }

-- What the loop over the cores leaves as it was.
record Started (s t : Sched) : Type 0 where
  same_waiters : t.waiters ≡ s.waiters
  same_ready : t.ready_list ≡ s.ready_list
  same_bits : t.ready_bitmap ≡ s.ready_bitmap
  same_delay : t.delay_list ≡ s.delay_list
  waits_for_none : ((r : ℕ) → s.wait_list r ≡ none) → (r : ℕ) → t.wait_list r ≡ none
  inactive : (r : ℕ) → s.state r ≡ TaskState.inactive → t.state r ≡ TaskState.inactive

cores_init-Started : (k : Config) (n : ℕ) (s : Sched) → Started s (cores_init k n s)
unfolding cores_init core_init tcb_clear
cores_init-Started k zero s = record {
  same_waiters = refl;
  same_ready = refl;
  same_bits = refl;
  same_delay = refl;
  waits_for_none = λ h r. h r;
  inactive = λ r e. e;
}
cores_init-Started k (suc n) s =
    let h = cores_init-Started k n s in
    record {
      same_waiters = h.same_waiters;
      same_ready = h.same_ready;
      same_bits = h.same_bits;
      same_delay = h.same_delay;
      waits_for_none = λ free r. ground (arith, h.waits_for_none free r);
      inactive = λ r e. ground (arith, h.inactive r e);
    }

-- A state without tasks.
empty-IsConsistent :
    (k : Config) (s : Sched)
    → s.ready_list ≡ (λ p. [])
    → s.ready_bitmap ≡ (λ p. false)
    → s.delay_list ≡ []
    → ((l : ℕ) → s.waiters l ≡ [])
    → ((r : ℕ) → s.wait_list r ≡ none)
    → ((r : ℕ) → in_table k r ≡ true → s.state r ≡ TaskState.inactive)
    → IsConsistent k nobody s
empty-IsConsistent k s lists bits sleepers alone free idle = record {
  ready = record {
    listed = λ r p. rw lists (ground (arith, idle r));
    bit_set = λ p. rw (lists, bits) refl;
  };
  delayed = record {
    listed = λ r. rw sleepers (ground (arith, idle r));
    finite = rw sleepers (ground arith);
  };
  waiting = record {
    listed = λ r l. rw (alone l, free r) refl;
    blocked_only = λ r l e. ground (arith, free r);
    inside = λ r l e. ground (arith, free r);
    sorted = λ l. rw (alone l) tt;
  };
}

-- os_task_system_init empties every list of the scheduler and frees every slot, so the lists are
-- consistent from the start, where no kernel object has a waiter yet.
pub system_init-IsConsistent :
    (k : Config) (s : Sched)
    → ((l : ℕ) → s.waiters l ≡ [])
    → ((r : ℕ) → s.wait_list r ≡ none)
    → IsConsistent k nobody (system_init k s)
unfolding system_init
system_init-IsConsistent k s alone free =
    let cleared = clear_slots-Cleared k k.table_size s in
    let h = cores_init-Started k k.core_count (lists_init k (clear_slots k k.table_size s)) in
    empty-IsConsistent k (system_init k s) h.same_ready h.same_bits h.same_delay
      (λ l. rw (h.same_waiters, cleared.waiters) (alone l))
      (h.waits_for_none (cleared.waits_for_none free))
      (λ r inside. h.inactive r (cleared.inactive r inside))

module _ (k : Config) where
  outside_table : (core : ℕ) → in_table k (idle_tcb k core) ≡ false
  outside_table core = ground arith

  -- An idle task stands in no list.
  idle_claim-IsConsistent :
      (core stack_ptr : ℕ) (s : Sched)
      → IsConsistent k nobody s
      → IsConsistent k nobody (idle_claim k core stack_ptr s)
  unfolding idle_claim
  idle_claim-IsConsistent core stack_ptr s h =
      let r = idle_tcb k core in
      let outside = outside_table core in
      let waits : (l : ℕ) → count r (s.waiters l) ≡ 0 = λ l.
        elim (Bool-cases (points_to (s.wait_list r) l)) [
          | inl named ↦ elim (Option-cases (s.wait_list r)) [
            | inl none_named ↦ ground (arith, named, none_named)
            | inr (m, e) ↦ ground (arith, h.waiting.inside r m e, outside)
          ]
          | inr unnamed ↦ ground (arith, h.waiting.listed r l, unnamed)
        ] in
      let sleeps : count r s.delay_list ≡ 0 = ground (arith, h.delayed.listed r, outside) in
      record {
        ready = record {
          listed = λ q p. ground (arith, h.ready.listed q p, outside);
          bit_set = h.ready.bit_set;
        };
        delayed = record {
          listed = λ q. ground (arith, h.delayed.listed q, outside);
          finite = rw (span-update s.delay_ticks s.delay_list r 0 sleeps) h.delayed.finite;
        };
        waiting = record {
          listed = h.waiting.listed;
          blocked_only = λ q l e.
              ground (arith, h.waiting.blocked_only q l e, h.waiting.inside q l e, outside);
          inside = h.waiting.inside;
          sorted = λ l.
              Descending-update s.priority r prio_idle (s.waiters l) (waits l) (h.waiting.sorted l);
        };
      }

  idle_next-IsConsistent :
      (initialized : ℕ → Option ℕ) (core : ℕ) (status : Status) (s : Sched)
      → IsConsistent k nobody s
      → IsConsistent k nobody (idle_next k initialized core status s).1
  unfolding idle_next
  idle_next-IsConsistent initialized core ok s h =
      elim (Bool-cases (is_inactive (s.state (idle_tcb k core)))) [
        | inl fresh ↦ rw fresh (elim (Option-cases (initialized core)) [
          | inl failed ↦ rw (idle_next, failed) h
          | inr (stack_ptr, e) ↦ rw (idle_next, e) (idle_claim-IsConsistent core stack_ptr s h)
        ])
        | inr there ↦ rw there h
      ]
  idle_next-IsConsistent initialized core _ s h = h

  idle_create_upto-IsConsistent :
      (initialized : ℕ → Option ℕ) (n : ℕ) (s : Sched)
      → IsConsistent k nobody s
      → IsConsistent k nobody (idle_create_upto k initialized n s).1
  unfolding idle_create_upto
  idle_create_upto-IsConsistent initialized zero s h = h
  idle_create_upto-IsConsistent initialized (suc core) s h =
      let before = idle_create_upto k initialized core s in
      idle_next-IsConsistent initialized core before.0 before.1
        (idle_create_upto-IsConsistent initialized core s h)

  -- os_task_idle_create puts no task into a list.
  pub idle_create-IsConsistent :
      (initialized : ℕ → Option ℕ) (s : Sched)
      → IsConsistent k nobody s
      → IsConsistent k nobody (idle_create k initialized s).1
  unfolding idle_create
  idle_create-IsConsistent initialized s h =
      idle_create_upto-IsConsistent initialized k.core_count s h
