-- ===== src/Task/Consistent/Block.antt =====
-- The running task blocks (kernel/os_task.c: os_task_wait_begin, os_task_sleep_ticks), and the
-- lists stay consistent.
use ahura_rtos.Shared.{
  ℕ, ◌-◌, ◌≤◌, ◌<◌, ◌≡◌, sym, subst, true, false, not, ◌&&◌, none, some, arith, ◌==◌, eq_of_==,
  update, count, Bool-cases, Option-cases, inl, inr,
}
use ahura_rtos.Status.{wait_forever}
use ahura_rtos.Delta.Due.{count-insert, span}
use ahura_rtos.Delta.Span.{span-update, span-insert}
use ahura_rtos.Delta.Finite.{insert-ticks_finite}
use ahura_rtos.Task.State.{TaskState, is_running, Config, Cpu, Sched, in_table}
use ahura_rtos.Task.Port.{switch_request}
use ahura_rtos.Task.Queues.{delay_insert, wait_node_insert, wait_place, sleepers}
use ahura_rtos.Task.Wait.{current_task, block, sleep_ticks, wait_begin}
use ahura_rtos.Task.Consistent.Defs.{WaitLists, Ready, Delayed, Waiting, IsConsistent, nobody}
use ahura_rtos.Task.Consistent.Moves.{Delayed-Distinct}
use ahura_rtos.Task.Consistent.Waiters.{count-wait_place, Descending-wait_place}

module _ (k : Config) (c : Cpu) (s : Sched) (r : ℕ) (runs : is_running (s.state r) ≡ true) where
  abbrev blocking : ℕ → Sched
  blocking ticks = record s {
    delay_ticks = update s.delay_ticks r ticks;
    state = update s.state r TaskState.blocked;
  }

  block_frame :
      (ticks : ℕ)
      → block k c r ticks s ≡ record (blocking ticks) {
        delay_ticks = (block k c r ticks s).delay_ticks;
        delay_list = (block k c r ticks s).delay_list;
      }
  unfolding block delay_insert
  block_frame ticks = ground arith

  block-Ready : (ticks : ℕ) → Ready k nobody s → Ready k nobody (blocking ticks)
  block-Ready ticks h = record {
    listed = λ q p. ground (arith, runs, h.listed q p);
    bit_set = h.bit_set;
  }

  forever-Delayed : Delayed k nobody s → Delayed k nobody (blocking wait_forever)
  forever-Delayed h = record {
    listed = λ q. ground (arith, runs, h.listed q);
    finite =
        ground (
          arith,
          runs,
          h.listed r,
          h.finite,
          span-update s.delay_ticks s.delay_list r wait_forever,
        );
  }

  Delayed-block :
      (ticks : ℕ)
      → in_table k r ≡ true
      → ticks < wait_forever
      → Delayed k nobody s
      → Delayed k nobody (delay_insert r ticks (blocking ticks))
  unfolding delay_insert
  Delayed-block ticks inside short h =
      let d = Delayed-Distinct k nobody r s h in
      let out : count r s.delay_list ≡ 0 = ground (arith, runs, h.listed r) in
      let small : span (update s.delay_ticks r ticks) s.delay_list < wait_forever =
        ground (arith, h.finite, span-update s.delay_ticks s.delay_list r ticks out) in
      record {
        listed = λ q. ground (
          arith,
          runs,
          inside,
          h.listed q,
          count-insert r ticks (sleepers (blocking ticks)) q,
          insert-ticks_finite wait_forever r (sleepers (blocking ticks)) d ticks q out small short,
        );
        finite =
            ground
              (arith, span-insert r ticks (sleepers (blocking ticks)) (wait_forever - 1) d out);
      }

  delay_insert-Ready :
      (ticks : ℕ) → Ready k nobody s → Ready k nobody (delay_insert r ticks (blocking ticks))
  unfolding delay_insert
  delay_insert-Ready ticks h = block-Ready ticks h

  delay_insert-Waiting :
      (ticks : ℕ) → Waiting k (blocking ticks) → Waiting k (delay_insert r ticks (blocking ticks))
  unfolding delay_insert
  delay_insert-Waiting ticks h = h

  block-IsConsistent :
      (ticks : ℕ)
      → in_table k r ≡ true
      → ticks ≤ wait_forever
      → Ready k nobody s
      → Delayed k nobody s
      → Waiting k (blocking ticks)
      → IsConsistent k nobody (block k c r ticks s)
  unfolding block
  block-IsConsistent ticks inside word ready sleeping waiting =
      elim (Bool-cases (ticks == wait_forever)) [
        | inl forever ↦ rw forever (record {
          ready = block-Ready ticks ready;
          delayed =
              subst (λ n. Delayed k nobody (blocking n)) (sym (eq_of_== ticks wait_forever forever))
                (forever-Delayed sleeping);
          waiting = waiting;
        })
        | inr short ↦ rw short (record {
          ready = delay_insert-Ready ticks ready;
          delayed = Delayed-block ticks inside (ground (arith, word, short)) sleeping;
          waiting = delay_insert-Waiting ticks waiting;
        })
      ]

-- The current task, unless it is the idle task, is running and in the table.
pub record CurrentRuns (k : Config) (c : Cpu) (s : Sched) : Type 0 where
  pub runs : (r : ℕ) → current_task k c s ≡ some r → is_running (s.state r) ≡ true
  pub inside : (r : ℕ) → current_task k c s ≡ some r → in_table k r ≡ true

module _ (k : Config) (c : Cpu) where
  pub switched-IsConsistent :
      (t : Sched) → IsConsistent k nobody t → IsConsistent k nobody (switch_request k c t)
  unfolding switch_request
  switched-IsConsistent t x = record { ready = x.ready; delayed = x.delayed; waiting = x.waiting }

module _ (k : Config) (c : Cpu) (s : Sched) (h : IsConsistent k nobody s) where
  -- The running task in a waiter list, behind every waiter of at least its priority.
  abbrev pub joined : ℕ → ℕ → Sched
  joined list r =
      let s' : Sched = wait_node_insert list r s in
      record s' {
        wait_list = update s'.wait_list r (some list);
        wait_signaled = update s'.wait_signaled r false;
        woken_from = update s'.woken_from r none;
      }

  running_free : (r : ℕ) → is_running (s.state r) ≡ true → s.wait_list r ≡ none
  running_free r runs = elim (Option-cases (s.wait_list r)) [
    | inl free ↦ free
    | inr (l, waits) ↦ ground (arith, runs, h.waiting.blocked_only r l waits)
  ]

  joined-Waiting :
      (list r ticks : ℕ)
      → (runs : is_running (s.state r) ≡ true) → in_table k r ≡ true
      → WaitLists k
          (update s.state r TaskState.blocked)
          s.priority
          (update s.wait_list r (some list))
          (update s.waiters list (wait_place s.priority r (s.waiters list)))
  joined-Waiting list r ticks runs inside =
      let free = running_free r runs in
      record {
        listed = λ q l. ground (
          arith,
          free,
          h.waiting.listed q l,
          h.waiting.listed r l,
          count-wait_place s.priority r (s.waiters list) q,
        );
        blocked_only = λ q l e. ground (arith, e, h.waiting.blocked_only q l);
        inside = λ q l e. ground (arith, e, inside, h.waiting.inside q l);
        sorted = λ l.
            ground (arith, h.waiting.sorted l, Descending-wait_place s.priority r (s.waiters list));
      }

  sleeping-Waiting :
      (r : ℕ) → WaitLists k (update s.state r TaskState.blocked) s.priority s.wait_list s.waiters
  sleeping-Waiting r = record {
    listed = h.waiting.listed;
    blocked_only = λ q l e. ground (arith, e, h.waiting.blocked_only q l);
    inside = h.waiting.inside;
    sorted = h.waiting.sorted;
  }

  -- os_task_wait_begin by a running task keeps the lists consistent.
  pub wait_begin-IsConsistent :
      (list ticks : ℕ)
      → ticks ≤ wait_forever
      → CurrentRuns k c s
      → IsConsistent k nobody (wait_begin k c list ticks s)
  unfolding wait_begin wait_node_insert
  wait_begin-IsConsistent list ticks word who = elim (Option-cases (current_task k c s)) [
    | inl nobody_there ↦ rw (nobody_there, wait_begin) h
    | inr (r, e) ↦
        rw (e, wait_begin)
          (switched-IsConsistent k c _ (
            block-IsConsistent k c (joined list r) r (who.runs r e) ticks (who.inside r e) word
              h.ready h.delayed (joined-Waiting list r ticks (who.runs r e) (who.inside r e))))
  ]

  -- os_task_sleep_ticks by a running task keeps the lists consistent.
  pub sleep_ticks-IsConsistent :
      (ticks : ℕ)
      → ticks ≤ wait_forever
      → CurrentRuns k c s
      → IsConsistent k nobody (sleep_ticks k c ticks s)
  unfolding sleep_ticks
  sleep_ticks-IsConsistent ticks word who = elim (Option-cases (current_task k c s)) [
    | inl nobody_there ↦ rw (nobody_there, sleep_ticks) h
    | inr (r, e) ↦
        rw (e, sleep_ticks)
          (elim (Bool-cases (
            not (ticks == 0)
            && (s.kernel_running && (not c.in_isr && s.port.lock_count c.core == 0)))) [
              | inl may ↦ rw may (
                  switched-IsConsistent k c _ (
                    block-IsConsistent k c s r (who.runs r e) ticks (who.inside r e) word h.ready
                      h.delayed (sleeping-Waiting r)))
              | inr mustnt ↦ rw mustnt h
            ])
  ]
