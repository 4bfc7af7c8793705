-- ===== src/Blocking/Ends.antt =====
-- When a blocking call with a finite timeout returns (the loop of os_sem_take in kernel/os_sem.c, which
-- the other kernel objects share).
use ahura_rtos.Shared.{
  ℕ, ◌+◌, ◌%◌, ◌≤◌, ◌<◌, ◌≡◌, ◌≢◌, refl, ap, subst, count, update, none, true, false, not, ◌&&◌,
  ◌==◌, Option, Option-cases, some, List, [], ◌∷◌, ◌++◌, arith, inl, inr, u32_mod, Bool-cases,
}
use ahura_rtos.Status.{Status, wait_forever}
use ahura_rtos.Task.State.{Config, Cpu, Sched}
use ahura_rtos.Task.Port.{switch_request}
use ahura_rtos.Task.Queues.{delay_insert, wait_node_insert, sleepers}
use ahura_rtos.Delta.Due.{count-insert}
use ahura_rtos.Task.Wait.{current_task, block, sleep_ticks, wait_begin, wait_signaled}
use ahura_rtos.Blocking.Defs.{can_block, World, Verdict, Pause, done, wait, wait_loop, try_later}
use ahura_rtos.Blocking.Loop.{Verdict-cases}
use ahura_rtos.Blocking.Timeouts.{wait_remaining-elapsed, wait_remaining-lt}

-- A call has returned.
abbrev pub Returns : {O : Type 0} → Option (Status × World O) → Type 0
Returns {O} o = (status : Status) × ((w : World O) × (o ≡ some (status, w)))

-- A pass that never waits when there is no time left.
abbrev pub Ends : {O : Type 0} → (ℕ → World O → Verdict × World O) → Type 0
Ends {O} pass = (w : World O) → (status : Status) × ((pass 0 w).0 ≡ done status)

-- The caller, if it is a task, stands among the sleepers, whom the tick wakes in the end.
abbrev pub Timed : Config → Cpu → Sched → Type 0
Timed k c s = (r : ℕ) → current_task k c s ≡ some r → count r s.delay_list ≢ 0

-- A pass that waits has a deadline, if it may wait for a finite number of ticks.
abbrev pub Arms : {O : Type 0} → Config → Cpu → (ℕ → World O → Verdict × World O) → Type 0
Arms {O} k c pass =
    (n : ℕ) (w : World O) → n < wait_forever → (pass n w).0 ≡ wait → Timed k c (pass n w).1.sched

-- A wait after which the budget of a call is used up, by the clock, if the call waits with a
-- deadline. Of a wait without one, nothing is known.
abbrev pub Outlasts : {O : Type 0} → Config → Cpu → ℕ → ℕ → Pause O → Type 0
Outlasts {O} k c budget start pause =
    (w : World O)
    → Timed k c w.sched
    → (elapsed : ℕ) × ((budget ≤ elapsed)
        × ((elapsed < u32_mod) × ((pause w).now ≡ (start + elapsed) % u32_mod)))

-- A call that runs again has a finite number of ticks left.
abbrev pub Resumes : {O : Type 0} → (World O → Verdict × ℕ × World O) → Type 0
Resumes {O} resume = (w : World O) → (resume w).1 < wait_forever

-- Once the budget is used up, a call that runs again has no time left.
abbrev pub RunsOut : {O : Type 0} → ℕ → ℕ → (World O → Verdict × ℕ × World O) → Type 0
RunsOut {O} budget start resume =
    (w : World O) (elapsed : ℕ)
    → budget ≤ elapsed
    → elapsed < u32_mod
    → w.now ≡ (start + elapsed) % u32_mod
    → (resume w).1 ≡ 0

module _ (k : Config) (c : Cpu) where
  module _ (list ticks : ℕ) (s : Sched) (finite : ticks < wait_forever) (q : ℕ)
      (e : current_task k c s ≡ some q) where
    timed : (ticks == wait_forever) ≡ false
    timed = ground (arith, finite)

    wait_begin_current : current_task k c (wait_begin k c list ticks s) ≡ some q
    unfolding wait_begin block delay_insert wait_node_insert switch_request
    wait_begin_current = rw (wait_begin, e, timed) e

    wait_begin_sleeps : count q (wait_begin k c list ticks s).delay_list ≢ 0
    unfolding wait_begin block delay_insert wait_node_insert switch_request
    wait_begin_sleeps =
        rw (wait_begin, e, timed)
          (λ out. ground (
            arith,
            out,
            count-insert q ticks
                (sleepers (record s { delay_ticks = update s.delay_ticks q ticks })) q,
          ))

  wait_begin_idle :
      (list ticks : ℕ) (s : Sched) → current_task k c s ≡ none → wait_begin k c list ticks s ≡ s
  unfolding wait_begin
  wait_begin_idle list ticks s e = rw (wait_begin, e) refl

  pub wait_begin-Timed :
      (list ticks : ℕ) (s : Sched) → ticks < wait_forever → Timed k c (wait_begin k c list ticks s)
  wait_begin-Timed list ticks s finite r on = elim (Option-cases (current_task k c s)) [
    | inl nobody ↦
        ground
          (arith, nobody, on, ap (λ t. current_task k c t) (wait_begin_idle list ticks s nobody))
    | inr (q, e) ↦
        subst (λ p. count p (wait_begin k c list ticks s).delay_list ≢ 0)
          (ground (arith, wait_begin_current list ticks s finite q e, on))
          (wait_begin_sleeps list ticks s finite q e)
  ]

  module _ (ticks : ℕ) (s : Sched) (some_ticks : 0 < ticks) (finite : ticks < wait_forever)
      (able : can_block c s ≡ true) (q : ℕ) (e : current_task k c s ≡ some q) where
    due_later : (ticks == wait_forever) ≡ false
    due_later = ground (arith, finite)

    may_sleep : (not (ticks == 0) && can_block c s) ≡ true
    may_sleep = ground (arith, some_ticks, able)

    sleep_ticks_current : current_task k c (sleep_ticks k c ticks s) ≡ some q
    unfolding sleep_ticks block delay_insert switch_request
    sleep_ticks_current = rw (sleep_ticks, e, may_sleep, due_later) e

    sleep_ticks_sleeps : count q (sleep_ticks k c ticks s).delay_list ≢ 0
    unfolding sleep_ticks block delay_insert switch_request
    sleep_ticks_sleeps =
        rw (sleep_ticks, e, may_sleep, due_later)
          (λ out. ground (
            arith,
            out,
            count-insert q ticks
                (sleepers (record s { delay_ticks = update s.delay_ticks q ticks })) q,
          ))

  sleep_ticks_idle :
      (ticks : ℕ) (s : Sched) → current_task k c s ≡ none → sleep_ticks k c ticks s ≡ s
  unfolding sleep_ticks
  sleep_ticks_idle ticks s e = rw (sleep_ticks, e) refl

  pub sleep_ticks-Timed :
      (ticks : ℕ) (s : Sched)
      → 0 < ticks
      → ticks < wait_forever
      → can_block c s ≡ true
      → Timed k c (sleep_ticks k c ticks s)
  sleep_ticks-Timed ticks s some_ticks finite able r on = elim (Option-cases (current_task k c s)) [
    | inl nobody ↦
        ground (arith, nobody, on, ap (λ t. current_task k c t) (sleep_ticks_idle ticks s nobody))
    | inr (q, e) ↦
        subst (λ p. count p (sleep_ticks k c ticks s).delay_list ≢ 0)
          (ground (arith, sleep_ticks_current ticks s some_ticks finite able q e, on))
          (sleep_ticks_sleeps ticks s some_ticks finite able q e)
  ]

pub try_later-Resumes :
    {O : Type 0} (k : Config) (c : Cpu) (budget start : ℕ)
    → budget < wait_forever
    → Resumes {O = O} (try_later k c budget start)
unfolding try_later
try_later-Resumes k c budget start finite w = elim (Bool-cases (wait_signaled k c w.sched)) [
  | inl signaled ↦ rw signaled (wait_remaining-lt budget start w.now finite)
  | inr silent ↦ rw silent (omega arith)
]

pub try_later-RunsOut :
    {O : Type 0} (k : Config) (c : Cpu) (budget start : ℕ)
    → budget < wait_forever
    → start < u32_mod
    → RunsOut {O = O} budget start (try_later k c budget start)
unfolding try_later
try_later-RunsOut k c budget start finite word w elapsed late small now =
    elim (Bool-cases (wait_signaled k c w.sched)) [
      | inl signaled ↦
          rw (signaled, now, wait_remaining-elapsed budget start elapsed finite word small)
            (omega (arith, late))
      | inr silent ↦ rw silent refl
    ]

module _ {O : Type 0} (pass : ℕ → World O → Verdict × World O)
    (resume : World O → Verdict × ℕ × World O) (ends : Ends pass) (budget start : ℕ)
    (runs_out : RunsOut budget start resume) (k : Config) (c : Cpu) (arms : Arms k c pass)
    (resumes : Resumes resume) where
  -- With no time left, the loop ends in its next pass.
  now-Returns : (pauses : List (Pause O)) (w : World O) → Returns (wait_loop pass resume pauses 0 w)
  unfolding wait_loop
  now-Returns [] w = let (status, e) = ends w in (status, ((pass 0 w).1, rw (wait_loop, e) refl))
  now-Returns (pause ∷ pauses) w =
      let (status, e) = ends w in (status, ((pass 0 w).1, rw (wait_loop, e) refl))

  pub wait_loop-Returns :
      (early : List (Pause O)) (late : Pause O) (rest : List (Pause O)) (n : ℕ) (w : World O)
      → n < wait_forever
      → Outlasts k c budget start late
      → Returns (wait_loop pass resume (early ++ late ∷ rest) n w)
  unfolding wait_loop
  wait_loop-Returns [] late rest n w finite long = elim (Verdict-cases (pass n w).0) [
    | inl (status, e) ↦ (status, ((pass n w).1, rw (wait_loop, e) refl))
    | inr e ↦
        let back = late (pass n w).1 in
        elim (Verdict-cases (resume back).0) [
          | inl (status, f) ↦ (status, ((resume back).2, rw (wait_loop, e, f) refl))
          | inr f ↦
              let (elapsed, (over, (small, now))) = long (pass n w).1 (arms n w finite e) in
              rw (wait_loop, e, f, runs_out back elapsed over small now)
                (now-Returns rest (resume back).2)
        ]
  ]
  wait_loop-Returns (pause ∷ early) late rest n w finite long = elim (Verdict-cases (pass n w).0) [
    | inl (status, e) ↦ (status, ((pass n w).1, rw (wait_loop, e) refl))
    | inr e ↦
        let back = pause (pass n w).1 in
        elim (Verdict-cases (resume back).0) [
          | inl (status, f) ↦ (status, ((resume back).2, rw (wait_loop, e, f) refl))
          | inr f ↦
              rw (wait_loop, e, f)
                (wait_loop-Returns early late rest (resume back).1 (resume back).2 (resumes back)
                  long)
        ]
  ]
