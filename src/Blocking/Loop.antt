-- ===== src/Blocking/Loop.antt =====
-- Invariants of a blocking call, over all its critical sections and waits.
use ahura_rtos.Shared.{
  ℕ, ◌≤◌, ◌≡◌, Option, none, some, List, [], ◌∷◌, ◌⊎◌, inl, inr, refl, Bool-cases,
}
use ahura_rtos.Status.{Status, wait_forever}
use ahura_rtos.Task.State.{Config, Cpu}
use ahura_rtos.Task.Wait.{wait_signaled}
use ahura_rtos.Task.Consistent.{IsConsistent, nobody}
use ahura_rtos.Task.Consistent.Block.{CurrentRuns}
use ahura_rtos.Task.Consistent.Frame.{wait_end-IsConsistent}
use ahura_rtos.Blocking.Defs.{World, Verdict, Pause, done, wait, wait_loop, try_later}
use ahura_rtos.Blocking.Timeouts.{wait_remaining-le}

pub Verdict-cases : (v : Verdict) → ((status : Status) × (v ≡ done status)) ⊎ (v ≡ wait)
Verdict-cases (done status) = inl (status, refl)
Verdict-cases wait = inr refl

-- Every wait of the list takes states with `P` to states with `B`.
abbrev pub AllLead :
    {O : Type 0} → (World O → Type 0) → (World O → Type 0) → List (Pause O) → Type 0
AllLead P B [] = Unit
AllLead {O} P B (pause ∷ pauses) = ((w : World O) → P w → B (pause w)) × AllLead P B pauses

-- What holds after a critical section or a resumption: `P` if the call goes on, `Q` if it ends.
abbrev pub Judged :
    {O : Type 0} → (World O → Type 0) → (Status → World O → Type 0) → Verdict → World O → Type 0
Judged P Q (done status) w = Q status w
Judged P Q wait w = P w

-- What holds of the state in which a call returns, if it does.
abbrev pub Returned :
    {O : Type 0} → (Status → World O → Type 0) → Option (Status × World O) → Type 0
Returned Q none = Unit
Returned Q (some (status, w)) = Q status w

-- `A n` holds before a critical section with `n` ticks left, `P` while the call waits, `B` when it
-- runs again, and `Q` when it has returned.
module _ {O : Type 0} (pass : ℕ → World O → Verdict × World O)
    (resume : World O → Verdict × ℕ × World O) (A : ℕ → World O → Type 0) (P B : World O → Type 0)
    (Q : Status → World O → Type 0)
    (pass_leads : (n : ℕ) (w : World O) → A n w → Judged P Q (pass n w).0 (pass n w).1)
    (resume_leads : (w : World O) → B w → Judged (A (resume w).1) Q (resume w).0 (resume w).2) where
  -- What the critical sections and resumptions of a call establish when they end it holds when it
  -- returns.
  pub wait_loop-Returned :
      (pauses : List (Pause O)) (n : ℕ) (w : World O)
      → AllLead P B pauses
      → A n w
      → Returned Q (wait_loop pass resume pauses n w)
  unfolding wait_loop
  wait_loop-Returned [] n w leads a = elim (Verdict-cases (pass n w).0) [
    | inl (st, e) ↦ rw (e, wait_loop) (rw e at (pass_leads n w a))
    | inr e ↦ rw (e, wait_loop) tt
  ]
  wait_loop-Returned (pause ∷ pauses) n w leads a = elim (Verdict-cases (pass n w).0) [
    | inl (st, e) ↦ rw (e, wait_loop) (rw e at (pass_leads n w a))
    | inr e ↦
        let before : P (pass n w).1 = rw e at (pass_leads n w a) in
        let back = pause (pass n w).1 in
        let after = resume_leads back (leads.0 (pass n w).1 before) in
        elim (Verdict-cases (resume back).0) [
          | inl (st, f) ↦ rw (e, f, wait_loop) (rw f at after)
          | inr f ↦
              rw (e, f, wait_loop)
                (wait_loop-Returned pauses (resume back).1 (resume back).2 leads.1 (rw f at after))
        ]
  ]

-- The lists are consistent, and the caller is a running task: what a task finds when it runs.
pub record IsRunning (k : Config) (c : Cpu) {O : Type 0} (w : World O) : Type 0 where
  pub consistent : IsConsistent k nobody w.sched
  pub running : CurrentRuns k c w.sched

abbrev pub Settled : {O : Type 0} → Config → World O → Type 0
Settled k w = IsConsistent k nobody w.sched

-- What a call does in its critical sections, with no more ticks left than a word holds.
abbrev pub PassKeeps : {O : Type 0} → Config → Cpu → (ℕ → World O → Verdict × World O) → Type 0
PassKeeps {O} k c pass =
    (n : ℕ) (w : World O)
    → n ≤ wait_forever
    → IsRunning k c w
    → IsConsistent k nobody (pass n w).1.sched

module _ (k : Config) (c : Cpu) {O : Type 0} (pass : ℕ → World O → Verdict × World O)
    (keeps : PassKeeps k c pass) (budget start : ℕ) (word : budget ≤ wait_forever) where
  pass-Judged :
      (n : ℕ) (w : World O)
      → n ≤ wait_forever
      → IsRunning k c w
      → Judged (Settled k) (λ status. Settled k) (pass n w).0 (pass n w).1
  pass-Judged n w small run = elim (Verdict-cases (pass n w).0) [
    | inl (st, e) ↦ rw e (keeps n w small run)
    | inr e ↦ rw e (keeps n w small run)
  ]

  try_later-Judged :
      (w : World O)
      → IsRunning k c w
      → Judged
          (λ v. ((try_later k c budget start w).1 ≤ wait_forever) × IsRunning k c v)
          (λ status. Settled k)
          (try_later k c budget start w).0
          (try_later k c budget start w).2
  unfolding try_later
  try_later-Judged w run = elim (Bool-cases (wait_signaled k c w.sched)) [
    | inl signaled ↦ rw signaled (wait_remaining-le budget start w.now word, run)
    | inr not_yet ↦ rw not_yet (wait_end-IsConsistent k c w.sched run.consistent)
  ]

  -- A call whose critical sections keep the lists consistent leaves them so when it returns,
  -- provided that what runs in its waits keeps them consistent too and hands over to its task.
  pub call-Settled :
      (pauses : List (Pause O)) (n : ℕ) (w : World O)
      → n ≤ wait_forever
      → AllLead (Settled k) (IsRunning k c) pauses
      → IsRunning k c w
      → Returned (λ status. Settled k) (wait_loop pass (try_later k c budget start) pauses n w)
  call-Settled pauses n w small leads run =
      wait_loop-Returned pass (try_later k c budget start)
        (λ m v. (m ≤ wait_forever) × IsRunning k c v) (Settled k) (IsRunning k c)
        (λ status. Settled k) (λ m v a. pass-Judged m v a.0 a.1) try_later-Judged pauses n w leads
        (small, run)
