-- ===== src/Sem/Conserves.antt =====
-- Tokens of a semaphore are neither lost nor made (kernel/os_sem.c).
use ahura_rtos.Shared.{ℕ, ◌+◌, ◌≤◌, ◌<◌, ◌≡◌, refl, ◌∙◌, arith, u32_mod}
use ahura_rtos.Status.{Status, ok}
use ahura_rtos.Task.State.{Config, Cpu, Sched}
use ahura_rtos.Blocking.{World, Verdict, done}
use ahura_rtos.Sem.Defs.{Sem, give, take_pass}

-- How many tokens a give that returned this status has added, and a critical section of a take
-- with this verdict has taken.
abbrev pub added : Status → ℕ
added ok = 1
added _ = 0

abbrev pub taken : Verdict → ℕ
taken (done ok) = 1
taken _ = 0

pub record IsBounded (sem : Sem) : Type 0 where
  pub within : sem.count ≤ sem.max_count
  pub word : sem.max_count < u32_mod

-- The life of a semaphore: gives and critical sections of takes, by any core in any order, and
-- whatever else happens in between. The numbers count the tokens added and taken.
pub data Run (k : Config) (w : World Sem) : ℕ → ℕ → World Sem → Type 0 where
  start : Run k w 0 0 w
  gives :
      {g t : ℕ} {v : World Sem} (c : Cpu)
      → Run k w g t v
      → Run k w (added (give k c v).0 + g) t (give k c v).1
  takes :
      {g t : ℕ} {v : World Sem} (c : Cpu) (timeout_ms remaining : ℕ)
      → Run k w g t v
      → Run k w g
          (taken (take_pass k c timeout_ms remaining v).0 + t)
          (take_pass k c timeout_ms remaining v).1
  others :
      {g t : ℕ} {v : World Sem} (sched : Sched) (now : ℕ)
      → Run k w g t v
      → Run k w g t (record v { sched = sched; now = now })

pub record Balance (w v : World Sem) (g t : ℕ) : Type 0 where
  pub conserved : v.object.count + t ≡ w.object.count + g
  pub bounded : IsBounded v.object
  pub same_max : v.object.max_count ≡ w.object.max_count

module _ (k : Config) (c : Cpu) (v : World Sem) (b : IsBounded v.object) where
  give-Balance : Balance v (give k c v).1 (added (give k c v).0) 0
  unfolding give
  give-Balance = record {
    conserved = ground arith;
    bounded = record { within = ground arith; word = ground arith };
    same_max = ground arith;
  }

  take_pass-Balance :
      (timeout_ms remaining : ℕ)
      → Balance v
          (take_pass k c timeout_ms remaining v).1
          0
          (taken (take_pass k c timeout_ms remaining v).0)
  unfolding take_pass
  take_pass-Balance timeout_ms remaining = record {
    conserved = ground arith;
    bounded = record { within = ground arith; word = ground arith };
    same_max = ground arith;
  }

-- For a semaphore whose count is at most its maximum, a word: after any number of gives and takes
-- in any interleaving, the tokens there are and those taken are the ones there were and those
-- given, and the count is still at most the maximum.
pub Run-Balance :
    (k : Config) (w : World Sem) {g t : ℕ} {v : World Sem}
    → IsBounded w.object
    → Run k w g t v
    → Balance w v g t
Run-Balance k w b start = record { conserved = refl; bounded = b; same_max = refl }
Run-Balance k w b (gives {g} {t} {v} c run) =
    let before = Run-Balance k w b run in
    let step = give-Balance k c v before.bounded in
    record {
      conserved = omega (arith, before.conserved, step.conserved);
      bounded = step.bounded;
      same_max = step.same_max ∙ before.same_max;
    }
Run-Balance k w b (takes {g} {t} {v} c timeout_ms remaining run) =
    let before = Run-Balance k w b run in
    let step = take_pass-Balance k c v before.bounded timeout_ms remaining in
    record {
      conserved = omega (arith, before.conserved, step.conserved);
      bounded = step.bounded;
      same_max = step.same_max ∙ before.same_max;
    }
Run-Balance k w b (others sched now run) =
    let before = Run-Balance k w b run in
    record { conserved = before.conserved; bounded = before.bounded; same_max = before.same_max }
