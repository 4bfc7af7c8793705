-- ===== src/Task/Consistent/Defs.antt =====
-- What it means that the lists of kernel/os_task.c agree with the task control blocks.
use ahura_rtos.Shared.{
  ℕ, ◌≤◌, ◌<◌, ◌≡◌, Bool, true, false, not, ◌&&◌, Option, some, List, [], ◌∷◌, if◌then◌else◌, ◌==◌,
  points_to, update, count, is_empty,
}
use ahura_rtos.Status.{wait_forever}
use ahura_rtos.Delta.Due.{span}
use ahura_rtos.Task.State.{TaskState, blocked, is_ready, is_blocked, Config, Sched, in_table}

-- The tasks that may be in no list: those that an operation has taken out of their lists and not
-- yet put into others.
abbrev pub nobody : ℕ → Bool
nobody r = false

abbrev pub but : ℕ → ℕ → Bool
but r = update nobody r true

-- A task that waits in the ready list of its priority. Idle tasks never queue.
abbrev pub queued_ready : Config → (ℕ → Bool) → (ℕ → TaskState) → ℕ → Bool
queued_ready k except state r = is_ready (state r) && (in_table k r && not (except r))

abbrev pub queued_delay : Config → (ℕ → Bool) → (ℕ → TaskState) → (ℕ → ℕ) → ℕ → Bool
queued_delay k except state ticks r =
    is_blocked (state r) && (not (ticks r == wait_forever) && (in_table k r && not (except r)))

-- Every ready task stands once in the list of its priority and in no other, and a bit of the bitmap
-- is set exactly for a list that is not empty.
pub record ReadyLists (k : Config) (except : ℕ → Bool) (state : ℕ → TaskState) (priority : ℕ → ℕ)
    (lists : ℕ → List ℕ) (bitmap : ℕ → Bool) : Type 0 where
  pub listed :
      (r p : ℕ)
      → count r (lists p) ≡ (if queued_ready k except state r && priority r == p then 1 else 0)
  pub bit_set : (p : ℕ) → bitmap p ≡ not (is_empty (lists p))

-- Exactly the blocked tasks with a finite wait sleep in the delay list, each once, and the last of
-- them wakes before OS_WAIT_FOREVER ticks.
pub record DelayList (k : Config) (except : ℕ → Bool) (state : ℕ → TaskState) (ticks : ℕ → ℕ)
    (order : List ℕ) : Type 0 where
  pub listed : (r : ℕ) → count r order ≡ (if queued_delay k except state ticks r then 1 else 0)
  pub finite : span ticks order < wait_forever

-- A waiter list in the order of priorities, the highest first.
abbrev pub Descending : (ℕ → ℕ) → List ℕ → Type 0
Descending priority [] = Unit
Descending priority (q ∷ []) = Unit
Descending priority (q ∷ r ∷ rs) = (priority r ≤ priority q) × Descending priority (r ∷ rs)

-- A task stands in the waiter list that it names and in no other, and is then blocked and not an
-- idle task.
pub record WaitLists (k : Config) (state : ℕ → TaskState) (priority : ℕ → ℕ)
    (wait_list : ℕ → Option ℕ) (waiters : ℕ → List ℕ) : Type 0 where
  pub listed : (r l : ℕ) → count r (waiters l) ≡ (if points_to (wait_list r) l then 1 else 0)
  pub blocked_only : (r l : ℕ) → wait_list r ≡ some l → state r ≡ blocked
  pub inside : (r l : ℕ) → wait_list r ≡ some l → in_table k r ≡ true
  pub sorted : (l : ℕ) → Descending priority (waiters l)

abbrev pub Ready : Config → (ℕ → Bool) → Sched → Type 0
Ready k except s = ReadyLists k except s.state s.priority s.ready_list s.ready_bitmap

abbrev pub Delayed : Config → (ℕ → Bool) → Sched → Type 0
Delayed k except s = DelayList k except s.state s.delay_ticks s.delay_list

abbrev pub Waiting : Config → Sched → Type 0
Waiting k s = WaitLists k s.state s.priority s.wait_list s.waiters

-- All lists agree with the control blocks, but for a task that is in none.
pub record IsConsistent (k : Config) (except : ℕ → Bool) (s : Sched) : Type 0 where
  pub ready : Ready k except s
  pub delayed : Delayed k except s
  pub waiting : Waiting k s
