-- ===== src/Task/Consistent/Waiters.antt =====
-- Waiter lists stay in the order of priorities (kernel/os_task.c: os_task_wait_node_insert, and the
-- removals in os_task_unlink and os_task_effective_priority_set).
use ahura_rtos.Shared.{
  ℕ, suc, ◌≤◌, ◌≡◌, ◌≢◌, refl, List, [], ◌∷◌, arith, if◌then◌else◌, ◌==◌, update, count, erase,
}
use ahura_rtos.Task.Queues.{wait_place}
use ahura_rtos.Task.Consistent.Defs.{Descending}

pub count-wait_place :
    (priority : ℕ → ℕ) (r : ℕ) (xs : List ℕ) (q : ℕ)
    → count q (wait_place priority r xs) ≡ (if r == q then suc (count q xs) else count q xs)
unfolding wait_place
count-wait_place priority r [] q = refl
count-wait_place priority r (x ∷ xs) q = ground (arith, count-wait_place priority r xs q)

pub Descending-wait_place :
    (priority : ℕ → ℕ) (r : ℕ) (xs : List ℕ)
    → Descending priority xs
    → Descending priority (wait_place priority r xs)
unfolding wait_place
Descending-wait_place priority r [] h = tt
Descending-wait_place priority r (x ∷ []) h = ground arith
Descending-wait_place priority r (x ∷ y ∷ ys) h =
    ground (arith, Descending-wait_place priority r (y ∷ ys))

Descending-skip :
    (priority : ℕ → ℕ) (x y : ℕ) (ys : List ℕ)
    → Descending priority (x ∷ y ∷ ys)
    → Descending priority (x ∷ ys)
Descending-skip priority x y [] h = tt
Descending-skip priority x y (z ∷ zs) h = (omega arith, h.1.1)

pub Descending-erase :
    (priority : ℕ → ℕ) (r : ℕ) (xs : List ℕ)
    → Descending priority xs
    → Descending priority (erase r xs)
Descending-erase priority r [] h = tt
Descending-erase priority r (x ∷ []) h = ground arith
Descending-erase priority r (x ∷ y ∷ ys) h =
    ground (arith, Descending-skip priority x y ys, Descending-erase priority r (y ∷ ys))

pub Descending-update :
    (priority : ℕ → ℕ) (r v : ℕ) (xs : List ℕ)
    → count r xs ≡ 0
    → Descending priority xs
    → Descending (update priority r v) xs
Descending-update priority r v [] out h = tt
Descending-update priority r v (x ∷ []) out h = tt
Descending-update priority r v (x ∷ y ∷ ys) out h =
    ground (arith, Descending-update priority r v (y ∷ ys))

pub Descending-head :
    (priority : ℕ → ℕ) (r : ℕ) (rs : List ℕ) (q : ℕ)
    → Descending priority (r ∷ rs)
    → count q (r ∷ rs) ≢ 0
    → priority q ≤ priority r
Descending-head priority r [] q h stands = ground (arith, stands)
Descending-head priority r (x ∷ xs) q h stands =
    ground (arith, stands, Descending-head priority x xs q)
