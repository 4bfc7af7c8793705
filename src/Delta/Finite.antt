-- ===== src/Delta/Finite.antt =====
-- No entry of a delta list ever waits OS_WAIT_FOREVER ticks (kernel/os_types.h), the value that
-- marks a sleeper which is in no list.
use ahura_rtos.Shared.{
  ℕ, ◌-◌, ◌≤◌, ◌<◌, ◌≡◌, ◌≢◌, refl, false, ◌⊎◌, inl, inr, List, [], ◌∷◌, arith, ◌==◌, count, erase,
  u32_mod, if◌then◌else◌, count-erase_ne, none, some, Bool-cases, Option-cases,
}
use ahura_rtos.Delta.Defs.{Deltas, insert, remove}
use ahura_rtos.Delta.Due.{
  due, Distinct, span, deltas, insert_walk-ticks, remove-ticks, count-insert,
}
use ahura_rtos.Delta.Span.{span-insert, span-remove}

pub Distinct-of_count : (es : List ℕ) → ((r : ℕ) → count r es ≤ 1) → Distinct es
Distinct-of_count [] h = tt
Distinct-of_count (x ∷ xs) h =
    (ground (arith, h x), Distinct-of_count xs (λ r. ground (arith, h r)))

pub ticks-le-span : (ticks : ℕ → ℕ) (es : List ℕ) (q : ℕ) → count q es ≢ 0 → ticks q ≤ span ticks es
ticks-le-span ticks [] q h = absurd (h refl)
ticks-le-span ticks (x ∷ xs) q h = ground (arith, ticks-le-span ticks xs q)

pub order-remove : (r : ℕ) (s : Deltas) → (remove r s).order ≡ erase r s.order
unfolding remove
order-remove r s = ground arith

remove-ticks_self :
    (r : ℕ) (es : List ℕ) (ticks : ℕ → ℕ)
    → Distinct es
    → (remove r (deltas es ticks)).ticks r ≡ ticks r
unfolding remove
remove-ticks_self r [] ticks d = refl
remove-ticks_self r (y ∷ []) ticks d = refl
remove-ticks_self r (y ∷ z ∷ zs) ticks d = ground (arith, remove-ticks_self r (z ∷ zs) ticks)

zero-cases : (n : ℕ) → (n ≡ 0) ⊎ (n ≢ 0)
zero-cases n = ground arith

module _ (bound : ℕ) (r : ℕ) (s : Deltas) (d : Distinct s.order) where
  -- A removal turns no finite wait into an infinite one, nor the other way round.
  pub remove-ticks_finite :
      (q : ℕ)
      → span s.ticks s.order < bound
      → bound ≤ u32_mod
      → ((remove r s).ticks q == bound) ≡ (s.ticks q == bound)
  remove-ticks_finite q short small = elim (zero-cases (count q s.order)) [
    | inl absent ↦ rw (remove-ticks r q s.order s.ticks absent)
    | inr present ↦ ground (
      arith,
      remove-ticks_self r s.order s.ticks d,
      ticks-le-span s.ticks s.order q present,
      ticks-le-span (remove r s).ticks (remove r s).order q,
      order-remove r s,
      count-erase_ne q r s.order,
      span-remove r s d,
    )
  ]

  -- Nor does an insertion, and the inserted wait is finite.
  pub insert-ticks_finite :
      (n q : ℕ)
      → count r s.order ≡ 0
      → span s.ticks s.order < bound
      → n < bound
      → ((insert r n s).ticks q == bound) ≡ (if r == q then false else s.ticks q == bound)
  unfolding insert
  insert-ticks_finite n q out short small = elim (zero-cases (count q s.order)) [
    | inl absent ↦ ground (
      arith,
      insert_walk-ticks r s.order n s.ticks q absent,
      ticks-le-span (insert r n s).ticks (insert r n s).order q,
      count-insert r n s q,
      span-insert r n s (bound - 1) d out,
    )
    | inr present ↦ ground (
      arith,
      ticks-le-span s.ticks s.order q present,
      ticks-le-span (insert r n s).ticks (insert r n s).order q,
      count-insert r n s q,
      span-insert r n s (bound - 1) d out,
    )
  ]

pub due-le-span :
    (ticks : ℕ → ℕ) (es : List ℕ) (q n : ℕ) → due ticks es q ≡ some n → n ≤ span ticks es
due-le-span ticks [] q n e = ground (arith, e)
due-le-span ticks (x ∷ xs) q n e = elim (Bool-cases (x == q)) [
  | inl here ↦ ground (arith, e, here)
  | inr on ↦ elim (Option-cases (due ticks xs q)) [
    | inl never ↦ ground (arith, e, on, never)
    | inr (m, e') ↦ ground (arith, e, on, e', due-le-span ticks xs q m e')
  ]
]

pub due_none : (ticks : ℕ → ℕ) (es : List ℕ) (q : ℕ) → due ticks es q ≡ none → count q es ≡ 0
due_none ticks [] q e = refl
due_none ticks (x ∷ xs) q e = elim (Bool-cases (x == q)) [
  | inl here ↦ ground (arith, e, here)
  | inr on ↦ elim (Option-cases (due ticks xs q)) [
    | inl never ↦ ground (arith, on, due_none ticks xs q never)
    | inr (m, e') ↦ ground (arith, e, on, e')
  ]
]
