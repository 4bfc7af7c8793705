-- ===== src/Delta/Span.antt =====
-- The time until the last entry of a delta list falls due: it never grows past the longest wait
-- that was asked for, so the sums of `ticks` never wrap.
use ahura_rtos.Shared.{
  ℕ, ◌-◌, ◌≤◌, ◌<◌, ◌≡◌, refl, List, [], ◌∷◌, arith, update, count, add32, u32_mod,
}
use ahura_rtos.Delta.Defs.{Deltas, insert_walk, insert, remove, expire}
use ahura_rtos.Delta.Due.{Distinct, span, deltas, insert_walk-ticks, remove-ticks}

pub span-update :
    (ticks : ℕ → ℕ) (es : List ℕ) (e v : ℕ)
    → count e es ≡ 0
    → span (update ticks e v) es ≡ span ticks es
span-update ticks [] e v h = refl
span-update ticks (x ∷ xs) e v h = ground (arith, span-update ticks xs e v)

span-insert_walk :
    (r : ℕ) (es : List ℕ) (n : ℕ) (ticks : ℕ → ℕ) (bound : ℕ)
    → Distinct es
    → count r es ≡ 0
    → n ≤ bound
    → span ticks es ≤ bound
    → span (insert_walk r es n ticks).ticks (insert_walk r es n ticks).order ≤ bound
unfolding insert_walk
span-insert_walk r [] n ticks bound d h small s = ground arith
span-insert_walk r (x ∷ xs) n ticks bound d h small s = ground (
  arith,
  span-update (update ticks x (ticks x - n)) xs r n,
  span-update ticks xs x (ticks x - n),
  insert_walk-ticks r xs (n - ticks x) ticks x,
  span-insert_walk r xs (n - ticks x) ticks (bound - ticks x),
)

-- Inserting keeps every due time within a bound on the old ones and the new one.
pub span-insert :
    (r n : ℕ) (s : Deltas) (bound : ℕ)
    → Distinct s.order
    → count r s.order ≡ 0
    → n ≤ bound
    → span s.ticks s.order ≤ bound
    → span (insert r n s).ticks (insert r n s).order ≤ bound
unfolding insert
span-insert r n s bound d h small k = span-insert_walk r s.order n s.ticks bound d h small k

span-remove_walk :
    (r : ℕ) (es : List ℕ) (ticks : ℕ → ℕ)
    → Distinct es
    → span ticks es < u32_mod
    → span (remove r (deltas es ticks)).ticks (remove r (deltas es ticks)).order ≤ span ticks es
unfolding remove
span-remove_walk r [] ticks d h = ground arith
span-remove_walk r (y ∷ []) ticks d h = ground arith
span-remove_walk r (y ∷ z ∷ zs) ticks d h = ground (
  arith,
  span-update ticks zs z (add32 (ticks z) (ticks r)),
  remove-ticks r y (z ∷ zs) ticks,
  span-remove_walk r (z ∷ zs) ticks,
)

pub span-remove :
    (r : ℕ) (s : Deltas)
    → Distinct s.order
    → span s.ticks s.order < u32_mod
    → span (remove r s).ticks (remove r s).order ≤ span s.ticks s.order
span-remove r s d h = span-remove_walk r s.order s.ticks d h

pub span-expire :
    (es : List ℕ) (elapsed : ℕ) (ticks : ℕ → ℕ)
    → Distinct es
    → span (expire es elapsed ticks).ticks (expire es elapsed ticks).order ≤ span ticks es
unfolding expire
span-expire [] elapsed ticks d = ground arith
span-expire (x ∷ xs) elapsed ticks d =
    ground
      (arith, span-update ticks xs x (ticks x - elapsed), span-expire xs (elapsed - ticks x) ticks)
