-- ===== src/Delta/Due.antt =====
-- When the entries of a delta list fall due, and what each operation does to that.
use ahura_rtos.Shared.{
  ℕ, suc, ◌+◌, ◌-◌, ◌<◌, ◌≡◌, ◌≢◌, refl, Option, none, some, List, [], ◌∷◌, arith, if◌then◌else◌,
  leb, ◌==◌, update, count, add32, u32_mod,
}
use ahura_rtos.Delta.Defs.{Deltas, insert_walk, insert, remove, expire}

abbrev pub shift : ℕ → Option ℕ → Option ℕ
shift n none = none
shift n (some m) = some (n + m)

-- The ticks from now until an object falls due, if it is in the list.
abbrev pub due : (ℕ → ℕ) → List ℕ → ℕ → Option ℕ
due ticks [] r = none
due ticks (e ∷ es) r = if e == r then some (ticks e) else shift (ticks e) (due ticks es r)

abbrev pub Distinct : List ℕ → Type 0
Distinct [] = Unit
Distinct (x ∷ xs) = (count x xs ≡ 0) × Distinct xs

-- The ticks until the last entry falls due.
abbrev pub span : (ℕ → ℕ) → List ℕ → ℕ
span ticks [] = 0
span ticks (e ∷ es) = ticks e + span ticks es

pub due-update :
    (ticks : ℕ → ℕ) (es : List ℕ) (e v q : ℕ)
    → count e es ≡ 0
    → due (update ticks e v) es q ≡ due ticks es q
due-update ticks [] e v q h = refl
due-update ticks (x ∷ xs) e v q h = ground (arith, due-update ticks xs e v q)

pub due_absent : (ticks : ℕ → ℕ) (es : List ℕ) (q : ℕ) → count q es ≡ 0 → due ticks es q ≡ none
due_absent ticks [] q h = refl
due_absent ticks (x ∷ xs) q h = ground (arith, due_absent ticks xs q)

pub insert_walk-ticks :
    (r : ℕ) (es : List ℕ) (n : ℕ) (ticks : ℕ → ℕ) (e : ℕ)
    → count e es ≡ 0
    → r ≢ e
    → (insert_walk r es n ticks).ticks e ≡ ticks e
unfolding insert_walk
insert_walk-ticks r [] n ticks e h ne = ground arith
insert_walk-ticks r (x ∷ xs) n ticks e h ne =
    ground (arith, insert_walk-ticks r xs (n - ticks x) ticks e)

pub count-insert_walk :
    (r : ℕ) (es : List ℕ) (n : ℕ) (ticks : ℕ → ℕ) (q : ℕ)
    → count q (insert_walk r es n ticks).order ≡ (if r == q then suc (count q es) else count q es)
unfolding insert_walk
count-insert_walk r [] n ticks q = refl
count-insert_walk r (x ∷ xs) n ticks q =
    ground (arith, count-insert_walk r xs (n - ticks x) ticks q)

pub due-insert_walk :
    (r : ℕ) (es : List ℕ) (n : ℕ) (ticks : ℕ → ℕ) (q : ℕ)
    → Distinct es
    → count r es ≡ 0
    → due (insert_walk r es n ticks).ticks (insert_walk r es n ticks).order q
      ≡ (if r == q then some n else due ticks es q)
unfolding insert_walk
due-insert_walk r [] n ticks q d h = ground arith
due-insert_walk r (x ∷ xs) n ticks q d h =
    let charged = update ticks x (ticks x - n) in
    ground (
      arith,
      due-update charged xs r n q,
      due-update ticks xs x (ticks x - n) q,
      insert_walk-ticks r xs (n - ticks x) ticks x,
      due-insert_walk r xs (n - ticks x) ticks q,
    )

Distinct-insert_walk :
    (r : ℕ) (es : List ℕ) (n : ℕ) (ticks : ℕ → ℕ)
    → Distinct es
    → count r es ≡ 0
    → Distinct (insert_walk r es n ticks).order
unfolding insert_walk
Distinct-insert_walk r [] n ticks d h = (refl, tt)
Distinct-insert_walk r (x ∷ xs) n ticks d h = ground (
  arith,
  count-insert_walk r xs (n - ticks x) ticks x,
  Distinct-insert_walk r xs (n - ticks x) ticks,
)

-- Inserting an object makes it due after the given duration, and moves no other entry's due time.
pub due-insert :
    (r n : ℕ) (s : Deltas) (q : ℕ)
    → Distinct s.order
    → count r s.order ≡ 0
    → due (insert r n s).ticks (insert r n s).order q
      ≡ (if r == q then some n else due s.ticks s.order q)
unfolding insert
due-insert r n s q d h = due-insert_walk r s.order n s.ticks q d h

pub Distinct-insert :
    (r n : ℕ) (s : Deltas) → Distinct s.order → count r s.order ≡ 0 → Distinct (insert r n s).order
unfolding insert
Distinct-insert r n s d h = Distinct-insert_walk r s.order n s.ticks d h

pub count-insert :
    (r n : ℕ) (s : Deltas) (q : ℕ)
    → count q (insert r n s).order ≡ (if r == q then suc (count q s.order) else count q s.order)
unfolding insert
count-insert r n s q = count-insert_walk r s.order n s.ticks q

abbrev pub due_after : ℕ → Option ℕ → Option ℕ
due_after elapsed none = none
due_after elapsed (some m) = if leb m elapsed then none else some (m - elapsed)

-- After `elapsed` ticks every entry that is still due later is due that much sooner, and every
-- entry that was due by then has left the list.
pub due-expire :
    (es : List ℕ) (elapsed : ℕ) (ticks : ℕ → ℕ) (q : ℕ)
    → Distinct es
    → due (expire es elapsed ticks).ticks (expire es elapsed ticks).order q
      ≡ due_after elapsed (due ticks es q)
unfolding expire
due-expire [] elapsed ticks q d = refl
due-expire (x ∷ xs) elapsed ticks q d = ground (
  arith,
  due-update ticks xs x (ticks x - elapsed) q,
  due_absent ticks xs q,
  due-expire xs (elapsed - ticks x) ticks q,
)

-- What falls due within `elapsed` ticks leaves the list, and nothing else does.
pub count-expire :
    (es : List ℕ) (elapsed : ℕ) (ticks : ℕ → ℕ) (q : ℕ)
    → count q (expire es elapsed ticks).due + count q (expire es elapsed ticks).order ≡ count q es
unfolding expire
count-expire [] elapsed ticks q = refl
count-expire (x ∷ xs) elapsed ticks q = ground (arith, count-expire xs (elapsed - ticks x) ticks q)

pub Distinct-expire :
    (es : List ℕ) (elapsed : ℕ) (ticks : ℕ → ℕ)
    → Distinct es
    → Distinct (expire es elapsed ticks).order
unfolding expire
Distinct-expire [] elapsed ticks d = tt
Distinct-expire (x ∷ xs) elapsed ticks d =
    ground (arith, Distinct-expire xs (elapsed - ticks x) ticks)

abbrev pub deltas : List ℕ → (ℕ → ℕ) → Deltas
deltas es ticks = record { order = es; ticks = ticks }

pub remove-ticks :
    (r x : ℕ) (es : List ℕ) (ticks : ℕ → ℕ)
    → count x es ≡ 0
    → (remove r (deltas es ticks)).ticks x ≡ ticks x
unfolding remove
remove-ticks r x [] ticks h = refl
remove-ticks r x (y ∷ []) ticks h = refl
remove-ticks r x (y ∷ z ∷ zs) ticks h = ground (arith, remove-ticks r x (z ∷ zs) ticks)

due-remove_walk :
    (r : ℕ) (es : List ℕ) (ticks : ℕ → ℕ) (q : ℕ)
    → Distinct es
    → span ticks es < u32_mod
    → due (remove r (deltas es ticks)).ticks (remove r (deltas es ticks)).order q
      ≡ (if r == q then none else due ticks es q)
unfolding remove
due-remove_walk r [] ticks q d h = ground arith
due-remove_walk r (y ∷ []) ticks q d h = ground arith
due-remove_walk r (y ∷ z ∷ zs) ticks q d h = ground (
  arith,
  due-update ticks zs z (add32 (ticks z) (ticks r)) q,
  remove-ticks r y (z ∷ zs) ticks,
  due_absent ticks (z ∷ zs) q,
  due-remove_walk r (z ∷ zs) ticks q,
)

-- Removing an object leaves the due times of all others as they are.
pub due-remove :
    (r : ℕ) (s : Deltas) (q : ℕ)
    → Distinct s.order
    → span s.ticks s.order < u32_mod
    → due (remove r s).ticks (remove r s).order q ≡ (if r == q then none else due s.ticks s.order q)
due-remove r s q d h = due-remove_walk r s.order s.ticks q d h
