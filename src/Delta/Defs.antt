-- ===== src/Delta/Defs.antt =====
-- The operations on delta lists that os_task.c and os_timer.c have in common.
use ahura_rtos.Shared.{
  ℕ, ◌-◌, Option, none, some, List, [], ◌∷◌, if◌then◌else◌, ltb, ◌==◌, update, erase, add32,
}

pub record Deltas : Type 0 where
  pub order : List ℕ
  pub ticks : ℕ → ℕ

-- The `next` pointer of a node, NULL for the last one and for one that is not linked.
abbrev pub successor : ℕ → List ℕ → Option ℕ
successor r [] = none
successor r (x ∷ []) = none
successor r (x ∷ y ∷ ys) = if x == r then some y else successor r (y ∷ ys)

-- The walk from a node on, with what is left of the duration; the object goes in front of the
-- first entry that waits longer, which then waits that much less, or to the end.
unfoldable pub insert_walk : ℕ → List ℕ → ℕ → (ℕ → ℕ) → Deltas
insert_walk r [] remaining ticks = record { order = r ∷ []; ticks = update ticks r remaining }
insert_walk r (e ∷ es) remaining ticks =
    if ltb remaining (ticks e)
    then record {
      order = r ∷ e ∷ es;
      ticks = update (update ticks e (ticks e - remaining)) r remaining;
    }
    else (let rest = insert_walk r es (remaining - ticks e) ticks in
        record { order = e ∷ rest.order; ticks = rest.ticks })

unfoldable pub insert : ℕ → ℕ → Deltas → Deltas
unfolding insert_walk
insert r duration s = insert_walk r s.order duration s.ticks

-- What the object waited is added to the one behind it.
unfoldable pub remove : ℕ → Deltas → Deltas
remove r s = elim (successor r s.order) [
  | none ↦ record s { order = erase r s.order }
  | some next ↦ record {
    order = erase r s.order;
    ticks = update s.ticks next (add32 (s.ticks next) (s.ticks r));
  }
]

pub record Expired : Type 0 where
  pub due : List ℕ
  pub order : List ℕ
  pub ticks : ℕ → ℕ

-- Time passes: the entries that fall due leave the front, and the first that does not is charged
-- with what is left of the elapsed ticks.
unfoldable pub expire : List ℕ → ℕ → (ℕ → ℕ) → Expired
expire [] elapsed ticks = record { due = []; order = []; ticks = ticks }
expire (e ∷ es) elapsed ticks =
    if ltb elapsed (ticks e)
    then record { due = []; order = e ∷ es; ticks = update ticks e (ticks e - elapsed) }
    else (let rest = expire es (elapsed - ticks e) ticks in
        record { due = e ∷ rest.due; order = rest.order; ticks = rest.ticks })
