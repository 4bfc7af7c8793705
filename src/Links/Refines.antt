-- ===== src/Links/Refines.antt =====
-- The pointer operations of kernel/os_list.c implement operations on sequences.
use ahura_rtos.Shared.{
  ℕ, ◌≡◌, ◌≢◌, refl, false, Option, none, some, List, [], ◌∷◌, ◌++◌, arith, ◌==◌, points_to, count,
  erase, erase_absent, drop, Bool-cases, inl, inr,
}
use ahura_rtos.Links.Defs.{Links, push_back, pop_front, remove, insert_before}
use ahura_rtos.Links.Order.{first, insert}
use ahura_rtos.Links.Keeps.{
  IsList, Detached, push_back-IsList, remove-IsList, insert_before-IsList, pop_front-IsList,
}
use ahura_rtos.Links.Spares.{
  Same, remove-Detached, pop_front_empty, pop_front_node, push_back-Same, remove-Same,
  insert_before-Same, pop_front-Same,
}

-- The operations as one type, with the nodes that they are called with.
pub data Op : Type 0 where
  push_last : ℕ → Op
  pop_first : Op
  take_out : ℕ → Op
  put_before : ℕ → ℕ → Op

abbrev pub run : Op → Links → Option ℕ × Links
run (push_last n) s = (none, push_back n s)
run pop_first s = pop_front s
run (take_out n) s = (none, remove n s)
run (put_before position n) s = (none, insert_before (some position) n s)

-- What they do to a sequence.
abbrev pub act : Op → List ℕ → Option ℕ × List ℕ
act (push_last n) l = (none, l ++ n ∷ [])
act pop_first l = (first l, drop 1 l)
act (take_out n) l = (none, erase n l)
act (put_before position n) l = (none, insert position n l)

-- A node that goes in is in no list, one that is taken out is in this list or in none, and the
-- position is in the list.
abbrev pub Legal : Op → Links → List ℕ → Type 0
Legal (push_last n) s l = count n l ≡ 0
Legal pop_first s l = Unit
Legal (take_out n) s l = count n l ≡ 0 → Detached s n
Legal (put_before position n) s l = (count position l ≢ 0) × (count n l ≡ 0)

-- The node that an operation is called with.
abbrev pub operand : Op → Option ℕ
operand (push_last n) = some n
operand pop_first = none
operand (take_out n) = some n
operand (put_before position n) = some n

-- For a list that is a sequence of nodes, and an operation that may be called on it: the pointer
-- operation of os_list.c returns what the operation on the sequence returns, leaves a list that is
-- the resulting sequence, and spares the link fields of all nodes but the list's and the operand.
pub run-act :
    (op : Op) (s : Links) (l : List ℕ)
    → IsList s l
    → Legal op s l
    → ((run op s).0 ≡ (act op l).0)
      × (IsList (run op s).1 (act op l).1
          × ((q : ℕ) → count q l ≡ 0 → points_to (operand op) q ≡ false → Same s (run op s).1 q))
run-act (push_last n) s l h new = (
  refl,
  (
    push_back-IsList s l h n new,
    λ q outside ne. push_back-Same s l h q outside n (ground (arith, ne)),
  ),
)
run-act pop_first s [] h legal =
    let e = pop_front_empty s h.heads in rw e (refl, (h, λ q outside ne. (refl, refl)))
run-act pop_first s (n ∷ xs) h legal = (
  pop_front_node s n h.heads,
  (pop_front-IsList s n xs h, λ q outside ne. pop_front-Same s n xs h q outside),
)
run-act (take_out n) s l h legal = elim (Bool-cases (count n l == 0)) [
  | inl e ↦
      let absent : count n l ≡ 0 = ground (arith, e) in
      let same = remove-Detached s l h n absent (legal absent) in
      rw (same, erase_absent n l absent) (refl, (h, λ q outside ne. (refl, refl)))
  | inr e ↦
      let inside : count n l ≢ 0 = ground (arith, e) in
      (
        refl,
        (
          remove-IsList s l h n inside,
          λ q outside ne. remove-Same s l h q outside n (ground (arith, ne)) inside,
        ),
      )
]
run-act (put_before position n) s l h (inside, new) = (
  refl,
  (
    insert_before-IsList s l h n position inside new,
    λ q outside ne. insert_before-Same s l h q outside n (ground (arith, ne)) position inside,
  ),
)
