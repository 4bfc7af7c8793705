-- ===== src/Links/Spares.antt =====
-- The pointer operations of kernel/os_list.c leave the nodes of other lists alone.
use ahura_rtos.Shared.{
  ℕ, ◌≡◌, ◌≢◌, refl, ap, ◌∙◌, false, none, some, List, ◌∷◌, arith, points_to, count,
}
use ahura_rtos.Links.Defs.{Links, push_back, pop_front, remove, insert_before}
use ahura_rtos.Links.Fields.{
  push_back-next, push_back-prev, pop_front-next, pop_front-prev, remove-next, remove-prev,
  insert-next, insert-prev,
}
use ahura_rtos.Links.Order.{first-absent, last-absent, after-absent, before-absent}
use ahura_rtos.Links.Keeps.{IsList, Detached, listed, apart, second}

module _ (s : Links) (l : List ℕ) (h : IsList s l) (n : ℕ) where
  -- Taking out a node of no list changes nothing.
  pub remove-Detached : count n l ≡ 0 → Detached s n → remove n s ≡ s
  unfolding remove
  remove-Detached absent (no_next, no_prev) =
      let outside : points_to s.head n ≡ false =
        ap (λ o. points_to o n) h.heads ∙ first-absent n l absent in
      rw (no_next, no_prev, outside) refl

pub pop_front_empty : (s : Links) → s.head ≡ none → pop_front s ≡ (none, s)
unfolding pop_front
pop_front_empty s e = rw e refl

pub pop_front_node : (s : Links) (n : ℕ) → s.head ≡ some n → (pop_front s).0 ≡ some n
unfolding pop_front
pop_front_node s n e = rw e refl

-- The link fields of a node are left alone.
abbrev pub Same : Links → Links → ℕ → Type 0
Same s s' q = (s'.next q ≡ s.next q) × (s'.prev q ≡ s.prev q)

-- A node that is not in the list.
module _ (s : Links) (l : List ℕ) (h : IsList s l) (q : ℕ) (outside : count q l ≡ 0) where
  module _ (n : ℕ) (ne : n ≢ q) where
    pub push_back-Same : Same s (push_back n s) q
    push_back-Same = (
      ground (arith, push_back-next n s q, h.tails, last-absent q l outside, ne),
      ground (arith, push_back-prev n s q, ne),
    )

    pub remove-Same : count n l ≢ 0 → Same s (remove n s) q
    remove-Same inside =
        let there = listed s l h n inside in
        let far = apart s l h n inside in
        (
          ground (
            arith,
            remove-next n s there far q,
            h.prevs n inside,
            before-absent q none l n refl outside,
            ne,
          ),
          ground (
            arith,
            remove-prev n s there far q,
            h.nexts n inside,
            after-absent q l n outside,
            ne,
          ),
        )

    pub insert_before-Same :
        (position : ℕ) → count position l ≢ 0 → Same s (insert_before (some position) n s) q
    insert_before-Same position inside = (
      ground (
        arith,
        insert-next n s position q,
        h.prevs position inside,
        before-absent q none l position refl outside,
        ne,
      ),
      ground (arith, insert-prev n s position q, inside, outside, ne),
    )

module _ (s : Links) (n : ℕ) (xs : List ℕ) (h : IsList s (n ∷ xs)) where
  pub pop_front-Same : (q : ℕ) → count q (n ∷ xs) ≡ 0 → Same s (pop_front s).1 q
  pop_front-Same q outside = (
    ground (arith, pop_front-next n s h.heads q, outside),
    ground (arith, pop_front-prev n s h.heads q, second s n xs h, first-absent q xs, outside),
  )
