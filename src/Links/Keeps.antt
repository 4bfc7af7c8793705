-- ===== src/Links/Keeps.antt =====
-- The pointer operations of kernel/os_list.c keep a list a sequence of nodes.
use ahura_rtos.Shared.{
  ℕ, ◌≡◌, ◌≢◌, refl, sym, ap, ◌∙◌, true, false, not, ◌||◌, none, some, List, [], ◌∷◌, ◌++◌, arith,
  points_to, is_null, count, erase, count-append, count-erase_ne, count-erase_self,
}
use ahura_rtos.Links.Defs.{Links, push_back, pop_front, remove, insert_before}
use ahura_rtos.Links.Fields.{
  push_back-next, push_back-prev, push_back-head, pop_front-next, pop_front-prev, pop_front-head,
  pop_front-tail, remove-next, remove-prev, remove-head, remove-tail, insert-next, insert-prev,
  insert-head, insert-tail,
}
use ahura_rtos.Links.Edits.{
  first-erase, after-erase, before-erase, last-erase, first-insert, last-insert, before-insert,
  after-insert, count-insert,
}
use ahura_rtos.Links.Order.{
  first, last, after, before, insert, Once, last-append, after-append, before-append, before_tail,
  last_tail, null-before, null-after, before_self, first-append, before-after,
}

-- The list's pointers and its nodes' link fields are those of a sequence of nodes.
pub record IsList (s : Links) (l : List ℕ) : Type 0 where
  pub once : Once l
  pub heads : s.head ≡ first l
  pub tails : s.tail ≡ last none l
  pub nexts : (q : ℕ) → count q l ≢ 0 → s.next q ≡ after l q
  pub prevs : (q : ℕ) → count q l ≢ 0 → s.prev q ≡ before none l q

-- A node of no list.
abbrev pub Detached : Links → ℕ → Type 0
Detached s n = (s.next n ≡ none) × (s.prev n ≡ none)

module _ (s : Links) (l : List ℕ) (h : IsList s l) (n : ℕ) where
  pub push_back-IsList : count n l ≡ 0 → IsList (push_back n s) (l ++ n ∷ [])
  unfolding push_back
  push_back-IsList new = record {
    once = λ q. ground (arith, count-append q l (n ∷ []), h.once q, new);
    heads = push_back-head n s ∙ rw (h.tails, h.heads) (sym (first-append l n));
    tails = sym (last-append none l n);
    nexts = λ q inside. ground (
      arith,
      push_back-next n s q,
      h.tails,
      after-append l n q new h.once,
      h.nexts q,
      count-append q l (n ∷ []),
    );
    prevs = λ q inside. ground (
      arith,
      push_back-prev n s q,
      h.tails,
      before-append none l n q new,
      h.prevs q,
      count-append q l (n ∷ []),
    );
  }

  -- A node of the list is told from one of none.
  pub listed :
      count n l ≢ 0
      → (not (is_null (s.prev n)) || (not (is_null (s.next n)) || points_to s.head n)) ≡ true
  listed inside = ground (arith, h.prevs n inside, h.heads, null-before l n inside)

  pub apart : count n l ≢ 0 → points_to (s.prev n) n ≡ false
  apart inside = ap (λ o. points_to o n) (h.prevs n inside) ∙ before_self none l n refl

  other : count n l ≢ 0 → (q : ℕ) → count q (erase n l) ≢ 0 → (n ≢ q) × (count q l ≢ 0)
  other inside q rest =
      let ne : n ≢ q = ground (arith, h.once n, count-erase_self n l, rest) in
      (ne, ground (arith, count-erase_ne q n l, ne, rest))

  pub remove-IsList : count n l ≢ 0 → IsList (remove n s) (erase n l)
  remove-IsList inside =
      let there = listed inside in
      let far = apart inside in
      record {
        once = λ q. ground (arith, h.once q, count-erase_self n l, count-erase_ne q n l);
        heads =
            remove-head n s there far
            ∙ ground (
              arith,
              h.heads,
              h.prevs n inside,
              h.nexts n inside,
              null-before l n inside,
              first-erase n l,
            );
        tails =
            remove-tail n s there far
            ∙ ground (
              arith,
              h.tails,
              h.prevs n inside,
              h.nexts n inside,
              null-after l n inside h.once,
              last-erase n none l h.once refl,
            );
        nexts = λ q rest.
            let (ne, old) = other inside q rest in
            ground (
              arith,
              remove-next n s there far q,
              h.prevs n inside,
              h.nexts n inside,
              h.nexts q old,
              after-erase n l q ne h.once,
              before-after l n q ne h.once,
            );
        prevs = λ q rest.
            let (ne, old) = other inside q rest in
            ground (
              arith,
              remove-prev n s there far q,
              h.prevs n inside,
              h.nexts n inside,
              h.prevs q old,
              before-erase n none l q ne h.once refl,
              before-after l q n (λ e. ne (sym e)) h.once,
            );
      }

  pub insert_before-IsList :
      (position : ℕ)
      → count position l ≢ 0
      → count n l ≡ 0
      → IsList (insert_before (some position) n s) (insert position n l)
  insert_before-IsList position inside new = record {
    once = λ q. ground (arith, h.once q, count-insert n position l q inside, new);
    heads =
        insert-head n s position
        ∙ ground (
          arith,
          h.heads,
          h.prevs position inside,
          null-before l position inside,
          first-insert n position l,
        );
    tails = insert-tail n s position ∙ (h.tails ∙ sym (last-insert n position none l inside));
    nexts = λ q in_all. ground (
      arith,
      insert-next n s position q,
      h.prevs position inside,
      h.nexts q,
      after-insert n position l q inside new h.once,
      count-insert n position l q inside,
    );
    prevs = λ q in_all. ground (
      arith,
      insert-prev n s position q,
      h.prevs position inside,
      h.prevs q,
      before-insert n position none l q inside new,
      count-insert n position l q inside,
    );
  }

module _ (s : Links) (n : ℕ) (xs : List ℕ) (h : IsList s (n ∷ xs)) where
  pub second : s.next n ≡ first xs
  second = ground (arith, h.nexts n)

  pub pop_front-IsList : IsList (pop_front s).1 xs
  pop_front-IsList = record {
    once = λ q. ground (arith, h.once q);
    heads = pop_front-head n s h.heads ∙ second;
    tails = pop_front-tail n s h.heads ∙ rw (second, h.tails) (last_tail n xs);
    nexts = λ q inside. ground (arith, pop_front-next n s h.heads q, h.nexts q, h.once q, inside);
    prevs = λ q inside. ground (
      arith,
      pop_front-prev n s h.heads q,
      second,
      h.prevs q,
      before_tail n xs q inside h.once,
      h.once q,
    );
  }
