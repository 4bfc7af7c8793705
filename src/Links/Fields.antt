-- ===== src/Links/Fields.antt =====
-- The link fields after each operation of kernel/os_list.c.
use ahura_rtos.Shared.{
  ℕ, ◌≡◌, true, false, not, ◌||◌, none, some, arith, if◌then◌else◌, ◌==◌, points_to, is_null,
  Option-cases, inl, inr,
}
use ahura_rtos.Links.Defs.{
  Links, push_back, pop_front, skip_forward, skip_backward, remove, insert_before,
}

module _ (n : ℕ) (s : Links) where
  pub push_back-next :
      (q : ℕ)
      → (push_back n s).next q
        ≡ (if points_to s.tail q then some n else (if n == q then none else s.next q))
  unfolding push_back
  push_back-next q = elim (Option-cases (s.tail)) [
    | inl e ↦ ground (arith, e)
    | inr (r, e) ↦ ground (arith, e)
  ]

  pub push_back-prev : (q : ℕ) → (push_back n s).prev q ≡ (if n == q then s.tail else s.prev q)
  unfolding push_back
  push_back-prev q = elim (Option-cases (s.tail)) [
    | inl e ↦ ground (arith, e)
    | inr (r, e) ↦ ground (arith, e)
  ]

  pub push_back-head : (push_back n s).head ≡ (if is_null s.tail then some n else s.head)
  unfolding push_back
  push_back-head = elim (Option-cases (s.tail)) [
    | inl e ↦ ground (arith, e)
    | inr (r, e) ↦ ground (arith, e)
  ]

  -- A list whose first node is this one.
  module _ (front : s.head ≡ some n) where
    pub pop_front-next : (q : ℕ) → (pop_front s).1.next q ≡ (if n == q then none else s.next q)
    unfolding pop_front
    pop_front-next q = elim (Option-cases (s.next n)) [
      | inl e ↦ ground (arith, front, e)
      | inr (r, e) ↦ ground (arith, front, e)
    ]

    pub pop_front-prev :
        (q : ℕ)
        → (pop_front s).1.prev q
          ≡ (if n == q then none else (if points_to (s.next n) q then none else s.prev q))
    unfolding pop_front
    pop_front-prev q = elim (Option-cases (s.next n)) [
      | inl e ↦ ground (arith, front, e)
      | inr (r, e) ↦ ground (arith, front, e)
    ]

    pub pop_front-head : (pop_front s).1.head ≡ s.next n
    unfolding pop_front
    pop_front-head = elim (Option-cases (s.next n)) [
      | inl e ↦ ground (arith, front, e)
      | inr (r, e) ↦ ground (arith, front, e)
    ]

    pub pop_front-tail : (pop_front s).1.tail ≡ (if is_null (s.next n) then none else s.tail)
    unfolding pop_front
    pop_front-tail = elim (Option-cases (s.next n)) [
      | inl e ↦ ground (arith, front, e)
      | inr (r, e) ↦ ground (arith, front, e)
    ]

  -- A node of some list, and no neighbour of itself.
  module _
      (listed : (not (is_null (s.prev n)) || (not (is_null (s.next n)) || points_to s.head n))
        ≡ true)
      (apart : points_to (s.prev n) n ≡ false) where
    skipped-next :
        (q : ℕ)
        → (skip_forward n s).next q ≡ (if points_to (s.prev n) q then s.next n else s.next q)
    unfolding skip_forward
    skipped-next q = elim (Option-cases (s.prev n)) [
      | inl e ↦ ground (arith, e)
      | inr (r, e) ↦ ground (arith, e)
    ]

    pub remove-next :
        (q : ℕ)
        → (remove n s).next q
          ≡ (if n == q then none else (if points_to (s.prev n) q then s.next n else s.next q))
    unfolding remove skip_backward
    remove-next q = elim (Option-cases (s.next n)) [
      | inl e ↦ ground (arith, listed, apart, skipped-next n, skipped-next q, e)
      | inr (r, e) ↦ ground (arith, listed, apart, skipped-next n, skipped-next q, e)
    ]

    skipped-prev : (q : ℕ) → (skip_forward n s).prev q ≡ s.prev q
    unfolding skip_forward
    skipped-prev q = elim (Option-cases (s.prev n)) [
      | inl e ↦ ground (arith, e)
      | inr (r, e) ↦ ground (arith, e)
    ]

    skipped-tail : (skip_forward n s).tail ≡ s.tail
    unfolding skip_forward
    skipped-tail = elim (Option-cases (s.prev n)) [
      | inl e ↦ ground (arith, e)
      | inr (r, e) ↦ ground (arith, e)
    ]

    skipped-head : (skip_forward n s).head ≡ (if is_null (s.prev n) then s.next n else s.head)
    unfolding skip_forward
    skipped-head = elim (Option-cases (s.prev n)) [
      | inl e ↦ ground (arith, e)
      | inr (r, e) ↦ ground (arith, e)
    ]

    pub remove-prev :
        (q : ℕ)
        → (remove n s).prev q
          ≡ (if n == q then none else (if points_to (s.next n) q then s.prev n else s.prev q))
    unfolding remove skip_backward
    remove-prev q = elim (Option-cases (s.next n)) [
      | inl e ↦ ground (arith, listed, apart, skipped-next n, skipped-prev n, skipped-prev q, e)
      | inr (r, e) ↦
          ground (arith, listed, apart, skipped-next n, skipped-prev n, skipped-prev q, e)
    ]

    pub remove-head : (remove n s).head ≡ (if is_null (s.prev n) then s.next n else s.head)
    unfolding remove skip_backward
    remove-head = elim (Option-cases (s.next n)) [
      | inl e ↦ ground (arith, listed, apart, skipped-next n, skipped-prev n, skipped-head, e)
      | inr (r, e) ↦ ground (arith, listed, apart, skipped-next n, skipped-prev n, skipped-head, e)
    ]

    pub remove-tail : (remove n s).tail ≡ (if is_null (s.next n) then s.prev n else s.tail)
    unfolding remove skip_backward
    remove-tail = elim (Option-cases (s.next n)) [
      | inl e ↦ ground (arith, listed, apart, skipped-next n, skipped-prev n, skipped-tail, e)
      | inr (r, e) ↦ ground (arith, listed, apart, skipped-next n, skipped-prev n, skipped-tail, e)
    ]

  -- A new node before this position.
  module _ (position : ℕ) where
    pub insert-next :
        (q : ℕ)
        → (insert_before (some position) n s).next q ≡ (
            if points_to (s.prev position) q
            then some n
            else (if n == q then some position else s.next q))
    unfolding insert_before
    insert-next q = elim (Option-cases (s.prev position)) [
      | inl e ↦ ground (arith, e)
      | inr (r, e) ↦ ground (arith, e)
    ]

    pub insert-prev :
        (q : ℕ)
        → (insert_before (some position) n s).prev q
          ≡ (if position == q then some n else (if n == q then s.prev position else s.prev q))
    unfolding insert_before
    insert-prev q = elim (Option-cases (s.prev position)) [
      | inl e ↦ ground (arith, e)
      | inr (r, e) ↦ ground (arith, e)
    ]

    pub insert-head :
        (insert_before (some position) n s).head
        ≡ (if is_null (s.prev position) then some n else s.head)
    unfolding insert_before
    insert-head = elim (Option-cases (s.prev position)) [
      | inl e ↦ ground (arith, e)
      | inr (r, e) ↦ ground (arith, e)
    ]

    pub insert-tail : (insert_before (some position) n s).tail ≡ s.tail
    unfolding insert_before
    insert-tail = elim (Option-cases (s.prev position)) [
      | inl e ↦ ground (arith, e)
      | inr (r, e) ↦ ground (arith, e)
    ]
