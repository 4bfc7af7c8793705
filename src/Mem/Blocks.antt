-- ===== src/Mem/Blocks.antt =====
-- What os_mem_block_insert does to the free blocks (kernel/os_mem.c).
use ahura_rtos.Shared.{
  ℕ, ◌+◌, ◌≤◌, ◌<◌, ◌≡◌, refl, true, false, ◌||◌, List, [], ◌∷◌, arith, ltb, ◌==◌, update,
  Bool-cases, inl, inr,
}
use ahura_rtos.Mem.Defs.{Blocks, cons, join_next, insert_after, block_insert}
use ahura_rtos.Mem.Cover.{
  inside, covers, Sorted, total, covers-update, Sorted-update, total-update, Sorted-weaken,
}

-- The free blocks with one more block among them.
pub record Joined (min_size heap_end : ℕ) (size : ℕ → ℕ) (low b : ℕ) (xs : List ℕ) (after : Blocks)
    : Type 0 where
  pub sorted : Sorted min_size heap_end after.size low after.free_list
  pub joined :
      (a : ℕ) → covers after.size after.free_list a ≡ inside b (size b) a || covers size xs a
  pub sum : total after.size after.free_list ≡ size b + total size xs
  pub kept : (y : ℕ) → y < low → after.size y ≡ size y

-- No address of a block is in the list.
abbrev pub Apart : (ℕ → ℕ) → ℕ → List ℕ → Type 0
Apart size b xs = (a : ℕ) → inside b (size b) a ≡ true → covers size xs a ≡ false

module _ (min_size heap_end : ℕ) (positive : 0 < min_size) where
  -- Before all of the list, of which the block may touch the first.
  join_next-Joined :
      (size : ℕ → ℕ) (low b : ℕ) (xs : List ℕ)
      → low ≤ b
      → min_size ≤ size b
      → b + size b ≤ heap_end
      → Sorted min_size heap_end size (b + size b) xs
      → Joined min_size heap_end size low b xs (join_next size b xs)
  unfolding join_next total
  join_next-Joined size low b [] above large ends s = record {
    sorted = (above, (large, omega (arith, ends)));
    joined = λ a. refl;
    sum = omega arith;
    kept = λ y below. refl;
  }
  join_next-Joined size low b (y ∷ ys) above large ends s = elim (Bool-cases (b + size b == y)) [
    | inl touches ↦
        let v = size b + size y in
        let s1 =
          Sorted-update min_size heap_end size (y + size y + 1) ys b v (ground (arith, touches))
            s.1.1 in
        rw (join_next, touches)
          (record {
            sorted = (
              above,
              (
                ground (arith, large),
                Sorted-weaken min_size heap_end (update size b v) (y + size y + 1)
                    (b + update size b v b + 1) ys (ground (arith, touches)) s1,
              ),
            );
            joined = λ a. ground (
              arith,
              touches,
              covers-update min_size heap_end size (y + size y + 1) ys b v a,
              s.1.1,
            );
            sum = ground (
              arith,
              total-update min_size heap_end size (y + size y + 1) ys b v,
              touches,
              s.1.1,
            );
            kept = λ z below. ground (arith, below, above);
          })
    | inr apart ↦
        rw (join_next, apart)
          (record {
            sorted = (above, (large, (ground (arith, apart, s.0), s.1)));
            joined = λ a. refl;
            sum = refl;
            kept = λ z below. refl;
          })
  ]

  module _ (size : ℕ → ℕ) (low b x : ℕ) (xs : List ℕ) (above : low ≤ x)
      (large_x : min_size ≤ size x) (large : min_size ≤ size b) (ends : b + size b ≤ heap_end) where
    -- The block touches the one before it, and perhaps the one behind it.
    merge-Joined :
        x + size x ≡ b
        → Sorted min_size heap_end size (b + size b) xs
        → Joined min_size heap_end size low b
            (x ∷ xs)
            (join_next (update size x (size x + size b)) x xs)
    unfolding total
    merge-Joined touches s =
        let both = size x + size b in
        let s1 =
          Sorted-update min_size heap_end size (b + size b) xs x both
            (omega (arith, touches, large, positive)) s in
        let j =
          join_next-Joined (update size x both) low x xs above (ground (arith, large_x))
            (ground (arith, touches, ends))
            (Sorted-weaken min_size heap_end (update size x both) (b + size b)
              (x + update size x both x) xs (ground (arith, touches)) s1) in
        record {
          sorted = j.sorted;
          joined = λ a. ground (
            arith,
            touches,
            j.joined a,
            covers-update min_size heap_end size (b + size b) xs x both a,
            s,
            large,
            positive,
          );
          sum = ground (
            arith,
            j.sum,
            total-update min_size heap_end size (b + size b) xs x both,
            touches,
            s,
            large,
            positive,
          );
          kept = λ y below. ground (arith, below, above, j.kept y);
        }

    -- The block comes somewhere behind one that it does not touch.
    behind-Joined :
        (after : Blocks)
        → Joined min_size heap_end size (x + size x + 1) b xs after
        → Joined min_size heap_end size low b (x ∷ xs) (cons x after)
    unfolding total
    behind-Joined after j =
        let same = j.kept x (omega arith) in
        record {
          sorted = (above, (ground (arith, same, large_x), rw same j.sorted));
          joined = λ a. ground (arith, same, j.joined a);
          sum = omega (arith, same, j.sum);
          kept = λ y below. j.kept y (omega (arith, below, above));
        }

  module _ (size : ℕ → ℕ) (b : ℕ) (large : min_size ≤ size b) (ends : b + size b ≤ heap_end) where
    insert_after-Joined :
        (low x : ℕ) (xs : List ℕ)
        → Sorted min_size heap_end size low (x ∷ xs)
        → x < b
        → Apart size b (x ∷ xs)
        → Joined min_size heap_end size low b (x ∷ xs) (insert_after size b x xs)
    unfolding insert_after
    insert_after-Joined low x [] s before apart = elim (Bool-cases (x + size x == b)) [
      | inl touches ↦
          rw (insert_after, touches)
            (merge-Joined size low b x [] s.0 s.1.0 large ends (ground (arith, touches))
              (omega (arith, ends)))
      | inr clear ↦
          rw (insert_after, clear)
            (behind-Joined size low b x [] s.0 s.1.0 large ends (join_next size b []) (
              join_next-Joined size (x + size x + 1) b []
                (ground (arith, clear, apart b, before, large, positive)) large ends
                (omega (arith, ends))))
    ]
    insert_after-Joined low x (y ∷ ys) s before apart = elim (Bool-cases (ltb y b)) [
      | inl on ↦
          rw (insert_after, on)
            (behind-Joined size low b x (y ∷ ys) s.0 s.1.0 large ends (insert_after size b y ys) (
              insert_after-Joined (x + size x + 1) y ys s.1.1 (ground (arith, on))
                (λ a e. ground (arith, e, apart a))))
      | inr here ↦
          let fits : b + size b ≤ y = ground (arith, here, apart y, s.1.1, positive) in
          let rest =
            Sorted-weaken min_size heap_end size y (b + size b) (y ∷ ys) fits
              (omega arith, s.1.1.1) in
          elim (Bool-cases (x + size x == b)) [
            | inl touches ↦
                rw (insert_after, here, touches)
                  (merge-Joined size low b x (y ∷ ys) s.0 s.1.0 large ends (ground (arith, touches))
                    rest)
            | inr clear ↦
                rw (insert_after, here, clear)
                  (behind-Joined size low b x (y ∷ ys) s.0 s.1.0 large ends
                    (join_next size b (y ∷ ys))
                    (join_next-Joined size (x + size x + 1) b (y ∷ ys)
                      (ground (arith, clear, apart b, before, large, positive)) large ends rest))
          ]
    ]

    -- os_mem_block_insert of a block in the heap that shares no address with a free one.
    pub block_insert-Joined :
        (low : ℕ) (xs : List ℕ)
        → low ≤ b
        → Sorted min_size heap_end size low xs
        → Apart size b xs
        → Joined min_size heap_end size low b xs (block_insert size b xs)
    unfolding block_insert
    block_insert-Joined low [] above s apart =
        join_next-Joined size low b [] above large ends (omega (arith, ends))
    block_insert-Joined low (x ∷ xs) above s apart = elim (Bool-cases (ltb x b)) [
      | inl before ↦
          rw (block_insert, before) (insert_after-Joined low x xs s (ground (arith, before)) apart)
      | inr behind ↦
          let fits : b + size b ≤ x = ground (arith, behind, apart x, s, positive) in
          rw (block_insert, behind)
            (join_next-Joined size low b (x ∷ xs) above large ends (fits, s.1))
    ]
