-- ===== src/Mem/Cover.antt =====
-- The free memory of kernel/os_mem.c as a set of addresses, and lists of free blocks in order.
use ahura_rtos.Shared.{
  ℕ, ◌+◌, ◌≤◌, ◌<◌, ◌≡◌, refl, Bool, false, ◌&&◌, ◌||◌, List, [], ◌∷◌, arith, ltb, leb, update,
}

-- Whether an address lies in the block of a size.
abbrev pub inside : ℕ → ℕ → ℕ → Bool
inside b size a = leb b a && ltb a (b + size)

-- Whether an address lies in a block of the list.
abbrev pub covers : (ℕ → ℕ) → List ℕ → ℕ → Bool
covers size [] a = false
covers size (x ∷ xs) a = inside x (size x) a || covers size xs a

-- The blocks lie from an address on in rising order, none next to another, all large enough, and
-- end no later than the heap.
abbrev pub Sorted : ℕ → ℕ → (ℕ → ℕ) → ℕ → List ℕ → Type 0
Sorted min_size heap_end size low [] = low ≤ heap_end + 1
Sorted min_size heap_end size low (x ∷ xs) =
    (low ≤ x) × ((min_size ≤ size x) × Sorted min_size heap_end size (x + size x + 1) xs)

unfoldable pub total : (ℕ → ℕ) → List ℕ → ℕ
total size [] = 0
total size (x ∷ xs) = size x + total size xs

module _ (min_size heap_end : ℕ) (size : ℕ → ℕ) where
  -- What happens to the size at an address below the list.
  pub covers-update :
      (low : ℕ) (xs : List ℕ) (y v a : ℕ)
      → y < low
      → Sorted min_size heap_end size low xs
      → covers (update size y v) xs a ≡ covers size xs a
  covers-update low [] y v a below s = refl
  covers-update low (x ∷ xs) y v a below s =
      ground (arith, s, below, covers-update (x + size x + 1) xs y v a)

  pub Sorted-update :
      (low : ℕ) (xs : List ℕ) (y v : ℕ)
      → y < low
      → Sorted min_size heap_end size low xs
      → Sorted min_size heap_end (update size y v) low xs
  Sorted-update low [] y v below s = s
  Sorted-update low (x ∷ xs) y v below s =
      ground (arith, s, below, Sorted-update (x + size x + 1) xs y v)

  pub total-update :
      (low : ℕ) (xs : List ℕ) (y v : ℕ)
      → y < low
      → Sorted min_size heap_end size low xs
      → total (update size y v) xs ≡ total size xs
  unfolding total
  total-update low [] y v below s = refl
  total-update low (x ∷ xs) y v below s =
      ground (arith, s, below, total-update (x + size x + 1) xs y v)

  -- No address below the list is in it.
  pub covers_below :
      (low : ℕ) (xs : List ℕ) (a : ℕ)
      → a < low
      → Sorted min_size heap_end size low xs
      → covers size xs a ≡ false
  covers_below low [] a below s = refl
  covers_below low (x ∷ xs) a below s = ground (arith, s, below, covers_below (x + size x + 1) xs a)

  pub Sorted-weaken :
      (low low' : ℕ) (xs : List ℕ)
      → low' ≤ low
      → Sorted min_size heap_end size low xs
      → Sorted min_size heap_end size low' xs
  Sorted-weaken low low' [] le s = omega (arith, le, s)
  Sorted-weaken low low' (x ∷ xs) le s = (omega (arith, le, s.0), s.1)

  total_bound :
      (low : ℕ) (xs : List ℕ)
      → Sorted min_size heap_end size low xs
      → low + total size xs ≤ heap_end + 1
  unfolding total
  total_bound low [] s = omega (arith, s)
  total_bound low (x ∷ xs) s = omega (arith, s.0, total_bound (x + size x + 1) xs s.1.1)

  -- The free blocks are no larger than the heap.
  pub total-le :
      (low : ℕ) (xs : List ℕ) → Sorted min_size heap_end size low xs → total size xs ≤ heap_end
  unfolding total
  total-le low [] s = omega arith
  total-le low (x ∷ xs) s = omega (arith, s.0, total_bound (x + size x + 1) xs s.1.1)
