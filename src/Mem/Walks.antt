-- ===== src/Mem/Walks.antt =====
-- The walk of os_mem_alloc along the free blocks (kernel/os_mem.c).
use ahura_rtos.Shared.{
  ℕ, ◌+◌, ◌-◌, ◌≤◌, ◌<◌, ◌≡◌, refl, true, not, ◌&&◌, Option, none, some, List, [], ◌∷◌, arith, ltb,
  leb, update, Bool-cases, Option-cases, inl, inr,
}
use ahura_rtos.Mem.Defs.{Blocks, cons, first_fit}
use ahura_rtos.Mem.Cover.{
  inside, covers, Sorted, total, covers-update, Sorted-update, total-update, covers_below,
  Sorted-weaken,
}

-- What is left of the free blocks when one is found, whose size is then what it grants.
pub record Found (min_size heap_end need : ℕ) (size : ℕ → ℕ) (low : ℕ) (xs : List ℕ) (b : ℕ)
    (after : Blocks) : Type 0 where
  pub bounds : low ≤ b
  pub large : need ≤ after.size b
  pub sorted : Sorted min_size heap_end after.size low after.free_list
  pub was_free : (a : ℕ) → inside b (after.size b) a ≡ true → covers size xs a ≡ true
  pub left :
      (a : ℕ)
      → covers after.size after.free_list a ≡ covers size xs a && not (inside b (after.size b) a)
  pub sum : total after.size after.free_list + after.size b ≡ total size xs
  pub kept : (y : ℕ) → y < low → after.size y ≡ size y

-- Every block of the list is too small.
abbrev pub Small : ℕ → (ℕ → ℕ) → List ℕ → Type 0
Small need size [] = Unit
Small need size (x ∷ xs) = (size x < need) × Small need size xs

module _ (min_size heap_end need : ℕ) (some_need : 0 < need) (size : ℕ → ℕ) where
  -- The first block is split.
  split-Found :
      (low b : ℕ) (bs : List ℕ)
      → Sorted min_size heap_end size low (b ∷ bs)
      → need + min_size ≤ size b
      → 0 < min_size
      → Found min_size heap_end need size low (b ∷ bs) b (record {
        free_list = (b + need) ∷ bs;
        size = update (update size (b + need) (size b - need)) b need;
        made = some (b + need);
      })
  unfolding total
  split-Found low b bs s room positive =
      let once = update size (b + need) (size b - need) in
      let next = b + size b + 1 in
      let s1 =
        Sorted-update min_size heap_end size next bs (b + need) (size b - need)
          (omega (arith, room, positive)) s.1.1 in
      let s2 = Sorted-update min_size heap_end once next bs b need (omega arith) s1 in
      let t1 =
        total-update min_size heap_end size next bs (b + need) (size b - need)
          (omega (arith, room, positive)) s.1.1 in
      let t2 = total-update min_size heap_end once next bs b need (omega arith) s1 in
      record {
        bounds = s.0;
        large = ground arith;
        sorted = (
          omega (arith, s.0),
          (
            ground (arith, room, some_need),
            Sorted-weaken min_size heap_end (update once b need) next
                (b + need + update once b need (b + need) + 1) bs (ground (arith, room, some_need))
                s2,
          ),
        );
        was_free = λ a e. ground (arith, e, room);
        left = λ a. ground (
          arith,
          covers-update min_size heap_end size next bs (b + need) (size b - need) a
              (omega (arith, room, positive)) s.1.1,
          covers-update min_size heap_end once next bs b need a (omega arith) s1,
          room,
          some_need,
          covers_below min_size heap_end size next bs a,
        );
        sum = ground (arith, t1, t2, room, some_need);
        kept = λ y below. ground (arith, below, s.0);
      }

  -- The first block is taken whole.
  whole-Found :
      (low b : ℕ) (bs : List ℕ)
      → Sorted min_size heap_end size low (b ∷ bs)
      → need ≤ size b
      → Found min_size heap_end need size low
          (b ∷ bs)
          b
          (record { free_list = bs; size = size; made = none })
  unfolding total
  whole-Found low b bs s room = record {
    bounds = s.0;
    large = room;
    sorted =
        Sorted-weaken min_size heap_end size (b + size b + 1) low bs (omega (arith, s.0)) s.1.1;
    was_free = λ a e. ground (arith, e);
    left = λ a. ground (arith, covers_below min_size heap_end size (b + size b + 1) bs a, s.1.1);
    sum = omega arith;
    kept = λ y below. refl;
  }

  -- A block further on is found.
  skip-Found :
      (low x : ℕ) (xs : List ℕ) (b : ℕ) (after : Blocks)
      → Sorted min_size heap_end size low (x ∷ xs)
      → Found min_size heap_end need size (x + size x + 1) xs b after
      → Found min_size heap_end need size low (x ∷ xs) b (cons x after)
  unfolding total
  skip-Found low x xs b after s f =
      let same = f.kept x (omega arith) in
      record {
        bounds = omega (arith, s.0, f.bounds);
        large = f.large;
        sorted = (s.0, (ground (arith, same, s.1.0), rw same f.sorted));
        was_free = λ a e. ground (arith, e, f.was_free a);
        left = λ a. ground (arith, same, f.left a, f.bounds);
        sum = omega (arith, same, f.sum);
        kept = λ y below. f.kept y (omega (arith, below, s.0));
      }

  abbrev pub Result : ℕ → List ℕ → Option (ℕ × Blocks) → Type 0
  Result low xs none = Small need size xs
  Result low xs (some found) = Found min_size heap_end need size low xs found.0 found.1

  pub first_fit-Found :
      0 < min_size
      → (low : ℕ) (xs : List ℕ) → Sorted min_size heap_end size low xs
      → Result low xs (first_fit min_size need size xs)
  unfolding first_fit
  first_fit-Found positive low [] s = tt
  first_fit-Found positive low (x ∷ xs) s = elim (Bool-cases (ltb (size x) need)) [
    | inl small ↦ elim (Option-cases (first_fit min_size need size xs)) [
      | inl nothing ↦
          rw (small, nothing)
            (
              ground (arith, small),
              rw nothing at (first_fit-Found positive (x + size x + 1) xs s.1.1),
            )
      | inr (found, e) ↦
          rw (small, e)
            (skip-Found low x xs found.0 found.1 s
              (rw e at (first_fit-Found positive (x + size x + 1) xs s.1.1)))
    ]
    | inr large ↦ elim (Bool-cases (leb min_size (size x - need))) [
      | inl room ↦ rw (large, room) (split-Found low x xs s (ground (arith, large, room)) positive)
      | inr tight ↦ rw (large, tight) (whole-Found low x xs s (ground (arith, large)))
    ]
  ]
