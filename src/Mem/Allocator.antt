-- ===== src/Mem/Allocator.antt =====
-- os_mem_alloc and os_mem_free of kernel/os_mem.c, as what they do to the set of free addresses.
use ahura_rtos.Shared.{
  ℕ, ◌+◌, ◌-◌, ◌^◌, ◌≤◌, ◌<◌, ◌≡◌, ◌⊎◌, refl, ap, Bool, true, false, not, ◌&&◌, ◌||◌, Option, none,
  some, arith, if◌then◌else◌, ltb, leb, ◌==◌, add32, Bool-cases, Option-cases, inl, inr,
}
use ahura_rtos.Mem.Defs.{
  Layout, Heap, Blocks, init, min_block, needed, prepared, first_fit, take, alloc, block_plausible,
  block_insert, give_back, free,
}
use ahura_rtos.Mem.Cover.{inside, covers, Sorted, total, total-le}
use ahura_rtos.Mem.Walks.{Found, Small, first_fit-Found}
use ahura_rtos.Mem.Blocks.{Joined, Apart, block_insert-Joined}

-- Whether an address is free.
abbrev pub is_free : Heap → ℕ → Bool
is_free h a = covers h.size h.free_list a

-- A heap that is ready: its free blocks are in order, none touches another, and their sizes sum up
-- to the bytes that are free; on a target with 32-bit addresses.
pub record IsValid (l : Layout) (h : Heap) : Type 0 where
  pub ready : h.is_ready ≡ true
  pub sorted : Sorted (min_block l) h.heap_end h.size l.base h.free_list
  pub sum : total h.size h.free_list ≡ h.free_bytes
  pub within : h.heap_end < 2 ^ 32
  pub header_size : l.header ≡ 8

-- A block of a size was taken from the free addresses.
pub record Taken (h h' : Heap) (b granted : ℕ) : Type 0 where
  pub was_free : (a : ℕ) → inside b granted a ≡ true → is_free h a ≡ true
  pub left : (a : ℕ) → is_free h' a ≡ is_free h a && not (inside b granted a)
  pub bytes : h'.free_bytes + granted ≡ h.free_bytes

module _ (l : Layout) (h : Heap) (v : IsValid l h) where
  take-Taken :
      (need b : ℕ) (after : Blocks)
      → Found (min_block l) h.heap_end need h.size l.base h.free_list b after
      → IsValid l (take b after h) × Taken h (take b after h) b (after.size b)
  unfolding take
  take-Taken need b after f = elim (Option-cases after.made) [
    | inl whole ↦ rw whole (
      record {
        ready = v.ready;
        sorted = f.sorted;
        sum = omega (arith, f.sum, v.sum);
        within = v.within;
        header_size = v.header_size;
      },
      record { was_free = f.was_free; left = f.left; bytes = omega (arith, f.sum, v.sum) },
    )
    | inr (r, split) ↦ rw split (
      record {
        ready = v.ready;
        sorted = f.sorted;
        sum = omega (arith, f.sum, v.sum);
        within = v.within;
        header_size = v.header_size;
      },
      record { was_free = f.was_free; left = f.left; bytes = omega (arith, f.sum, v.sum) },
    )
  ]

-- What os_mem_alloc returns, and the heap that it leaves.
abbrev pub Allocated : Layout → ℕ → Heap → Option ℕ × Heap → Type 0
Allocated l size h (none, h') =
    (h' ≡ h) × ((size ≡ 0) ⊎ ((2 ^ 31 ≤ size + 15) ⊎ Small (needed l size) h.size h.free_list))
Allocated l size h (some address, h') =
    let b = address - l.header in
    (size + l.header ≤ h'.size b)
    × ((h'.allocated b ≡ true)
        × ((h'.linked b ≡ false) × (IsValid l h' × Taken h h' b (h'.size b))))

take-Allocated :
    (l : Layout) (h : Heap) (v : IsValid l h) (size need b : ℕ) (after : Blocks)
    → size + l.header ≤ need
    → Found (min_block l) h.heap_end need h.size l.base h.free_list b after
    → Allocated l size h (some (b + l.header), take b after h)
unfolding take
take-Allocated l h v size need b after roomy f =
    let same : b + l.header - l.header ≡ b = omega arith in
    let (valid, taken) = take-Taken l h v need b after f in
    rw same (omega (arith, roomy, f.large), (ground arith, (ground arith, (valid, taken))))

needed-le :
    (l : Layout) (size : ℕ)
    → l.header ≡ 8
    → size < 2 ^ 32
    → size ≤ needed l size
    → size + l.header ≤ needed l size
needed-le l size small word enough = omega (arith, small, word, enough)

needed_large :
    (l : Layout) (size : ℕ)
    → l.header ≡ 8
    → size < 2 ^ 32
    → (leb size (needed l size) && ltb (needed l size) (2 ^ 31)) ≡ false
    → 2 ^ 31 ≤ size + 15
needed_large l size small word e = ground (arith, small, word, e)

prepared_ready : (l : Layout) (h : Heap) → h.is_ready ≡ true → prepared l h ≡ h
unfolding prepared
prepared_ready l h e = ap (λ b. if b then h else init l h) e

-- os_mem_alloc in a valid heap. If it returns memory, then the block before it was free, is as
-- large as asked for with its header, and is what the free addresses lost, exactly; the heap
-- stays valid. It returns none, and leaves the heap as it is, only for no bytes, for nearly 2 ^ 31 bytes
-- or more, or when every free block is too small.
pub alloc-Allocated :
    (l : Layout) (h : Heap) (size : ℕ)
    → IsValid l h
    → size < 2 ^ 32
    → Allocated l size h (alloc l size h)
unfolding alloc
alloc-Allocated l h size v word = elim (Bool-cases (size == 0)) [
  | inl nothing ↦ rw (alloc, nothing) (refl, inl (ground (arith, nothing)))
  | inr something ↦ elim (Bool-cases (leb size (needed l size) && ltb (needed l size) (2 ^ 31))) [
    | inr beyond ↦
        rw (alloc, something, beyond)
          (refl, inr (inl (needed_large l size v.header_size word beyond)))
    | inl within ↦
        let need = needed l size in
        let ready = prepared_ready l h v.ready in
        let roomy : size + l.header ≤ need =
          needed-le l size v.header_size word (ground (arith, within)) in
        let fit =
          first_fit-Found (min_block l) h.heap_end need (omega (arith, roomy, v.header_size)) h.size
            (omega arith) l.base h.free_list v.sorted in
        elim (Option-cases (first_fit (min_block l) need h.size h.free_list)) [
          | inl full ↦
              rw (alloc, something, within, ready, full, ready) (refl, inr (inr (rw full at fit)))
          | inr (found, e) ↦
              let f : Found (min_block l) h.heap_end need h.size l.base h.free_list found.0
                  found.1 =
                rw e at fit in
              rw (alloc, something, within, ready, e, ready)
                (take-Allocated l h v size need found.0 found.1 roomy f)
        ]
  ]
]

-- A block that os_mem_free takes back: allocated, in no list, in the heap, and free nowhere.
pub record Live (l : Layout) (h : Heap) (b : ℕ) : Type 0 where
  pub allocated : h.allocated b ≡ true
  pub unlinked : h.linked b ≡ false
  pub plausible : block_plausible l h b ≡ true
  pub above : l.base ≤ b
  pub below : b + l.header < l.base + l.heap_size
  pub apart : Apart h.size b h.free_list

module _ (l : Layout) (h : Heap) (b : ℕ) (v : IsValid l h) (live : Live l h b) where
  -- The test of the source lets a live block pass.
  free-live : free l (some (b + l.header)) h ≡ give_back b h
  unfolding free
  free-live =
      let same : b + l.header - l.header ≡ b = omega arith in
      let in_heap : (h.is_ready
            && (leb (l.base + l.header) (b + l.header)
                && ltb (b + l.header) (l.base + l.heap_size)))
          ≡ true =
        ground (arith, v.ready, live.above, live.below) in
      let taken : (h.allocated b && (not (h.linked b) && block_plausible l h b)) ≡ true =
        ground (arith, live.allocated, live.unlinked, live.plausible) in
      rw (free, in_heap, same, taken) refl

  abbrev Back : Heap → Type 0
  Back h' =
      IsValid l h'
      × (((a : ℕ) → is_free h' a ≡ inside b (h.size b) a || is_free h a)
          × (h'.free_bytes ≡ h.free_bytes + h.size b))

  inserted :
      Joined
        (min_block l)
        h.heap_end
        h.size
        l.base
        b
        h.free_list
        (block_insert h.size b h.free_list)
  unfolding block_plausible
  inserted =
      block_insert-Joined (min_block l) h.heap_end (omega arith) h.size b
        (ground (arith, live.plausible)) (ground (arith, live.plausible)) l.base h.free_list
        live.above v.sorted live.apart

  give_back-Back : Back (give_back b h)
  unfolding give_back
  give_back-Back =
      let after = block_insert h.size b h.free_list in
      let j = inserted in
      let small = total-le (min_block l) h.heap_end after.size l.base after.free_list j.sorted in
      let bytes : add32 h.free_bytes (h.size b) ≡ h.free_bytes + h.size b =
        omega (arith, small, j.sum, v.sum, v.within) in
      let sum : total after.size after.free_list ≡ add32 h.free_bytes (h.size b) =
        omega (arith, j.sum, v.sum, bytes) in
      elim (Option-cases after.made) [
        | inl none_made ↦ rw none_made (
          record {
            ready = v.ready;
            sorted = j.sorted;
            sum = sum;
            within = v.within;
            header_size = v.header_size;
          },
          (j.joined, bytes),
        )
        | inr (r, made) ↦ rw made (
          record {
            ready = v.ready;
            sorted = j.sorted;
            sum = sum;
            within = v.within;
            header_size = v.header_size;
          },
          (j.joined, bytes),
        )
      ]

-- os_mem_free of a live block in a valid heap gives back its addresses and its bytes, exactly,
-- whatever free blocks it touches, and the heap stays valid.
pub free-give_back :
    (l : Layout) (h : Heap) (b : ℕ)
    → IsValid l h
    → Live l h b
    → let h' = free l (some (b + l.header)) h in
      IsValid l h'
      × (((a : ℕ) → is_free h' a ≡ inside b (h.size b) a || is_free h a)
          × (h'.free_bytes ≡ h.free_bytes + h.size b))
free-give_back l h b v live = rw (free-live l h b v live) (give_back-Back l h b v live)
