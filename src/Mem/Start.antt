-- ===== src/Mem/Start.antt =====
-- os_mem_init of kernel/os_mem.c.
use ahura_rtos.Shared.{ℕ, ◌+◌, ◌%◌, ◌^◌, ◌≤◌, ◌<◌, ◌≡◌, refl, true, false, [], ◌∷◌, arith}
use ahura_rtos.Mem.Defs.{Layout, Heap, align_up, init}
use ahura_rtos.Mem.Cover.{total}
use ahura_rtos.Mem.Allocator.{IsValid}

-- One free block and the end marker behind it, both aligned, fill os_mem_heap but for less than
-- eight bytes at either end: the block begins inside, and the marker's header ends inside.
pub record Spans (l : Layout) (h : Heap) (b : ℕ) : Type 0 where
  pub alone : h.free_list ≡ b ∷ []
  pub linked : h.linked b ≡ true
  pub free : h.allocated b ≡ false
  pub aligned : b % 8 ≡ 0
  pub first : (l.base ≤ b) × (b < l.base + 8)
  pub reaches : b + h.size b ≡ h.heap_end
  pub marker : (h.size h.heap_end ≡ 0) × ((h.linked h.heap_end ≡ false) × (h.heap_end % 8 ≡ 0))
  pub last :
      (h.heap_end + l.header ≤ l.base + l.heap_size)
      × (l.base + l.heap_size < h.heap_end + l.header + 8)
  pub counted : (h.free_bytes ≡ h.size b) × (h.min_free_bytes ≡ h.size b)

-- For a heap of 64 bytes or more below 2 ^ 32, os_mem_init makes a valid heap. It has one free
-- block, linked and aligned, which begins within the first eight bytes of os_mem_heap and reaches to
-- the end marker, whose header ends within the last eight; all free bytes are in it.
pub init-IsValid :
    (l : Layout) (h : Heap)
    → l.header ≡ 8
    → 64 ≤ l.heap_size
    → l.base + l.heap_size ≤ 2 ^ 32
    → IsValid l (init l h) × ((b : ℕ) × Spans l (init l h) b)
unfolding init total
init-IsValid l h small large fits = (
  record {
    ready = refl;
    sorted = (
      omega (arith, fits, large),
      (ground (arith, small, fits, large), ground (arith, small, fits, large)),
    );
    sum = ground arith;
    within = omega (arith, small, fits, large);
    header_size = small;
  },
  (
    align_up l.base,
    record {
      alone = refl;
      linked = ground arith;
      free = ground arith;
      aligned = omega arith;
      first = (omega (arith, fits, large), omega (arith, fits, large));
      reaches = ground (arith, small, fits, large);
      marker =
          (ground (arith, small, fits, large), (ground (arith, small, fits, large), omega arith));
      last = (omega (arith, small, fits, large), omega (arith, small, fits, large));
      counted = (ground arith, ground arith);
    },
  ),
)
