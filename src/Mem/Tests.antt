-- ===== src/Mem/Tests.antt =====
-- The theorems on the allocator at one heap of 64 bytes at address 4096, and runs of the code.
use ahura_rtos.Shared.{ℕ, ◌≡◌, ◌||◌, refl, arith, true, some, [], ◌∷◌, ◌==◌, if◌then◌else◌}
use ahura_rtos.Mem.Defs.{
  Layout, Heap, init, alloc, free, block_plausible, block_insert, join_next, give_back,
}
use ahura_rtos.Mem.Cover.{inside, total}
use ahura_rtos.Mem.Allocator.{IsValid, Allocated, Live, is_free, alloc-Allocated, free-give_back}
use ahura_rtos.Mem.Start.{Spans, init-IsValid}

abbrev layout : Layout
layout = record { base = 4096; heap_size = 128; header = 8 }

-- A block of 24 bytes in use, and a free one of 96 behind it.
abbrev heap : Heap
heap = record {
  size = λ a. if a == 4096 then 24 else 96;
  allocated = λ a. a == 4096;
  linked = λ a. a == 4120;
  free_list = 4120 ∷ [];
  is_ready = true;
  heap_end = 4216;
  free_bytes = 96;
  min_free_bytes = 96;
}

heap-IsValid : IsValid layout heap
unfolding total
heap-IsValid = record {
  ready = refl;
  sorted = (omega arith, (omega arith, omega arith));
  sum = refl;
  within = omega arith;
  header_size = refl;
}

heap-Live : Live layout heap 4096
unfolding block_plausible
heap-Live = record {
  allocated = refl;
  unlinked = refl;
  plausible = refl;
  above = omega arith;
  below = omega arith;
  apart = λ a e. ground (arith, e);
}

alloc-Allocated_example : Allocated layout 10 heap (alloc layout 10 heap)
alloc-Allocated_example = alloc-Allocated layout heap 10 heap-IsValid (omega arith)

free-give_back_example :
    let h' = free layout (some 4104) heap in
    IsValid layout h'
    × (((a : ℕ) → is_free h' a ≡ inside 4096 24 a || is_free heap a) × (h'.free_bytes ≡ 120))
free-give_back_example = free-give_back layout heap 4096 heap-IsValid heap-Live

-- The freed block and the one behind it are one block again.
free-heap : (free layout (some 4104) heap).free_list ≡ 4096 ∷ []
unfolding free block_plausible give_back block_insert join_next
free-heap = refl

init-IsValid_example :
    IsValid layout (init layout heap) × ((b : ℕ) × Spans layout (init layout heap) b)
init-IsValid_example = init-IsValid layout heap refl (omega arith) (omega arith)
