-- ===== src/Mem/Defs.antt =====
-- os_mem_alloc, os_mem_free and the rest of kernel/os_mem.c. A block is the address of its header;
-- the fields of os_mem_block_t are functions of that address, and the bit OS_MEM_ALLOCATED_MSK of a
-- size is a field of its own.
use ahura_rtos.Shared.{
  ℕ, ◌+◌, ◌-◌, ◌*◌, ◌/◌, ◌%◌, ◌^◌, Bool, true, false, not, ◌&&◌, Option, none, some, List, [], ◌∷◌,
  if◌then◌else◌, ltb, leb, ◌==◌, update, add32,
}

-- Where os_mem_heap lies, OS_CONFIG_HEAP_SIZE and OS_MEM_HEADER_SIZE.
pub record Layout : Type 0 where
  pub base : ℕ
  pub heap_size : ℕ
  pub header : ℕ

pub record Heap : Type 0 where
  -- os_mem_block_t; whether `next` is not NULL
  pub size : ℕ → ℕ
  pub allocated : ℕ → Bool
  pub linked : ℕ → Bool
  -- the blocks from os_mem_start up to os_mem_end; whether os_mem_end is not NULL, and its value
  pub free_list : List ℕ
  pub is_ready : Bool
  pub heap_end : ℕ
  pub free_bytes : ℕ
  pub min_free_bytes : ℕ

-- OS_MEM_MIN_BLOCK_SIZE
abbrev pub min_block : Layout → ℕ
min_block l = l.header + 8

-- `(n + OS_MEM_ALIGN_MSK) & ~OS_MEM_ALIGN_MSK`
abbrev pub align_up : ℕ → ℕ
align_up n = add32 n 7 / 8 * 8

-- os_mem_init
unfoldable pub init : Layout → Heap → Heap
init l h =
    let heap_start = align_up l.base in
    let heap_end = (l.base + l.heap_size - l.header) / 8 * 8 in
    let bytes = heap_end - heap_start in
    record {
      size = update (update h.size heap_end 0) heap_start bytes;
      allocated = update (update h.allocated heap_end false) heap_start false;
      linked = update (update h.linked heap_end false) heap_start true;
      free_list = heap_start ∷ [];
      is_ready = true;
      heap_end = heap_end;
      free_bytes = bytes;
      min_free_bytes = bytes;
    }

unfoldable pub prepared : Layout → Heap → Heap
prepared l h = if h.is_ready then h else init l h

-- The free list and the sizes after a walk, and the block whose `next` was set to a block.
pub record Blocks : Type 0 where
  pub free_list : List ℕ
  pub size : ℕ → ℕ
  pub made : Option ℕ

abbrev pub cons : ℕ → Blocks → Blocks
cons x bs = record bs { free_list = x ∷ bs.free_list }

-- The first block that is large enough leaves the list, but for what is left of it when that is
-- large enough for a block.
unfoldable pub first_fit : ℕ → ℕ → (ℕ → ℕ) → List ℕ → Option (ℕ × Blocks)
first_fit min_size need size [] = none
first_fit min_size need size (b ∷ bs) =
    let rest = first_fit min_size need size bs in
    if ltb (size b) need
    then elim rest [ none ↦ none | some found ↦ some (found.0, cons b found.1) ]
    else (if leb min_size (size b - need)
        then some (
          b,
          record {
            free_list = (b + need) ∷ bs;
            size = update (update size (b + need) (size b - need)) b need;
            made = some (b + need);
          },
        )
        else some (b, record { free_list = bs; size = size; made = none }))

-- A block whose `next` is set is a free one.
abbrev pub mark_made : Option ℕ → Heap → Heap
mark_made made h = elim made [
  | none ↦ h
  | some b ↦ record h { linked = update h.linked b true; allocated = update h.allocated b false }
]

-- What an allocation takes: the header and the size rounded up.
abbrev pub needed : Layout → ℕ → ℕ
needed l size = add32 l.header (align_up size)

-- The found block is taken, and its header says so.
unfoldable pub take : ℕ → Blocks → Heap → Heap
take b after h =
    let marked = mark_made after.made h in
    let left = h.free_bytes - after.size b in
    record marked {
      free_list = after.free_list;
      size = after.size;
      linked = update marked.linked b false;
      allocated = update marked.allocated b true;
      free_bytes = left;
      min_free_bytes = if ltb left h.min_free_bytes then left else h.min_free_bytes;
    }

-- os_mem_alloc
unfoldable pub alloc : Layout → ℕ → Heap → Option ℕ × Heap
alloc l size heap =
    let need = needed l size in
    let h = prepared l heap in
    if not (size == 0) && (leb size need && ltb need (2 ^ 31))
    then elim (first_fit (min_block l) need h.size h.free_list) [
      | none ↦ (none, h)
      | some found ↦ (some (found.0 + l.header), take found.0 found.1 h)
    ]
    else (none, heap)

-- os_mem_block_plausible
unfoldable pub block_plausible : Layout → Heap → ℕ → Bool
block_plausible l h b =
    b % 8 == 0
    && (leb (min_block l) (h.size b) && (leb b h.heap_end && leb (h.size b) (h.heap_end - b)))

-- The end of os_mem_block_insert: a block before the rest of the list, which may begin where the
-- block ends.
unfoldable pub join_next : (ℕ → ℕ) → ℕ → List ℕ → Blocks
join_next size b [] = record { free_list = b ∷ []; size = size; made = some b }
join_next size b (y ∷ ys) =
    if b + size b == y
    then record { free_list = b ∷ ys; size = update size b (size b + size y); made = some b }
    else record { free_list = b ∷ y ∷ ys; size = size; made = some b }

-- os_mem_block_insert, from a block of the list on that lies before the new one.
unfoldable pub insert_after : (ℕ → ℕ) → ℕ → ℕ → List ℕ → Blocks
insert_after size b x [] =
    if x + size x == b
    then join_next (update size x (size x + size b)) x []
    else cons x (join_next size b [])
insert_after size b x (y ∷ ys) =
    let later = insert_after size b y ys in
    if ltb y b
    then cons x later
    else (if x + size x == b
        then join_next (update size x (size x + size b)) x (y ∷ ys)
        else cons x (join_next size b (y ∷ ys)))

-- os_mem_block_insert, whose walk begins at os_mem_start.
unfoldable pub block_insert : (ℕ → ℕ) → ℕ → List ℕ → Blocks
block_insert size b [] = join_next size b []
block_insert size b (x ∷ xs) =
    if ltb x b then insert_after size b x xs else join_next size b (x ∷ xs)

-- The block is free again.
unfoldable pub give_back : ℕ → Heap → Heap
give_back b h =
    let after = block_insert h.size b h.free_list in
    let cleared : Heap = record h { allocated = update h.allocated b false } in
    record (mark_made after.made cleared) {
      free_list = after.free_list;
      size = after.size;
      free_bytes = add32 h.free_bytes (h.size b);
    }

-- os_mem_free
unfoldable pub free : Layout → Option ℕ → Heap → Heap
free l memory h = elim memory [
  | none ↦ h
  | some address ↦
      let b = address - l.header in
      if h.is_ready && (leb (l.base + l.header) address && ltb address (l.base + l.heap_size))
      then (if h.allocated b && (not (h.linked b) && block_plausible l h b)
          then give_back b h
          else h)
      else h
]

-- os_mem_free_get
unfoldable pub free_get : Layout → Heap → ℕ × Heap
free_get l h = let ready = prepared l h in (ready.free_bytes, ready)

-- os_mem_watermark_get
unfoldable pub watermark_get : Layout → Heap → ℕ × Heap
watermark_get l h = let ready = prepared l h in (ready.min_free_bytes, ready)
