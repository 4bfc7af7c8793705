-- ===== src/Log/Ring.antt =====
-- The bytes in the ring of kernel/os_log.c, in the order in which they were logged.
use ahura_rtos.Shared.{
  ℕ, ◌+◌, ◌-◌, ◌%◌, ◌≤◌, ◌<◌, ◌≡◌, sym, ap, ap₂, ◌∙◌, List, ◌++◌, arith, length, length-append,
  add32, sub32, u32_mod, mod_low, mod_once, read_bytes,
}
use native.Mathlib.Nat.{mod-lt, mod-add-mod}
use ahura_rtos.Shared.Circle.{window, window-advance, window_low, window-parts, next_place}
use ahura_rtos.Shared.Circle.Writes.{window-write_round}
use ahura_rtos.Log.Defs.{Log, free_space, put, chunk_length, advance}

-- The ring has these bytes.
pub record Holds (buffer_size : ℕ) (g : Log) (xs : List ℕ) : Type 0 where
  pub word : buffer_size + buffer_size < u32_mod
  pub inside : g.tail < buffer_size
  pub behind : g.head ≡ (g.tail + length xs) % buffer_size
  pub few : length xs < buffer_size
  pub bytes : window g.buffer buffer_size g.tail (length xs) 0 ≡ xs

module _ (size : ℕ) (g : Log) (xs : List ℕ) (h : Holds size g xs) where
  head_inside : g.head < size
  head_inside = rw h.behind (mod-lt (g.tail + length xs) (omega (arith, h.inside)))

  pub free_space-Holds : free_space size g ≡ size - 1 - length xs
  unfolding free_space
  free_space-Holds = ground (
    arith,
    h.word,
    h.inside,
    h.few,
    h.behind,
    mod_once (g.tail + length xs) size (omega (arith, h.inside, h.few)),
  )

  pub put-Holds :
      (line : List ℕ) → length xs + length line < size → Holds size (put size line g) (xs ++ line)
  unfolding put
  put-Holds line room =
      let below = head_inside in
      let e : sub32 size g.head ≡ size - g.head = omega (arith, below, h.word) in
      let len = length-append xs line in
      record {
        word = h.word;
        inside = h.inside;
        behind =
            next_place size g.tail g.head (length xs) (length line) h.behind
              (omega (arith, below, h.word, room))
            ∙ ap (λ t. (g.tail + t) % size) (sym len);
        few = omega (arith, len, room);
        bytes =
            rw (e, len)
              (window-write_round size g.tail g.head g.buffer (length xs) line h.inside h.behind
                  (omega (arith, room))
                ∙ ap (λ l. l ++ line) h.bytes);
      }

  -- The bytes at the tail, before the end of the buffer.
  pub chunk-Holds :
      (ys zs : List ℕ)
      → xs ≡ ys ++ zs
      → g.tail + length ys ≤ size
      → (read_bytes g.buffer g.tail (length ys) ≡ ys) × Holds size (advance size (length ys) g) zs
  unfolding advance
  chunk-Holds ys zs e low =
      let n = length xs in
      let j = length ys in
      let (first, (rest, len)) = window-parts g.buffer size g.tail n ys zs (h.bytes ∙ e) in
      let here : g.tail ≡ (g.tail + 0) % size =
        sym (mod_low (g.tail + 0) size (omega (arith, h.inside)) ∙ omega arith) in
      let start : g.tail ≡ g.tail + 0 = omega arith in
      let left : n - j ≡ length zs = omega (arith, len) in
      let to : add32 g.tail j % size ≡ (g.tail + j) % size =
        next_place size g.tail g.tail 0 j here (omega (arith, h.word, low, h.inside))
        ∙ ap (λ t. (g.tail + t) % size) (omega arith) in
      let total : g.tail + n ≡ g.tail + j + length zs = omega (arith, len) in
      (
        ap (λ a. read_bytes g.buffer a j) start
            ∙ (sym (window_low g.buffer size g.tail j 0 (omega (arith, low))) ∙ first),
        record {
          word = h.word;
          inside = mod-lt (add32 g.tail j) (omega (arith, h.inside));
          behind =
              h.behind
              ∙ (ap (λ t. t % size) total
                  ∙ (sym (mod-add-mod (g.tail + j) size (length zs))
                      ∙ ap (λ t. (t + length zs) % size) (sym to)));
          few = omega (arith, h.few, len);
          bytes =
              ap (λ t. window g.buffer size t (length zs) 0) to
              ∙ (window-advance g.buffer size g.tail j (length zs) 0
                  ∙ (ap₂ (window g.buffer size g.tail) (sym left) (omega arith) ∙ rest));
        },
      )

  pub chunk_length-le :
      (chunk_length size g ≤ length xs)
      × ((g.tail + chunk_length size g ≤ size) × (chunk_length size g ≡ 0 → length xs ≡ 0))
  unfolding chunk_length
  chunk_length-le = ground (
    arith,
    h.inside,
    h.few,
    h.behind,
    mod_once (g.tail + length xs) size (omega (arith, h.inside, h.few)),
  )
