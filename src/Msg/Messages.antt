-- ===== src/Msg/Messages.antt =====
-- A message into the ring of kernel/os_msg.c, and the oldest one out of it.
use ahura_rtos.Shared.{
  ℕ, ◌+◌, ◌-◌, ◌*◌, ◌/◌, ◌%◌, ◌^◌, ◌≤◌, ◌≡◌, sym, ap, ap₂, ◌∙◌, List, [], ◌∷◌, ◌++◌, arith, length,
  length-append, add32, sub32, u32_mod, mod_low,
}
use Prim.Native.Nat.{bit_or}
use mathlib.Core.List.{append_assoc, append-nil}
use ahura_rtos.Msg.Defs.{
  Msg, header_bytes, length_max, header_from, ring_write, ring_read, length_write, length_peek, put,
  get,
}
use ahura_rtos.Msg.Stream.{
  Holds, Carries-of, encode, stream, size, ring_write-Carries, ring_read-Carries, skip-Carries,
  parts, stream-append, size-append, AllFit-append, length_of_header,
}

length-le_size : (l : List (List ℕ)) → length l ≤ size l
length-le_size [] = omega arith
length-le_size (message ∷ l) = omega (arith, length-le_size l)

pub needed_lem : (n : ℕ) → n ≤ length_max → add32 n header_bytes ≡ n + 2
needed_lem n short = omega arith

module _ (m : Msg) (l : List (List ℕ)) (message : List ℕ) where
  -- A message behind the others.
  pub put-Holds :
      Holds m l
      → length message ≤ length_max
      → m.used + (length message + 2) ≤ m.capacity
      → Holds (put message m) (l ++ message ∷ [])
  unfolding put length_write ring_write
  put-Holds h short room =
      let head = header_from (length message) header_bytes 0 in
      let before = Carries-of m l h in
      let middle =
        ring_write-Carries m m.used (stream l) head before (omega (arith, room)) (omega arith) in
      let after =
        ring_write-Carries (ring_write head m) (m.used + 2) (stream l ++ head) message middle
          (omega (arith, room)) short in
      let e : add32 m.used (add32 (length message) header_bytes) ≡ m.used + 2 + length message =
        omega (arith, needed_lem (length message) short, room, h.word) in
      record {
        word = h.word;
        inside = h.inside;
        behind = rw e after.behind;
        few = rw e after.few;
        lengths = AllFit-append l (message ∷ []) h.lengths (short, tt);
        sized = e ∙ omega (arith, size-append l (message ∷ []), h.sized);
        counted = omega (
          arith,
          length-append l (message ∷ []),
          length-le_size l,
          h.counted,
          h.sized,
          h.few,
          h.word,
        );
        bytes = rw e (
            after.bytes
            ∙ (append_assoc (stream l) head message
                ∙ sym (
                    stream-append l (message ∷ [])
                    ∙ ap (λ t. stream l ++ t) (append-nil (encode message)))));
      }

  -- The oldest message's length.
  pub length_peek-Holds : Holds m (message ∷ l) → length_peek m ≡ length message
  unfolding length_peek
  length_peek-Holds h =
      let n = length message in
      let head = header_from n header_bytes 0 in
      let carried = Carries-of m (message ∷ l) h in
      let assoc = append_assoc head message (stream l) in
      let (first, rest) = parts m m.used head (message ++ stream l) (rw assoc at carried) in
      let start : (m.head + 0) % m.capacity ≡ m.head =
        mod_low (m.head + 0) m.capacity (omega (arith, h.inside)) ∙ omega arith in
      let next : add32 m.head 1 % m.capacity ≡ (m.head + (0 + 1)) % m.capacity =
        ap (λ t. t % m.capacity)
          (mod_low (m.head + 1) u32_mod (omega (arith, h.inside, h.word)) ∙ omega arith) in
      let low : m.bytes m.head ≡ n / 2 ^ 0 % 256 = ap m.bytes (sym start) ∙ cc first in
      let high : m.bytes (add32 m.head 1 % m.capacity) ≡ n / 2 ^ 8 % 256 =
        ap m.bytes next ∙ cc first in
      ap₂ (λ a b. bit_or (bit_or 0 (a * 1)) (b * 256)) low high ∙ length_of_header n h.lengths.0

  -- The oldest message, and the others behind it.
  pub get-Holds :
      Holds m (message ∷ l)
      → ((get (length message) m).0 ≡ message) × Holds (get (length message) m).1 l
  unfolding get ring_read
  get-Holds h =
      let n = length message in
      let head = header_from n header_bytes 0 in
      let carried = Carries-of m (message ∷ l) h in
      let assoc = append_assoc head message (stream l) in
      let behind = skip-Carries m m.used head (message ++ stream l) carried (omega arith) in
      let m' : Msg = record m { head = add32 m.head header_bytes % m.capacity } in
      let (out, left) = ring_read-Carries m' (m.used - 2) message (stream l) behind h.lengths.0 in
      let e : sub32 m.used (add32 n header_bytes) ≡ m.used - 2 - n =
        omega (arith, h.sized, h.few, h.word, needed_lem n h.lengths.0) in
      (
        out,
        record {
          word = h.word;
          inside = left.inside;
          behind = rw e left.behind;
          few = rw e left.few;
          lengths = h.lengths.1;
          sized = e ∙ omega (arith, h.sized);
          counted = omega (arith, h.counted);
          bytes = rw e left.bytes;
        },
      )
