-- ===== src/Msg/Stream.antt =====
-- The bytes in the ring of kernel/os_msg.c are the messages, each behind its length.
use ahura_rtos.Shared.{
  ℕ, ◌+◌, ◌-◌, ◌*◌, ◌/◌, ◌%◌, ◌^◌, ◌≤◌, ◌<◌, ◌≡◌, refl, sym, ap, ◌∙◌, List, [], ◌∷◌, ◌++◌, arith,
  length, length-append, add32, sub32, u32_mod, mod_low,
}
use Prim.Native.Nat.{bit_or}
use mathlib.Core.List.{append_assoc}
use native.Mathlib.Nat.{mod-lt, mod-add-mod}
use ahura_rtos.Shared.Bits.{zero-bit_or, bit_or_parts}
use ahura_rtos.Shared.Circle.{window, window-advance, read_round-window, window-parts, next_place}
use ahura_rtos.Shared.Circle.Writes.{window-write_round}
use ahura_rtos.Msg.Defs.{Msg, header_bytes, length_max, header_from, ring_write, ring_read}

-- A message as it stands in the buffer, and messages in a row.
abbrev pub encode : List ℕ → List ℕ
encode message = header_from (length message) header_bytes 0 ++ message

abbrev pub stream : List (List ℕ) → List ℕ
stream [] = []
stream (message ∷ l) = encode message ++ stream l

-- What the messages take in the buffer.
abbrev pub size : List (List ℕ) → ℕ
size [] = 0
size (message ∷ l) = length message + 2 + size l

abbrev pub AllFit : List (List ℕ) → Type 0
AllFit [] = Unit
AllFit (message ∷ l) = (length message ≤ length_max) × AllFit l

-- A buffer holds these messages, the oldest one first.
pub record Holds (m : Msg) (l : List (List ℕ)) : Type 0 where
  pub word : m.capacity + length_max < u32_mod
  pub inside : m.head < m.capacity
  pub behind : m.tail ≡ (m.head + m.used) % m.capacity
  pub few : m.used ≤ m.capacity
  pub lengths : AllFit l
  pub sized : m.used ≡ size l
  pub counted : m.count ≡ length l
  pub bytes : window m.bytes m.capacity m.head m.used 0 ≡ stream l

-- Bytes in the ring, whatever they stand for.
pub record Carries (m : Msg) (n : ℕ) (xs : List ℕ) : Type 0 where
  pub word : m.capacity + length_max < u32_mod
  pub inside : m.head < m.capacity
  pub behind : m.tail ≡ (m.head + n) % m.capacity
  pub few : n ≤ m.capacity
  pub bytes : window m.bytes m.capacity m.head n 0 ≡ xs

advance :
    (m : Msg) (at n j : ℕ)
    → at ≡ (m.head + n) % m.capacity
    → 0 < m.capacity
    → m.capacity + length_max < u32_mod
    → j ≤ length_max
    → add32 at j % m.capacity ≡ (m.head + (n + j)) % m.capacity
advance m at n j place positive word short =
    let below : at < m.capacity = rw place (mod-lt (m.head + n) positive) in
    next_place m.capacity m.head at n j place (omega (arith, below, word))

module _ (m : Msg) (n : ℕ) (xs ys : List ℕ) where
  pub ring_write-Carries :
      Carries m n xs
      → n + length ys ≤ m.capacity
      → length ys ≤ length_max
      → Carries (ring_write ys m) (n + length ys) (xs ++ ys)
  unfolding ring_write
  ring_write-Carries h room short =
      let below : m.tail < m.capacity =
        rw h.behind (mod-lt (m.head + n) (omega (arith, h.inside))) in
      let e : sub32 m.capacity m.tail ≡ m.capacity - m.tail = omega (arith, below, h.word) in
      record {
        word = h.word;
        inside = h.inside;
        behind = advance m m.tail n (length ys) h.behind (omega (arith, h.inside)) h.word short;
        few = room;
        bytes = rw e (
            window-write_round m.capacity m.head m.tail m.bytes n ys h.inside h.behind room
            ∙ ap (λ l. l ++ ys) h.bytes);
      }

  -- The first bytes of the ring, and those behind them.
  pub parts :
      Carries m n (xs ++ ys)
      → (window m.bytes m.capacity m.head (length xs) 0 ≡ xs)
        × ((window m.bytes m.capacity m.head (n - length xs) (length xs) ≡ ys) × (length xs ≤ n))
  parts h =
      let (first, (rest, len)) = window-parts m.bytes m.capacity m.head n xs ys h.bytes in
      (first, (rest, omega (arith, len)))

  -- The head moves behind the first bytes.
  pub skip-Carries :
      Carries m n (xs ++ ys)
      → length xs ≤ length_max
      → Carries (record m { head = add32 m.head (length xs) % m.capacity }) (n - length xs) ys
  skip-Carries h short =
      let j = length xs in
      let (first, (rest, fits)) = parts h in
      let positive : 0 < m.capacity = omega (arith, h.inside) in
      let start : m.head ≡ (m.head + 0) % m.capacity =
        sym (mod_low (m.head + 0) m.capacity (omega (arith, h.inside)) ∙ omega arith) in
      let total : m.head + n ≡ m.head + j + (n - j) = omega (arith, fits) in
      let to : add32 m.head j % m.capacity ≡ (m.head + j) % m.capacity =
        advance m m.head 0 j start positive h.word short
        ∙ ap (λ t. (m.head + t) % m.capacity) (omega arith) in
      record {
        word = h.word;
        inside = mod-lt (add32 m.head j) positive;
        behind =
            h.behind
            ∙ (ap (λ t. t % m.capacity) total
                ∙ (sym (mod-add-mod (m.head + j) m.capacity (n - j))
                    ∙ ap (λ t. (t + (n - j)) % m.capacity) (sym to)));
        few = omega (arith, h.few);
        bytes =
            ap (λ t. window m.bytes m.capacity t (n - j) 0) to
            ∙ (window-advance m.bytes m.capacity m.head j (n - j) 0
                ∙ (ap (window m.bytes m.capacity m.head (n - j)) (omega arith) ∙ rest));
      }

  pub ring_read-Carries :
      Carries m n (xs ++ ys)
      → length xs ≤ length_max
      → ((ring_read (length xs) m).0 ≡ xs) × Carries (ring_read (length xs) m).1 (n - length xs) ys
  unfolding ring_read
  ring_read-Carries h short =
      let (first, (rest, fits)) = parts h in
      let e : sub32 m.capacity m.head ≡ m.capacity - m.head = omega (arith, h.inside, h.word) in
      (
        rw e (
            read_round-window m.bytes m.capacity m.head (length xs) h.inside
              (omega (arith, fits, h.few))
            ∙ first),
        skip-Carries h short,
      )

length-encode : (message : List ℕ) → length (encode message) ≡ length message + 2
length-encode message = omega arith

pub length-stream : (l : List (List ℕ)) → length (stream l) ≡ size l
length-stream [] = refl
length-stream (message ∷ l) =
    length-append (encode message) (stream l)
    ∙ omega (arith, length-stream l, length-encode message)

pub stream-append : (l r : List (List ℕ)) → stream (l ++ r) ≡ stream l ++ stream r
stream-append [] r = refl
stream-append (message ∷ l) r =
    ap (λ t. encode message ++ t) (stream-append l r)
    ∙ sym (append_assoc (encode message) (stream l) (stream r))

pub size-append : (l r : List (List ℕ)) → size (l ++ r) ≡ size l + size r
size-append [] r = omega arith
size-append (message ∷ l) r = omega (arith, size-append l r)

pub AllFit-append : (l r : List (List ℕ)) → AllFit l → AllFit r → AllFit (l ++ r)
AllFit-append [] r h g = g
AllFit-append (message ∷ l) r h g = (h.0, AllFit-append l r h.1 g)

pub Carries-of : (m : Msg) (l : List (List ℕ)) → Holds m l → Carries m m.used (stream l)
Carries-of m l h = record {
  word = h.word;
  inside = h.inside;
  behind = h.behind;
  few = h.few;
  bytes = h.bytes;
}

-- The two bytes of a length, read back.
pub length_of_header :
    (n : ℕ)
    → n ≤ length_max
    → bit_or (bit_or 0 (n / 2 ^ 0 % 256 * 2 ^ 0)) (n / 2 ^ 8 % 256 * 2 ^ 8) ≡ n
length_of_header n short =
    let e : n / 1 % 256 * 1 ≡ n % 256 = omega arith in
    rw (e, zero-bit_or (n % 256))
      (bit_or_parts 8 (n % 256) (n / 256 % 256) (omega arith) ∙ omega arith)
