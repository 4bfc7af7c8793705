-- ===== src/Shared/Circle.antt =====
-- A buffer of bytes used as a ring: copying into it and out of it in two pieces, and the bytes that
-- stand in it.
pub mod Writes
mod Examples
use Prim.Native.Nat.{ℕ, zero, suc, ◌+◌, ◌-◌, ◌%◌, ◌≤◌, ◌<◌}
use mathlib.Core.Path.{◌≡◌, refl, sym, ap, ap₂, ◌∙◌}
use mathlib.Core.Logic.{inl, inr}
use mathlib.Core.List.{List, [], ◌∷◌, ◌++◌}
use native.Mathlib.Omega.{arith}
use native.Mathlib.Nat.{mod-add-mod}
use ahura_rtos.Shared.Tests.{ltb, if◌then◌else◌, Bool-cases}
use ahura_rtos.Shared.Lists.{length, take, drop, length-append, append_cancel}
use ahura_rtos.Shared.Words.{u32_mod, add32}
use ahura_rtos.Shared.Bytes.{write_bytes, read_bytes}
use ahura_rtos.Shared.Modulo.{mod_low, mod_high}

-- How much of a length fits into the room before the end of the buffer.
abbrev pub first_part : ℕ → ℕ → ℕ
first_part room n = if ltb n room then n else room

-- Two memcpy calls into the buffer, the second only if there is something left.
unfoldable pub write_round : (ℕ → ℕ) → ℕ → ℕ → List ℕ → ℕ → ℕ
write_round memory room at xs =
    let first = first_part room (length xs) in
    let once = write_bytes memory at (take first xs) in
    if ltb first (length xs) then write_bytes once 0 (drop first xs) else once

-- Two memcpy calls out of the buffer.
unfoldable pub read_round : (ℕ → ℕ) → ℕ → ℕ → ℕ → List ℕ
read_round memory room at n =
    let first = first_part room n in
    let once = read_bytes memory at first in
    if ltb first n then once ++ read_bytes memory 0 (n - first) else once

-- The bytes from the k-th behind a position on, round the end of the buffer.
abbrev pub window : (ℕ → ℕ) → ℕ → ℕ → ℕ → ℕ → List ℕ
window memory capacity head zero k = []
window memory capacity head (suc n) k =
    memory ((head + k) % capacity) ∷ window memory capacity head n (k + 1)

module _ (memory : ℕ → ℕ) (capacity head : ℕ) where
  pub length-window : (n k : ℕ) → length (window memory capacity head n k) ≡ n
  length-window zero k = refl
  length-window (suc n) k = ap suc (length-window n (k + 1))

  pub window-append :
      (n m k : ℕ)
      → window memory capacity head (n + m) k
        ≡ window memory capacity head n k ++ window memory capacity head m (k + n)
  window-append zero m k =
      let e : 0 + m ≡ m = omega arith in let f : k + 0 ≡ k = omega arith in rw (e, f) refl
  window-append (suc n) m k =
      let e : suc n + m ≡ suc (n + m) = omega arith in
      let f : k + suc n ≡ k + 1 + n = omega arith in
      rw (e, f) (ap (λ l. memory ((head + k) % capacity) ∷ l) (window-append n m (k + 1)))

  pub window-advance :
      (j n k : ℕ)
      → window memory capacity ((head + j) % capacity) n k ≡ window memory capacity head n (j + k)
  window-advance j zero k = refl
  window-advance j (suc n) k =
      ap₂ (λ a l. memory a ∷ l)
        (mod-add-mod (head + j) capacity k ∙ ap (λ t. t % capacity) (omega arith))
        (window-advance j n (k + 1) ∙ ap (window memory capacity head n) (omega arith))

  -- Before the end of the buffer, and behind it.
  pub window_low :
      (n k : ℕ)
      → head + k + n ≤ capacity
      → window memory capacity head n k ≡ read_bytes memory (head + k) n
  unfolding read_bytes
  window_low zero k h = refl
  window_low (suc n) k h =
      ap₂ (λ a l. memory a ∷ l) (mod_low (head + k) capacity (omega arith))
        (window_low n (k + 1) (omega arith) ∙ ap (λ a. read_bytes memory a n) (omega arith))

  window_high :
      (n k : ℕ)
      → capacity ≤ head + k
      → head + k + n ≤ capacity + capacity
      → window memory capacity head n k ≡ read_bytes memory (head + k - capacity) n
  unfolding read_bytes
  window_high zero k over h = refl
  window_high (suc n) k over h =
      ap₂ (λ a l. memory a ∷ l) (mod_high (head + k) capacity over (omega arith))
        (window_high n (k + 1) (omega arith) (omega arith)
          ∙ ap (λ a. read_bytes memory a n) (omega (arith, over)))

  -- Both copies together read the bytes round the end of the buffer.
  read_parts :
      (first n : ℕ)
      → head < capacity
      → n ≤ capacity
      → first ≤ n
      → first ≤ capacity - head
      → (first < n → first ≡ capacity - head)
      → (if ltb first n
          then read_bytes memory head first ++ read_bytes memory 0 (n - first)
          else read_bytes memory head first)
        ≡ window memory capacity head n 0
  read_parts first n inside small part low rest = elim (Bool-cases (ltb first n)) [
    | inl more ↦
        let end : first ≡ capacity - head = rest (ground (arith, more)) in
        let split : n ≡ first + (n - first) = omega (arith, part) in
        let here : head + 0 ≡ head = omega arith in
        let start : head + (0 + first) - capacity ≡ 0 = omega (arith, end) in
        rw more (
          ap₂ ◌++◌
            (ap (λ a. read_bytes memory a first) (sym here)
              ∙ sym (window_low first 0 (omega (arith, low))))
            (ap (λ a. read_bytes memory a (n - first)) (sym start)
              ∙ sym (window_high (n - first) (0 + first) (omega (arith, end)) (omega (arith, end))))
          ∙ (sym (window-append first (n - first) 0)
              ∙ ap (λ m. window memory capacity head m 0) (sym split)))
    | inr all ↦
        let e : first ≡ n = ground (arith, all) in
        let here : head ≡ head + 0 = omega arith in
        rw all (ap₂ (read_bytes memory) here e ∙ sym (window_low n 0 (omega (arith, low, e))))
  ]

  pub read_round-window :
      (n : ℕ)
      → head < capacity
      → n ≤ capacity
      → read_round memory (capacity - head) head n ≡ window memory capacity head n 0
  unfolding read_round
  read_round-window n inside small =
      read_parts (first_part (capacity - head) n) n inside small (ground arith) (ground arith)
        (ground arith)

  -- The first bytes of a window, and those behind them.
  pub window-parts :
      (n : ℕ) (xs ys : List ℕ)
      → window memory capacity head n 0 ≡ xs ++ ys
      → (window memory capacity head (length xs) 0 ≡ xs)
        × ((window memory capacity head (n - length xs) (length xs) ≡ ys)
            × (n ≡ length xs + length ys))
  window-parts n xs ys e =
      let j = length xs in
      let len : n ≡ j + length ys = sym (length-window n 0) ∙ (ap length e ∙ length-append xs ys) in
      let split : n ≡ j + (n - j) = omega (arith, len) in
      let whole =
        sym (window-append j (n - j) 0)
        ∙ (ap (λ t. window memory capacity head t 0) (sym split) ∙ e) in
      let (first, rest) =
        append_cancel (window memory capacity head j 0) xs
          (window memory capacity head (n - j) (0 + j)) ys (length-window j 0) whole in
      let z : 0 + j ≡ j = omega arith in (first, (rw z at rest, len))

-- A position moved on by some bytes, in 32-bit arithmetic.
pub next_place :
    (capacity head at n j : ℕ)
    → at ≡ (head + n) % capacity
    → at + j < u32_mod
    → add32 at j % capacity ≡ (head + (n + j)) % capacity
next_place capacity head at n j place small =
    ap (λ t. t % capacity) (mod_low (at + j) u32_mod small)
    ∙ (ap (λ t. (t + j) % capacity) place
        ∙ (mod-add-mod (head + n) capacity j ∙ ap (λ t. t % capacity) (omega arith)))
