-- ===== src/Shared/Circle/Writes.antt =====
-- Copying into a ring of bytes: what its window shows then.
use Prim.Native.Nat.{ℕ, zero, suc, ◌+◌, ◌-◌, ◌%◌, ◌≤◌, ◌<◌}
use mathlib.Core.Path.{◌≡◌, refl, sym, ap, ap₂, ◌∙◌}
use mathlib.Core.Logic.{◌≢◌, inl, inr}
use mathlib.Core.List.{List, [], ◌∷◌, ◌++◌, append-nil, append_assoc}
use native.Mathlib.Omega.{arith}
use native.Mathlib.Nat.{mod-lt, mod-add-mod}
use ahura_rtos.Shared.Tests.{ltb, if◌then◌else◌, Bool-cases}
use ahura_rtos.Shared.Tables.{update, update_self, update_ne}
use ahura_rtos.Shared.Lists.{length, take, drop}
use ahura_rtos.Shared.Bytes.{write_bytes}
use ahura_rtos.Shared.Modulo.{mod_low, mod_high, mod_ne}
use ahura_rtos.Shared.Circle.{first_part, write_round, window, window-append}

module _ {ℓ} {A : Type ℓ} where
  pub take-drop : (n : ℕ) (xs : List A) → take n xs ++ drop n xs ≡ xs
  take-drop zero xs = refl
  take-drop (suc n) [] = refl
  take-drop (suc n) (x ∷ xs) = ap (λ l. x ∷ l) (take-drop n xs)

  pub length-take : (n : ℕ) (xs : List A) → n ≤ length xs → length (take n xs) ≡ n
  length-take zero xs h = refl
  length-take (suc n) [] h = omega arith
  length-take (suc n) (x ∷ xs) h = ap suc (length-take n xs (omega arith))

  length-drop : (n : ℕ) (xs : List A) → length (drop n xs) ≡ length xs - n
  length-drop zero xs = omega arith
  length-drop (suc n) [] = omega arith
  length-drop (suc n) (x ∷ xs) = omega (arith, length-drop n xs)

  take_all : (n : ℕ) (xs : List A) → length xs ≤ n → take n xs ≡ xs
  take_all zero [] h = refl
  take_all zero (x ∷ xs) h = absurd (omega arith)
  take_all (suc n) [] h = refl
  take_all (suc n) (x ∷ xs) h = ap (λ l. x ∷ l) (take_all n xs (omega arith))

module _ (capacity : ℕ) where
  -- Byte by byte, from the k-th behind a position on.
  unfoldable pub write_each : ℕ → (ℕ → ℕ) → ℕ → List ℕ → ℕ → ℕ
  write_each head memory k [] = memory
  write_each head memory k (x ∷ xs) =
      write_each head (update memory ((head + k) % capacity) x) (k + 1) xs

  module _ (head : ℕ) where
    write_each-append :
        (xs ys : List ℕ) (memory : ℕ → ℕ) (k : ℕ)
        → write_each head memory k (xs ++ ys)
          ≡ write_each head (write_each head memory k xs) (k + length xs) ys
    unfolding write_each
    write_each-append [] ys memory k = let e : k + 0 ≡ k = omega arith in rw e refl
    write_each-append (x ∷ xs) ys memory k =
        let e : k + suc (length xs) ≡ k + 1 + length xs = omega arith in
        rw e (write_each-append xs ys (update memory ((head + k) % capacity) x) (k + 1))

    write_each-low :
        (xs : List ℕ) (memory : ℕ → ℕ) (k : ℕ)
        → head + k + length xs ≤ capacity
        → write_each head memory k xs ≡ write_bytes memory (head + k) xs
    unfolding write_each write_bytes
    write_each-low [] memory k h = refl
    write_each-low (x ∷ xs) memory k h =
        let e : (head + k) % capacity ≡ head + k = mod_low (head + k) capacity (omega arith) in
        let f : head + (k + 1) ≡ head + k + 1 = omega arith in
        rw e (
          write_each-low xs (update memory (head + k) x) (k + 1) (omega arith)
          ∙ ap (λ a. write_bytes (update memory (head + k) x) a xs) f)

    write_each-high :
        (xs : List ℕ) (memory : ℕ → ℕ) (k : ℕ)
        → capacity ≤ head + k
        → head + k + length xs ≤ capacity + capacity
        → write_each head memory k xs ≡ write_bytes memory (head + k - capacity) xs
    unfolding write_each write_bytes
    write_each-high [] memory k over h = refl
    write_each-high (x ∷ xs) memory k over h =
        let at = head + k - capacity in
        let e : (head + k) % capacity ≡ at = mod_high (head + k) capacity over (omega arith) in
        let f : head + (k + 1) - capacity ≡ at + 1 = omega (arith, over) in
        rw e (
          write_each-high xs (update memory at x) (k + 1) (omega arith) (omega arith)
          ∙ ap (λ a. write_bytes (update memory at x) a xs) f)

    write_parts :
        (memory : ℕ → ℕ) (first : ℕ) (xs : List ℕ)
        → head < capacity
        → length xs ≤ capacity
        → first ≤ length xs
        → first ≤ capacity - head
        → (first < length xs → first ≡ capacity - head)
        → (if ltb first (length xs)
            then write_bytes (write_bytes memory head (take first xs)) 0 (drop first xs)
            else write_bytes memory head (take first xs))
          ≡ write_each head memory 0 xs
    write_parts memory first xs inside small part low rest =
        let here : head + 0 ≡ head = omega arith in
        let len = length-take first xs part in
        let once : write_each head memory 0 (take first xs)
            ≡ write_bytes memory head (take first xs) =
          write_each-low (take first xs) memory 0 (omega (arith, low, len))
          ∙ ap (λ a. write_bytes memory a (take first xs)) here in
        elim (Bool-cases (ltb first (length xs))) [
          | inl more ↦
              let end : first ≡ capacity - head = rest (ground (arith, more)) in
              let start : head + (0 + length (take first xs)) - capacity ≡ 0 =
                omega (arith, end, len) in
              rw more (
                ap₂ (λ m a. write_bytes m a (drop first xs)) (sym once) (sym start)
                ∙ (sym (
                      write_each-high (drop first xs) (write_each head memory 0 (take first xs))
                        (0 + length (take first xs)) (omega (arith, end, len))
                        (omega (arith, end, len, length-drop first xs)))
                    ∙ (sym (write_each-append (take first xs) (drop first xs) memory 0)
                        ∙ ap (write_each head memory 0) (take-drop first xs))))
          | inr all ↦
              rw all
                (sym once ∙ ap (write_each head memory 0) (take_all first xs (ground (arith, all))))
        ]

    -- At a position inside the buffer, for at most as many bytes as it has: copying in two pieces
    -- does what copying byte by byte does, round the end of the buffer.
    pub write_round-each :
        (memory : ℕ → ℕ) (xs : List ℕ)
        → head < capacity
        → length xs ≤ capacity
        → write_round memory (capacity - head) head xs ≡ write_each head memory 0 xs
    unfolding write_round
    write_round-each memory xs inside small =
        write_parts memory (first_part (capacity - head) (length xs)) xs inside small (ground arith)
          (ground arith) (ground arith)

    write_each-base :
        (n k : ℕ) (memory : ℕ → ℕ) (xs : List ℕ)
        → write_each ((head + n) % capacity) memory k xs ≡ write_each head memory (n + k) xs
    unfolding write_each
    write_each-base n k memory [] = refl
    write_each-base n k memory (x ∷ xs) =
        let e : ((head + n) % capacity + k) % capacity ≡ (head + (n + k)) % capacity =
          mod-add-mod (head + n) capacity k ∙ ap (λ t. t % capacity) (omega arith) in
        let f : n + (k + 1) ≡ n + k + 1 = omega arith in
        rw e (
          write_each-base n (k + 1) (update memory ((head + (n + k)) % capacity) x) xs
          ∙ ap (λ a. write_each head (update memory ((head + (n + k)) % capacity) x) a xs) f)

    -- A byte written behind the window.
    window-update :
        (memory : ℕ → ℕ) (x at n k : ℕ)
        → ((j : ℕ) → k ≤ j → j < k + n → (head + j) % capacity ≢ at)
        → window (update memory at x) capacity head n k ≡ window memory capacity head n k
    window-update memory x at zero k apart = refl
    window-update memory x at (suc n) k apart =
        ap₂ ◌∷◌
          (update_ne memory at ((head + k) % capacity) x
            λ e. apart k (omega arith) (omega arith) (sym e))
          (window-update memory x at n (k + 1) (λ j low high. apart j (omega arith) (omega arith)))

    window-each :
        (xs : List ℕ) (memory : ℕ → ℕ) (n : ℕ)
        → head < capacity
        → n + length xs ≤ capacity
        → window (write_each head memory n xs) capacity head (n + length xs) 0
          ≡ window memory capacity head n 0 ++ xs
    unfolding write_each
    window-each [] memory n inside small =
        let e : n + 0 ≡ n = omega arith in rw e (sym (append-nil (window memory capacity head n 0)))
    window-each (x ∷ xs) memory n inside small =
        let at = (head + n) % capacity in
        let memory' = update memory at x in
        let e : n + suc (length xs) ≡ n + 1 + length xs = omega arith in
        let z : 0 + n ≡ n = omega arith in
        let kept = window-update memory x at n 0 (λ j low high.
          mod_ne head j n capacity inside (omega arith) (omega arith) (omega arith)) in
        rw e (
          window-each xs memory' (n + 1) inside (omega arith)
          ∙ (ap (λ l. l ++ xs)
                (window-append memory' capacity head n 1 0
                  ∙ ap₂ (λ l y. l ++ y ∷ []) kept
                      (ap (λ t. memory' ((head + t) % capacity)) z ∙ update_self memory at x))
              ∙ append_assoc (window memory capacity head n 0) (x ∷ []) xs))

-- Bytes copied in right behind the window, with room for them, stand at its end.
pub window-write_round :
    (capacity head at : ℕ) (memory : ℕ → ℕ) (n : ℕ) (xs : List ℕ)
    → head < capacity
    → at ≡ (head + n) % capacity
    → n + length xs ≤ capacity
    → window (write_round memory (capacity - at) at xs) capacity head (n + length xs) 0
      ≡ window memory capacity head n 0 ++ xs
window-write_round capacity head at memory n xs inside place small =
    ap (λ m. window m capacity head (n + length xs) 0)
      (write_round-each capacity at memory xs (rw place (mod-lt (head + n) (omega (arith, inside))))
          (omega arith)
        ∙ (ap (λ a. write_each capacity a memory 0 xs) place
            ∙ (write_each-base capacity head n 0 memory xs
                ∙ ap (λ k. write_each capacity head memory k xs) (omega arith))))
    ∙ window-each capacity head xs memory n inside small
