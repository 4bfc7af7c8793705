-- ===== src/Shared/Bytes.antt =====
-- Memory as a function from addresses to bytes: memcpy into it and out of it.
use Prim.Native.Nat.{ℕ, zero, suc, ◌+◌, ◌≤◌, ◌<◌}
use mathlib.Core.Path.{◌≡◌, refl, ap, ap₂, ◌∙◌}
use mathlib.Core.Logic.{◌⊎◌, inl}
use mathlib.Core.List.{List, [], ◌∷◌, ◌++◌}
use native.Mathlib.Omega.{arith}
use ahura_rtos.Shared.Tables.{update}
use ahura_rtos.Shared.Lists.{length}

-- memcpy(&memory[at], bytes, ...)
unfoldable pub write_bytes : (ℕ → ℕ) → ℕ → List ℕ → ℕ → ℕ
write_bytes memory at [] = memory
write_bytes memory at (x ∷ xs) = write_bytes (update memory at x) (at + 1) xs

-- memcpy(..., &memory[at], n)
unfoldable pub read_bytes : (ℕ → ℕ) → ℕ → ℕ → List ℕ
read_bytes memory at zero = []
read_bytes memory at (suc n) = memory at ∷ read_bytes memory (at + 1) n

pub length-read_bytes : (memory : ℕ → ℕ) (at n : ℕ) → length (read_bytes memory at n) ≡ n
unfolding read_bytes
length-read_bytes memory at zero = refl
length-read_bytes memory at (suc n) = ap suc (length-read_bytes memory (at + 1) n)

pub write_bytes_outside :
    (memory : ℕ → ℕ) (at : ℕ) (xs : List ℕ) (j : ℕ)
    → ((j < at) ⊎ (at + length xs ≤ j))
    → write_bytes memory at xs j ≡ memory j
unfolding write_bytes
write_bytes_outside memory at [] j h = refl
write_bytes_outside memory at (x ∷ xs) j h =
    ground (arith, write_bytes_outside (update memory at x) (at + 1) xs j)

-- Reading back what was written.
pub read_bytes-write_bytes :
    (memory : ℕ → ℕ) (at : ℕ) (xs : List ℕ)
    → read_bytes (write_bytes memory at xs) at (length xs) ≡ xs
unfolding read_bytes write_bytes
read_bytes-write_bytes memory at [] = refl
read_bytes-write_bytes memory at (x ∷ xs) =
    ap₂ ◌∷◌
      (write_bytes_outside (update memory at x) (at + 1) xs at (inl (omega arith)) ∙ ground arith)
      (read_bytes-write_bytes (update memory at x) (at + 1) xs)

-- Reading elsewhere.
pub read_bytes-write_bytes_apart :
    (memory : ℕ → ℕ) (at : ℕ) (xs : List ℕ) (from n : ℕ)
    → ((from + n ≤ at) ⊎ (at + length xs ≤ from))
    → read_bytes (write_bytes memory at xs) from n ≡ read_bytes memory from n
unfolding read_bytes
read_bytes-write_bytes_apart memory at xs from zero h = refl
read_bytes-write_bytes_apart memory at xs from (suc n) h =
    ap₂ ◌∷◌ (write_bytes_outside memory at xs from (omega arith))
      (read_bytes-write_bytes_apart memory at xs (from + 1) n (omega arith))

pub read_bytes-append :
    (memory : ℕ → ℕ) (at n m : ℕ)
    → read_bytes memory at (n + m) ≡ read_bytes memory at n ++ read_bytes memory (at + n) m
unfolding read_bytes
read_bytes-append memory at zero m =
    let e : 0 + m ≡ m = omega arith in let f : at + 0 ≡ at = omega arith in rw (e, f) refl
read_bytes-append memory at (suc n) m =
    let e : suc n + m ≡ suc (n + m) = omega arith in
    let f : at + suc n ≡ at + 1 + n = omega arith in
    rw (e, f) (ap (λ l. memory at ∷ l) (read_bytes-append memory (at + 1) n m))
