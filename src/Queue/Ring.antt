-- ===== src/Queue/Ring.antt =====
-- The items in the ring of kernel/os_queue.c.
use ahura_rtos.Shared.{
  ℕ, zero, suc, ◌+◌, ◌*◌, ◌%◌, ◌≤◌, ◌<◌, ◌≡◌, ◌≢◌, ◌⊎◌, inl, inr, refl, ap, ap₂, subst, ◌∙◌, List,
  [], ◌∷◌, ◌++◌, arith, length, write_bytes, read_bytes, read_bytes-write_bytes,
  read_bytes-write_bytes_apart, mod_step,
}
use native.Mathlib.Decide.{dec_lt}
use native.Mathlib.Nat.{mul-le-mul_right}

-- The item in a slot.
abbrev pub slot : (ℕ → ℕ) → ℕ → ℕ → List ℕ
slot bytes size i = read_bytes bytes (i * size) size

-- Items in a ring of `capacity` slots, from the k-th behind the head on.
abbrev pub items : (ℕ → ℕ) → ℕ → ℕ → ℕ → ℕ → ℕ → List (List ℕ)
items bytes size capacity head zero k = []
items bytes size capacity head (suc n) k =
    slot bytes size ((head + k) % capacity) ∷ items bytes size capacity head n (k + 1)

slots_apart : (i j size : ℕ) → i ≢ j → (i * size + size ≤ j * size) ⊎ (j * size + size ≤ i * size)
slots_apart i j size ne = elim (dec_lt i j) [
  | yes less ↦ inl (omega (arith, mul-le-mul_right size less))
  | no more ↦ let less : j < i = omega arith in inr (omega (arith, mul-le-mul_right size less))
]

module _ (bytes : ℕ → ℕ) (size : ℕ) (item : List ℕ) (fits : length item ≡ size) where
  -- A slot that is written to.
  pub slot-write_self : (i : ℕ) → slot (write_bytes bytes (i * size) item) size i ≡ item
  slot-write_self i =
      subst (λ n. read_bytes (write_bytes bytes (i * size) item) (i * size) n ≡ item) fits
        (read_bytes-write_bytes bytes (i * size) item)

  pub slot-write_ne :
      (i j : ℕ) → j ≢ i → slot (write_bytes bytes (i * size) item) size j ≡ slot bytes size j
  slot-write_ne i j ne =
      read_bytes-write_bytes_apart bytes (i * size) item (j * size) size
        (ground (arith, slots_apart j i size ne))

  -- A write to a slot that is none of the items' leaves them.
  pub items-write :
      (capacity head at n k : ℕ)
      → ((j : ℕ) → k ≤ j → j < k + n → (head + j) % capacity ≢ at)
      → items (write_bytes bytes (at * size) item) size capacity head n k
        ≡ items bytes size capacity head n k
  items-write capacity head at zero k apart = refl
  items-write capacity head at (suc n) k apart =
      ap₂ ◌∷◌ (slot-write_ne at ((head + k) % capacity) (apart k (omega arith) (omega arith)))
        (items-write capacity head at n (k + 1) (λ j low high. apart j (omega arith) (omega arith)))

-- The last of the items.
items-suc :
    (bytes : ℕ → ℕ) (size capacity head n k : ℕ)
    → items bytes size capacity head (suc n) k
      ≡ items bytes size capacity head n k ++ slot bytes size ((head + (k + n)) % capacity) ∷ []
items-suc bytes size capacity head zero k = let e : k + 0 ≡ k = omega arith in rw e refl
items-suc bytes size capacity head (suc n) k =
    let e : k + suc n ≡ k + 1 + n = omega arith in
    rw e (
      ap (λ l. slot bytes size ((head + k) % capacity) ∷ l)
        (items-suc bytes size capacity head n (k + 1)))

module _ (bytes : ℕ → ℕ) (size capacity head : ℕ) where
  -- The items behind the first.
  pub items-advance :
      (n k : ℕ)
      → items bytes size capacity ((head + 1) % capacity) n k
        ≡ items bytes size capacity head n (k + 1)
  items-advance zero k = refl
  items-advance (suc n) k =
      ap₂ ◌∷◌ (ap (slot bytes size) (mod_step head k capacity)) (items-advance n (k + 1))

  -- An item written behind the last one.
  pub items-push :
      (item : List ℕ) (at n k : ℕ)
      → length item ≡ size
      → (head + (k + n)) % capacity ≡ at
      → ((j : ℕ) → k ≤ j → j < k + n → (head + j) % capacity ≢ at)
      → items (write_bytes bytes (at * size) item) size capacity head (suc n) k
        ≡ items bytes size capacity head n k ++ item ∷ []
  items-push item at n k fits last apart =
      items-suc (write_bytes bytes (at * size) item) size capacity head n k
      ∙ ap₂ (λ l x. l ++ x ∷ []) (items-write bytes size item fits capacity head at n k apart)
          (ap (slot (write_bytes bytes (at * size) item) size) last
            ∙ slot-write_self bytes size item fits at)
