-- ===== src/Shared/Lists.antt =====
-- Lists measured, indexed and searched by native numbers.
use Prim.Native.Nat.{ℕ, zero, suc, ◌+◌, ◌-◌}
use mathlib.Core.Path.{◌≡◌, refl}
use mathlib.Core.Logic.{◌≢◌}
use mathlib.Core.List.{List, [], ◌∷◌, ◌++◌}
use mathlib.Core.Bool.{Bool, true, false}
use native.Mathlib.Omega.{arith}
use ahura_rtos.Shared.Tests.{◌==◌, if◌then◌else◌}

module _ {ℓ} {A : Type ℓ} where
  abbrev pub length : List A → ℕ
  length [] = 0
  length (_ ∷ xs) = suc (length xs)

  abbrev pub is_empty : List A → Bool
  is_empty [] = true
  is_empty (_ ∷ _) = false

  abbrev pub take : ℕ → List A → List A
  take zero _ = []
  take (suc n) [] = []
  take (suc n) (x ∷ xs) = x ∷ take n xs

  abbrev pub drop : ℕ → List A → List A
  drop zero xs = xs
  drop (suc n) [] = []
  drop (suc n) (_ ∷ xs) = drop n xs

  pub length-append : (xs ys : List A) → length (xs ++ ys) ≡ length xs + length ys
  length-append [] ys = omega arith
  length-append (x ∷ xs) ys = omega (arith, length-append xs ys)

-- Two lists put together in two ways, with first parts of one length.
pub append_cancel {ℓ} :
    {A : Type ℓ} (xs ys us vs : List A)
    → length xs ≡ length ys
    → xs ++ us ≡ ys ++ vs
    → (xs ≡ ys) × (us ≡ vs)
append_cancel [] [] us vs h e = (refl, e)
append_cancel [] (y ∷ ys) us vs h e = absurd (omega (arith, h))
append_cancel (x ∷ xs) [] us vs h e = absurd (omega (arith, h))
append_cancel (x ∷ xs) (y ∷ ys) us vs h e =
    let (same, rest) = append_cancel xs ys us vs (omega (arith, h)) (cc e) in (cc (e, same), rest)

-- How often a number stands in a list.
abbrev pub count : ℕ → List ℕ → ℕ
count r [] = 0
count r (x ∷ xs) = if x == r then suc (count r xs) else count r xs

-- The list without the first occurrence of a number.
abbrev pub erase : ℕ → List ℕ → List ℕ
erase r [] = []
erase r (x ∷ xs) = if x == r then xs else x ∷ erase r xs

pub count-append : (r : ℕ) (xs ys : List ℕ) → count r (xs ++ ys) ≡ count r xs + count r ys
count-append r [] ys = omega arith
count-append r (x ∷ xs) ys = ground (arith, count-append r xs ys)

pub count-erase_self : (r : ℕ) (xs : List ℕ) → count r (erase r xs) ≡ count r xs - 1
count-erase_self r [] = omega arith
count-erase_self r (x ∷ xs) = ground (arith, count-erase_self r xs)

pub count-erase_ne : (q r : ℕ) (xs : List ℕ) → q ≢ r → count q (erase r xs) ≡ count q xs
count-erase_ne q r [] h = refl
count-erase_ne q r (x ∷ xs) h = ground (arith, count-erase_ne q r xs h)

pub erase_absent : (r : ℕ) (xs : List ℕ) → count r xs ≡ 0 → erase r xs ≡ xs
erase_absent r [] h = refl
erase_absent r (x ∷ xs) h = ground (arith, erase_absent r xs)

pub length-erase : (r : ℕ) (xs : List ℕ) → count r xs ≢ 0 → suc (length (erase r xs)) ≡ length xs
length-erase r [] h = absurd (h refl)
length-erase r (x ∷ xs) h = ground (arith, length-erase r xs)

-- Lists that hold the same numbers equally often are equally long.
pub length_of_count : (xs ys : List ℕ) → ((q : ℕ) → count q xs ≡ count q ys) → length xs ≡ length ys
length_of_count [] [] h = refl
length_of_count [] (y ∷ ys) h = ground (arith, h y)
length_of_count (x ∷ xs) ys h =
    let rest =
      length_of_count xs (erase x ys)
        (λ q. ground (arith, h q, h x, count-erase_self x ys, count-erase_ne q x ys)) in
    ground (arith, h x, rest, length-erase x ys)
