-- ===== src/Shared/Bits.antt =====
-- The operators `|` and `&` on unsigned words, digit by digit.
use Prim.Native.Nat.{
  ℕ, zero, suc, ◌+◌, ◌-◌, ◌*◌, ◌/◌, ◌%◌, ◌^◌, ◌≤◌, ◌<◌, min, max, digits, bit_and, bit_or,
  bit_and-bitwise, bit_or-bitwise,
}
use mathlib.Core.Path.{◌≡◌, refl, sym, ap, ◌∙◌}
use native.Mathlib.Omega.{arith}
use native.Mathlib.Nat.{pow-suc}

-- One binary digit, the lowest being number 0.
unfoldable pub digit : ℕ → ℕ → ℕ
digit a zero = a % 2
digit a (suc i) = digit (a / 2) i

-- An operator on two words, given by one on two digits and by its result for a first word of no
-- digits, does with the lowest digits what it does with all others.
module _ (blank : ℕ → ℕ) (op : ℕ → ℕ → ℕ)
    (carries_on : (y : ℕ) → blank y ≡ blank (y / 2) * 2 + op 0 (y % 2)) where
  any_steps :
      (few many x y : ℕ) → x ≤ few → few ≤ many → digits blank op few x y ≡ digits blank op many x y
  any_steps zero zero x y low more = refl
  any_steps zero (suc many) zero y low more = refl
  any_steps few many zero y low more = none_left few ∙ sym (none_left many)
    where
      none_left : (steps : ℕ) → digits blank op steps 0 y ≡ blank y
      none_left zero = refl
      none_left (suc steps) = refl
  any_steps zero many (suc x) y low more = absurd (omega arith)
  any_steps (suc few) zero (suc x) y low more = absurd (omega arith)
  any_steps (suc few) (suc many) (suc x) y low more =
      ap (λ rest. rest * 2 + op (suc x % 2) (y % 2))
        (any_steps few many (suc x / 2) (y / 2) (omega arith) (omega arith))

  lowest :
      (x y : ℕ)
      → digits blank op x x y ≡ digits blank op (x / 2) (x / 2) (y / 2) * 2 + op (x % 2) (y % 2)
  lowest zero y = carries_on y
  lowest (suc x) y =
      ap (λ rest. rest * 2 + op (suc x % 2) (y % 2))
        (sym (any_steps (suc x / 2) x (suc x / 2) (y / 2) (omega arith) (omega arith)))

pub zero-bit_and : (y : ℕ) → bit_and 0 y ≡ 0
zero-bit_and y = bit_and-bitwise 0 y

pub zero-bit_or : (y : ℕ) → bit_or 0 y ≡ y
zero-bit_or y = bit_or-bitwise 0 y

pub bit_and_lowest : (x y : ℕ) → bit_and x y ≡ bit_and (x / 2) (y / 2) * 2 + min (x % 2) (y % 2)
bit_and_lowest x y =
    bit_and-bitwise x y
    ∙ (lowest (λ t. 0) min (λ t. omega arith) x y
        ∙ ap (λ rest. rest * 2 + min (x % 2) (y % 2)) (sym (bit_and-bitwise (x / 2) (y / 2))))

pub bit_or_lowest : (x y : ℕ) → bit_or x y ≡ bit_or (x / 2) (y / 2) * 2 + max (x % 2) (y % 2)
bit_or_lowest x y =
    bit_or-bitwise x y
    ∙ (lowest (λ t. t) max (λ t. omega arith) x y
        ∙ ap (λ rest. rest * 2 + max (x % 2) (y % 2)) (sym (bit_or-bitwise (x / 2) (y / 2))))

bit_or-zero_within : (n a : ℕ) → a ≤ n → bit_or a 0 ≡ a
bit_or-zero_within n zero h = zero-bit_or 0
bit_or-zero_within zero (suc a) h = absurd (omega arith)
bit_or-zero_within (suc n) (suc a) h =
    omega (arith, bit_or_lowest (suc a) 0, bit_or-zero_within n (suc a / 2) (omega arith))

pub bit_or-zero : (a : ℕ) → bit_or a 0 ≡ a
bit_or-zero a = bit_or-zero_within a a (omega arith)

nothing_shared : (steps x : ℕ) → x ≤ steps → bit_and x 0 ≡ 0
nothing_shared steps zero low = zero-bit_and 0
nothing_shared zero (suc x) low = absurd (omega arith)
nothing_shared (suc steps) (suc x) low =
    omega (arith, nothing_shared steps (suc x / 2) (omega arith), bit_and_lowest (suc x) 0)

pub bit_and-zero : (x : ℕ) → bit_and x 0 ≡ 0
bit_and-zero x = nothing_shared x x (omega arith)

pub bit_or-lt : (w x y : ℕ) → x < 2 ^ w → y < 2 ^ w → bit_or x y < 2 ^ w
bit_or-lt zero x y small small' =
    let none_set : x ≡ 0 = omega arith in
    let none_set' : y ≡ 0 = omega arith in rw (none_set, none_set') (omega arith)
bit_or-lt (suc w) x y small small' = omega (
  arith,
  bit_or_lowest x y,
  pow-suc 2 w,
  bit_or-lt w (x / 2) (y / 2) (omega (arith, pow-suc 2 w)) (omega (arith, pow-suc 2 w)),
)

-- The complement of a word.
pub digit-complement : (w i x : ℕ) → i < w → x < 2 ^ w → digit (2 ^ w - 1 - x) i ≡ 1 - digit x i
unfolding digit
digit-complement zero i x inside small = absurd (omega arith)
digit-complement (suc w) zero x inside small = omega (arith, pow-suc 2 w)
digit-complement (suc w) (suc i) x inside small =
    let half : (2 ^ suc w - 1 - x) / 2 ≡ 2 ^ w - 1 - x / 2 = omega (arith, pow-suc 2 w) in
    rw half (digit-complement w i (x / 2) (omega arith) (omega (arith, pow-suc 2 w)))

-- Digits of the results.
pub digit-bit_and : (i a b : ℕ) → digit (bit_and a b) i ≡ min (digit a i) (digit b i)
unfolding digit
digit-bit_and zero a b = omega (arith, bit_and_lowest a b)
digit-bit_and (suc i) a b =
    let e : bit_and a b / 2 ≡ bit_and (a / 2) (b / 2) = omega (arith, bit_and_lowest a b) in
    rw e (digit-bit_and i (a / 2) (b / 2))

pub digit-bit_or : (i a b : ℕ) → digit (bit_or a b) i ≡ max (digit a i) (digit b i)
unfolding digit
digit-bit_or zero a b = omega (arith, bit_or_lowest a b)
digit-bit_or (suc i) a b =
    let e : bit_or a b / 2 ≡ bit_or (a / 2) (b / 2) = omega (arith, bit_or_lowest a b) in
    rw e (digit-bit_or i (a / 2) (b / 2))

-- Words with the same digits.
pub eq_of_digits :
    (w a b : ℕ) → a < 2 ^ w → b < 2 ^ w → ((i : ℕ) → i < w → digit a i ≡ digit b i) → a ≡ b
unfolding digit
eq_of_digits zero a b p q h = omega arith
eq_of_digits (suc w) a b p q h =
    let half =
      eq_of_digits w (a / 2) (b / 2) (omega (arith, pow-suc 2 w)) (omega (arith, pow-suc 2 w))
        (λ i low. h (suc i) (omega arith)) in
    omega (arith, half, h 0 (omega arith))

pub digit-lt : (i a : ℕ) → digit a i < 2
unfolding digit
digit-lt zero a = omega arith
digit-lt (suc i) a = digit-lt i (a / 2)

-- A low part and a high part together.
pub bit_or_parts : (w low high : ℕ) → low < 2 ^ w → bit_or low (high * 2 ^ w) ≡ low + high * 2 ^ w
bit_or_parts zero low high h =
    let e : low ≡ 0 = omega arith in rw (e, zero-bit_or (high * 1)) (omega arith)
bit_or_parts (suc w) low high h =
    let p : high * 2 ^ suc w ≡ 2 * (high * 2 ^ w) =
      omega (arith, ap (λ t. high * t) (pow-suc 2 w)) in
    let half : high * 2 ^ suc w / 2 ≡ high * 2 ^ w = omega (arith, p) in
    omega (
      arith,
      p,
      bit_or_lowest low (high * 2 ^ suc w),
      bit_or_parts w (low / 2) high (omega (arith, pow-suc 2 w)),
      ap (bit_or (low / 2)) half,
    )
