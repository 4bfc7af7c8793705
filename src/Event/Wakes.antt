-- ===== src/Event/Wakes.antt =====
-- os_event_set_bits wakes the waiters whose condition holds, and clears the bits that they take.
use ahura_rtos.Shared.{
  ℕ, zero, suc, ◌-◌, ◌/◌, ◌%◌, ◌^◌, ◌<◌, ◌≡◌, refl, ap, ◌∙◌, subst, fun_ext, Bool, true, false, not,
  ◌&&◌, ◌||◌, List, [], ◌∷◌, arith, if◌then◌else◌, ltb, ◌==◌, count, Bool-cases, inl, inr,
}
use Prim.Native.Nat.{bit_and, bit_or, min, max}
use ahura_rtos.Shared.Bits.{
  digit, digit-lt, digit-bit_and, digit-bit_or, digit-complement, bit_or-lt, bit_and_lowest,
  bit_and-zero,
}
use ahura_rtos.Task.State.{Config, Cpu}
use ahura_rtos.Task.Consistent.{IsConsistent, nobody}
use ahura_rtos.Task.Consistent.Matches.{Delivered, contexts, wake_match-Delivered}
use ahura_rtos.Task.Consistent.Wakes.{wake_match-IsConsistent}
use ahura_rtos.Blocking.{World}
use ahura_rtos.Event.Defs.{Event, MatchContext, wait_all_flag, complement, waiter_match, set_bits}
use ahura_rtos.Event.Conditions.{all_set, any_set, all_set-bit_and, any_set-bit_and}

-- The two low bits of a waiter's second word.
abbrev pub waits_all : ℕ → Bool
waits_all data1 = data1 % 2 == 1

abbrev pub clears : ℕ → Bool
clears data1 = data1 / 2 % 2 == 1

-- Whether the flags are what a waiter with these words waits for.
abbrev pub wanted : ℕ → ℕ → ℕ → Bool
wanted flags data0 data1 =
    if waits_all data1 then all_set 32 flags data0 else any_set 32 flags data0

-- Whether one of these waiters takes a bit with it.
abbrev pub taken : ℕ → (ℕ → ℕ) → (ℕ → ℕ) → List ℕ → ℕ → Bool
taken flags data0 data1 [] i = false
taken flags data0 data1 (r ∷ rs) i =
    wanted flags (data0 r) (data1 r) && (clears (data1 r) && digit (data0 r) i == 1)
    || taken flags data0 data1 rs i

all_flag : (b : ℕ) → not (bit_and b 1 == 0) ≡ waits_all b
all_flag b = ground (arith, bit_and_lowest b 1, bit_and-zero (b / 2))

clear_flag : (b : ℕ) → not (bit_and b 2 == 0) ≡ clears b
clear_flag b =
    ground (arith, bit_and_lowest b 2, bit_and_lowest (b / 2) 1, bit_and-zero (b / 2 / 2))

-- As the code tests it.
abbrev tested : ℕ → ℕ → ℕ → Bool
tested flags data0 data1 =
    if not (bit_and data1 wait_all_flag == 0)
    then bit_and flags data0 == data0
    else not (bit_and flags data0 == 0)

tested-wanted : (flags a b : ℕ) → a < 2 ^ 32 → tested flags a b ≡ wanted flags a b
tested-wanted flags a b word =
    rw (all_flag b, all_set-bit_and 32 flags a word, any_set-bit_and 32 flags a word) refl

-- A context that is as it should be has seen the flags.
abbrev Sees : ℕ → MatchContext → Type 0
Sees flags x = x.flags_snapshot ≡ flags

module _ (flags : ℕ) where
  answers :
      (a b : ℕ) (x : MatchContext)
      → Sees flags x
      → (waiter_match a b x).satisfied ≡ tested flags a b
  unfolding waiter_match
  answers a b x same = rw same refl

  delivers :
      (a b : ℕ) (x : MatchContext)
      → Sees flags x
      → tested flags a b ≡ true
      → (waiter_match a b x).result ≡ bit_and flags a
  unfolding waiter_match
  delivers a b x same fit = rw (same, fit) refl

  goes_on : (a b : ℕ) (x : MatchContext) → Sees flags x → Sees flags (waiter_match a b x).context
  unfolding waiter_match
  goes_on a b x same = ground (arith, same)

higher : (u v : ℕ) → u < 2 → v < 2 → max u v ≡ (if v == 1 then 1 else u)
higher u v small small' = ground arith

digit-taken : (i x a : ℕ) → digit (bit_or x a) i ≡ (if digit a i == 1 then 1 else digit x i)
digit-taken i x a =
    digit-bit_or i x a ∙ higher (digit x i) (digit a i) (digit-lt i x) (digit-lt i a)

lower : (u v : ℕ) → u < 2 → v < 2 → min u (1 - v) ≡ (if v == 1 then 0 else u)
lower u v small small' = ground arith

pub digit-cleared :
    (i flags x : ℕ)
    → i < 32
    → x < 2 ^ 32
    → digit (bit_and flags (complement x)) i ≡ (if digit x i == 1 then 0 else digit flags i)
digit-cleared i flags x inside small =
    digit-bit_and i flags (complement x)
    ∙ (ap (min (digit flags i)) (digit-complement 32 i x inside small)
        ∙ lower (digit flags i) (digit x i) (digit-lt i flags) (digit-lt i x))

digit-zero : (i : ℕ) → digit 0 i ≡ 0
unfolding digit
digit-zero zero = refl
digit-zero (suc i) = digit-zero i

cleared_if :
    (t : Bool) (n : ℕ) → (if (if t then 1 else 0) == 1 then 0 else n) ≡ (if t then 0 else n)
cleared_if true n = refl
cleared_if false n = refl

module _ (flags : ℕ) (i : ℕ) where
  -- The bits that are to be cleared, behind one waiter and behind all.
  accumulates :
      (a b : ℕ) (x : MatchContext)
      → a < 2 ^ 32
      → Sees flags x
      → x.clear_accum < 2 ^ 32
      → (let y = (waiter_match a b x).context in
          (y.clear_accum < 2 ^ 32)
          × (digit y.clear_accum i ≡ (
              if wanted flags a b && (clears b && digit a i == 1)
              then 1
              else digit x.clear_accum i)))
  unfolding waiter_match
  accumulates a b x word same small =
      rw (same, tested-wanted flags a b word, clear_flag b)
        (elim (Bool-cases (wanted flags a b)) [
          | inl fit ↦ elim (Bool-cases (clears b)) [
            | inl takes ↦
                rw (fit, takes)
                  (bit_or-lt 32 x.clear_accum a small word, digit-taken i x.clear_accum a)
            | inr leaves ↦ rw (fit, leaves) (small, refl)
          ]
          | inr unfit ↦ rw unfit (small, refl)
        ])

  module _ (data0 data1 : ℕ → ℕ) (word : (q : ℕ) → data0 q < 2 ^ 32) where
    accumulated :
        (rs : List ℕ) (x : MatchContext)
        → Sees flags x
        → x.clear_accum < 2 ^ 32
        → (let x' = contexts waiter_match data0 data1 rs x in
            (x'.clear_accum < 2 ^ 32)
            × (digit x'.clear_accum i
                ≡ (if taken flags data0 data1 rs i then 1 else digit x.clear_accum i)))
    accumulated [] x same small = (small, refl)
    accumulated (r ∷ rs) x same small =
        let y = (waiter_match (data0 r) (data1 r) x).context in
        let (small', one) = accumulates (data0 r) (data1 r) x (word r) same small in
        let (bound, rest) = accumulated rs y (goes_on flags (data0 r) (data1 r) x same) small' in
        (bound, ground (arith, rest, one))

module _ (k : Config) (c : Cpu) where
  -- In a consistent state, with words of 32 bits: os_event_set_bits wakes exactly the waiters whose
  -- condition, for all or for any of their bits, holds of the old flags and the new bits together,
  -- signals them, and delivers the bits that matched; it leaves those flags set that no waiter who asked for it
  -- takes with it, and the lists consistent.
  pub set_bits-Delivered :
      (bits : ℕ) (w : World Event)
      → IsConsistent k nobody w.sched
      → w.object.flags < 2 ^ 32
      → bits < 2 ^ 32
      → ((q : ℕ) → w.sched.wait_data0 q < 2 ^ 32)
      → (let s = w.sched in
          let rs = s.waiters w.object.waiters in
          let flags = bit_or w.object.flags bits in
          let w' = (set_bits k c bits w).1 in
          IsConsistent k nobody w'.sched
          × (Delivered w.object.waiters
                (λ q. ltb 0 (count q rs) && wanted flags (s.wait_data0 q) (s.wait_data1 q))
                (λ q. bit_and flags (s.wait_data0 q))
                s
                w'.sched
              × ((i : ℕ)
                  → i < 32
                  → digit w'.object.flags i
                    ≡ (if taken flags s.wait_data0 s.wait_data1 rs i then 0 else digit flags i))))
  unfolding set_bits
  set_bits-Delivered bits w h small new words =
      let s = w.sched in
      let rs = s.waiters w.object.waiters in
      let flags = bit_or w.object.flags bits in
      let x : MatchContext = record { flags_snapshot = flags; clear_accum = 0 } in
      let w' = (set_bits k c bits w).1 in
      let (given, seen) =
        wake_match-Delivered k c waiter_match w.object.waiters (tested flags)
          (λ a b. bit_and flags a) (Sees flags) (answers flags) (delivers flags) (goes_on flags) x s
          h refl in
      (
        wake_match-IsConsistent k c waiter_match w.object.waiters x s h,
        (
          subst (λ p. Delivered w.object.waiters p (λ q. bit_and flags (s.wait_data0 q)) s w'.sched)
              (fun_ext λ q.
                ap (λ b. ltb 0 (count q rs) && b)
                  (tested-wanted flags (s.wait_data0 q) (s.wait_data1 q) (words q)))
              given,
          λ i inside.
              let (bound, behind) =
                accumulated flags i s.wait_data0 s.wait_data1 words rs x refl (omega arith) in
              ap (λ y. digit (bit_and flags (complement y.clear_accum)) i) seen
              ∙ (digit-cleared i flags
                    (contexts waiter_match s.wait_data0 s.wait_data1 rs x).clear_accum inside bound
                  ∙ rw (behind, digit-zero i)
                      (cleared_if (taken flags s.wait_data0 s.wait_data1 rs i) (digit flags i))),
        ),
      )
