-- ===== src/Links/Edits.antt =====
-- Neighbours in a sequence that one number is taken out of or put into.
use ahura_rtos.Shared.{
  ℕ, ◌≡◌, ◌≢◌, refl, false, Option, none, some, List, [], ◌∷◌, arith, if◌then◌else◌, ◌==◌,
  points_to, count, erase, Bool-cases, inl, inr,
}
use ahura_rtos.Links.Order.{
  first, last, after, before, insert, Once, tail-Once, head_absent, last-count, after-absent,
  before-absent,
}

module _ (n : ℕ) where
  -- One taken away.
  pub first-erase :
      (l : List ℕ) → first (erase n l) ≡ (if points_to (first l) n then after l n else first l)
  first-erase [] = refl
  first-erase (x ∷ xs) = ground arith

  pub after-erase :
      (l : List ℕ) (q : ℕ)
      → n ≢ q
      → Once l
      → after (erase n l) q ≡ (if points_to (after l q) n then after l n else after l q)
  after-erase [] q ne once = refl
  after-erase (x ∷ xs) q ne once = elim (Bool-cases (x == n)) [
    | inl e ↦
        let away : (x == q) ≡ false = ground (arith, e) in
        let gone : points_to (after xs q) n ≡ false =
          after-absent n xs q (ground (arith, e, head_absent x xs once)) in
        rw (e, away, gone) refl
    | inr other ↦ elim (Bool-cases (x == q)) [
      | inl e ↦ rw (other, e) (first-erase xs)
      | inr away ↦ rw (other, away) (after-erase xs q ne (tail-Once x xs once))
    ]
  ]

  pub before-erase :
      (b : Option ℕ) (l : List ℕ) (q : ℕ)
      → n ≢ q
      → Once l
      → points_to b n ≡ false
      → before b (erase n l) q ≡ (if points_to (before b l q) n then before b l n else before b l q)
  before-erase b [] q ne once other = refl
  before-erase b (x ∷ []) q ne once other = ground (arith, ne, other)
  before-erase b (x ∷ y ∷ ys) q ne once other = elim (Bool-cases (x == n)) [
    | inl e ↦
        let away : (x == q) ≡ false = ground (arith, e) in
        let absent : count n (y ∷ ys) ≡ 0 = ground (arith, e, head_absent x (y ∷ ys) once) in
        elim (Bool-cases (y == q)) [
          | inl f ↦ rw (e, away, f, e) refl
          | inr f ↦
              let gone : points_to (before (some y) ys q) n ≡ false =
                before-absent n (some y) ys q (ground (arith, absent)) (ground (arith, absent)) in
              rw (e, away, f, gone) refl
        ]
    | inr f ↦
        let ih = before-erase (some x) (y ∷ ys) q ne (tail-Once x (y ∷ ys) once) f in
        elim (Bool-cases (x == q)) [ inl e ↦ rw (f, e, other) refl | inr e ↦ rw (f, e) ih ]
  ]

  pub last-erase :
      (b : Option ℕ) (l : List ℕ)
      → Once l
      → points_to b n ≡ false
      → last b (erase n l) ≡ (if points_to (last b l) n then before b l n else last b l)
  last-erase b [] once other = rw other refl
  last-erase b (x ∷ []) once other = ground (arith, other)
  last-erase b (x ∷ y ∷ ys) once other = elim (Bool-cases (x == n)) [
    | inl e ↦
        let far : points_to (last (some y) ys) n ≡ false =
          last-count y ys n (ground (arith, e, head_absent x (y ∷ ys) once)) in
        rw (e, far) refl
    | inr f ↦ rw f (last-erase (some x) (y ∷ ys) (tail-Once x (y ∷ ys) once) f)
  ]

  -- `n` put before a number of the sequence.
  module _ (position : ℕ) where
    pub first-insert :
        (l : List ℕ)
        → first (insert position n l) ≡ (if points_to (first l) position then some n else first l)
    first-insert [] = refl
    first-insert (x ∷ xs) = ground arith

    pub last-insert :
        (b : Option ℕ) (l : List ℕ) → count position l ≢ 0 → last b (insert position n l) ≡ last b l
    last-insert b [] inside = absurd (inside refl)
    last-insert b (x ∷ xs) inside = elim (Bool-cases (x == position)) [
      | inl e ↦ rw e refl
      | inr f ↦ rw f (last-insert (some x) xs (ground (arith, f, inside)))
    ]

    pub before-insert :
        (b : Option ℕ) (l : List ℕ) (q : ℕ)
        → count position l ≢ 0
        → count n l ≡ 0
        → before b (insert position n l) q ≡ (
            if position == q
            then some n
            else (if n == q then before b l position else before b l q))
    before-insert b [] q inside new = absurd (inside refl)
    before-insert b (x ∷ xs) q inside new = elim (Bool-cases (x == position)) [
      | inl e ↦ ground (arith, e, new)
      | inr f ↦
          let ih = before-insert (some x) xs q (ground (arith, f, inside)) (ground (arith, new)) in
          elim (Bool-cases (x == q)) [
            | inl e ↦
                let other : (position == q) ≡ false = ground (arith, e, f) in
                let old : (n == q) ≡ false = ground (arith, e, new) in rw (f, e, other, old) refl
            | inr e ↦ rw (f, e) ih
          ]
    ]

    pub after-insert :
        (l : List ℕ) (q : ℕ)
        → count position l ≢ 0
        → count n l ≡ 0
        → Once l
        → after (insert position n l) q ≡ (
            if points_to (before none l position) q
            then some n
            else (if n == q then some position else after l q))
    after-insert [] q inside new once = absurd (inside refl)
    after-insert (x ∷ []) q inside new once = ground (arith, inside, new)
    after-insert (x ∷ y ∷ ys) q inside new once =
        let later = tail-Once x (y ∷ ys) once in
        elim (Bool-cases (x == position)) [
          | inl e ↦ ground (arith, e)
          | inr f ↦ elim (Bool-cases (y == position)) [
            | inl g ↦ ground (arith, f, g, new)
            | inr g ↦ elim (Bool-cases (x == q)) [
              | inl e ↦
                  let far : points_to (before (some y) ys position) q ≡ false =
                    before-absent q (some y) ys position
                      (ground (arith, e, head_absent x (y ∷ ys) once))
                      (ground (arith, e, head_absent x (y ∷ ys) once)) in
                  let old : (n == q) ≡ false = ground (arith, e, new) in rw (f, g, e, far, old) refl
              | inr e ↦
                  let ih =
                    after-insert (y ∷ ys) q (ground (arith, f, inside)) (ground (arith, new))
                      later in
                  rw (f, e, g) (rw g at ih)
            ]
          ]
        ]

    pub count-insert :
        (l : List ℕ) (q : ℕ)
        → count position l ≢ 0
        → count q (insert position n l) ≡ count q (n ∷ l)
    count-insert [] q inside = absurd (inside refl)
    count-insert (x ∷ xs) q inside = ground (arith, inside, count-insert xs q)
