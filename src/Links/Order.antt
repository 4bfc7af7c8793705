-- ===== src/Links/Order.antt =====
-- Neighbours in a sequence without repetitions.
use ahura_rtos.Shared.{
  ℕ, ◌≤◌, ◌≡◌, ◌≢◌, refl, false, Option, none, some, List, [], ◌∷◌, ◌++◌, arith, if◌then◌else◌,
  ◌==◌, points_to, is_null, count, Bool-cases, inl, inr,
}

abbrev pub first : List ℕ → Option ℕ
first [] = none
first (x ∷ xs) = some x

-- The last one, or `b` if there is none.
abbrev pub last : Option ℕ → List ℕ → Option ℕ
last b [] = b
last b (x ∷ xs) = last (some x) xs

-- What stands behind a number, and what stands before it; before the first stands `b`.
abbrev pub after : List ℕ → ℕ → Option ℕ
after [] q = none
after (x ∷ xs) q = if x == q then first xs else after xs q

abbrev pub before : Option ℕ → List ℕ → ℕ → Option ℕ
before b [] q = none
before b (x ∷ xs) q = if x == q then b else before (some x) xs q

abbrev pub insert : ℕ → ℕ → List ℕ → List ℕ
insert position node [] = []
insert position node (x ∷ xs) = if x == position then node ∷ x ∷ xs else x ∷ insert position node xs

abbrev pub Once : List ℕ → Type 0
Once l = (q : ℕ) → count q l ≤ 1

pub tail-Once : (x : ℕ) (xs : List ℕ) → Once (x ∷ xs) → Once xs
tail-Once x xs h q = ground (arith, h q)

pub head_absent : (x : ℕ) (xs : List ℕ) → Once (x ∷ xs) → count x xs ≡ 0
head_absent x xs h = ground (arith, h x)

-- A number put behind the others.
last-some : (x : ℕ) (xs : List ℕ) → is_null (last (some x) xs) ≡ false
last-some x [] = refl
last-some x (y ∷ ys) = last-some y ys

pub first-append :
    (l : List ℕ) (n : ℕ) → first (l ++ n ∷ []) ≡ (if is_null (last none l) then some n else first l)
first-append [] n = refl
first-append (x ∷ xs) n = rw (last-some x xs) refl

pub last-append : (b : Option ℕ) (l : List ℕ) (n : ℕ) → last b (l ++ n ∷ []) ≡ some n
last-append b [] n = refl
last-append b (x ∷ xs) n = last-append (some x) xs n

pub last-count :
    (x : ℕ) (xs : List ℕ) (q : ℕ) → count q (x ∷ xs) ≡ 0 → points_to (last (some x) xs) q ≡ false
last-count x [] q h = ground (arith, h)
last-count x (y ∷ ys) q h = last-count y ys q (ground (arith, h))

pub after-append :
    (l : List ℕ) (n q : ℕ)
    → count n l ≡ 0
    → Once l
    → after (l ++ n ∷ []) q
      ≡ (if points_to (last none l) q then some n else (if n == q then none else after l q))
after-append [] n q new once = ground arith
after-append (x ∷ []) n q new once = ground (arith, new)
after-append (x ∷ y ∷ ys) n q new once =
    let ih = after-append (y ∷ ys) n q (ground (arith, new)) (tail-Once x (y ∷ ys) once) in
    elim (Bool-cases (x == q)) [
      | inl e ↦
          let far : points_to (last (some y) ys) q ≡ false =
            last-count y ys q (ground (arith, e, head_absent x (y ∷ ys) once)) in
          let other : (n == q) ≡ false = ground (arith, e, new) in rw (e, far, other) refl
      | inr ne ↦ rw ne ih
    ]

pub before-append :
    (b : Option ℕ) (l : List ℕ) (n q : ℕ)
    → count n l ≡ 0
    → before b (l ++ n ∷ []) q ≡ (if n == q then last b l else before b l q)
before-append b [] n q new = ground arith
before-append b (x ∷ xs) n q new =
    ground (arith, before-append (some x) xs n q (ground (arith, new)), new)

-- The first one taken away.
pub last_tail :
    (x : ℕ) (xs : List ℕ) → (if is_null (first xs) then none else last (some x) xs) ≡ last none xs
last_tail x [] = refl
last_tail x (y ∷ ys) = refl

pub before_tail :
    (x : ℕ) (xs : List ℕ) (q : ℕ)
    → count q xs ≢ 0
    → Once (x ∷ xs)
    → before none xs q ≡ (if points_to (first xs) q then none else before none (x ∷ xs) q)
before_tail x [] q inside once = absurd (inside refl)
before_tail x (y ∷ ys) q inside once = ground (arith, head_absent x (y ∷ ys) once)

before-some :
    (x : ℕ) (xs : List ℕ) (q : ℕ) → count q xs ≢ 0 → is_null (before (some x) xs q) ≡ false
before-some x [] q inside = absurd (inside refl)
before-some x (y ∷ ys) q inside = elim (Bool-cases (y == q)) [
  | inl e ↦ rw e refl
  | inr ne ↦ rw ne (before-some y ys q (ground (arith, ne, inside)))
]

-- Who has nobody before it is the first, and who has nobody behind it is the last.
pub null-before :
    (l : List ℕ) (q : ℕ) → count q l ≢ 0 → is_null (before none l q) ≡ points_to (first l) q
null-before [] q inside = absurd (inside refl)
null-before (x ∷ xs) q inside = elim (Bool-cases (x == q)) [
  | inl e ↦ rw e refl
  | inr ne ↦ rw ne (before-some x xs q (ground (arith, ne, inside)))
]

pub null-after :
    (l : List ℕ) (q : ℕ) → count q l ≢ 0 → Once l → is_null (after l q) ≡ points_to (last none l) q
null-after [] q inside once = absurd (inside refl)
null-after (x ∷ []) q inside once = ground (arith, inside)
null-after (x ∷ y ∷ ys) q inside once = elim (Bool-cases (x == q)) [
  | inl e ↦
      let far : points_to (last (some y) ys) q ≡ false =
        last-count y ys q (ground (arith, e, head_absent x (y ∷ ys) once)) in
      rw (e, far) refl
  | inr ne ↦ rw ne (null-after (y ∷ ys) q (ground (arith, ne, inside)) (tail-Once x (y ∷ ys) once))
]

-- Nobody is its own neighbour.
pub before_self :
    (b : Option ℕ) (l : List ℕ) (q : ℕ) → points_to b q ≡ false → points_to (before b l q) q ≡ false
before_self b [] q other = refl
before_self b (x ∷ xs) q other = elim (Bool-cases (x == q)) [
  | inl e ↦ rw e other
  | inr ne ↦ rw ne (before_self (some x) xs q ne)
]

-- Neighbours are numbers of the sequence.
module _ (n : ℕ) where
  pub first-absent : (l : List ℕ) → count n l ≡ 0 → points_to (first l) n ≡ false
  first-absent [] h = refl
  first-absent (x ∷ xs) h = ground (arith, h)

  pub last-absent : (l : List ℕ) → count n l ≡ 0 → points_to (last none l) n ≡ false
  last-absent [] h = refl
  last-absent (x ∷ xs) h = last-count x xs n h

  pub after-absent : (l : List ℕ) (q : ℕ) → count n l ≡ 0 → points_to (after l q) n ≡ false
  after-absent [] q h = refl
  after-absent (x ∷ xs) q h = ground (arith, h, first-absent xs, after-absent xs q)

  pub before-absent :
      (b : Option ℕ) (l : List ℕ) (q : ℕ)
      → points_to b n ≡ false
      → count n l ≡ 0
      → points_to (before b l q) n ≡ false
  before-absent b [] q other h = refl
  before-absent b (x ∷ xs) q other h =
      let there : (x == n) ≡ false = ground (arith, h) in
      let rest = before-absent (some x) xs q there (ground (arith, h)) in
      elim (Bool-cases (x == q)) [ inl e ↦ rw e other | inr ne ↦ rw ne rest ]

-- One stands before another if that one stands behind it.
pub before-after :
    (l : List ℕ) (n q : ℕ)
    → n ≢ q
    → Once l
    → points_to (before none l n) q ≡ points_to (after l q) n
before-after [] n q ne once = refl
before-after (x ∷ []) n q ne once = ground arith
before-after (x ∷ y ∷ ys) n q ne once =
    let ih = before-after (y ∷ ys) n q ne (tail-Once x (y ∷ ys) once) in
    let gone = head_absent x (y ∷ ys) once in
    elim (Bool-cases (x == n)) [
      | inl e ↦
          let far : points_to (after (y ∷ ys) q) n ≡ false =
            after-absent n (y ∷ ys) q (ground (arith, e, gone)) in
          let away : (x == q) ≡ false = ground (arith, e, ne) in rw (e, away, far) refl
      | inr f ↦ elim (Bool-cases (x == q)) [
        | inl e ↦ elim (Bool-cases (y == n)) [
          | inl g ↦ rw (f, e, g, e) refl
          | inr g ↦
              let far : points_to (before (some y) ys n) q ≡ false =
                before-absent q (some y) ys n (ground (arith, e, gone)) (ground (arith, e, gone)) in
              rw (f, e, g, far) refl
        ]
        | inr e ↦ elim (Bool-cases (y == n)) [
          | inl g ↦ rw (f, e, g, e) (rw g at ih)
          | inr g ↦ rw (f, e, g) (rw g at ih)
        ]
      ]
    ]
