-- ===== src/SparseBitset/Contents.antt =====
-- A bitset as a set of numbers.
use preemptdb.Prelude.{
  ℕ, zero, suc, ◌<◌, ◌≡◌, ◌≢◌, refl, sym, ap, ◌∙◌, Bool, true, false, ◌||◌, Bool-cases, inl, inr,
  ◌==◌, set_at, arith,
}
use mathlib.Core.Path.{subst}
use preemptdb.SparseBitset.{
  SparseBitset, init1, rotate, already_full, insert_first, insert_second, insert, has, contains,
}

or_assoc : (a b c : Bool) → (a || (b || c)) ≡ (b || (a || c))
or_assoc a b c = ground arith

-- The first lane taken off
has_front : (n : ℕ) (e : ℕ → ℕ) (j : ℕ) → has (suc n) e j ≡ ((e 0 == j) || has n (λ k. e (suc k)) j)
unfolding has
has_front zero e j = refl
has_front (suc n) e j =
    ap (λ b. (e (suc n) == j) || b) (has_front n e j)
    ∙ or_assoc (e (suc n) == j) (e 0 == j) (has n (λ k. e (suc k)) j)

has_same : (n : ℕ) (e f : ℕ → ℕ) (j : ℕ) → ((k : ℕ) → k < n → e k ≡ f k) → has n e j ≡ has n f j
unfolding has
has_same zero e f j same = refl
has_same (suc n) e f j same =
    ap (λ x. (x == j) || has n e j) (same n (omega arith))
    ∙ ap (λ b. (f n == j) || b) (has_same n e f j (λ k below. same k (omega arith)))

has_last : (e : ℕ → ℕ) (j : ℕ) → e 7 ≡ 0 → j ≢ 0 → has 8 e j ≡ has 7 e j
unfolding has
has_last e j empty real = let no : (e 7 == j) ≡ false = ground arith in rw no refl

rotated :
    (e : ℕ → ℕ) (i j : ℕ)
    → e 7 ≡ 0
    → j ≢ 0
    → has 8 (set_at (rotate e) 0 i) j ≡ ((i == j) || has 8 e j)
unfolding rotate
rotated e i j empty real =
    has_front 7 (set_at (rotate e) 0 i) j
    ∙ ap (λ b. (i == j) || b)
        (has_same 7 (λ k. set_at (rotate e) 0 i (suc k)) e j (λ k below. ground arith)
          ∙ sym (has_last e j empty real))

-- Zero keeps the first lane.
rotated_behind :
    (e : ℕ → ℕ) (i j : ℕ)
    → e 0 ≡ 0
    → e 7 ≡ 0
    → j ≢ 0
    → has 8 (set_at (rotate e) 1 i) j ≡ ((i == j) || has 8 e j)
unfolding rotate has
rotated_behind e i j zero_first empty real =
    let f = set_at (rotate e) 1 i in
    let tail : ℕ → ℕ = λ k. e (suc k) in
    let no : (0 == j) ≡ false = ground arith in
    let front : has 8 f j ≡ ((i == j) || has 6 tail j) =
      has_front 7 f j
      ∙ (ap (λ x. (x == j) || has 7 (λ k. f (suc k)) j) empty
          ∙ (ap (λ b. b || has 7 (λ k. f (suc k)) j) no
              ∙ (has_front 6 (λ k. f (suc k)) j
                  ∙ ap (λ b. (i == j) || b)
                      (has_same 6 (λ k. f (suc (suc k))) tail j (λ k below. ground arith))))) in
    let back : has 8 e j ≡ has 6 tail j =
      has_last e j empty real
      ∙ (has_front 6 e j
          ∙ (ap (λ x. (x == j) || has 6 tail j) zero_first ∙ ap (λ b. b || has 6 tail j) no)) in
    front ∙ ap (λ b. (i == j) || b) (sym back)

-- A lane that is cleared
cleared : (e : ℕ → ℕ) (j : ℕ) → j ≢ 0 → has 8 e j ≡ ((e 0 == j) || has 8 (set_at e 0 0) j)
unfolding has
cleared e j real =
    let no : (0 == j) ≡ false = ground arith in
    has_front 7 e j
    ∙ ap (λ b. (e 0 == j) || b)
        (sym (
          has_front 7 (set_at e 0 0) j
          ∙ (ap (λ b. b || has 7 (λ k. set_at e 0 0 (suc k)) j) no
              ∙ has_same 7 (λ k. set_at e 0 0 (suc k)) (λ k. e (suc k)) j
                  (λ k below. ground arith))))

contains_other :
    (s : SparseBitset) (j : ℕ) → j ≢ 0 → contains s j ≡ (has 8 s.first j || has 8 s.second j)
unfolding contains
contains_other s j real = let no : (j == 0) ≡ false = ground arith in rw no refl

join_first : (a b c d : Bool) → a ≡ (b || c) → (a || d) ≡ (b || (c || d))
join_first a b c d q = ground arith

join_second : (a b c d : Bool) → a ≡ (b || c) → (d || a) ≡ (b || (d || c))
join_second a b c d q = ground arith

at_zero : (j : ℕ) (P : ℕ → Type 0) → j ≡ 0 → P 0 → P j
at_zero j P null here = subst P (sym null) here

insert_first-zero :
    (s : SparseBitset) (i : ℕ)
    → s.first 7 ≡ 0
    → contains (insert_first s i) 0 ≡ ((i == 0) || contains s 0)
unfolding contains insert_first rotate
insert_first-zero s i room = elim (Bool-cases (s.first 0 == 0)) [
  | inl has_zero ↦ ground (arith, has_zero)
  | inr no_zero ↦ ground (arith, no_zero)
]

insert_first-contains :
    (s : SparseBitset) (i j : ℕ)
    → s.first 7 ≡ 0
    → contains (insert_first s i) j ≡ ((i == j) || contains s j)
unfolding insert_first
insert_first-contains s i j room = elim (Bool-cases (s.first 0 == 0)) [
  | inl has_zero ↦ elim (Bool-cases (j == 0)) [
    | inl null ↦
        at_zero j (λ x. contains (insert_first s i) x ≡ ((i == x) || contains s x)) (ground arith)
          (insert_first-zero s i room)
    | inr real ↦
        let real' : j ≢ 0 = λ e. ground arith in
        rw has_zero (
          contains_other (record s { first = set_at (rotate s.first) 1 i }) j real'
          ∙ (join_first (has 8 (set_at (rotate s.first) 1 i) j) (i == j) (has 8 s.first j)
                (has 8 s.second j) (rotated_behind s.first i j (ground arith) room real')
              ∙ ap (λ b. (i == j) || b) (sym (contains_other s j real'))))
  ]
  | inr no_zero ↦ elim (Bool-cases (j == 0)) [
    | inl null ↦
        at_zero j (λ x. contains (insert_first s i) x ≡ ((i == x) || contains s x)) (ground arith)
          (insert_first-zero s i room)
    | inr real ↦
        let real' : j ≢ 0 = λ e. ground arith in
        rw no_zero (
          contains_other (record s { first = set_at (rotate s.first) 0 i }) j real'
          ∙ (join_first (has 8 (set_at (rotate s.first) 0 i) j) (i == j) (has 8 s.first j)
                (has 8 s.second j) (rotated s.first i j room real')
              ∙ ap (λ b. (i == j) || b) (sym (contains_other s j real'))))
  ]
]

zero_first : (s : SparseBitset) → contains s 0 ≡ (s.first 0 == 0)
unfolding contains
zero_first s = refl

moved : (a b v c d : Bool) → c ≡ (v || a) → b ≡ (v || d) → (a || b) ≡ (c || d)
moved a b v c d q r = ground arith

-- Zero goes to the first lane, and the number from there to the second half.
insert_zero-contains :
    (s : SparseBitset) (j : ℕ)
    → s.second 7 ≡ 0
    → s.first 0 ≢ 0
    → contains
        (record { first = set_at s.first 0 0; second = set_at (rotate s.second) 0 (s.first 0) })
        j
      ≡ ((0 == j) || contains s j)
insert_zero-contains s j room none_there =
    let s' : SparseBitset = record {
      first = set_at s.first 0 0;
      second = set_at (rotate s.second) 0 (s.first 0);
    } in
    elim (Bool-cases (j == 0)) [
      | inl null ↦
          at_zero j (λ x. contains s' x ≡ ((0 == x) || contains s x)) (ground arith) (zero_first s')
      | inr real ↦
          let real' : j ≢ 0 = λ e. ground arith in
          let no : (0 == j) ≡ false = ground arith in
          contains_other s' j real'
          ∙ (moved (has 8 (set_at s.first 0 0) j) (has 8 (set_at (rotate s.second) 0 (s.first 0)) j)
                (s.first 0 == j) (has 8 s.first j) (has 8 s.second j) (cleared s.first j real')
                (rotated s.second (s.first 0) j room real')
              ∙ sym (ap (λ b. b || contains s j) no ∙ contains_other s j real'))
    ]

insert_other-contains :
    (s : SparseBitset) (i j : ℕ)
    → s.second 7 ≡ 0
    → i ≢ 0
    → contains (record s { second = set_at (rotate s.second) 0 i }) j ≡ ((i == j) || contains s j)
unfolding contains
insert_other-contains s i j room real = elim (Bool-cases (j == 0)) [
  | inl null ↦ let no : (i == j) ≡ false = ground arith in rw no (rw null refl)
  | inr other ↦
      let real' : j ≢ 0 = λ e. ground arith in
      rw other (
        join_second (has 8 (set_at (rotate s.second) 0 i) j) (i == j) (has 8 s.second j)
          (has 8 s.first j) (rotated s.second i j room real'))
]

insert_zero :
    (s : SparseBitset) (j : ℕ)
    → (s.first 7 == 0) ≡ false
    → (s.second 7 == 0) ≡ true
    → contains s 0 ≡ false
    → contains ((insert s 0).0) j ≡ ((0 == j) || contains s j)
unfolding insert insert_second
insert_zero s j half_full not_full new =
    let none_there : s.first 0 ≢ 0 = λ e. ground (arith, zero_first s) in
    rw half_full (rw not_full (insert_zero-contains s j (ground arith) none_there))

-- A number that is inserted, and was not in the set, is in it afterwards, and all others are as they were, unless
-- the set was full.
pub insert-contains :
    (s : SparseBitset) (i j : ℕ)
    → contains s i ≡ false
    → (insert s i).1 ≢ already_full
    → contains ((insert s i).0) j ≡ ((i == j) || contains s j)
unfolding insert insert_second
insert-contains s i j new room = elim (Bool-cases (s.first 7 == 0)) [
  | inl half_empty ↦ rw half_empty (insert_first-contains s i j (ground arith))
  | inr half_full ↦ elim (Bool-cases (s.second 7 == 0)) [
    | inl not_full ↦ elim (Bool-cases (i == 0)) [
      | inl null ↦
          at_zero i
            (λ x. contains s x ≡ false → contains ((insert s x).0) j ≡ ((x == j) || contains s j))
            (ground arith) (insert_zero s j half_full not_full) new
      | inr real ↦
          rw half_full
            (rw not_full (rw real (insert_other-contains s i j (ground arith) (λ e. ground arith))))
    ]
    | inr full ↦ absurd (room (rw half_full (rw full refl)))
  ]
]

-- A bitset that was just made has the number that it was made of, and no other.
pub init1-contains : (i j : ℕ) → contains (init1 i) j ≡ (i == j)
unfolding init1 contains has
init1-contains i j = elim (Bool-cases (j == 0)) [
  | inl null ↦ ground (arith, null)
  | inr other ↦ ground (arith, other)
]
