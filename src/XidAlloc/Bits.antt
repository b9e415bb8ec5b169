-- ===== src/XidAlloc/Bits.antt =====
-- The bits of words, and contexts in a thread's word.
use preemptdb.Prelude.{
  ℕ, zero, suc, ◌+◌, ◌-◌, ◌≤◌, ◌<◌, ◌≡◌, ◌≢◌, sym, ap, ◌∙◌, inl, inr, Bool, true, false, ◌&&◌,
  Bool-cases, ltb, leb, ◌==◌, set_at, arith,
}
use preemptdb.XidAlloc.{Word, ContextData, has_bit, lowest}

pub no_bit : (n : ℕ) (w : Word) (k : ℕ) → has_bit n w ≡ false → k < n → w k ≡ false
unfolding has_bit
no_bit zero w k empty below = absurd (omega arith)
no_bit (suc n) w k empty below = elim (Bool-cases (k == n)) [
  | inl same ↦ let e : k ≡ n = ground arith in ap w e ∙ ground arith
  | inr other ↦ no_bit n w k (ground arith) (ground arith)
]

pub some_bit : (n : ℕ) (w : Word) → has_bit n w ≡ true → (k : ℕ) × (k < n) × (w k ≡ true)
unfolding has_bit
some_bit zero w some_set = cc
some_bit (suc n) w some_set = elim (Bool-cases (w n)) [
  | inl here ↦ (n, omega arith, here)
  | inr below ↦
      let (k, less, set) = some_bit n w (ground (arith, below)) in (k, omega (arith, less), set)
]

lowest_lem :
    (n k j : ℕ) (w : Word)
    → k ≤ j
    → j < k + n
    → w j ≡ true
    → (w (lowest n k w) ≡ true) × (lowest n k w < k + n)
unfolding lowest
lowest_lem zero k j w from below set = absurd (omega arith)
lowest_lem (suc n) k j w from below set = elim (Bool-cases (w k)) [
  | inl here ↦ rw here (here, omega arith)
  | inr empty ↦
      let past : k + 1 ≤ j = elim (Bool-cases (k == j)) [
        | inl same ↦
            let e : k ≡ j = ground arith in
            absurd (let both : true ≡ false = sym set ∙ (ap w (sym e) ∙ empty) in cc)
        | inr other ↦ ground arith
      ] in
      let (set', less) = lowest_lem n (k + 1) j w past (omega arith) set in
      rw empty (set', omega (arith, less))
]

-- The bit that `take_one` takes
pub taken_bit : (w : Word) → has_bit 64 w ≡ true → (w (lowest 64 0 w) ≡ true) × (lowest 64 0 w < 64)
taken_bit w some_set =
    let (k, less, set) = some_bit 64 w some_set in
    let (found, below) = lowest_lem 64 0 k w (omega arith) (omega (arith, less)) set in
    (found, omega (arith, below))

pub set_at-same {ℓ} : {A : Type ℓ} → (f : ℕ → A) (a : ℕ) (x : A) → set_at f a x a ≡ x
set_at-same f a x = ground arith

abbrev pub in_local : ContextData → ℕ → Bool
in_local c id = leb c.base_id id && (ltb id (c.base_id + 64) && c.bitmap (id - c.base_id))

pub in_word :
    (base id : ℕ) (w : Word)
    → (leb base id && (ltb id (base + 64) && w (id - base))) ≡ true
    → (base ≤ id) × (id < base + 64) × (w (id - base) ≡ true)
in_word base id w h = (ground arith, ground arith, ground arith)

pub set_at-other {ℓ} : {A : Type ℓ} → (f : ℕ → A) (a b : ℕ) (x : A) → b ≢ a → set_at f a x b ≡ f b
set_at-other f a b x apart = ground arith

pub is_equal : {a b : ℕ} → a ≡ b → (a == b) ≡ true
is_equal h = ground arith

pub and_true : {a b : Bool} → a ≡ true → b ≡ true → (a && b) ≡ true
and_true p q = ground arith

pub and_false : (a : Bool) {b : Bool} → b ≡ false → (a && b) ≡ false
and_false a q = ground arith

pub in_word_true :
    (base id : ℕ) (w : Word)
    → base ≤ id
    → id < base + 64
    → w (id - base) ≡ true
    → (leb base id && (ltb id (base + 64) && w (id - base))) ≡ true
in_word_true base id w lo hi set = ground arith
