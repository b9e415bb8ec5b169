-- ===== src/SizeEncode/Decode.antt =====
-- What `decode_size` does over the 256 codes, and what the alignment helpers compute.
use native.Mathlib.Nat.{
  one-le-pow, two-pow-succ, mod-eq_of_lt, mul-div_cancel, div-lt_iff_lt-mul, suc-mul, div-add-mod',
  mod-lt, add-zero,
}
use preemptdb.Prelude.{
  ℕ, zero, suc, ◌+◌, ◌-◌, ◌*◌, ◌/◌, ◌^◌, ◌≤◌, ◌<◌, ◌≡◌, refl, sym, ap, ◌∙◌, ◌⊎◌, inl, inr, true,
  arith, bit_and, ltb, ltb→lt, holds_under, holds_at,
}
use preemptdb.Prelude.Bits.{bit_and_shift, bit_and_mask}
use preemptdb.SizeEncode.{decode_size, align_down, align_up, units}

decode_rises : holds_under (λ c. ltb (decode_size c) (decode_size (c + 1))) 255 ≡ true
unfolding holds_under decode_size
decode_rises = refl

decode_step : (c : ℕ) → c < 255 → decode_size c < decode_size (c + 1)
decode_step c h = ltb→lt _ _ (holds_at _ 255 c h decode_rises)

split_lt : (a b : ℕ) → a < suc b → (a < b) ⊎ (a ≡ b)
split_lt a b h = grind arith

decode_size_lt_below : (a b : ℕ) → a < b → b < 256 → decode_size a < decode_size b
decode_size_lt_below a zero h k = absurd (omega arith)
decode_size_lt_below a (suc b) h k =
    let next : decode_size b < decode_size (suc b) =
      omega (arith, decode_step b (omega arith), ap decode_size (succ_eq b)) in
    elim (split_lt a b h) [
      | inl lt ↦ omega (arith, decode_size_lt_below a b lt (omega arith))
      | inr e ↦ omega (arith, ap decode_size e)
    ]
  where
    succ_eq : (n : ℕ) → n + 1 ≡ suc n
    succ_eq n = omega arith

-- The codes compare as the sizes that they stand for: a smaller code is a smaller size.
pub decode_size_lt : (a b : ℕ) → a < b → b < 256 → decode_size a < decode_size b
decode_size_lt a b h k = decode_size_lt_below a b h k

pub decode_size_top : (x : ℕ) → x < 2 ^ 64 → x ≤ decode_size 255
unfolding decode_size
decode_size_top x h = omega arith

pow_split : (m k : ℕ) → 2 ^ (m + k) ≡ 2 ^ m * 2 ^ k
pow_split m zero = ground (arith, add-zero m)
pow_split m (suc k) =
    let next : m + suc k ≡ suc (m + k) = omega arith in
    omega (
      arith,
      ap (λ (t : ℕ). 2 ^ t) next,
      two-pow-succ (m + k),
      two-pow-succ k,
      pow_split m k,
      ap (λ (t : ℕ). 2 ^ m * t) (two-pow-succ k),
    )

sub_one_mul : (p q : ℕ) → (p - 1) * q ≡ p * q - q
sub_one_mul zero q = omega arith
sub_one_mul (suc p) q =
    let back : suc p - 1 ≡ p = omega arith in omega (arith, ap (λ (t : ℕ). t * q) back, suc-mul p q)

-- The multiple of `p` that a rounded-up division gives
pub round_up :
    (size p : ℕ) → 0 < p → (size ≤ (size + p - 1) / p * p) × ((size + p - 1) / p * p < size + p)
round_up size p pos = omega (arith, div-add-mod' (size + p - 1) p, mod-lt (size + p - 1) pos)

module _ (m k : ℕ) (whole : m + k ≡ 64) where
  two_pows : 2 ^ m * 2 ^ k ≡ 2 ^ 64
  two_pows = sym (pow_split m k) ∙ ap (λ (t : ℕ). 2 ^ t) whole

  high_mask : 2 ^ 64 - 2 ^ k ≡ (2 ^ m - 1) * 2 ^ k
  high_mask = omega (arith, two_pows, sub_one_mul (2 ^ m) (2 ^ k))

  below_high : (x : ℕ) → x < 2 ^ 64 → x / 2 ^ k < 2 ^ m
  below_high x h = (div-lt_iff_lt-mul (one-le-pow k 2 (omega arith))).1 (omega (arith, two_pows))

  pub align_down_lem : (x : ℕ) → x < 2 ^ 64 → align_down x (2 ^ k) ≡ x / 2 ^ k * 2 ^ k
  unfolding align_down
  align_down_lem x h =
      ap (bit_and x) high_mask
      ∙ bit_and_shift k x (2 ^ m - 1)
      ∙ ap (λ (t : ℕ). t * 2 ^ k) (bit_and_mask m (x / 2 ^ k) ∙ mod-eq_of_lt (below_high x h))

  pub align_up_lem :
      (size : ℕ)
      → size + 2 ^ k ≤ 2 ^ 64
      → align_up size (2 ^ k) ≡ (size + 2 ^ k - 1) / 2 ^ k * 2 ^ k
  unfolding align_up
  align_up_lem size h =
      let pos = one-le-pow k 2 (omega arith) in
      let fits : size + 2 ^ k - 1 < 2 ^ 64 = omega arith in
      ap (λ (t : ℕ). align_down t (2 ^ k)) (mod-eq_of_lt fits)
      ∙ align_down_lem (size + 2 ^ k - 1) fits

  -- Up to the next multiple of the alignment, and no further
  pub align_up_bounds :
      (size : ℕ)
      → size + 2 ^ k ≤ 2 ^ 64
      → (size ≤ align_up size (2 ^ k)) × (align_up size (2 ^ k) < size + 2 ^ k)
  align_up_bounds size h =
      rw (align_up_lem size h) (round_up size (2 ^ k) (one-le-pow k 2 (omega arith)))

  pub units_lem : (size : ℕ) → size + 2 ^ k ≤ 2 ^ 64 → units size k ≡ (size + 2 ^ k - 1) / 2 ^ k
  unfolding units
  units_lem size h =
      ap (λ (t : ℕ). t / 2 ^ k) (align_up_lem size h)
      ∙ mul-div_cancel ((size + 2 ^ k - 1) / 2 ^ k) (one-le-pow k 2 (omega arith))
