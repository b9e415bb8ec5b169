-- ===== src/Prelude/Bits.antt =====
-- Masks and shifts at variables: `& (2 ^ k - 1)` is a remainder, and `|` of disjoint fields a sum.
use Prim.Native.Nat.{
  ℕ, zero, suc, ◌+◌, ◌-◌, ◌*◌, ◌/◌, ◌%◌, ◌^◌, ◌≤◌, ◌<◌, min, max, bit_and, bit_or, digits,
  bit_and-bitwise, bit_or-bitwise,
}
use mathlib.Core.Path.{◌≡◌, refl, sym, ap, ◌∙◌}
use native.Mathlib.Omega.{arith}
use native.Mathlib.Nat.{two-pow-succ, one-le-pow, pow-succ', div-div-eq-div-mul, div-add-mod}

-- Both operations are `digits` of a function on two bits; any fuel from `a` on gives one result.
module _ (rest : ℕ → ℕ) (bit : ℕ → ℕ → ℕ) where
  digits_enough : (m n a b : ℕ) → a ≤ m → a ≤ n → digits rest bit m a b ≡ digits rest bit n a b
  digits_enough zero zero a b p q = refl
  digits_enough zero (suc n) zero b p q = refl
  digits_enough zero (suc n) (suc a) b p q = absurd (omega arith)
  digits_enough (suc m) zero zero b p q = refl
  digits_enough (suc m) (suc n) zero b p q = refl
  digits_enough (suc m) zero (suc a) b p q = absurd (omega arith)
  digits_enough (suc m) (suc n) (suc a) b p q =
      ap (λ (t : ℕ). t * 2 + bit (suc a % 2) (b % 2))
        (digits_enough m n (suc a / 2) (b / 2) (omega arith) (omega arith))

pub zero-bit_and : (b : ℕ) → bit_and 0 b ≡ 0
zero-bit_and b = bit_and-bitwise 0 b

pub bit_and_halves : (a b : ℕ) → bit_and a b ≡ 2 * bit_and (a / 2) (b / 2) + min (a % 2) (b % 2)
bit_and_halves zero b = omega (arith, zero-bit_and b, zero-bit_and (b / 2))
bit_and_halves (suc a) b =
    let enough =
      digits_enough (λ _. zero) min a (suc a / 2) (suc a / 2) (b / 2) (omega arith) (omega arith) in
    omega (arith, bit_and-bitwise (suc a) b, bit_and-bitwise (suc a / 2) (b / 2), enough)

pub zero-bit_or : (b : ℕ) → bit_or 0 b ≡ b
zero-bit_or b = bit_or-bitwise 0 b

pub bit_or_halves : (a b : ℕ) → bit_or a b ≡ 2 * bit_or (a / 2) (b / 2) + max (a % 2) (b % 2)
bit_or_halves zero b = omega (arith, zero-bit_or b, zero-bit_or (b / 2))
bit_or_halves (suc a) b =
    let enough =
      digits_enough (λ x. x) max a (suc a / 2) (suc a / 2) (b / 2) (omega arith) (omega arith) in
    omega (arith, bit_or-bitwise (suc a) b, bit_or-bitwise (suc a / 2) (b / 2), enough)

-- A second argument of no bits, by the number of bits of the first
zero_of : (a : ℕ) → a < 2 ^ 0 → a ≡ 0
zero_of a h = omega arith

halved : (bits a : ℕ) → a < 2 ^ suc bits → a / 2 < 2 ^ bits
halved bits a h = omega (arith, two-pow-succ bits)

no_bits : (bits a : ℕ) → a < 2 ^ bits → (bit_and a 0 ≡ 0) × (bit_or a 0 ≡ a)
no_bits zero a h = rw (zero_of a h) (zero-bit_and 0, zero-bit_or 0)
no_bits (suc bits) a h =
    let (and_half, or_half) = no_bits bits (a / 2) (halved bits a h) in
    (omega (arith, bit_and_halves a 0, and_half), omega (arith, bit_or_halves a 0, or_half))

lt_pow : (a : ℕ) → a < 2 ^ a
lt_pow zero = omega arith
lt_pow (suc a) = omega (arith, lt_pow a, two-pow-succ a)

pub bit_and-zero : (a : ℕ) → bit_and a 0 ≡ 0
bit_and-zero a = (no_bits a a (lt_pow a)).0

pub bit_or-zero : (a : ℕ) → bit_or a 0 ≡ a
bit_or-zero a = (no_bits a a (lt_pow a)).1

mul_double : (a k : ℕ) → a * 2 ^ suc k ≡ 2 * (a * 2 ^ k)
mul_double a k = omega (arith, ap (λ (t : ℕ). a * t) (two-pow-succ k))

-- A field shifted past `b`, joined with `b`.
pub bit_or_disjoint : (k a b : ℕ) → b < 2 ^ k → bit_or (a * 2 ^ k) b ≡ a * 2 ^ k + b
bit_or_disjoint zero a b h = ground (arith, bit_or-zero a)
bit_or_disjoint (suc k) a b h =
    let ih = bit_or_disjoint k a (b / 2) (omega (arith, two-pow-succ k)) in
    let half : a * 2 ^ suc k / 2 ≡ a * 2 ^ k = omega (arith, mul_double a k) in
    omega (
      arith,
      bit_or_halves (a * 2 ^ suc k) b,
      mul_double a k,
      ih,
      ap (λ (t : ℕ). bit_or t (b / 2)) half,
    )

div_double : (a k : ℕ) → a / 2 ^ suc k ≡ a / 2 / 2 ^ k
div_double a k = ap (λ (t : ℕ). a / t) (pow-succ' 2 k) ∙ sym (div-div-eq-div-mul a 2 (2 ^ k))

mod_double : (a k : ℕ) → a % 2 ^ suc k ≡ 2 * (a / 2 % 2 ^ k) + a % 2
mod_double a k = omega (
  arith,
  div-add-mod a (2 ^ suc k),
  div-add-mod (a / 2) (2 ^ k),
  div_double a k,
  ap (λ (t : ℕ). t * (a / 2 / 2 ^ k)) (two-pow-succ k),
  ap (λ (t : ℕ). 2 ^ suc k * t) (div_double a k),
)

-- A mask of `k` ones is the remainder by `2 ^ k`.
pub bit_and_mask : (k a : ℕ) → bit_and a (2 ^ k - 1) ≡ a % 2 ^ k
bit_and_mask zero a = omega (arith, bit_and-zero a)
bit_and_mask (suc k) a =
    let half : (2 ^ suc k - 1) / 2 ≡ 2 ^ k - 1 = omega (arith, two-pow-succ k) in
    omega (
      arith,
      bit_and_halves a (2 ^ suc k - 1),
      ap (bit_and (a / 2)) half,
      bit_and_mask k (a / 2),
      mod_double a k,
      two-pow-succ k,
      one-le-pow k 2 (omega arith),
    )

-- A mask shifted up by `k` reads the bits from `k` on.
pub bit_and_shift : (k a m : ℕ) → bit_and a (m * 2 ^ k) ≡ bit_and (a / 2 ^ k) m * 2 ^ k
bit_and_shift zero a m = ground arith
bit_and_shift (suc k) a m =
    let half : m * 2 ^ suc k / 2 ≡ m * 2 ^ k = omega (arith, mul_double m k) in
    let ih = bit_and_shift k (a / 2) m in
    omega (
      arith,
      bit_and_halves a (m * 2 ^ suc k),
      mul_double m k,
      ap (bit_and (a / 2)) half,
      ih,
      ap (λ (t : ℕ). bit_and t m * 2 ^ k) (div_double a k),
      mul_double (bit_and (a / 2 ^ suc k) m) k,
    )

pub bit_or_shift : (k a m : ℕ) → bit_or a (m * 2 ^ k) ≡ bit_or (a / 2 ^ k) m * 2 ^ k + a % 2 ^ k
bit_or_shift zero a m = ground arith
bit_or_shift (suc k) a m =
    let half : m * 2 ^ suc k / 2 ≡ m * 2 ^ k = omega (arith, mul_double m k) in
    omega (
      arith,
      bit_or_halves a (m * 2 ^ suc k),
      mul_double m k,
      ap (bit_or (a / 2)) half,
      bit_or_shift k (a / 2) m,
      mod_double a k,
      ap (λ (t : ℕ). bit_or t m * 2 ^ k) (div_double a k),
      mul_double (bit_or (a / 2 ^ suc k) m) k,
    )

-- Setting the lowest `k` bits
pub bit_or_ones : (k a : ℕ) → bit_or a (2 ^ k - 1) ≡ a / 2 ^ k * 2 ^ k + (2 ^ k - 1)
bit_or_ones zero a = ground (arith, bit_or-zero a)
bit_or_ones (suc k) a =
    let half : (2 ^ suc k - 1) / 2 ≡ 2 ^ k - 1 = omega (arith, two-pow-succ k) in
    omega (
      arith,
      bit_or_halves a (2 ^ suc k - 1),
      ap (bit_or (a / 2)) half,
      bit_or_ones k (a / 2),
      ap (λ (t : ℕ). t * 2 ^ k) (div_double a k),
      mul_double (a / 2 ^ suc k) k,
      two-pow-succ k,
      one-le-pow k 2 (omega arith),
    )
