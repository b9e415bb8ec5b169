-- ===== src/FatPtr/Fields.antt =====
-- The fields of a word as remainders and quotients.
use preemptdb.Prelude.{ℕ, ◌+◌, ◌-◌, ◌*◌, ◌/◌, ◌%◌, ◌^◌, ◌<◌, ◌≡◌, bit_or, arith}
use preemptdb.Prelude.Bits.{bit_and_mask, bit_and_shift, bit_or_disjoint}
use preemptdb.FatPtr.{asi, asi_type, asi_segment, size_code}

-- Bits below a field that ends at bit `k`
pub bit_or_below : (k n q b : ℕ) → n ≡ q * 2 ^ k → b < 2 ^ k → bit_or n b ≡ n + b
bit_or_below k n q b e h = rw e (bit_or_disjoint k q b h)

pub size_code_lem : (ptr : ℕ) → size_code ptr ≡ ptr % 256
unfolding size_code
size_code_lem ptr = bit_and_mask 8 ptr

asi_lem : (ptr : ℕ) → asi ptr ≡ ptr / 256 % 128
unfolding asi
asi_lem ptr = bit_and_mask 7 (ptr / 256)

pub asi_segment_lem : (ptr : ℕ) → asi_segment ptr ≡ ptr / 256 % 16
unfolding asi_segment
asi_segment_lem ptr = omega (arith, bit_and_mask 4 (asi ptr), asi_lem ptr)

pub asi_type_lem : (ptr : ℕ) → asi_type ptr ≡ ptr / 4096 % 8 * 16
unfolding asi_type
asi_type_lem ptr =
    omega
      (arith, bit_and_shift 4 (asi ptr) (2 ^ 60 - 1), bit_and_mask 60 (asi ptr / 16), asi_lem ptr)
