-- ===== src/SizeEncode.antt =====
-- dbcore/size-encode.cpp and the alignment helpers of dbcore/sm-defs.h: sizes in one byte.
-- `size_t` is a number below 2 ^ 64, a `uint8_t` one below 256.
pub mod Decode
pub mod Search
use preemptdb.Prelude.{
  ℕ, zero, suc, ◌+◌, ◌-◌, ◌*◌, ◌/◌, ◌%◌, ◌^◌, bit_and, Bool, Option, none, some, ltb, leb, ◌==◌,
  if◌then◌else◌,
}

abbrev pub size_mod : ℕ
size_mod = 2 ^ 64

abbrev pub invalid_size_code : ℕ
invalid_size_code = 0xff

abbrev pub max_encodable_size : ℕ
max_encodable_size = 950272

-- `val & -amount`: the negated `int` is widened to `size_t`.
unfoldable pub align_down : ℕ → ℕ → ℕ
align_down val amount = bit_and val (size_mod - amount)

unfoldable pub align_up : ℕ → ℕ → ℕ
unfolding align_down
align_up val amount = align_down ((val + amount - 1) % size_mod) amount

-- `B(e)`, an entry of `decode_table`
decode_table : ℕ → ℕ
decode_table e = 16 - 15 / 2 ^ e

pub decode_size_helper : ℕ → ℕ
unfolding decode_table
decode_size_helper code = (code % 16 + decode_table (code / 16)) * 2 ^ (code / 16)

-- The argument of the helper is cut to a byte, and an `int8_t` is widened with its sign.
unfoldable pub decode_size : ℕ → ℕ
unfolding decode_size_helper
decode_size code =
    if bit_and (code + 1) 0xf0 == 0
    then if ltb code 128 then code else size_mod - (256 - code)
    else decode_size_helper ((code + 0xff) % 256)

unfoldable pub decode_size_aligned : ℕ → ℕ → ℕ
unfolding decode_size
decode_size_aligned code align_bits = decode_size code * 2 ^ align_bits % size_mod

-- The loop of `encode_size_aligned`, with the rounds that it may take; `none` when they run out.
pub search : ℕ → ℕ → ℕ → ℕ → Option ℕ
search zero x lo hi = if ltb lo hi then none else some lo
search (suc rounds) x lo hi =
    let mid = (lo + hi) / 2 in
    let next =
      search rounds x (if leb x (decode_size mid) then lo else mid + 1)
        (if leb x (decode_size mid) then mid else hi) in
    if ltb lo hi then next else some lo

-- `2 ^ 8` exceeds the first range, so eight rounds are enough.
abbrev rounds : ℕ
rounds = 8

-- The units of `2 ^ align_bits` bytes that hold `size` bytes, where `align_bits` is at most 30, so that
-- `1 << align_bits` is a positive `int`
unfoldable pub units : ℕ → ℕ → ℕ
unfolding align_up
units size align_bits = align_up size (2 ^ align_bits) / 2 ^ align_bits

pub record Encoded : Type 0 where
  pub code : ℕ
  pub size : ℕ

pub encoded : ℕ → ℕ → Encoded
encoded align_bits lo = record { code = lo; size = decode_size lo * 2 ^ align_bits % size_mod }

-- The new value of the reference parameter `size` is the second field. `1 << align_bits` is an `int`:
-- there is no result where it overflows.
unfoldable pub encode_size_aligned : ℕ → ℕ → Option Encoded
encode_size_aligned size align_bits = elim (search rounds (units size align_bits) 0 0xff) [
  | none ↦ none
  | some lo ↦ if leb align_bits 30 then some (encoded align_bits lo) else none
]
