-- ===== src/SizeEncode/Search.antt =====
-- The binary search of `encode_size_aligned` finds the least code that holds the size.
use native.Mathlib.Nat.{two-pow-succ, one-le-pow, div-le_self}
use native.Mathlib.Decide.{dec_lt}
use preemptdb.Prelude.{
  ℕ, zero, suc, ◌+◌, ◌-◌, ◌*◌, ◌/◌, ◌^◌, ◌≤◌, ◌<◌, ◌≡◌, refl, ap, inl, inr, some, arith, leb, ltb,
  Bool-cases,
}
use preemptdb.SizeEncode.{
  decode_size, search, max_encodable_size, invalid_size_code, Encoded, encoded, encode_size_aligned,
  decode_size_aligned,
}
use preemptdb.SizeEncode.Decode.{decode_size_lt, decode_size_top, units_lem, round_up}

-- `r` is the least code whose size is at least `x`.
pub record IsLeastCode (x r : ℕ) : Type 0 where
  pub byte : r < 256
  pub holds : x ≤ decode_size r
  pub least : (j : ℕ) → j < r → decode_size j < x

here :
    (x lo hi : ℕ)
    → hi ≤ lo
    → lo ≤ hi
    → hi < 256
    → x ≤ decode_size hi
    → ((j : ℕ) → j < lo → decode_size j < x)
    → IsLeastCode x lo
here x lo hi ge le byte top below = record {
  byte = omega arith;
  holds = let same : lo ≡ hi = omega arith in omega (arith, ap decode_size same);
  least = below;
}

not_above : (x mid j : ℕ) → mid < 255 → decode_size mid < x → j < mid + 1 → decode_size j < x
not_above x mid j byte high h = elim (dec_lt j mid) [
  | yes lt ↦ omega (arith, decode_size_lt j mid lt (omega arith))
  | no ge ↦ let same : j ≡ mid = omega arith in omega (arith, ap decode_size same)
]

pub search-IsLeastCode :
    (rounds x lo hi : ℕ)
    → lo ≤ hi
    → hi < 256
    → hi - lo < 2 ^ rounds
    → x ≤ decode_size hi
    → ((j : ℕ) → j < lo → decode_size j < x)
    → (r : ℕ) × (search rounds x lo hi ≡ some r) × IsLeastCode x r
unfolding search
search-IsLeastCode zero x lo hi le byte room top below =
    (lo, ground arith, here x lo hi (omega arith) le byte top below)
search-IsLeastCode (suc rounds) x lo hi le byte room top below = elim (Bool-cases (ltb lo hi)) [
  | inl more ↦ rw more (elim (Bool-cases (leb x (decode_size ((lo + hi) / 2)))) [
    | inl low ↦ rw low (
        search-IsLeastCode rounds x lo ((lo + hi) / 2) (omega arith) (omega arith)
          (ground (arith, two-pow-succ rounds)) (ground arith) below)
    | inr high ↦ rw high (
        search-IsLeastCode rounds x ((lo + hi) / 2 + 1) hi (ground arith) byte
          (ground (arith, two-pow-succ rounds)) top
          (λ j. not_above x ((lo + hi) / 2) j (ground arith) (ground arith)))
  ])
  | inr done ↦ rw done (lo, refl, here x lo hi (ground arith) le byte top below)
]

-- With eight rounds the search answers, and with the least code.
pub search_total : (x : ℕ) → x < 2 ^ 64 → (r : ℕ) × (search 8 x 0 0xff ≡ some r) × IsLeastCode x r
search_total x h =
    search-IsLeastCode 8 x 0 0xff (omega arith) (omega arith) (omega arith) (decode_size_top x h)
      (λ j lt. absurd (omega arith))

units_fit : (size p : ℕ) → 0 < p → size + p ≤ 2 ^ 64 → (size + p - 1) / p < 2 ^ 64
units_fit size p pos h = omega (arith, div-le_self (size + p - 1) p)

-- `x` units of `p` bytes, the fewest that hold `size`, against `d` units
at_least : (size p x d : ℕ) → size ≤ x * p → x ≤ d → size ≤ d * p
at_least size p x d h le = grind arith

too_few : (size p x d : ℕ) → x * p < size + p → d < x → d * p < size
too_few size p x d h lt = grind arith

-- As below, for any size that leaves room to round up in 64 bits; the code may be the invalid one.
pub encode_size_aligned_any :
    (size k m : ℕ)
    → m + k ≡ 64
    → k ≤ 30
    → size + 2 ^ k ≤ 2 ^ 64
    → (e : Encoded) × (encode_size_aligned size k ≡ some e)
      × (e.code < 256)
      × (size ≤ decode_size e.code * 2 ^ k)
      × ((j : ℕ) → j < e.code → decode_size j * 2 ^ k < size)
      × (e.size ≡ decode_size_aligned e.code k)
unfolding encode_size_aligned decode_size_aligned encoded
encode_size_aligned_any size k m whole small room =
    let p = 2 ^ k in
    let pos = one-le-pow k 2 (omega arith) in
    let x = (size + p - 1) / p in
    let rounded = round_up size p pos in
    let (r, found, least) = search_total x (units_fit size p pos room) in
    (
      encoded k r,
      rw (units_lem m k whole size room, found, encode_size_aligned) (ground (arith, small)),
      least.byte,
      at_least size p x (decode_size r) rounded.0 least.holds,
      (λ j lt. too_few size p x (decode_size j) rounded.1 (least.least j lt)),
      refl,
    )

below_invalid : decode_size 254 ≡ max_encodable_size
unfolding decode_size
below_invalid = refl

valid_code :
    (size k code : ℕ)
    → size ≤ max_encodable_size * 2 ^ k
    → ((j : ℕ) → j < code → decode_size j * 2 ^ k < size)
    → code < invalid_size_code
valid_code size k code most least = elim (dec_lt 254 code) [
  | yes above ↦
      let less = least 254 above in
      let same = ap (λ (d : ℕ). d * 2 ^ k) below_invalid in absurd (omega (arith, less, same, most))
  | no valid ↦ omega (arith, valid)
]

-- For an alignment of 2 ^ k bytes, k at most 30, and a size of at most the largest that can be encoded,
-- `MAX_ENCODABLE_SIZE` units, the function returns a code that is not the invalid one; the code holds the size, every
-- smaller code is too small, and the new `size` is what the code decodes to.
pub encode_size_aligned_least :
    (size k m : ℕ)
    → m + k ≡ 64
    → k ≤ 30
    → size + 2 ^ k ≤ 2 ^ 64
    → size ≤ max_encodable_size * 2 ^ k
    → (e : Encoded) × (encode_size_aligned size k ≡ some e)
      × (e.code < invalid_size_code)
      × (size ≤ decode_size e.code * 2 ^ k)
      × ((j : ℕ) → j < e.code → decode_size j * 2 ^ k < size)
      × (e.size ≡ decode_size_aligned e.code k)
encode_size_aligned_least size k m whole small room most =
    let (e, found, _, holds, least, same) = encode_size_aligned_any size k m whole small room in
    (e, found, valid_code size k e.code most least, holds, least, same)
