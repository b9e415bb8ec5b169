-- ===== src/OidAlloc/Bounds.antt =====
-- `fill_cache` of dbcore/sm-oid-alloc.cpp and the size of the cache.
use preemptdb.Prelude.{
  ℕ, zero, suc, ◌+◌, ◌-◌, ◌≤◌, ◌≡◌, ap, inl, inr, Bool, not, Bool-cases, Option, some, ◌==◌, ◌&&◌,
  ◌||◌, if◌then◌else◌, length, length-append, length-drop, drop, min, arith,
}
use preemptdb.OidAlloc.{Local, fill_target, bitset_capacity, cache_capacity, l2_valid}
use preemptdb.OidAlloc.Scan.{Lanes, scan_l2, fill_from_l2}
use preemptdb.OidAlloc.Fill.{
  Round, returns, drains_l1, goes_on, has_l1, returns_if_filled, fill_from_l1, part_l1, part_l2,
  part_bump, then_part, fill_round, next_round, fill_rounds, fill_cache, first_target, bump,
  worthwhile, scavenge,
}
use preemptdb.OidAlloc.Lengths.{scan-length, scavenge-cache, bump-length}

-- The entries of the cache, those still to come, and the excess of a bitset
abbrev spread : Round × Local → ℕ
spread (returns filled, st) = length (st.1)
spread (drains_l1 target, st) = length (st.1) + target + (bitset_capacity - 1)
spread (goes_on target, st) = length (st.1) + target + (bitset_capacity - 1)

abbrev Fits : (ℕ → Local → Round × Local) → Type 0
Fits part =
    (target : ℕ) (st : Local)
    → spread (part target st) ≤ length (st.1) + target + (bitset_capacity - 1)

filled-spread :
    (r : ℕ × Local) (bound : ℕ)
    → length (r.1.1) + r.0 ≤ bound + (if r.0 == 0 then bitset_capacity - 1 else 0)
    → spread (returns_if_filled r) ≤ bound + (bitset_capacity - 1)
unfolding returns_if_filled
filled-spread (left, st) bound fits = ground (arith, fits)

fill_from_l1-length :
    (target : ℕ) (st : Local)
    → length ((fill_from_l1 target st).1.1) + (fill_from_l1 target st).0 ≤ length (st.1) + target
unfolding fill_from_l1
fill_from_l1-length target (a, tc) =
    let base = length a.l1 - min target (length a.l1) in
    omega (arith, length-append tc (drop base a.l1), length-drop base a.l1)

part_l1-Fits : Fits part_l1
unfolding part_l1
part_l1-Fits target st =
    let fits = fill_from_l1-length target st in
    elim (Bool-cases (has_l1 (st.0))) [
      | inl some_there ↦
          rw some_there
            (filled-spread (fill_from_l1 target st) (length (st.1) + target) (omega (arith, fits)))
      | inr empty ↦ rw empty (omega arith)
    ]

fill_from_l2-length :
    (mem : Lanes) (target : ℕ) (st : Local)
    → length ((fill_from_l2 mem target st).1.1) + (fill_from_l2 mem target st).0
      ≤ length (st.1)
        + target
        + (if (fill_from_l2 mem target st).0 == 0 then bitset_capacity - 1 else 0)
unfolding fill_from_l2 scan_l2
fill_from_l2-length mem target st =
    let scanned = scan-length mem (st.0.l2_size) target st in
    elim (Bool-cases (not (l2_valid (st.0)) || (st.0.l2_size == 0))) [
      | inl none_full ↦ rw none_full (omega arith)
      | inr some_full ↦ rw some_full (ground (arith, scanned))
    ]

part_l2-Fits : (mem : Lanes) → Fits (part_l2 mem)
unfolding part_l2
part_l2-Fits mem target st =
    let fits = fill_from_l2-length mem target st in
    elim (Bool-cases (l2_valid (st.0) && not (st.0.l2_size == 0))) [
      | inl some_full ↦
          rw some_full (filled-spread (fill_from_l2 mem target st) (length (st.1) + target) fits)
      | inr none_full ↦ rw none_full (omega arith)
    ]

part_bump-Fits : (mem : Lanes) → Fits (part_bump mem)
unfolding part_bump
part_bump-Fits mem target st =
    let fits = bump-length target st in
    let bumped = (bump target st).1 in
    let same : length ((scavenge mem bumped).1) ≡ length (bumped.1) =
      ap length (scavenge-cache mem bumped) in
    elim (Bool-cases (worthwhile (bumped.0))) [
      | inl pays ↦ elim (Bool-cases (has_l1 ((scavenge mem bumped).0))) [
        | inl more ↦ rw pays (rw more (omega (arith, fits, same)))
        | inr empty ↦ rw pays (rw empty (omega (arith, fits, same)))
      ]
      | inr too_few ↦ rw too_few (omega (arith, fits))
    ]

then_part-spread :
    (r : Round × Local) (next : ℕ → Local → Round × Local)
    → Fits next
    → spread (then_part r next) ≤ spread r
unfolding then_part
then_part-spread (returns b, st) next fits = omega arith
then_part-spread (drains_l1 target, st) next fits = omega arith
then_part-spread (goes_on target, st) next fits = fits target st

fill_round-Fits : (mem : Lanes) → Fits (fill_round mem)
unfolding fill_round
fill_round-Fits mem target st = omega (
  arith,
  then_part-spread (then_part (part_l1 target st) (part_l2 mem)) (part_bump mem)
      (part_bump-Fits mem),
  then_part-spread (part_l1 target st) (part_l2 mem) (part_l2-Fits mem),
  part_l1-Fits target st,
)

next_round-length :
    (r : Round × Local) (next : ℕ → Local → Option (Bool × Local)) (result : Bool × Local)
    → ((target : ℕ) (st : Local)
        → next target st ≡ some result
        → length (result.1.1) ≤ length (st.1) + target + (bitset_capacity - 1))
    → next_round r next ≡ some result
    → length (result.1.1) ≤ spread r
unfolding next_round
next_round-length (returns filled, st) next result fits q =
    let same : st ≡ result.1 = ground (arith, q) in
    omega (arith, ap (λ (s : Local). length (s.1)) same)
next_round-length (drains_l1 target, st) next result fits q = fits target st q
next_round-length (goes_on target, st) next result fits q = ground (arith, q)

fill_rounds-length :
    (fuel : ℕ) (mem : Lanes) (target : ℕ) (st : Local) (result : Bool × Local)
    → fill_rounds fuel mem target st ≡ some result
    → length (result.1.1) ≤ length (st.1) + target + (bitset_capacity - 1)
unfolding fill_rounds
fill_rounds-length zero mem target st result q = ground (arith, q)
fill_rounds-length (suc fuel) mem target st result q =
    let fits = fill_round-Fits mem target st in
    omega (
      arith,
      fits,
      next_round-length (fill_round mem target st) (fill_rounds fuel mem) result
          (λ target' st' q'. fill_rounds-length fuel mem target' st' result q') q,
    )

-- A cache with room for a bitset, at least, is not overrun when it is filled.
pub fill_cache_fits :
    (mem : Lanes) (st : Local) (result : Bool × Local)
    → length (st.1) + bitset_capacity ≤ cache_capacity
    → fill_cache mem st ≡ some result
    → length (result.1.1) ≤ cache_capacity
unfolding fill_cache first_target
fill_cache_fits mem st result room q =
    let fits = fill_rounds-length (fill_target + 2) mem (first_target (st.1)) st result q in
    ground (arith, fits, room)
