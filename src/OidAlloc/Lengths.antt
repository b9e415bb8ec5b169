-- ===== src/OidAlloc/Lengths.antt =====
-- How many entries the cache has after each part of `fill_cache`
use preemptdb.Prelude.{
  ℕ, zero, suc, ◌+◌, ◌-◌, ◌*◌, ◌/◌, ◌%◌, ◌^◌, ◌≤◌, ◌≡◌, refl, ◌∙◌, inl, inr, not, Bool-cases, ◌==◌,
  ◌&&◌, ◌||◌, if◌then◌else◌, List, [], ◌∷◌, length, length-append, ltb, arith,
}
use preemptdb.OidAlloc.{Local, bitset_capacity, l1_capacity, base_of, l2_valid, l2_capacity}
use preemptdb.OidAlloc.Scan.{
  Lanes, nop_filter, to_cache, to_l1, accept, scan_rounds, sink_all, all_entries, as_array,
  unassign, iterated, scavenge_l2_rounds, scavenge_l2, reclaim_l2,
}
use preemptdb.OidAlloc.Fill.{bump, bump_one, scavenge}
use preemptdb.OidAlloc.Ends.{scan_rounds_le}

sunk-length :
    (base : ℕ) (xs : List ℕ) (st : Local)
    → length ((sink_all to_cache base xs st).1) ≡ length (st.1) + length xs
unfolding sink_all to_cache
sunk-length base [] st = omega arith
sunk-length base (x ∷ xs) (a, tc) =
    omega
      (arith, sunk-length base xs (to_cache (base + x) (a, tc)), length-append tc ((base + x) ∷ []))

sunk-cache : (base : ℕ) (xs : List ℕ) (st : Local) → (sink_all to_l1 base xs st).1 ≡ st.1
unfolding sink_all to_l1
sunk-cache base [] st = refl
sunk-cache base (x ∷ xs) st = sunk-cache base xs (to_l1 (base + x) st)

entries-length : (n k : ℕ) (e : ℕ → ℕ) → length (all_entries n k e) ≡ n
unfolding all_entries
entries-length zero k e = refl
entries-length (suc n) k e = omega (arith, entries-length n (k + 1) e)

accept-length :
    (mem : Lanes) (x : ℕ) (st : Local)
    → length ((accept mem to_cache x st).1) ≡ length (st.1) + bitset_capacity
unfolding accept
accept-length mem x st =
    let e = as_array mem (st.0.l2_maps (x % 2 ^ 16)) in
    omega (
      arith,
      sunk-length (base_of x) (all_entries bitset_capacity 0 e) st,
      entries-length bitset_capacity 0 e,
    )

-- The last bitset may hold more than was asked for, by one less than its capacity.
pub scan-length :
    (mem : Lanes) (n target : ℕ) (st : Local)
    → length ((scan_rounds mem nop_filter to_cache n 0 target st).1.1)
        + (scan_rounds mem nop_filter to_cache n 0 target st).0
      ≤ length (st.1)
        + (if target == 0
            then 0
            else target
              + (if (scan_rounds mem nop_filter to_cache n 0 target st).0 == 0
                  then bitset_capacity - 1
                  else 0))
unfolding scan_rounds
scan-length mem zero target st = ground arith
scan-length mem (suc n) target st =
    let x = st.0.l2 (st.0.l2_size - 1) in
    let after = accept mem to_cache x st in
    let left = target - bitset_capacity in
    let rest = scan-length mem n left after in
    let less = scan_rounds_le mem to_cache n left after in
    let more = accept-length mem x st in
    elim (Bool-cases (not (target == 0) && ltb 0 (st.0.l2_size))) [
      | inl goes ↦ rw goes (ground (arith, rest, less, more, goes))
      | inr ends ↦ rw ends (ground (arith, ends))
    ]

-- `_scavenge_l2` leaves the cache alone.
unassign-cache : (mem : Lanes) (idx : ℕ) (st : Local) → (unassign mem to_l1 idx st).1.1 ≡ st.1
unfolding unassign
unassign-cache mem idx st =
    sunk-cache (idx * 2 ^ 16) (iterated (as_array mem (st.0.l2_maps (st.0.l2_assignments idx)))) st

scavenge_l2_rounds-cache :
    (mem : Lanes) (n i target : ℕ) (st : Local)
    → (scavenge_l2_rounds mem nop_filter to_l1 n i target st).1.1.1 ≡ st.1
unfolding scavenge_l2_rounds
scavenge_l2_rounds-cache mem zero i target st = refl
scavenge_l2_rounds-cache mem (suc n) i target st =
    let idx = (st.0.l2_scan_hand + i) % 2 ^ 16 in
    let (found, after) = unassign mem to_l1 idx st in
    elim (Bool-cases (target == 0)) [
      | inl met ↦ rw (met, scavenge_l2_rounds) refl
      | inr short ↦ elim (Bool-cases (st.0.l2_assignments idx == 0)) [
        | inl none_there ↦
            rw (short, scavenge_l2_rounds)
              (rw none_there (scavenge_l2_rounds-cache mem n (i + 1) (target - 0) st))
        | inr real ↦
            rw (short, scavenge_l2_rounds)
              (rw real (
                scavenge_l2_rounds-cache mem n (i + 1) (target - found) after
                ∙ unassign-cache mem idx st))
      ]
    ]

reclaim_l2-cache : (mem : Lanes) (target : ℕ) (st : Local) → (reclaim_l2 mem target st).1.1 ≡ st.1
unfolding reclaim_l2 scavenge_l2
reclaim_l2-cache mem target st =
    elim (Bool-cases (not (l2_valid (st.0)) || ltb (st.0.l2_loose_oids) target)) [
      | inl too_few ↦ rw too_few refl
      | inr enough ↦ rw enough (scavenge_l2_rounds-cache mem l2_capacity 0 target st)
    ]

pub scavenge-cache : (mem : Lanes) (st : Local) → (scavenge mem st).1 ≡ st.1
unfolding scavenge
scavenge-cache mem st =
    let left = (reclaim_l2 mem (l1_capacity / 2) st).0 in
    let a = (reclaim_l2 mem (l1_capacity / 2) st).1.0 in
    elim (Bool-cases ((left == 0) || (a.l3_loose_oids == 0))) [
      | inl met ↦ rw met (reclaim_l2-cache mem (l1_capacity / 2) st)
      | inr short ↦ rw short (reclaim_l2-cache mem (l1_capacity / 2) st)
    ]

pub bump-length :
    (target : ℕ) (st : Local)
    → length ((bump target st).1.1) + (bump target st).0 ≡ length (st.1) + target
unfolding bump bump_one
bump-length zero st = refl
bump-length (suc target) st =
    let rest = bump-length target (bump_one st) in
    let one_more = length-append (st.1) (st.0.hiwater_mark ∷ []) in
    elim (Bool-cases (ltb (st.0.hiwater_mark) (st.0.capacity_mark))) [
      | inl under ↦ rw under (omega (arith, rest, one_more))
      | inr reached ↦ rw reached refl
    ]
