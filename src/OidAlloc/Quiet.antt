-- ===== src/OidAlloc/Quiet.antt =====
-- `fill_cache` while the second level has neither full bitsets nor loose OIDs enough to be scavenged: OIDs
-- come from the first level and from the bump allocator.
use preemptdb.Prelude.{
  ℕ, zero, suc, ◌+◌, ◌-◌, ◌/◌, ◌%◌, ◌^◌, ◌≤◌, ◌<◌, ◌≡◌, refl, ◌∙◌, inl, inr, true, false, not,
  Bool-cases, ◌==◌, ◌&&◌, ◌||◌, if◌then◌else◌, List, [], ◌∷◌, length, take, drop, ltb, leb, min,
  arith,
}
use preemptdb.OidAlloc.{Allocator, Local, l1_capacity, l2_valid, l3_valid}
use preemptdb.OidAlloc.Scan.{Lanes, reclaim_l2}
use preemptdb.OidAlloc.Fill.{fill_from_l1, bump, bump_one, scavenge, reclaim_l3}
use preemptdb.OidAlloc.Held.{one, count, l2_held, count-append, count-split}
use preemptdb.OidAlloc.Conserved.{l2_held-l1}
use preemptdb.OidAlloc.Free.{free_in, free}

-- There is no third level, the second need not be read, and OIDs have 32 bits.
pub record IsQuiet (a : Allocator) : Type 0 where
  pub no_full : (l2_valid a && not (a.l2_size == 0)) ≡ false
  pub few_loose : (not (l2_valid a) || ltb a.l2_loose_oids (l1_capacity / 2)) ≡ true
  pub no_l3 : l3_valid a ≡ false
  pub small : a.capacity_mark ≤ 2 ^ 32

-- How often an OID can still be taken: it is free, or was never taken.
abbrev pub available : ℕ → Local → ℕ
available y st = free y st + (if leb (st.0.hiwater_mark) (y % 2 ^ 32) then 1 else 0)

-- The same OIDs can be taken, and the state is still quiet.
abbrev pub Keeps : Local → Local → Type 0
Keeps st st' = ((y : ℕ) → available y st' ≡ available y st) × IsQuiet (st'.0)

pub quiet-scavenge : (mem : Lanes) (st : Local) → IsQuiet (st.0) → scavenge mem st ≡ st
unfolding scavenge reclaim_l2 reclaim_l3
quiet-scavenge mem (a, tc) quiet = rw quiet.few_loose (elim (Bool-cases (a.l3_loose_oids == 0)) [
  | inl none_loose ↦ rw none_loose refl
  | inr some_loose ↦ rw some_loose (rw quiet.no_l3 refl)
])

other_l1-free_in :
    (y : ℕ) (a : Allocator) (xs : List ℕ)
    → free_in y (record a { l1 = xs }) + count y a.l1 ≡ free_in y a + count y xs
unfolding free_in
other_l1-free_in y a xs = elim (Bool-cases (a.l2_first_unused == 0)) [
  | inl absent ↦ rw absent (omega arith)
  | inr there ↦ rw there (omega (arith, l2_held-l1 y a xs))
]

other_l1-IsQuiet : (a : Allocator) (xs : List ℕ) → IsQuiet a → IsQuiet (record a { l1 = xs })
unfolding l2_valid l3_valid
other_l1-IsQuiet a xs quiet = record {
  no_full = quiet.no_full;
  few_loose = quiet.few_loose;
  no_l3 = quiet.no_l3;
  small = quiet.small;
}

pub fill_from_l1-Keeps :
    (target : ℕ) (st : Local) → IsQuiet (st.0) → Keeps st ((fill_from_l1 target st).1)
unfolding fill_from_l1 free
fill_from_l1-Keeps target (a, tc) quiet =
    let base = length a.l1 - min target (length a.l1) in
    (
      λ y. omega (
        arith,
        count-append y tc (drop base a.l1),
        count-split y base a.l1,
        other_l1-free_in y a (take base a.l1),
      ),
      other_l1-IsQuiet a (take base a.l1) quiet,
    )

-- The high water mark is the one OID that is not above it any more.
next_oid :
    (h y : ℕ)
    → h < 2 ^ 32
    → one h y + (if leb (h + 1) (y % 2 ^ 32) then 1 else 0) ≡ (if leb h (y % 2 ^ 32) then 1 else 0)
next_oid h y low = ground arith

higher-free_in : (y h : ℕ) (a : Allocator) → free_in y (record a { hiwater_mark = h }) ≡ free_in y a
unfolding free_in l2_held
higher-free_in y h a = refl

bump_one-Keeps :
    (st : Local)
    → IsQuiet (st.0)
    → ltb (st.0.hiwater_mark) (st.0.capacity_mark) ≡ true
    → Keeps st (bump_one st)
unfolding bump_one free l2_valid l3_valid count
bump_one-Keeps (a, tc) quiet under =
    let h = a.hiwater_mark in
    let low : h < 2 ^ 32 = ground (arith, under, quiet.small) in
    (
      λ y. omega (arith, count-append y tc (h ∷ []), next_oid h y low, higher-free_in y (h + 1) a),
      record {
        no_full = quiet.no_full;
        few_loose = quiet.few_loose;
        no_l3 = quiet.no_l3;
        small = quiet.small;
      },
    )

pub bump-Keeps : (target : ℕ) (st : Local) → IsQuiet (st.0) → Keeps st ((bump target st).1)
unfolding bump
bump-Keeps zero st quiet = (λ y. refl, quiet)
bump-Keeps (suc target) st quiet =
    elim (Bool-cases (ltb (st.0.hiwater_mark) (st.0.capacity_mark))) [
      | inl under ↦
          let (same, quiet') = bump_one-Keeps st quiet under in
          let (same', quiet'') = bump-Keeps target (bump_one st) quiet' in
          rw under (λ y. same' y ∙ same y, quiet'')
      | inr reached ↦ rw reached (λ y. refl, quiet)
    ]
