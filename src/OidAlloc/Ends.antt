-- ===== src/OidAlloc/Ends.antt =====
-- The jumps of `fill_cache` of dbcore/sm-oid-alloc.cpp back to its label `drain_l1`.
use preemptdb.Prelude.{
  ℕ, zero, suc, ◌+◌, ◌-◌, ◌≤◌, ◌<◌, ◌≡◌, refl, inl, inr, Bool, true, false, not, Bool-cases, Option,
  some, ◌==◌, ◌&&◌, ◌||◌, if◌then◌else◌, ltb, arith,
}
use preemptdb.OidAlloc.{Local, fill_target, bitset_capacity, l2_valid}
use preemptdb.OidAlloc.Scan.{
  Lanes, Sink, nop_filter, to_cache, accept, scan_rounds, scan_l2, fill_from_l2,
}
use preemptdb.OidAlloc.Fill.{
  Round, returns, drains_l1, goes_on, has_l1, returns_if_filled, fill_from_l1, part_l1, part_l2,
  part_bump, then_part, fill_round, next_round, fill_rounds, fill_cache, first_target, bump,
  bump_one, worthwhile, scavenge,
}

-- How much fuel a round leaves to be needed
abbrev needs : Round → ℕ
needs (returns filled) = 0
needs (drains_l1 target) = suc target
needs (goes_on target) = suc target

abbrev loops : Round → Bool
loops (drains_l1 target) = true
loops _ = false

-- A whole round returns, or goes back with something on the first level.
data Settled : Round × Local → Type 0 where
  ended : {filled : Bool} {st : Local} → Settled (returns filled, st)
  again : {target : ℕ} {st : Local} → has_l1 (st.0) ≡ true → Settled (drains_l1 target, st)

bump_le : (target : ℕ) (st : Local) → (bump target st).0 ≤ target
unfolding bump
bump_le zero st = omega arith
bump_le (suc target) st =
    let rest = bump_le target (bump_one st) in
    elim (Bool-cases (ltb (st.0.hiwater_mark) (st.0.capacity_mark))) [
      | inl under ↦ rw under (omega (arith, rest))
      | inr reached ↦ rw reached (omega arith)
    ]

pub scan_rounds_le :
    (mem : Lanes) (s : Sink) (n target : ℕ) (st : Local)
    → (scan_rounds mem nop_filter s n 0 target st).0 ≤ target
unfolding scan_rounds
scan_rounds_le mem s zero target st = omega arith
scan_rounds_le mem s (suc n) target st =
    let after = accept mem s (st.0.l2 (st.0.l2_size - 1)) st in
    let rest = scan_rounds_le mem s n (target - bitset_capacity) after in
    elim (Bool-cases (not (target == 0) && ltb 0 (st.0.l2_size))) [
      | inl goes ↦ rw goes (omega (arith, rest))
      | inr ends ↦ rw ends (omega arith)
    ]

fill_from_l2_le : (mem : Lanes) (target : ℕ) (st : Local) → (fill_from_l2 mem target st).0 ≤ target
unfolding fill_from_l2 scan_l2
fill_from_l2_le mem target st = elim (Bool-cases (not (l2_valid (st.0)) || (st.0.l2_size == 0))) [
  | inl none_full ↦ rw none_full (omega arith)
  | inr some_full ↦ rw some_full (scan_rounds_le mem to_cache (st.0.l2_size) target st)
]

filled-needs : (r : ℕ × Local) → needs ((returns_if_filled r).0) ≤ suc (r.0)
unfolding returns_if_filled
filled-needs (left, st) = ground arith

part_l1-needs :
    (target : ℕ) (st : Local)
    → needs ((part_l1 target st).0) ≤ (if has_l1 (st.0) then target else suc target)
unfolding part_l1 returns_if_filled fill_from_l1 has_l1
part_l1-needs target (a, tc) = ground arith

part_l2-needs :
    (mem : Lanes) (target : ℕ) (st : Local) → needs ((part_l2 mem target st).0) ≤ suc target
unfolding part_l2
part_l2-needs mem target st =
    let filled = filled-needs (fill_from_l2 mem target st) in
    let less = fill_from_l2_le mem target st in
    elim (Bool-cases (l2_valid (st.0) && not (st.0.l2_size == 0))) [
      | inl some_full ↦ rw some_full (omega (arith, filled, less))
      | inr none_full ↦ rw none_full (omega arith)
    ]

part_bump-needs :
    (mem : Lanes) (target : ℕ) (st : Local) → needs ((part_bump mem target st).0) ≤ suc target
unfolding part_bump
part_bump-needs mem target st =
    let less = bump_le target st in
    let bumped = (bump target st).1 in
    elim (Bool-cases (worthwhile (bumped.0))) [
      | inl pays ↦ elim (Bool-cases (has_l1 ((scavenge mem bumped).0))) [
        | inl more ↦ rw pays (rw more (omega (arith, less)))
        | inr empty ↦ rw pays (rw empty (omega arith))
      ]
      | inr too_few ↦ rw too_few (omega arith)
    ]

part_bump-Settled : (mem : Lanes) (target : ℕ) (st : Local) → Settled (part_bump mem target st)
unfolding part_bump
part_bump-Settled mem target st =
    let bumped = (bump target st).1 in
    elim (Bool-cases (worthwhile (bumped.0))) [
      | inl pays ↦ elim (Bool-cases (has_l1 ((scavenge mem bumped).0))) [
        | inl more ↦ rw pays (rw more (again more))
        | inr empty ↦ rw pays (rw empty ended)
      ]
      | inr too_few ↦ rw too_few ended
    ]

part_l1-loops : (target : ℕ) (st : Local) → loops ((part_l1 target st).0) ≡ false
unfolding part_l1 returns_if_filled fill_from_l1
part_l1-loops target (a, tc) = ground arith

part_l2-loops : (mem : Lanes) (target : ℕ) (st : Local) → loops ((part_l2 mem target st).0) ≡ false
unfolding part_l2 returns_if_filled
part_l2-loops mem target st = ground arith

then_part-needs :
    (r : Round × Local) (next : ℕ → Local → Round × Local)
    → ((target : ℕ) (st : Local) → needs ((next target st).0) ≤ suc target)
    → needs ((then_part r next).0) ≤ needs (r.0)
unfolding then_part
then_part-needs (returns b, st) next less = omega arith
then_part-needs (drains_l1 target, st) next less = omega arith
then_part-needs (goes_on target, st) next less = less target st

then_part-loops :
    (r : Round × Local) (next : ℕ → Local → Round × Local)
    → loops (r.0) ≡ false
    → ((target : ℕ) (st : Local) → loops ((next target st).0) ≡ false)
    → loops ((then_part r next).0) ≡ false
unfolding then_part
then_part-loops (returns b, st) next this others = refl
then_part-loops (drains_l1 target, st) next this others = this
then_part-loops (goes_on target, st) next this others = others target st

then_part-Settled :
    (r : Round × Local) (next : ℕ → Local → Round × Local)
    → loops (r.0) ≡ false
    → ((target : ℕ) (st : Local) → Settled (next target st))
    → Settled (then_part r next)
unfolding then_part
then_part-Settled (returns b, st) next this others = ended
then_part-Settled (drains_l1 target, st) next this others = ground (arith, this)
then_part-Settled (goes_on target, st) next this others = others target st

fill_round-Settled : (mem : Lanes) (target : ℕ) (st : Local) → Settled (fill_round mem target st)
unfolding fill_round
fill_round-Settled mem target st =
    then_part-Settled (then_part (part_l1 target st) (part_l2 mem)) (part_bump mem)
      (then_part-loops (part_l1 target st) (part_l2 mem) (part_l1-loops target st)
        (part_l2-loops mem))
      (part_bump-Settled mem)

fill_round-needs :
    (mem : Lanes) (target : ℕ) (st : Local)
    → needs ((fill_round mem target st).0) ≤ (if has_l1 (st.0) then target else suc target)
unfolding fill_round
fill_round-needs mem target st = omega (
  arith,
  then_part-needs (then_part (part_l1 target st) (part_l2 mem)) (part_bump mem)
      (part_bump-needs mem),
  then_part-needs (part_l1 target st) (part_l2 mem) (part_l2-needs mem),
  part_l1-needs target st,
)

abbrev Ends : Option (Bool × Local) → Type 0
Ends o = (r : Bool × Local) × (o ≡ some r)

next_round-Ends :
    (r : Round × Local) (next : ℕ → Local → Option (Bool × Local))
    → Settled r
    → ((target : ℕ) (st : Local)
        → has_l1 (st.0) ≡ true
        → target < needs (r.0)
        → Ends (next target st))
    → Ends (next_round r next)
unfolding next_round
next_round-Ends (returns filled, st) next ended ends = ((filled, st), refl)
next_round-Ends (drains_l1 target, st) next (again more) ends = ends target st more (omega arith)
next_round-Ends (goes_on _, st) next settled ends = elim settled [ ]

fill_rounds-Ends :
    (fuel : ℕ) (mem : Lanes) (target : ℕ) (st : Local)
    → has_l1 (st.0) ≡ true
    → target < fuel
    → Ends (fill_rounds fuel mem target st)
unfolding fill_rounds
fill_rounds-Ends zero mem target st more under = absurd (omega arith)
fill_rounds-Ends (suc fuel) mem target st more under =
    let less = fill_round-needs mem target st in
    let less' : needs ((fill_round mem target st).0) ≤ target = ground (arith, less, more) in
    next_round-Ends (fill_round mem target st) (fill_rounds fuel mem)
      (fill_round-Settled mem target st)
      (λ target' st' more' below.
        fill_rounds-Ends fuel mem target' st' more' (omega (arith, less', below)))

-- The fuel for the jumps back to the label `drain_l1` is enough, whatever state the allocator and the cache
-- are in. This takes for granted that a scan of the third level ends.
fill_cache-ends : (mem : Lanes) (st : Local) → (r : Bool × Local) × (fill_cache mem st ≡ some r)
unfolding fill_cache fill_rounds first_target
fill_cache-ends mem st =
    let target = first_target (st.1) in
    let low : target ≤ fill_target = ground arith in
    let less = fill_round-needs mem target st in
    let less' : needs ((fill_round mem target st).0) ≤ suc fill_target =
      ground (arith, less, low) in
    next_round-Ends (fill_round mem target st) (fill_rounds (fill_target + 1) mem)
      (fill_round-Settled mem target st)
      (λ target' st' more' below.
        fill_rounds-Ends (fill_target + 1) mem target' st' more' (omega (arith, less', below)))
