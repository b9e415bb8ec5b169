-- ===== src/OidAlloc/Fill.antt =====
-- The third level, and how a thread's cache is filled, taken from and given to (dbcore/sm-oid.cpp).
use preemptdb.Prelude.{
  ℕ, zero, suc, ◌+◌, ◌-◌, ◌*◌, ◌/◌, ◌%◌, ◌^◌, min, bit_and, Bool, true, false, ◌&&◌, ◌||◌, not,
  Option, none, some, [], ◌∷◌, ◌++◌, length, take, drop, ltb, leb, ◌==◌, if◌then◌else◌, set_at,
}
use preemptdb.XidAlloc.{has_bit, lowest}
use preemptdb.OidAlloc.{
  Allocator, Cache, Local, cache_capacity, fill_target, bitset_capacity, l1_capacity, l2_valid,
  l3_valid, drain_l1, drain_cache,
}
use preemptdb.OidAlloc.Scan.{Lanes, Sink, Filter, to_cache, fill_from_l2, reclaim_l2}

-- The lowest OID of a word goes to the sink.
unfoldable pub take_lowest : Sink → ℕ → Local → Local
unfolding lowest
take_lowest s hand st =
    let word = st.0.l3_words hand in
    let bit = lowest 64 0 word in
    let (a, tc) = s (hand * 64 + bit) st in
    (
      record a {
        l3_loose_oids = (a.l3_loose_oids + (2 ^ 32 - 1)) % 2 ^ 32;
        l3_words = set_at a.l3_words hand (set_at word bit false);
      },
      tc,
    )

-- All the OIDs of a word
unfoldable pub empty_word : ℕ → Sink → ℕ → ℕ → Local → ℕ × Local
unfolding has_bit take_lowest
empty_word zero s hand target st = (target, st)
empty_word (suc n) s hand target st =
    let rest = empty_word n s hand (target - 1) (take_lowest s hand st) in
    if has_bit 64 (st.0.l3_words hand) then rest else (target, st)

-- The scan hand moves on, and back to the front at the end.
unfoldable pub advance_hand : Local → Local
advance_hand (a, tc) =
    let hand = a.l3_scan_hand + 1 in
    (record a { l3_scan_hand = if leb a.l3_capacity hand then 0 else hand }, tc)

-- The word at the scan hand
unfoldable pub scavenge_word : Filter → Sink → ℕ → Local → ℕ × Local
unfolding empty_word advance_hand has_bit
scavenge_word f s target st =
    let hand = st.0.l3_scan_hand in
    let (ok, st') = f (hand * 64) st in
    let (target', after) = if ok then empty_word 64 s hand target st' else (target, st') in
    if has_bit 64 (st.0.l3_words hand)
    then (target', advance_hand after)
    else (target, advance_hand st)

-- The loop of `_scavenge_l3`, which ends at the latest when the hand is back at the `sentinel`. The fuel is one
-- round for each word: that is enough where the hand is below the capacity. Where it is not, the source
-- may not come to an end; the function then stops when the fuel is used up.
unfoldable pub scavenge_l3_rounds : ℕ → Filter → Sink → ℕ → ℕ → Local → ℕ × Local
unfolding scavenge_word
scavenge_l3_rounds zero f s sentinel target st = (target, st)
scavenge_l3_rounds (suc n) f s sentinel target st =
    let (target', after) = scavenge_word f s target st in
    let rest = scavenge_l3_rounds n f s sentinel target' after in
    if target == 0
    then (target, st)
    else if after.0.l3_scan_hand == sentinel
    then (target', after)
    else rest

-- Has the first level room for another cache?
abbrev pub l1_has_space : Allocator → Bool
l1_has_space a = leb (length a.l1 + cache_capacity) l1_capacity

-- Makes room for the OIDs of a word in the cache.
unfoldable pub room_for_word : Filter
unfolding drain_cache drain_l1
room_for_word base (a, tc) =
    let (_, (a', tc')) = drain_cache 0 (a, tc) in
    let drained = (drain_l1 (l1_capacity / 2) a').1 in
    if leb 64 (cache_capacity - length tc)
    then (true, (a, tc))
    else if l1_has_space a'
    then (true, (a', tc'))
    else (l1_has_space drained, (drained, tc'))

-- `_scavenge_l3` of a target. The OIDs that are left in its cache at the end are dropped.
unfoldable pub reclaim_l3 : ℕ → Allocator → ℕ × Allocator
unfolding scavenge_l3_rounds room_for_word to_cache l3_valid
reclaim_l3 target a =
    let (left, (a', _)) =
      scavenge_l3_rounds a.l3_capacity room_for_word to_cache a.l3_scan_hand target (a, []) in
    if l3_valid a then (left, a') else (0, a)

unfoldable pub fill_from_l1 : ℕ → Local → ℕ × Local
fill_from_l1 target (a, tc) =
    let moved = min target (length a.l1) in
    let base = length a.l1 - moved in
    (target - moved, (record a { l1 = take base a.l1 }, tc ++ drop base a.l1))

-- `MAX_CAPACITY_MARK`
abbrev pub max_capacity_mark : ℕ
max_capacity_mark = 2 ^ 32 - 2

unfoldable pub propose_capacity : ℕ → Allocator → ℕ
propose_capacity align a =
    let pc = min (5 * a.capacity_mark % 2 ^ 32 / 4) max_capacity_mark in
    let grown = (pc + (2 ^ 64 - a.capacity_mark)) % 2 ^ 64 in
    let delta = bit_and grown (2 ^ 64 - align) in
    if delta == 0 then 0 else (a.capacity_mark + delta) % 2 ^ 32

-- The bump allocator
unfoldable pub bump_one : Local → Local
bump_one (a, tc) = (record a { hiwater_mark = a.hiwater_mark + 1 }, tc ++ a.hiwater_mark ∷ [])

unfoldable pub bump : ℕ → Local → ℕ × Local
unfolding bump_one
bump zero st = (0, st)
bump (suc target) st =
    let rest = bump target (bump_one st) in
    if ltb (st.0.hiwater_mark) (st.0.capacity_mark) then rest else (suc target, st)

-- Are there loose OIDs enough to be scavenged, and some of them on the second level?
unfoldable pub worthwhile : Allocator → Bool
unfolding propose_capacity
worthwhile a =
    let capacity_bump = (propose_capacity 1 a + (2 ^ 32 - a.capacity_mark)) % 2 ^ 32 in
    let loose = (a.l2_loose_oids + a.l3_loose_oids) % 2 ^ 32 in
    leb capacity_bump loose && not (a.l2_loose_oids == 0)

unfoldable pub scavenge : Lanes → Local → Local
unfolding reclaim_l2 reclaim_l3
scavenge mem st =
    let (left, (a, tc)) = reclaim_l2 mem (l1_capacity / 2) st in
    if (left == 0) || (a.l3_loose_oids == 0) then (a, tc) else ((reclaim_l3 left a).1, tc)

-- Where a part of `fill_cache` leads: to a result, to the label `drain_l1` with a target, or on, with
-- a target
pub data Round : Type 0 where
  returns : Bool → Round
  drains_l1 : ℕ → Round
  goes_on : ℕ → Round

unfoldable pub has_l1 : Allocator → Bool
has_l1 a = not (length a.l1 == 0)

unfoldable pub returns_if_filled : ℕ × Local → Round × Local
returns_if_filled (left, st) = (if left == 0 then returns true else goes_on left, st)

-- The parts for the first level, the second, and the rest
unfoldable pub part_l1 : ℕ → Local → Round × Local
unfolding has_l1 returns_if_filled fill_from_l1
part_l1 target st =
    if has_l1 (st.0) then returns_if_filled (fill_from_l1 target st) else (goes_on target, st)

unfoldable pub part_l2 : Lanes → ℕ → Local → Round × Local
unfolding returns_if_filled fill_from_l2 l2_valid
part_l2 mem target st =
    if l2_valid (st.0) && not (st.0.l2_size == 0)
    then returns_if_filled (fill_from_l2 mem target st)
    else (goes_on target, st)

unfoldable pub part_bump : Lanes → ℕ → Local → Round × Local
unfolding bump scavenge worthwhile has_l1
part_bump mem target st =
    let (missing, bumped) = bump target st in
    let scavenged = scavenge mem bumped in
    if worthwhile (bumped.0)
    then (if has_l1 (scavenged.0) then drains_l1 missing else returns (missing == 0), scavenged)
    else (returns (missing == 0), bumped)

-- One part after another
unfoldable pub then_part : Round × Local → (ℕ → Local → Round × Local) → Round × Local
then_part (goes_on target, st) next = next target st
then_part (returns b, st) next = (returns b, st)
then_part (drains_l1 target, st) next = (drains_l1 target, st)

unfoldable pub fill_round : Lanes → ℕ → Local → Round × Local
unfolding then_part part_l1 part_l2 part_bump
fill_round mem target st = then_part (then_part (part_l1 target st) (part_l2 mem)) (part_bump mem)

-- What comes after a round
unfoldable pub next_round :
    Round × Local → (ℕ → Local → Option (Bool × Local)) → Option (Bool × Local)
next_round (returns filled, st) again = some (filled, st)
next_round (drains_l1 target, st) again = again target st
next_round (goes_on target, st) again = none

unfoldable pub fill_rounds : ℕ → Lanes → ℕ → Local → Option (Bool × Local)
unfolding fill_round next_round
fill_rounds zero mem target st = none
fill_rounds (suc fuel) mem target st = next_round (fill_round mem target st) (fill_rounds fuel mem)

-- `FILL_TARGET`, or less where that would leave no room for a bitset
unfoldable pub first_target : Cache → ℕ
first_target tc =
    min fill_target ((cache_capacity - length tc + (2 ^ 64 - bitset_capacity)) % 2 ^ 64)

-- Each round that goes back to `drain_l1` leaves the next a smaller target.
unfoldable pub fill_cache : Lanes → Local → Option (Bool × Local)
unfolding fill_rounds first_target
fill_cache mem st = fill_rounds (fill_target + 2) mem (first_target (st.1)) st
