-- ===== src/OidAlloc/Ordered.antt =====
-- `fill_cache` of dbcore/sm-oid-alloc.cpp, part by part, and the places of bitsets.
use preemptdb.Prelude.{
  ℕ, zero, suc, ◌-◌, ◌*◌, ◌/◌, inl, inr, not, Bool-cases, ◌==◌, ◌&&◌, ◌||◌, [], length, ltb, leb,
}
use preemptdb.XidAlloc.{has_bit}
use preemptdb.OidAlloc.{
  Allocator, Local, l1_capacity, cache_capacity, l2_valid, l3_valid, drain_cache,
}
use preemptdb.OidAlloc.Scan.{Lanes, to_cache, reclaim_l2}
use preemptdb.OidAlloc.Fill.{
  take_lowest, empty_word, advance_hand, scavenge_word, bump_one, scavenge_l3_rounds, l1_has_space,
  room_for_word, reclaim_l3, fill_from_l1, bump, worthwhile, scavenge, Round, returns, drains_l1,
  goes_on, has_l1, returns_if_filled, part_l1, part_l2, part_bump, then_part, fill_round,
}
use preemptdb.OidAlloc.Owners.{HasOwners, HasRoom, IsConsistent}
use preemptdb.OidAlloc.Sound.{drain_l1-IsSound, drain_cache-IsConsistent}
use preemptdb.OidAlloc.Scanned.{fill_from_l2-IsConsistent, reclaim_l2-IsConsistent}

empty_word-IsConsistent :
    (n hand target : ℕ) (st : Local)
    → IsConsistent (st.0)
    → IsConsistent ((empty_word n to_cache hand target st).1.0)
unfolding empty_word take_lowest to_cache IsConsistent HasOwners HasRoom
empty_word-IsConsistent zero hand target st valid = valid
empty_word-IsConsistent (suc n) hand target st valid =
    elim (Bool-cases (has_bit 64 (st.0.l3_words hand))) [
      | inl more ↦
          rw more (empty_word-IsConsistent n hand (target - 1) (take_lowest to_cache hand st) valid)
      | inr done ↦ rw done valid
    ]

room_for_word-IsConsistent :
    (base : ℕ) (st : Local) → IsConsistent (st.0) → IsConsistent ((room_for_word base st).1.0)
unfolding room_for_word IsConsistent
room_for_word-IsConsistent base (a, tc) valid =
    elim (Bool-cases (leb 64 (cache_capacity - length tc))) [
      | inl room ↦ rw room valid
      | inr tight ↦
          let drained = drain_cache-IsConsistent 0 (a, tc) valid in
          let a' = (drain_cache 0 (a, tc)).1.0 in
          rw tight (elim (Bool-cases (l1_has_space a')) [
            | inl space ↦ rw space drained
            | inr over ↦ rw over (inr (drain_l1-IsSound (l1_capacity / 2) a' drained))
          ])
    ]

scavenge_word-IsConsistent :
    (target : ℕ) (st : Local)
    → IsConsistent (st.0)
    → IsConsistent ((scavenge_word room_for_word to_cache target st).1.0)
unfolding scavenge_word advance_hand IsConsistent HasOwners HasRoom
scavenge_word-IsConsistent target st valid =
    let hand = st.0.l3_scan_hand in
    elim (Bool-cases (has_bit 64 (st.0.l3_words hand))) [
      | inl some_set ↦
          let st' = (room_for_word (hand * 64) st).1 in
          let roomy = room_for_word-IsConsistent (hand * 64) st valid in
          rw some_set (elim (Bool-cases ((room_for_word (hand * 64) st).0)) [
            | inl ok ↦ rw ok (empty_word-IsConsistent 64 hand target st' roomy)
            | inr full ↦ rw full roomy
          ])
      | inr empty ↦ rw empty valid
    ]

scavenge_l3_rounds-IsConsistent :
    (n sentinel target : ℕ) (st : Local)
    → IsConsistent (st.0)
    → IsConsistent ((scavenge_l3_rounds n room_for_word to_cache sentinel target st).1.0)
unfolding scavenge_l3_rounds
scavenge_l3_rounds-IsConsistent zero sentinel target st valid = valid
scavenge_l3_rounds-IsConsistent (suc n) sentinel target st valid =
    let (target', after) = scavenge_word room_for_word to_cache target st in
    let word = scavenge_word-IsConsistent target st valid in
    elim (Bool-cases (target == 0)) [
      | inl met ↦ rw met valid
      | inr short ↦ rw short (elim (Bool-cases (after.0.l3_scan_hand == sentinel)) [
        | inl complete ↦ rw complete word
        | inr goes ↦ rw goes (scavenge_l3_rounds-IsConsistent n sentinel target' after word)
      ])
    ]

reclaim_l3-IsConsistent :
    (target : ℕ) (a : Allocator) → IsConsistent a → IsConsistent ((reclaim_l3 target a).1)
unfolding reclaim_l3
reclaim_l3-IsConsistent target a valid = elim (Bool-cases (l3_valid a)) [
  | inl there ↦
      rw there (scavenge_l3_rounds-IsConsistent a.l3_capacity a.l3_scan_hand target (a, []) valid)
  | inr absent ↦ rw absent valid
]

bump-IsConsistent :
    (target : ℕ) (st : Local) → IsConsistent (st.0) → IsConsistent ((bump target st).1.0)
unfolding bump bump_one IsConsistent HasOwners HasRoom
bump-IsConsistent zero st valid = valid
bump-IsConsistent (suc target) st valid =
    elim (Bool-cases (ltb (st.0.hiwater_mark) (st.0.capacity_mark))) [
      | inl under ↦ rw under (bump-IsConsistent target (bump_one st) valid)
      | inr reached ↦ rw reached valid
    ]

scavenge-IsConsistent :
    (mem : Lanes) (st : Local) → IsConsistent (st.0) → IsConsistent ((scavenge mem st).0)
unfolding scavenge
scavenge-IsConsistent mem st valid =
    let left = (reclaim_l2 mem (l1_capacity / 2) st).0 in
    let a = (reclaim_l2 mem (l1_capacity / 2) st).1.0 in
    let reclaimed = reclaim_l2-IsConsistent mem (l1_capacity / 2) st valid in
    elim (Bool-cases ((left == 0) || (a.l3_loose_oids == 0))) [
      | inl met ↦ rw met reclaimed
      | inr short ↦ rw short (reclaim_l3-IsConsistent left a reclaimed)
    ]

-- A part of `fill_cache` that keeps the order
abbrev pub Orders : (ℕ → Local → Round × Local) → Type 0
Orders part = (target : ℕ) (st : Local) → IsConsistent (st.0) → IsConsistent ((part target st).1.0)

part_l1-IsConsistent : Orders part_l1
unfolding part_l1 returns_if_filled fill_from_l1 IsConsistent HasOwners HasRoom
part_l1-IsConsistent target st valid = elim (Bool-cases (has_l1 (st.0))) [
  | inl some_there ↦ rw some_there valid
  | inr empty ↦ rw empty valid
]

part_l2-IsConsistent : (mem : Lanes) → Orders (part_l2 mem)
unfolding part_l2 returns_if_filled
part_l2-IsConsistent mem target st valid =
    elim (Bool-cases (l2_valid (st.0) && not (st.0.l2_size == 0))) [
      | inl some_full ↦ rw some_full (fill_from_l2-IsConsistent mem target st valid)
      | inr none_full ↦ rw none_full valid
    ]

part_bump-IsConsistent : (mem : Lanes) → Orders (part_bump mem)
unfolding part_bump
part_bump-IsConsistent mem target st valid =
    let bumped = bump-IsConsistent target st valid in
    let after = (bump target st).1 in
    elim (Bool-cases (worthwhile (after.0))) [
      | inl pays ↦ rw pays (scavenge-IsConsistent mem after bumped)
      | inr too_few ↦ rw too_few bumped
    ]

then_part-IsConsistent :
    (first : Round × Local) (next : ℕ → Local → Round × Local)
    → Orders next
    → IsConsistent (first.1.0)
    → IsConsistent ((then_part first next).1.0)
unfolding then_part
then_part-IsConsistent (goes_on target, st) next keeps valid = keeps target st valid
then_part-IsConsistent (returns b, st) next keeps valid = valid
then_part-IsConsistent (drains_l1 target, st) next keeps valid = valid

pub fill_round-IsConsistent : (mem : Lanes) → Orders (fill_round mem)
unfolding fill_round
fill_round-IsConsistent mem target st valid =
    then_part-IsConsistent (then_part (part_l1 target st) (part_l2 mem)) (part_bump mem)
      (part_bump-IsConsistent mem)
      (then_part-IsConsistent (part_l1 target st) (part_l2 mem) (part_l2-IsConsistent mem)
        (part_l1-IsConsistent target st valid))
