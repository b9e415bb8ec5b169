-- ===== src/OidAlloc/Sound.antt =====
-- `_drain_l1` and `drain_cache` of dbcore/sm-oid-alloc.cpp, the places of bitsets and the room in them.
use preemptdb.Prelude.{
  ℕ, ◌+◌, ◌-◌, ◌/◌, ◌%◌, ◌^◌, ◌≡◌, ◌≢◌, refl, inl, inr, true, false, Bool-cases, ◌==◌, List, [],
  ◌∷◌, length, take, drop, ltb, arith,
}
use preemptdb.SparseBitset.{SparseBitset, init1, insert, insert_first, insert_second}
use preemptdb.OidAlloc.{
  Allocator, Local, l1_capacity, l2_capacity, swath, offset, retire, add_entry, assign, is_normal,
  drain_one, drain_all, drain_l1, drain_cache, l2_valid, init_l2,
}
use preemptdb.OidAlloc.Owners.{Place, Owns, HasOwners, HasRoom, IsSound, IsConsistent, init_l2-Owns}
use preemptdb.OidAlloc.Drained.{drain_one-HasOwners, owned-l2_valid}
use preemptdb.OidAlloc.Freed.{swath_apart}

insert_room :
    (m : SparseBitset) (i : ℕ)
    → m.second 7 ≡ 0
    → is_normal ((insert m i).1) ≡ true
    → ((insert m i).0).second 7 ≡ 0
unfolding insert insert_first insert_second is_normal
insert_room m i room stays = elim (Bool-cases (m.first 7 == 0)) [
  | inl half_empty ↦ rw half_empty room
  | inr half_full ↦ ground (arith, half_full, room, stays)
]

add-HasRoom :
    (x : ℕ) (a : Allocator)
    → HasRoom a
    → a.l2_assignments (swath x) ≢ 0
    → is_normal ((add_entry x a).1) ≡ true
    → HasRoom ((add_entry x a).0)
unfolding HasRoom add_entry
add-HasRoom x a room has stays s real =
    let b = a.l2_assignments (swath x) in
    elim (Bool-cases (a.l2_assignments s == b)) [
      | inl same ↦ rw same (insert_room (a.l2_maps b) (offset x) (room (swath x) has) stays)
      | inr other ↦ rw other (room s real)
    ]

retire-HasRoom :
    (owner : ℕ → Place) (x : ℕ) (a : Allocator)
    → Owns owner a
    → HasRoom a
    → a.l2_assignments (swath x) ≢ 0
    → HasRoom (retire x ((add_entry x a).0))
unfolding HasRoom retire add_entry
retire-HasRoom owner x a valid room has s real = elim (Bool-cases (s == swath x)) [
  | inl same ↦ absurd (real (rw same refl))
  | inr other ↦
      let real' : a.l2_assignments s ≢ 0 = λ e. real (rw other e) in
      let differ = swath_apart owner a s (swath x) valid real' has (λ e. ground arith) in
      let apart : (a.l2_assignments s == a.l2_assignments (swath x)) ≡ false =
        ground (arith, differ) in
      rw other (rw apart (room s real'))
]

assign-HasRoom : (x : ℕ) (a : Allocator) → HasRoom a → HasRoom (assign x a)
unfolding HasRoom assign init1
assign-HasRoom x a room s real =
    let b = a.l2 a.l2_first_unused % 2 ^ 16 in
    elim (Bool-cases (s == swath x)) [
      | inl same ↦ let here : (b == b) ≡ true = ground arith in rw same (rw here refl)
      | inr other ↦ elim (Bool-cases (a.l2_assignments s == b)) [
        | inl taken ↦ rw other (rw taken refl)
        | inr apart ↦ rw other (rw apart (room s (λ e. real (rw other e))))
      ]
    ]

-- A round keeps room in the bitsets of swaths.
pub drain_one-HasRoom : (x : ℕ) (a : Allocator) → IsSound a → HasRoom (drain_one x a)
unfolding HasOwners HasRoom drain_one l2_capacity
drain_one-HasRoom x a ((owner, valid), room) = elim (Bool-cases (a.l2_assignments (swath x) == 0)) [
  | inl null ↦ elim (Bool-cases (a.l2_first_unused == 2 ^ 16)) [
    | inl none_left ↦ rw null (rw none_left room)
    | inr some_left ↦ rw null (rw some_left (assign-HasRoom x a room))
  ]
  | inr has ↦
      let real : a.l2_assignments (swath x) ≢ 0 = λ e. ground arith in
      elim (Bool-cases (is_normal ((add_entry x a).1))) [
        | inl stays ↦ rw has (rw stays (add-HasRoom x a room real stays))
        | inr fills ↦ rw has (rw fills (retire-HasRoom owner x a valid room real))
      ]
]

pub init_l2-IsSound : (a : Allocator) (xs : List ℕ) → IsSound (record (init_l2 a) { l1 = xs })
unfolding HasOwners HasRoom init_l2
init_l2-IsSound a xs = ((_, init_l2-Owns a), λ s real. absurd (real refl))

pub other_l1-IsSound : (a : Allocator) (xs : List ℕ) → IsSound a → IsSound (record a { l1 = xs })
unfolding HasOwners HasRoom
other_l1-IsSound a xs sound = sound

drain_all-IsSound : (xs : List ℕ) (a : Allocator) → IsSound a → IsSound (drain_all xs a)
unfolding drain_all
drain_all-IsSound [] a sound = sound
drain_all-IsSound (x ∷ xs) a sound =
    drain_all-IsSound xs (drain_one x a)
      (drain_one-HasOwners x a (sound.0), drain_one-HasRoom x a sound)

pub drain_l1-IsSound :
    (target : ℕ) (a : Allocator) → IsConsistent a → IsSound ((drain_l1 target a).1)
unfolding drain_l1 l2_valid IsConsistent
drain_l1-IsSound target a (inl none_yet) =
    let absent : (a.l2_first_unused == 0) ≡ true = ground arith in
    let base = length a.l1 - target in
    rw absent (
      drain_all-IsSound (drop base a.l1) (record (init_l2 a) { l1 = take base a.l1 })
        (init_l2-IsSound a (take base a.l1)))
drain_l1-IsSound target a (inr sound) =
    let there = owned-l2_valid a (sound.0) in
    let base = length a.l1 - target in
    rw there (
      drain_all-IsSound (drop base a.l1) (record a { l1 = take base a.l1 })
        (other_l1-IsSound a (take base a.l1) sound))

pub drain_cache-IsConsistent :
    (target : ℕ) (st : Local) → IsConsistent (st.0) → IsConsistent ((drain_cache target st).1.0)
unfolding drain_cache IsConsistent HasOwners HasRoom
drain_cache-IsConsistent target (a, tc) valid =
    elim (Bool-cases (ltb l1_capacity (length a.l1 + length tc))) [
      | inl over ↦ rw over (inr (drain_l1-IsSound (l1_capacity / 2) a valid))
      | inr fits ↦ rw fits valid
    ]
