-- ===== src/OidAlloc/Room.antt =====
-- `drain_cache` of dbcore/sm-oid-alloc.cpp and the size of the first level.
use preemptdb.Prelude.{
  ℕ, ◌+◌, ◌-◌, ◌/◌, ◌≤◌, ◌≡◌, inl, inr, Bool-cases, ◌==◌, if◌then◌else◌, List, [], ◌∷◌, ◌++◌,
  length, length-append, length-take, length-drop, take, drop, ltb, min, arith,
}
use preemptdb.OidAlloc.{
  Allocator, Local, l1_capacity, l2_capacity, swath, is_normal, retire, assign, add_entry,
  drain_one, drain_all, drain_l1, drain_cache, l2_valid, init_l2,
}

drain_one-length : (x : ℕ) (a : Allocator) → length ((drain_one x a).l1) ≤ length a.l1 + 1
unfolding drain_one retire assign add_entry
drain_one-length x a =
    let longer = length-append a.l1 (x ∷ []) in
    elim (Bool-cases (a.l2_assignments (swath x) == 0)) [
      | inl null ↦ elim (Bool-cases (a.l2_first_unused == l2_capacity)) [
        | inl none_left ↦ rw null (rw none_left (omega (arith, longer)))
        | inr some_left ↦ rw null (rw some_left (omega arith))
      ]
      | inr has ↦ elim (Bool-cases (is_normal ((add_entry x a).1))) [
        | inl stays ↦ rw has (rw stays (omega arith))
        | inr fills ↦ rw has (rw fills (omega arith))
      ]
    ]

drain_all-length :
    (xs : List ℕ) (a : Allocator) → length ((drain_all xs a).l1) ≤ length a.l1 + length xs
unfolding drain_all
drain_all-length [] a = omega arith
drain_all-length (x ∷ xs) a =
    omega (arith, drain_one-length x a, drain_all-length xs (drain_one x a))

drain_l1-length : (target : ℕ) (a : Allocator) → length ((drain_l1 target a).1.l1) ≤ length a.l1
unfolding drain_l1
drain_l1-length target a =
    let base = length a.l1 - target in
    let a' = if l2_valid a then a else init_l2 a in
    omega (
      arith,
      drain_all-length (drop base a.l1) (record a' { l1 = take base a.l1 }),
      length-take base a.l1,
      length-drop base a.l1,
    )

-- What `drain_cache` does to the sizes, once the first level has been drained, if need be
moved-length :
    (wanted : ℕ) (l1 tc : List ℕ)
    → length l1 ≤ l1_capacity
    → wanted ≤ length tc
    → (length (l1 ++ drop (length tc - min wanted (l1_capacity - length l1)) tc) ≤ l1_capacity)
      × (length (take (length tc - min wanted (l1_capacity - length l1)) tc)
          ≡ length tc - min wanted (l1_capacity - length l1))
moved-length wanted l1 tc room some_there =
    let base = length tc - min wanted (l1_capacity - length l1) in
    (
      omega (arith, length-append l1 (drop base tc), length-drop base tc),
      omega (arith, length-take base tc),
    )

-- The first level is not overrun by the entries that a cache is drained of. The result is true where the
-- cache has lost as many entries as it should; a target of 0 is for all of them.
pub drain_cache_fits :
    (target : ℕ) (st : Local)
    → length (st.0.l1) ≤ l1_capacity
    → target ≤ length (st.1)
    → (length ((drain_cache target st).1.0.l1) ≤ l1_capacity)
      × ((drain_cache target st).0 ≡ (
          length ((drain_cache target st).1.1)
          == (if target == 0 then 0 else length (st.1) - target)))
unfolding drain_cache
drain_cache_fits target (a, tc) room some_there =
    let wanted = if target == 0 then length tc else target in
    elim (Bool-cases (ltb l1_capacity (length a.l1 + length tc))) [
      | inl over ↦
          let a' = (drain_l1 (l1_capacity / 2) a).1 in
          let less = drain_l1-length (l1_capacity / 2) a in
          let (fits, left) = moved-length wanted a'.l1 tc (omega (arith, less)) (ground arith) in
          rw over (fits, ground (arith, left))
      | inr space ↦
          let (fits, left) = moved-length wanted a.l1 tc room (ground arith) in
          rw space (fits, ground (arith, left))
    ]
