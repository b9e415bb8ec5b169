-- ===== src/OidAlloc/Free.antt =====
-- What is free: in the cache, on the first level, or on the second; and `_drain_l1`, `drain_cache` and
-- `context_free`.
use preemptdb.Prelude.{
  ℕ, ◌+◌, ◌-◌, ◌/◌, ◌≤◌, ◌≡◌, refl, inl, inr, true, Bool-cases, ◌==◌, if◌then◌else◌, List, [], ◌∷◌,
  ◌++◌, some, length-append, length, take, drop, ltb, leb, min, arith,
}
use preemptdb.OidAlloc.{
  Allocator, Local, l1_capacity, cache_capacity, drain_all, drain_l1, drain_cache, l2_valid,
  init_l2,
}
use preemptdb.OidAlloc.Owners.{HasOwners, HasRoom, IsSound, IsConsistent}
use preemptdb.OidAlloc.Drained.{owned-l2_valid}
use preemptdb.OidAlloc.Context.{make_space, context_free}
use preemptdb.OidAlloc.System.{context_free_inv}
use preemptdb.OidAlloc.Held.{one, count, swath_held, fulls_held, l2_held, count-append, count-split}
use preemptdb.OidAlloc.Sound.{init_l2-IsSound, other_l1-IsSound}
use preemptdb.OidAlloc.Conserved.{held, drain_all-held, l2_held-l1}

-- How often an OID is free in an allocator, and for a thread. The second level counts once it exists.
unfoldable pub free_in : ℕ → Allocator → ℕ
free_in y a = count y a.l1 + (if a.l2_first_unused == 0 then 0 else l2_held y a)

unfoldable pub free : ℕ → Local → ℕ
unfolding free_in
free y (a, tc) = count y tc + free_in y a

init_l2-l2_held : (y : ℕ) (a : Allocator) → l2_held y (init_l2 a) ≡ 0
unfolding l2_held swath_held fulls_held init_l2
init_l2-l2_held y a = refl

sound-free_in : (y : ℕ) (a : Allocator) → IsSound a → free_in y a ≡ held y a
unfolding free_in
sound-free_in y a sound = let there = owned-l2_valid a (sound.0) in rw there refl

-- The first `n` entries of the first level stay, and the others are drained.
abbrev without : ℕ → Allocator → Allocator → Allocator
without n a a' = drain_all (drop n a.l1) (record a' { l1 = take n a.l1 })

drained :
    (n y : ℕ) (a a' : Allocator)
    → IsSound (record a' { l1 = take n a.l1 })
    → ((z : ℕ) → l2_held z a' + count z a.l1 ≤ 1)
    → (held y (without n a a') ≡ l2_held y a' + count y a.l1) × IsSound (without n a a')
drained n y a a' sound unique =
    let split = λ (z : ℕ). count-split z n a.l1 in
    let same = λ (z : ℕ). l2_held-l1 z a' (take n a.l1) in
    let (moved, after) =
      drain_all-held (drop n a.l1) y (record a' { l1 = take n a.l1 }) sound
        (λ z. omega (arith, unique z, split z, same z)) in
    (omega (arith, moved, split y, same y), after)

absent-free_in : (y : ℕ) (a : Allocator) → a.l2_first_unused ≡ 0 → free_in y a ≡ count y a.l1
unfolding free_in
absent-free_in y a none_yet =
    let absent : (a.l2_first_unused == 0) ≡ true = ground arith in rw absent (omega arith)

-- `_drain_l1` neither loses nor repeats an OID.
pub drain_l1-free_in :
    (target y : ℕ) (a : Allocator)
    → IsConsistent a
    → ((z : ℕ) → free_in z a ≤ 1)
    → (free_in y ((drain_l1 target a).1) ≡ free_in y a) × IsSound ((drain_l1 target a).1)
unfolding drain_l1 l2_valid IsConsistent
drain_l1-free_in target y a (inl none_yet) unique =
    let absent : (a.l2_first_unused == 0) ≡ true = ground arith in
    let n = length a.l1 - target in
    let was = λ (z : ℕ). absent-free_in z a none_yet in
    let new = λ (z : ℕ). init_l2-l2_held z a in
    let (moved, sound) =
      drained n y a (init_l2 a) (init_l2-IsSound a (take n a.l1))
        (λ z. omega (arith, unique z, was z, new z)) in
    rw absent
      (omega (arith, sound-free_in y (without n a (init_l2 a)) sound, moved, was y, new y), sound)
drain_l1-free_in target y a (inr sound) unique =
    let there = owned-l2_valid a (sound.0) in
    let n = length a.l1 - target in
    let was = λ (z : ℕ). sound-free_in z a sound in
    let (moved, after) =
      drained n y a a (other_l1-IsSound a (take n a.l1) sound)
        (λ z. omega (arith, unique z, was z)) in
    rw there (omega (arith, sound-free_in y (without n a a) after, moved, was y), after)

-- A list behind the first level
append-free_in :
    (y : ℕ) (a : Allocator) (xs : List ℕ)
    → free_in y (record a { l1 = a.l1 ++ xs }) ≡ free_in y a + count y xs
unfolding free_in
append-free_in y a xs = elim (Bool-cases (a.l2_first_unused == 0)) [
  | inl absent ↦ rw absent (omega (arith, count-append y a.l1 xs))
  | inr there ↦ rw there (omega (arith, count-append y a.l1 xs, l2_held-l1 y a (a.l1 ++ xs)))
]

-- `drain_cache` moves entries of the cache; all that was free for the thread still is, as often.
pub drain_cache-free :
    (target y : ℕ) (st : Local)
    → IsConsistent (st.0)
    → ((z : ℕ) → free_in z (st.0) ≤ 1)
    → (free y ((drain_cache target st).1) ≡ free y st) × IsConsistent ((drain_cache target st).1.0)
unfolding drain_cache free IsConsistent HasOwners HasRoom
drain_cache-free target y (a, tc) consistent unique =
    let wanted = if target == 0 then length tc else target in
    let split = λ (n : ℕ). count-split y n tc in
    elim (Bool-cases (ltb l1_capacity (length a.l1 + length tc))) [
      | inl over ↦
          let a' = (drain_l1 (l1_capacity / 2) a).1 in
          let n = length tc - min wanted (l1_capacity - length a'.l1) in
          let (moved, sound) = drain_l1-free_in (l1_capacity / 2) y a consistent unique in
          rw over (omega (arith, moved, split n, append-free_in y a' (drop n tc)), inr sound)
      | inr fits ↦
          let n = length tc - min wanted (l1_capacity - length a.l1) in
          rw fits (omega (arith, split n, append-free_in y a (drop n tc)), consistent)
    ]

make_space-free :
    (y : ℕ) (st : Local)
    → IsConsistent (st.0)
    → ((z : ℕ) → free_in z (st.0) ≤ 1)
    → (free y (make_space st) ≡ free y st) × IsConsistent ((make_space st).0)
unfolding make_space
make_space-free y st consistent unique = elim (Bool-cases (leb cache_capacity (length (st.1)))) [
  | inl full ↦ rw full (drain_cache-free 0 y st consistent unique)
  | inr room ↦ rw room (refl, consistent)
]

append-free : (x y : ℕ) (st : Local) → free y (st.0, st.1 ++ x ∷ []) ≡ one x y + free y st
unfolding free count
append-free x y (a, tc) = omega (arith, count-append y tc (x ∷ []))

-- If giving an OID back has a result, so no assertion fails, the OID is free once more, and nothing else
-- changes for the other OIDs: they are as often in the thread's cache and on the first two levels
-- as before; and the cache is within its capacity. The allocator's levels are as threads leave
-- them, and no OID may be in the allocator twice before.
pub context_free-free :
    (x y : ℕ) (st st' : Local)
    → IsConsistent (st.0)
    → ((z : ℕ) → free_in z (st.0) ≤ 1)
    → context_free x st ≡ some st'
    → (free y st' ≡ one x y + free y st) × (length (st'.1) ≤ cache_capacity) × IsConsistent (st'.0)
context_free-free x y st st' consistent unique q =
    let (room, same) = context_free_inv x st st' q in
    let (kept, after) = make_space-free y st consistent unique in
    let longer = length-append ((make_space st).1) (x ∷ []) in
    rw same
      (omega (arith, append-free x y (make_space st), kept), omega (arith, longer, room), after)
