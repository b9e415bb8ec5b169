-- ===== src/OidAlloc/Conserved.antt =====
-- The loop of `_drain_l1` of dbcore/sm-oid-alloc.cpp and the OIDs of the first two levels.
use preemptdb.Prelude.{
  ℕ, ◌+◌, ◌^◌, ◌≤◌, ◌≡◌, ◌≢◌, refl, inl, inr, Bool-cases, ◌==◌, List, [], ◌∷◌, ◌++◌, arith,
}
use preemptdb.OidAlloc.{Allocator, l2_capacity, swath, add_entry, is_normal, drain_one, drain_all}
use preemptdb.OidAlloc.Owners.{HasOwners, IsSound}
use preemptdb.OidAlloc.Drained.{drain_one-HasOwners}
use preemptdb.OidAlloc.Held.{one, count, l2_held, count-append}
use preemptdb.OidAlloc.Sound.{drain_one-HasRoom}
use preemptdb.OidAlloc.Freed.{add_entry-l2_held}
use preemptdb.OidAlloc.Moved.{retire-l2_held, assign-l2_held}

abbrev pub held : ℕ → Allocator → ℕ
held y a = count y a.l1 + l2_held y a

pub l2_held-l1 :
    (y : ℕ) (a : Allocator) (xs : List ℕ) → l2_held y (record a { l1 = xs }) ≡ l2_held y a
unfolding l2_held
l2_held-l1 y a xs = refl

drain_one-held :
    (x y : ℕ) (a : Allocator)
    → IsSound a
    → l2_held x a ≡ 0
    → held y (drain_one x a) ≡ one x y + held y a
unfolding HasOwners drain_one l2_capacity count
drain_one-held x y a ((owner, valid), room) new =
    elim (Bool-cases (a.l2_assignments (swath x) == 0)) [
      | inl null ↦ elim (Bool-cases (a.l2_first_unused == 2 ^ 16)) [
        | inl none_left ↦ rw null (
            rw none_left
              (omega (arith, count-append y a.l1 (x ∷ []), l2_held-l1 y a (a.l1 ++ x ∷ []))))
        | inr some_left ↦
            let moved =
              assign-l2_held owner x y a valid (ground arith) (ground (arith, valid.fits)) in
            rw null (rw some_left (omega (arith, moved)))
      ]
      | inr has ↦
          let real : a.l2_assignments (swath x) ≢ 0 = λ e. ground arith in
          let added = add_entry-l2_held owner x y a valid room real new in
          elim (Bool-cases (is_normal ((add_entry x a).1))) [
            | inl stays ↦ rw has (rw stays (omega (arith, added)))
            | inr fills ↦
                let retired = retire-l2_held owner x y ((add_entry x a).0) valid real in
                rw has (rw fills (omega (arith, added, retired)))
          ]
    ]

-- No OID is twice in a list and on the first two levels.
abbrev pub Unique : List ℕ → Allocator → Type 0
Unique xs a = (z : ℕ) → count z xs + held z a ≤ 1

itself : (x : ℕ) → one x x ≡ 1
itself x = ground arith

-- The OIDs of the list are moved, and all stays sound.
pub drain_all-held :
    (xs : List ℕ) (y : ℕ) (a : Allocator)
    → IsSound a
    → Unique xs a
    → (held y (drain_all xs a) ≡ count y xs + held y a) × IsSound (drain_all xs a)
unfolding drain_all count
drain_all-held [] y a sound unique = (omega arith, sound)
drain_all-held (x ∷ xs) y a sound unique =
    let new : l2_held x a ≡ 0 = omega (arith, unique x, itself x) in
    let step = λ (z : ℕ). drain_one-held x z a sound new in
    let after : IsSound (drain_one x a) =
      (drain_one-HasOwners x a (sound.0), drain_one-HasRoom x a sound) in
    let (rest, sound') =
      drain_all-held xs y (drain_one x a) after (λ z. omega (arith, unique z, step z)) in
    (omega (arith, rest, step y), sound')
