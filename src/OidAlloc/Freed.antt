-- ===== src/OidAlloc/Freed.antt =====
-- A round of `_drain_l1` of dbcore/sm-oid-alloc.cpp that adds an OID to its swath's bitset.
use preemptdb.Prelude.{
  ℕ, ◌+◌, ◌%◌, ◌^◌, ◌<◌, ◌≡◌, ◌≢◌, refl, sym, ap, ◌∙◌, inl, inr, false, Bool-cases, ◌==◌, set_at,
  arith,
}
use preemptdb.SparseBitset.{SparseBitset, insert}
use preemptdb.OidAlloc.{Allocator, swath, offset, add_entry}
use preemptdb.OidAlloc.Owners.{Place, full, assigned, unused, Owns, HasRoom}
use preemptdb.OidAlloc.Held.{
  one, held_in, swath_held, l2_held, fulls_held-same, set_at-read, insert-held,
}

-- No full bitset of the list is a swath's.
pub full_apart :
    (owner : ℕ → Place) (a : Allocator) (s : ℕ)
    → Owns owner a
    → a.l2_assignments s ≢ 0
    → (k : ℕ) → k < a.l2_size
    → a.l2 k % 2 ^ 16 ≢ a.l2_assignments s
full_apart owner a s valid real k under same =
    let clash : full k ≡ assigned s =
      sym (valid.fulls k under) ∙ (ap owner same ∙ (valid.swaths s real).0) in
    ground (arith, clash)

pub full_used :
    (owner : ℕ → Place) (a : Allocator)
    → Owns owner a
    → a.l2_first_unused < 2 ^ 16
    → (k : ℕ) → k < a.l2_size
    → a.l2 k % 2 ^ 16 ≢ a.l2 a.l2_first_unused % 2 ^ 16
full_used owner a valid some_left k under same =
    let clash : full k ≡ unused a.l2_first_unused =
      sym (valid.fulls k under)
      ∙ (ap owner same ∙ valid.rest a.l2_first_unused (omega arith) some_left) in
    ground (arith, clash)

pub swath_apart :
    (owner : ℕ → Place) (a : Allocator) (s s' : ℕ)
    → Owns owner a
    → a.l2_assignments s ≢ 0
    → a.l2_assignments s' ≢ 0
    → s ≢ s'
    → a.l2_assignments s ≢ a.l2_assignments s'
swath_apart owner a s s' valid real real' differ same =
    let clash : assigned s ≡ assigned s' =
      sym ((valid.swaths s real).0) ∙ (ap owner same ∙ (valid.swaths s' real').0) in
    ground (arith, clash)

-- A bitset that is not the swath's can change.
pub swath_elsewhere :
    (f : ℕ → ℕ) (maps : ℕ → SparseBitset) (b : ℕ) (m : SparseBitset) (y : ℕ)
    → (f (swath y) ≢ 0 → f (swath y) ≢ b)
    → swath_held f (set_at maps b m) y ≡ swath_held f maps y
unfolding swath_held
swath_elsewhere f maps b m y apart = elim (Bool-cases (f (swath y) == 0)) [
  | inl none_there ↦ rw none_there refl
  | inr real ↦
      let other : (f (swath y) == b) ≡ false = ground (arith, apart (λ e. ground arith)) in
      rw real (rw other refl)
]

-- The bitset of a swath
pub swath_here :
    (f : ℕ → ℕ) (maps : ℕ → SparseBitset) (b y : ℕ)
    → f (swath y) ≡ b
    → b ≢ 0
    → swath_held f maps y ≡ held_in (maps b) y
unfolding swath_held
swath_here f maps b y at real = let real' : (b == 0) ≡ false = ground arith in rw at (rw real' refl)

not_held :
    (x : ℕ) (a : Allocator)
    → l2_held x a ≡ 0
    → a.l2_assignments (swath x) ≢ 0
    → held_in (a.l2_maps (a.l2_assignments (swath x))) x ≡ 0
unfolding l2_held
not_held x a new real =
    omega
      (arith, new, swath_here a.l2_assignments a.l2_maps (a.l2_assignments (swath x)) x refl real)

-- The bitset of the OID's swath gets it.
add-swath_held :
    (owner : ℕ → Place) (x y : ℕ) (a : Allocator)
    → Owns owner a
    → HasRoom a
    → a.l2_assignments (swath x) ≢ 0
    → l2_held x a ≡ 0
    → swath_held a.l2_assignments
        (set_at a.l2_maps
          (a.l2_assignments (swath x))
          ((insert (a.l2_maps (a.l2_assignments (swath x))) (offset x)).0))
        y
      ≡ one x y + swath_held a.l2_assignments a.l2_maps y
unfolding HasRoom
add-swath_held owner x y a valid room real new =
    let b = a.l2_assignments (swath x) in
    let m = a.l2_maps b in
    let m' = (insert m (offset x)).0 in
    elim (Bool-cases (swath x == swath y)) [
      | inl same ↦
          let at : a.l2_assignments (swath y) ≡ b = ap a.l2_assignments (sym (ground arith)) in
          let gets = insert-held m x y (room (swath x) real) (not_held x a new real) in
          let after : swath_held a.l2_assignments (set_at a.l2_maps b m') y ≡ held_in m' y =
            swath_here a.l2_assignments (set_at a.l2_maps b m') b y at real
            ∙ ap (λ n. held_in n y) (set_at-read a.l2_maps b m') in
          let before : swath_held a.l2_assignments a.l2_maps y ≡ held_in m y =
            swath_here a.l2_assignments a.l2_maps b y at real in
          rw same (rw after (rw before gets))
      | inr other ↦ rw other (
          swath_elsewhere a.l2_assignments a.l2_maps b m' y
            (λ real'. swath_apart owner a (swath y) (swath x) valid real' real (λ e. ground arith))
          ∙ omega arith)
    ]

-- And no other place changes.
pub add_entry-l2_held :
    (owner : ℕ → Place) (x y : ℕ) (a : Allocator)
    → Owns owner a
    → HasRoom a
    → a.l2_assignments (swath x) ≢ 0
    → l2_held x a ≡ 0
    → l2_held y ((add_entry x a).0) ≡ one x y + l2_held y a
unfolding l2_held add_entry
add_entry-l2_held owner x y a valid room real new =
    let b = a.l2_assignments (swath x) in
    let m' = (insert (a.l2_maps b) (offset x)).0 in
    let swaths = add-swath_held owner x y a valid room real new in
    let fulls =
      fulls_held-same a.l2_size b a.l2_maps m' a.l2 y (full_apart owner a (swath x) valid real) in
    omega (arith, swaths, fulls)
