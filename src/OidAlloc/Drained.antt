-- ===== src/OidAlloc/Drained.antt =====
-- `_drain_l1` of dbcore/sm-oid-alloc.cpp and the places of bitsets.
use preemptdb.Prelude.{
  ℕ, ◌+◌, ◌%◌, ◌^◌, ◌<◌, ◌≡◌, ◌≢◌, refl, sym, ap, ◌∙◌, inl, inr, false, Bool-cases, ◌==◌, set_at,
  arith,
}
use preemptdb.OidAlloc.{
  Allocator, l2_capacity, swath, base_of, retire, add_entry, assign, is_normal, drain_one,
}
use preemptdb.OidAlloc.Owners.{
  Place, reserved, full, assigned, unused, Owns, HasOwners, one_more, one_less, set_at-at,
  set_at-off,
}

-- The low half of an entry of the list of full bitsets
pub low_half : (x b : ℕ) → b < 2 ^ 16 → (base_of x + b) % 2 ^ 16 ≡ b
low_half x b low = ground arith

pub retire-Owns :
    (owner : ℕ → Place) (x : ℕ) (a : Allocator)
    → Owns owner a
    → a.l2_assignments (swath x) ≢ 0
    → Owns (set_at owner (a.l2_assignments (swath x)) (full a.l2_size)) (retire x a)
unfolding retire
retire-Owns owner x a valid real =
    let b = a.l2_assignments (swath x) in
    let p = full a.l2_size in
    let was : owner b ≡ assigned (swath x) = (valid.swaths (swath x) real).0 in
    let low : b < 2 ^ 16 = (valid.swaths (swath x) real).1 in
    let loses = one_less (2 ^ 16) (swath x) a.l2_assignments (ground arith) real in
    record {
      first =
          set_at-off owner b 0 p (assigned (swath x)) reserved was valid.first (λ e. ground arith);
      fulls = λ k under. elim (Bool-cases (k == a.l2_size)) [
        | inl new ↦
            rw new (rw (low_half x b low) (set_at-at owner b b p refl ∙ ap full (ground arith)))
        | inr old ↦ rw old (
            set_at-off owner b (a.l2 k % 2 ^ 16) p (assigned (swath x)) (full k) was
              (valid.fulls k (ground arith)) (λ e. ground arith))
      ];
      swaths = λ s taken. elim (Bool-cases (s == swath x)) [
        | inl same ↦ absurd (taken (rw same refl))
        | inr other ↦
            let (theirs, low') = valid.swaths s (λ e. taken (rw other e)) in
            rw other (
              set_at-off owner b (a.l2_assignments s) p (assigned (swath x)) (assigned s) was theirs
                  (λ e. ground arith),
              low',
            )
      ];
      rest = λ k from under.
          let apart : (k == a.l2_size) ≡ false = ground (arith, loses, valid.room, from) in
          rw apart (
            set_at-off owner b (a.l2 k % 2 ^ 16) p (assigned (swath x)) (unused k) was
              (valid.rest k from under) (λ e. ground arith));
      room = omega (arith, loses, valid.room);
      fits = valid.fits;
    }

pub assign-Owns :
    (owner : ℕ → Place) (x : ℕ) (a : Allocator)
    → Owns owner a
    → a.l2_assignments (swath x) ≡ 0
    → a.l2_first_unused < 2 ^ 16
    → Owns (set_at owner (a.l2 a.l2_first_unused % 2 ^ 16) (assigned (swath x))) (assign x a)
unfolding assign
assign-Owns owner x a valid null some_left =
    let b = a.l2 a.l2_first_unused % 2 ^ 16 in
    let p = assigned (swath x) in
    let q = unused a.l2_first_unused in
    let was : owner b ≡ q = valid.rest a.l2_first_unused (omega arith) some_left in
    let real : b ≢ 0 = λ e.
      let clash : reserved ≡ q = sym valid.first ∙ (ap owner (sym e) ∙ was) in
      ground (arith, clash) in
    let gains = one_more (2 ^ 16) (swath x) b a.l2_assignments (ground arith) null real in
    record {
      first = set_at-off owner b 0 p q reserved was valid.first (λ e. ground arith);
      fulls = λ k under.
          set_at-off owner b (a.l2 k % 2 ^ 16) p q (full k) was (valid.fulls k under)
            (λ e. ground arith);
      swaths = λ s taken. elim (Bool-cases (s == swath x)) [
        | inl same ↦ rw same (set_at-at owner b b p refl ∙ ap assigned (ground arith), ground arith)
        | inr other ↦
            let (theirs, low) = valid.swaths s (λ e. taken (rw other e)) in
            rw other (
              set_at-off owner b (a.l2_assignments s) p q (assigned s) was theirs
                  (λ e. ground arith),
              low,
            )
      ];
      rest = λ k from under.
          set_at-off owner b (a.l2 k % 2 ^ 16) p q (unused k) was (valid.rest k (omega arith) under)
            (λ e. ground arith);
      room = omega (arith, gains, valid.room);
      fits = omega arith;
    }

pub drain_one-HasOwners : (x : ℕ) (a : Allocator) → HasOwners a → HasOwners (drain_one x a)
unfolding HasOwners drain_one add_entry l2_capacity
drain_one-HasOwners x a (owner, valid) = elim (Bool-cases (a.l2_assignments (swath x) == 0)) [
  | inl null ↦ rw null (elim (Bool-cases (a.l2_first_unused == 2 ^ 16)) [
    | inl none_left ↦ rw none_left (owner, valid)
    | inr some_left ↦
        rw some_left (_, assign-Owns owner x a valid (ground arith) (ground (arith, valid.fits)))
  ])
  | inr real ↦ rw real (elim (Bool-cases (is_normal ((add_entry x a).1))) [
    | inl stays ↦ rw stays (owner, valid)
    | inr fills ↦ rw fills (_, retire-Owns owner x ((add_entry x a).0) valid (λ e. ground arith))
  ])
]

pub owned-l2_valid : (a : Allocator) → HasOwners a → (a.l2_first_unused == 0) ≡ false
unfolding HasOwners
owned-l2_valid a (owner, valid) = ground (arith, valid.room)
