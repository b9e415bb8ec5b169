-- ===== src/OidAlloc/Scanned.antt =====
-- The scans of the second level in dbcore/sm-oid-alloc.cpp and the places of bitsets.
use preemptdb.Prelude.{
  ℕ, zero, suc, ◌+◌, ◌-◌, ◌*◌, ◌%◌, ◌^◌, ◌<◌, ◌≡◌, ◌≢◌, refl, ap, ◌∙◌, inl, inr, true, false, not,
  Bool-cases, ◌==◌, ◌&&◌, ◌||◌, set_at, List, [], ◌∷◌, ◌++◌, ltb, arith,
}
use preemptdb.OidAlloc.{Allocator, Cache, Local, bitset_capacity, l2_capacity, base_of, l2_valid}
use preemptdb.OidAlloc.Scan.{
  Lanes, Sink, nop_filter, to_cache, to_l1, as_array, all_entries, iterated, sink_all, accept,
  scan_rounds, scan_l2, fill_from_l2, unassign, scavenge_l2_rounds, scavenge_l2, reclaim_l2,
}
use preemptdb.OidAlloc.Owners.{
  Place, reserved, full, assigned, unused, IsOwned, Owns, HasOwners, HasRoom, IsSound, IsConsistent,
  one_less, set_at-at, set_at-off,
}

-- A sink that changes the first level and the cache only
abbrev pub Stores : Sink → Type 0
Stores s =
    (x : ℕ) (a : Allocator) (tc : Cache)
    → (l1 : List ℕ) × (tc' : Cache) × (s x (a, tc) ≡ (record a { l1 = l1 }, tc'))

pub to_cache-Stores : Stores to_cache
unfolding to_cache
to_cache-Stores x a tc = (a.l1, tc ++ x ∷ [], refl)

pub to_l1-Stores : Stores to_l1
unfolding to_l1
to_l1-Stores x a tc = (a.l1 ++ x ∷ [], tc, refl)

pub sink_all-Stores :
    (s : Sink) (base : ℕ) (xs : List ℕ)
    → Stores s
    → (a : Allocator) (tc : Cache)
    → (l1 : List ℕ) × (tc' : Cache) × (sink_all s base xs (a, tc) ≡ (record a { l1 = l1 }, tc'))
unfolding sink_all
sink_all-Stores s base [] stores a tc = (a.l1, tc, refl)
sink_all-Stores s base (x ∷ xs) stores a tc =
    let (l1, tc', step) = stores (base + x) a tc in
    let (l1', tc'', rest) = sink_all-Stores s base xs stores (record a { l1 = l1 }) tc' in
    (l1', tc'', ap (sink_all s base xs) step ∙ rest)

freed-Owns :
    (owner : ℕ → Place) (a : Allocator)
    → Owns owner a
    → 0 < a.l2_size
    → IsOwned
        (set_at owner (a.l2 (a.l2_size - 1) % 2 ^ 16) (unused (a.l2_first_unused - 1)))
        (a.l2_size - 1)
        (a.l2_first_unused - 1)
        (set_at a.l2 (a.l2_first_unused - 1) (a.l2 (a.l2_size - 1) % 2 ^ 16))
        a.l2_assignments
freed-Owns owner a valid some_full =
    let b = a.l2 (a.l2_size - 1) % 2 ^ 16 in
    let p = unused (a.l2_first_unused - 1) in
    let q = full (a.l2_size - 1) in
    let was : owner b ≡ q = valid.fulls (a.l2_size - 1) (omega arith) in
    record {
      first = set_at-off owner b 0 p q reserved was valid.first (λ e. ground arith);
      fulls = λ k under.
          let apart : (k == a.l2_first_unused - 1) ≡ false = ground (arith, valid.room, under) in
          rw apart (
            set_at-off owner b (a.l2 k % 2 ^ 16) p q (full k) was (valid.fulls k (omega arith))
              (λ e. ground arith));
      swaths = λ s taken.
          let (theirs, low) = valid.swaths s taken in
          (
            set_at-off owner b (a.l2_assignments s) p q (assigned s) was theirs (λ e. ground arith),
            low,
          );
      rest = λ k from under. elim (Bool-cases (k == a.l2_first_unused - 1)) [
        | inl new ↦
            rw new (set_at-at owner b (b % 2 ^ 16) p (ground arith) ∙ ap unused (ground arith))
        | inr old ↦ rw old (
            set_at-off owner b (a.l2 k % 2 ^ 16) p q (unused k) was
              (valid.rest k (ground arith) under) (λ e. ground arith))
      ];
      room = omega (arith, valid.room);
      fits = omega (arith, valid.fits);
    }

unassigned-Owns :
    (owner : ℕ → Place) (a : Allocator) (idx : ℕ)
    → Owns owner a
    → idx < 2 ^ 16
    → a.l2_assignments idx ≢ 0
    → IsOwned
        (set_at owner (a.l2_assignments idx) (unused (a.l2_first_unused - 1)))
        a.l2_size
        (a.l2_first_unused - 1)
        (set_at a.l2 (a.l2_first_unused - 1) (a.l2_assignments idx))
        (set_at a.l2_assignments idx 0)
unassigned-Owns owner a idx valid low_idx real =
    let b = a.l2_assignments idx in
    let p = unused (a.l2_first_unused - 1) in
    let q = assigned idx in
    let was : owner b ≡ q = (valid.swaths idx real).0 in
    let low : b < 2 ^ 16 = (valid.swaths idx real).1 in
    let loses = one_less (2 ^ 16) idx a.l2_assignments low_idx real in
    record {
      first = set_at-off owner b 0 p q reserved was valid.first (λ e. ground arith);
      fulls = λ k under.
          let apart : (k == a.l2_first_unused - 1) ≡ false =
            ground (arith, valid.room, loses, under) in
          rw apart (
            set_at-off owner b (a.l2 k % 2 ^ 16) p q (full k) was (valid.fulls k under)
              (λ e. ground arith));
      swaths = λ s taken. elim (Bool-cases (s == idx)) [
        | inl same ↦ absurd (taken (rw same refl))
        | inr other ↦
            let (theirs, low') = valid.swaths s (λ e. taken (rw other e)) in
            rw other (
              set_at-off owner b (a.l2_assignments s) p q (assigned s) was theirs
                  (λ e. ground arith),
              low',
            )
      ];
      rest = λ k from under. elim (Bool-cases (k == a.l2_first_unused - 1)) [
        | inl new ↦
            rw new (set_at-at owner b (b % 2 ^ 16) p (ground arith) ∙ ap unused (ground arith))
        | inr old ↦ rw old (
            set_at-off owner b (a.l2 k % 2 ^ 16) p q (unused k) was
              (valid.rest k (ground arith) under) (λ e. ground arith))
      ];
      room = omega (arith, loses, valid.room);
      fits = omega (arith, valid.fits);
    }

accept-IsSound :
    (mem : Lanes) (s : Sink) (st : Local)
    → Stores s
    → IsSound (st.0)
    → 0 < st.0.l2_size
    → IsSound ((accept mem s (st.0.l2 (st.0.l2_size - 1)) st).0)
unfolding accept HasOwners HasRoom
accept-IsSound mem s (a, tc) stores ((owner, valid), room) some_full =
    let x = a.l2 (a.l2_size - 1) in
    let (l1, tc', sunk) =
      sink_all-Stores s (base_of x)
        (all_entries bitset_capacity 0 (as_array mem (a.l2_maps (x % 2 ^ 16)))) stores a tc in
    rw sunk ((_, freed-Owns owner a valid some_full), room)

scan_rounds-IsSound :
    (mem : Lanes) (s : Sink) (n target : ℕ) (st : Local)
    → Stores s
    → IsSound (st.0)
    → IsSound ((scan_rounds mem nop_filter s n 0 target st).1.0)
unfolding scan_rounds
scan_rounds-IsSound mem s zero target st stores valid = valid
scan_rounds-IsSound mem s (suc n) target st stores valid =
    elim (Bool-cases (not (target == 0) && ltb 0 (st.0.l2_size))) [
      | inl goes ↦
          let after = accept mem s (st.0.l2 (st.0.l2_size - 1)) st in
          rw goes (
            scan_rounds-IsSound mem s n (target - bitset_capacity) after stores
              (accept-IsSound mem s st stores valid (ground arith)))
      | inr ends ↦ rw ends valid
    ]

unassigned-room :
    (a : Allocator) (idx : ℕ)
    → HasRoom a
    → (s : ℕ) → set_at a.l2_assignments idx 0 s ≢ 0
    → (a.l2_maps (set_at a.l2_assignments idx 0 s)).second 7 ≡ 0
unfolding HasRoom
unassigned-room a idx room s real = elim (Bool-cases (s == idx)) [
  | inl same ↦ absurd (real (rw same refl))
  | inr other ↦ rw other (room s (λ e. real (rw other e)))
]

unassign-IsSound :
    (mem : Lanes) (s : Sink) (idx : ℕ) (st : Local)
    → Stores s
    → IsSound (st.0)
    → idx < 2 ^ 16
    → (st.0.l2_assignments idx == 0) ≡ false
    → IsSound ((unassign mem s idx st).1.0)
unfolding unassign HasOwners HasRoom
unassign-IsSound mem s idx (a, tc) stores ((owner, valid), room) low real =
    let (l1, tc', sunk) =
      sink_all-Stores s (idx * 2 ^ 16) (iterated (as_array mem (a.l2_maps (a.l2_assignments idx))))
        stores a tc in
    rw sunk
      ((_, unassigned-Owns owner a idx valid low (λ e. ground arith)), unassigned-room a idx room)

scavenge_l2_rounds-IsSound :
    (mem : Lanes) (s : Sink) (n i target : ℕ) (st : Local)
    → Stores s
    → IsSound (st.0)
    → IsSound ((scavenge_l2_rounds mem nop_filter s n i target st).1.1.0)
unfolding scavenge_l2_rounds
scavenge_l2_rounds-IsSound mem s zero i target st stores valid = valid
scavenge_l2_rounds-IsSound mem s (suc n) i target st stores valid =
    elim (Bool-cases (target == 0)) [
      | inl met ↦ rw (met, scavenge_l2_rounds) valid
      | inr short ↦
          let idx = (st.0.l2_scan_hand + i) % 2 ^ 16 in
          rw (short, scavenge_l2_rounds)
            (elim (Bool-cases (st.0.l2_assignments idx == 0)) [
              | inl none_there ↦
                  rw none_there
                    (scavenge_l2_rounds-IsSound mem s n (i + 1) (target - 0) st stores valid)
              | inr real ↦
                  let (found, after) = unassign mem s idx st in
                  rw real (
                    scavenge_l2_rounds-IsSound mem s n (i + 1) (target - found) after stores
                      (unassign-IsSound mem s idx st stores valid (ground arith) real))
            ])
    ]

pub fill_from_l2-IsConsistent :
    (mem : Lanes) (target : ℕ) (st : Local)
    → IsConsistent (st.0)
    → IsConsistent ((fill_from_l2 mem target st).1.0)
unfolding fill_from_l2 scan_l2 l2_valid IsConsistent
fill_from_l2-IsConsistent mem target st (inl none_yet) =
    let absent : (st.0.l2_first_unused == 0) ≡ true = ground arith in rw absent (inl none_yet)
fill_from_l2-IsConsistent mem target st (inr valid) =
    elim (Bool-cases (not (l2_valid (st.0)) || (st.0.l2_size == 0))) [
      | inl none_full ↦ rw none_full (inr valid)
      | inr some_full ↦
          rw some_full
            (inr (scan_rounds-IsSound mem to_cache (st.0.l2_size) target st to_cache-Stores valid))
    ]

pub reclaim_l2-IsConsistent :
    (mem : Lanes) (target : ℕ) (st : Local)
    → IsConsistent (st.0)
    → IsConsistent ((reclaim_l2 mem target st).1.0)
unfolding reclaim_l2 scavenge_l2 l2_valid IsConsistent HasOwners HasRoom
reclaim_l2-IsConsistent mem target st (inl none_yet) =
    let absent : (st.0.l2_first_unused == 0) ≡ true = ground arith in rw absent (inl none_yet)
reclaim_l2-IsConsistent mem target st (inr valid) =
    elim (Bool-cases (not (l2_valid (st.0)) || ltb (st.0.l2_loose_oids) target)) [
      | inl too_few ↦ rw too_few (inr valid)
      | inr enough ↦
          rw enough
            (inr (scavenge_l2_rounds-IsSound mem to_l1 l2_capacity 0 target st to_l1-Stores valid))
    ]
