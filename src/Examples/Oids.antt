-- ===== src/Examples/Oids.antt =====
-- A new allocator, and a thread that takes an OID and gives some back.
use preemptdb.Prelude.{
  ℕ, zero, suc, ◌+◌, ◌≤◌, ◌≡◌, refl, inl, true, false, some, List, [], ◌∷◌, ◌++◌, length, arith,
}
use preemptdb.SparseBitset.{init1}
use preemptdb.OidAlloc.{drain_cache, Allocator, Local, cache_capacity, make, l2_valid, l3_valid}
use preemptdb.OidAlloc.Scan.{Lanes}
use preemptdb.OidAlloc.Fill.{fill_cache}
use preemptdb.OidAlloc.Context.{context_allocate, make_space, context_free, refill, pop_entry}
use preemptdb.OidAlloc.Owners.{IsConsistent}
use preemptdb.OidAlloc.System.{
  System, starts, steps, allocates, frees, seen_by, stored, Reachable-IsConsistent,
}
use preemptdb.OidAlloc.Held.{one, count}
use preemptdb.OidAlloc.Free.{free_in, free, context_free-free}
use preemptdb.OidAlloc.Quiet.{IsQuiet}
use preemptdb.OidAlloc.Exact.{Run, begins, takes, gives, remaining, Run-exact}
use preemptdb.OidAlloc.Bounds.{fill_cache_fits}

abbrev zeros : Lanes
zeros _ _ = 0

abbrev blank : Allocator
blank = record {
  capacity_mark = 0;
  hiwater_mark = 0;
  l2_size = 0;
  l2_first_unused = 0;
  l2_scan_hand = 0;
  l2_loose_oids = 0;
  l3_capacity = 0;
  l3_loose_oids = 0;
  l3_scan_hand = 0;
  l1 = [];
  l2 = λ _. 0;
  l2_assignments = λ _. 0;
  l2_maps = λ _. init1 0;
  l3_words = λ _ _. false;
}

-- The numbers below one
abbrev numbers : ℕ → List ℕ
numbers zero = []
numbers (suc n) = numbers n ++ n ∷ []

abbrev filled : Local
filled = (record (make blank) { hiwater_mark = 64 }, numbers 64)

abbrev taken : Local
taken = (record (make blank) { hiwater_mark = 64 }, numbers 63)

fills : fill_cache zeros (make blank, []) ≡ some (true, filled)
unfolding fill_cache make
fills = refl

took : context_allocate zeros (make blank, []) ≡ some (63, taken)
unfolding context_allocate refill pop_entry fill_cache make
took = refl

abbrev new_system : System
new_system = record { alloc = make blank; caches = λ _. [] }

abbrev freed : System
freed = stored (stored new_system 0 taken) 1 (taken.0, 63 ∷ [])

gave_back : context_free 63 (seen_by (stored new_system 0 taken) 1) ≡ some (taken.0, 63 ∷ [])
unfolding context_free make_space make
gave_back = refl

Reachable-IsConsistent_example : IsConsistent freed.alloc
Reachable-IsConsistent_example = Reachable-IsConsistent zeros freed (
    steps (steps (starts blank) (allocates 0 63 taken took))
      (frees 1 63 (taken.0, 63 ∷ []) gave_back))

abbrev brimming : Local
brimming = (record (make blank) { hiwater_mark = 200 }, numbers 126)

none_twice : (z : ℕ) → free_in z (brimming.0) ≤ 1
unfolding free_in count make
none_twice z = omega arith

brimming-IsConsistent : IsConsistent (brimming.0)
unfolding IsConsistent make
brimming-IsConsistent = inl refl

-- The cache of `brimming` goes to the first level.
abbrev emptied : Local
emptied = (record (brimming.0) { l1 = numbers 126 }, 150 ∷ [])

drains : context_free 150 brimming ≡ some emptied
unfolding context_free make_space drain_cache make
drains = refl

context_free-free_example :
    (free 150 emptied ≡ one 150 150 + free 150 brimming)
    × (length (emptied.1) ≤ cache_capacity)
    × IsConsistent (emptied.0)
context_free-free_example =
    context_free-free 150 150 brimming emptied brimming-IsConsistent none_twice drains

make-IsQuiet : IsQuiet (make blank)
unfolding make l2_valid l3_valid
make-IsQuiet = record { no_full = refl; few_loose = refl; no_l3 = refl; small = ground arith }

-- One thread takes the OID 63, and another one gives it back.
returned : Run zeros 2 freed []
returned =
    gives [] [] 1 63 (taken.0, 63 ∷ [])
      (takes 0 63 taken (begins blank) (omega arith) make-IsQuiet took) (omega arith) gave_back

Run-exact_example : ((y : ℕ) → count y [] + remaining y 2 freed ≡ 1) × IsConsistent freed.alloc
Run-exact_example = Run-exact zeros 2 freed [] returned

fill_cache_fits_example : length (filled.1) ≤ cache_capacity
fill_cache_fits_example = fill_cache_fits zeros (make blank, []) (true, filled) (ground arith) fills
