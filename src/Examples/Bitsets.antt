-- ===== src/Examples/Bitsets.antt =====
-- Zero is inserted into the set of a 5.
use preemptdb.Prelude.{◌≡◌, refl, ◌||◌, ◌==◌}
use preemptdb.SparseBitset.{init1, insert, contains, has}
use preemptdb.SparseBitset.Contents.{insert-contains}

insert-contains_example : contains ((insert (init1 5) 0).0) 5 ≡ ((0 == 5) || contains (init1 5) 5)
unfolding insert init1 contains has
insert-contains_example = insert-contains (init1 5) 0 5 refl (λ e. cc)
