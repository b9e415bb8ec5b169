-- ===== src/SparseBitset.antt =====
-- `sparse_bitset` of dbcore/sm-oid-alloc.h: up to 16 16-bit numbers in two vectors of eight lanes, the
-- unused lanes zero, and zero itself only in the first lane. Vectors are read and written below 8 only.
pub mod Contents
use preemptdb.Prelude.{ℕ, zero, suc, ◌-◌, Bool, true, false, not, ◌||◌, ◌==◌, if◌then◌else◌, set_at}

pub record SparseBitset : Type 0 where
  pub first : ℕ → ℕ
  pub second : ℕ → ℕ

unfoldable pub init1 : ℕ → SparseBitset
init1 i = record { first = λ k. if k == 0 then i else 0; second = λ _. 0 }

-- A lane moves up by one, the last to the front.
unfoldable pub rotate : (ℕ → ℕ) → ℕ → ℕ
rotate e k = if k == 0 then e 7 else e (k - 1)

-- What `insert` returns: 0, 1 and -1
pub data Inserted : Type 0 where
  normal : Inserted
  became_full : Inserted
  already_full : Inserted

unfoldable pub insert_first : SparseBitset → ℕ → SparseBitset
unfolding rotate
insert_first s i = record s { first = set_at (rotate s.first) (if s.first 0 == 0 then 1 else 0) i }

-- Zero takes the first lane, and the number from there goes to the second half.
unfoldable pub insert_second : SparseBitset → ℕ → SparseBitset
unfolding rotate
insert_second s i =
    if i == 0
    then record { first = set_at s.first 0 0; second = set_at (rotate s.second) 0 (s.first 0) }
    else record s { second = set_at (rotate s.second) 0 i }

unfoldable pub insert : SparseBitset → ℕ → SparseBitset × Inserted
unfolding insert_first insert_second
insert s i =
    if s.first 7 == 0
    then (insert_first s i, normal)
    else if not (s.second 7 == 0)
    then (s, already_full)
    else (insert_second s i, if (insert_second s i).second 7 == 0 then normal else became_full)

-- Does one of the first lanes have the number?
unfoldable pub has : ℕ → (ℕ → ℕ) → ℕ → Bool
has zero e i = false
has (suc n) e i = (e n == i) || has n e i

unfoldable pub contains : SparseBitset → ℕ → Bool
unfolding has
contains s i = if i == 0 then s.first 0 == 0 else has 8 s.first i || has 8 s.second i
