-- ===== src/OidAlloc.antt =====
-- dbcore/sm-oid-alloc.h and dbcore/sm-oid-alloc.cpp: the allocator of object identifiers of one file. Freed
-- OIDs are kept on three levels: `l1` is a stack, `l2` has bitsets of up to 16 OIDs of a swath of
-- 65,536 OIDs, and `l3` is a bitmap. Threads take OIDs and give them back a cache at a time.
pub mod Scan
pub mod Fill
pub mod Context
pub mod Owners
pub mod Drained
pub mod Sound
pub mod Scanned
pub mod Ordered
pub mod System
pub mod Held
pub mod Freed
pub mod Moved
pub mod Conserved
pub mod Free
pub mod Ends
pub mod Lengths
pub mod Bounds
pub mod Room
pub mod Quiet
pub mod Taken
pub mod Exact
use preemptdb.Prelude.{
  ℕ, zero, suc, ◌+◌, ◌-◌, ◌*◌, ◌/◌, ◌%◌, ◌^◌, min, Bool, true, false, not, List, [], ◌∷◌, ◌++◌,
  length, take, drop, ltb, ◌==◌, if◌then◌else◌, set_at,
}
use preemptdb.SparseBitset.{SparseBitset, init1, Inserted, normal, insert}
use preemptdb.XidAlloc.{Word}

-- `header_data`, without the array that backs it, and the levels. `l1` is the first `l1_size` entries of
-- the source's array. A word of the third level is given by its 64 bits.
pub record Allocator : Type 0 where
  pub capacity_mark : ℕ
  pub hiwater_mark : ℕ
  pub l2_size : ℕ
  pub l2_first_unused : ℕ
  pub l2_scan_hand : ℕ
  pub l2_loose_oids : ℕ
  pub l3_capacity : ℕ
  pub l3_loose_oids : ℕ
  pub l3_scan_hand : ℕ
  pub l1 : List ℕ
  pub l2 : ℕ → ℕ
  pub l2_assignments : ℕ → ℕ
  pub l2_maps : ℕ → SparseBitset
  pub l3_words : ℕ → Word

-- The entries of a `thread_cache` in use, of which there are `nentries`
abbrev pub Cache : Type 0
Cache = List ℕ

-- What an operation on a cache can change
abbrev pub Local : Type 0
Local = Allocator × Cache

-- `thread_cache::N`, `FILL_TARGET` and `sparse_bitset::CAPACITY`
abbrev pub cache_capacity : ℕ
cache_capacity = 126

abbrev pub fill_target : ℕ
fill_target = 64

abbrev pub bitset_capacity : ℕ
bitset_capacity = 16

-- `L1_CAPACITY`: what 56 bytes of header leave of 64 KB, in OIDs of four bytes
abbrev pub l1_capacity : ℕ
l1_capacity = (2 ^ 16 - 56) / 4

-- `L2_CAPACITY`
unfoldable pub l2_capacity : ℕ
l2_capacity = 2 ^ 16

-- The swath of an OID, its number in the swath, and the first OID of its swath. An OID has 32 bits.
abbrev pub swath : ℕ → ℕ
swath x = x / 2 ^ 16 % 2 ^ 16

abbrev pub offset : ℕ → ℕ
offset x = x % 2 ^ 16

abbrev pub base_of : ℕ → ℕ
base_of x = x - x % 2 ^ 16

unfoldable pub l2_valid : Allocator → Bool
l2_valid a = not (a.l2_first_unused == 0)

unfoldable pub l3_valid : Allocator → Bool
l3_valid a = not (a.l3_capacity == 0)

-- A new header over an array, with the marks of levels that do not exist yet
unfoldable pub make : Allocator → Allocator
make memory = record memory {
  capacity_mark = 2 ^ 20;
  hiwater_mark = 0;
  l1 = [];
  l2_size = 57005;
  l2_first_unused = 0;
  l2_scan_hand = 57005;
  l2_loose_oids = 3735928559;
  l3_capacity = 0;
  l3_loose_oids = 3735928559;
  l3_scan_hand = 3735928559;
}

unfoldable pub init_l2 : Allocator → Allocator
init_l2 a = record a {
  l2_assignments = λ _. 0;
  l2 = λ i. i;
  l2_size = 0;
  l2_first_unused = 1;
  l2_scan_hand = 0;
  l2_loose_oids = 0;
}

-- The map of a swath became full: it moves to the list of full maps.
unfoldable pub retire : ℕ → Allocator → Allocator
retire x a =
    let bidx = a.l2_assignments (swath x) in
    record a {
      l2 = set_at a.l2 a.l2_size (base_of x + bidx);
      l2_size = a.l2_size + 1;
      l2_assignments = set_at a.l2_assignments (swath x) 0;
      l2_loose_oids = (a.l2_loose_oids + (2 ^ 32 - bitset_capacity)) % 2 ^ 32;
    }

-- An OID is added to the map that its swath has.
unfoldable pub add_entry : ℕ → Allocator → Allocator × Inserted
add_entry x a =
    let bidx = a.l2_assignments (swath x) in
    let added = insert (a.l2_maps bidx) (offset x) in
    (
      record a {
        l2_loose_oids = (a.l2_loose_oids + 1) % 2 ^ 32;
        l2_maps = set_at a.l2_maps bidx (added.0);
      },
      added.1,
    )

-- A swath gets the first unused map, with an OID.
unfoldable pub assign : ℕ → Allocator → Allocator
assign x a =
    let bidx = a.l2 a.l2_first_unused % 2 ^ 16 in
    record a {
      l2_first_unused = a.l2_first_unused + 1;
      l2_assignments = set_at a.l2_assignments (swath x) bidx;
      l2_maps = set_at a.l2_maps bidx (init1 (offset x));
      l2_loose_oids = (a.l2_loose_oids + 1) % 2 ^ 32;
    }

-- Is the result of `insert` zero?
unfoldable pub is_normal : Inserted → Bool
is_normal normal = true
is_normal _ = false

-- A round of the loop of `_drain_l1`
unfoldable pub drain_one : ℕ → Allocator → Allocator
unfolding retire add_entry assign is_normal
drain_one x a =
    if not (a.l2_assignments (swath x) == 0)
    then (let (a', result) = add_entry x a in if is_normal result then a' else retire x a')
    else if a.l2_first_unused == l2_capacity
    then record a { l1 = a.l1 ++ x ∷ [] }
    else assign x a

unfoldable pub drain_all : List ℕ → Allocator → Allocator
unfolding drain_one
drain_all [] a = a
drain_all (x ∷ xs) a = drain_all xs (drain_one x a)

-- The result is how many OIDs stayed behind.
unfoldable pub drain_l1 : ℕ → Allocator → ℕ × Allocator
unfolding l2_valid init_l2 drain_all
drain_l1 target a =
    let a' = if l2_valid a then a else init_l2 a in
    let base = length a.l1 - target in
    let after = drain_all (drop base a.l1) (record a' { l1 = take base a.l1 }) in
    (length after.l1 - base, after)

-- A target of 0 stands for all entries.
unfoldable pub drain_cache : ℕ → Local → Bool × Local
unfolding drain_l1
drain_cache target (a, tc) =
    let wanted = if target == 0 then length tc else target in
    let a' =
      if ltb l1_capacity (length a.l1 + length tc) then (drain_l1 (l1_capacity / 2) a).1 else a in
    let moved = min wanted (l1_capacity - length a'.l1) in
    let base = length tc - moved in
    (wanted - moved == 0, (record a' { l1 = a'.l1 ++ drop base tc }, take base tc))
