-- ===== src/OidAlloc/Context.antt =====
-- dbcore/sm-oid.cpp: how a thread takes an OID from its cache for a file, and gives one back. The
-- file's latch is held while a thread is at the allocator.
use preemptdb.Prelude.{ℕ, ◌∷◌, ◌++◌, ◌==◌, Option, none, some, List, [], length, leb, if◌then◌else◌}
use preemptdb.OidAlloc.{Cache, Local, cache_capacity, drain_cache}
use preemptdb.OidAlloc.Scan.{Lanes}
use preemptdb.OidAlloc.Fill.{propose_capacity, fill_cache}

infixl 10 ◌>>=◌
abbrev pub ◌>>=◌ {ℓ κ} : {A : Type ℓ} {B : Type κ} → Option A → (A → Option B) → Option B
none >>= f = none
some a >>= f = f a

-- The last entry, and the others
unfoldable pub split_last : ℕ → List ℕ → ℕ × Cache
split_last x [] = (x, [])
split_last x (x' ∷ xs) = let (last, rest) = split_last x' xs in (last, x ∷ rest)

unfoldable pub pop_entry : Cache → Option (ℕ × Cache)
unfolding split_last
pop_entry [] = none
pop_entry (x ∷ xs) = some (split_last x xs)

unfoldable pub grow : Local → Local
unfolding propose_capacity
grow (a, tc) = (record a { capacity_mark = propose_capacity 1 a }, tc)

-- Fills the cache, if need be after the file has grown.
unfoldable pub refill : Lanes → Local → Option Local
unfolding grow
refill mem st = do
  (filled, st') ← fill_cache mem st
  (_, st'') ← if filled then some (filled, st') else fill_cache mem (grow st')
  some st''

-- There is no result where the cache is still empty.
unfoldable pub context_allocate : Lanes → Local → Option (ℕ × Local)
context_allocate mem st = do
  (a, tc) ← if length (st.1) == 0 then refill mem st else some st
  (x, rest) ← pop_entry tc
  some (x, (a, rest))

-- Drains the cache if it has no room.
unfoldable pub make_space : Local → Local
unfolding drain_cache
make_space st = if leb cache_capacity (length (st.1)) then (drain_cache 0 st).1 else st

-- There is no result where the cache still has no room: the assertion of the source fails there, and
-- without it the array of entries would be overrun.
unfoldable pub context_free : ℕ → Local → Option Local
unfolding make_space
context_free x st =
    let (a, tc) = make_space st in
    if leb cache_capacity (length tc) then none else some (a, tc ++ x ∷ [])
