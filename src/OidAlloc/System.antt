-- ===== src/OidAlloc/System.antt =====
-- The threads of a file's allocator, each with its cache; an operation is one step, as it holds the file's
-- latch while it is at the allocator.
use preemptdb.Prelude.{
  ℕ, zero, suc, ◌+◌, ◌≡◌, refl, inl, inr, Bool, true, false, Bool-cases, Option, some, none, ◌==◌,
  leb, set_at, [], ◌∷◌, ◌++◌, ◌<◌, sym, arith, length, if◌then◌else◌,
}
use mathlib.Core.Path.{subst}
use preemptdb.OidAlloc.{Allocator, Cache, Local, cache_capacity, fill_target, make}
use preemptdb.OidAlloc.Scan.{Lanes}
use preemptdb.OidAlloc.Fill.{
  Round, returns, drains_l1, goes_on, fill_round, next_round, fill_rounds, fill_cache, first_target,
}
use preemptdb.OidAlloc.Context.{
  ◌>>=◌, grow, refill, context_allocate, context_free, pop_entry, make_space,
}
use preemptdb.OidAlloc.Owners.{HasOwners, HasRoom, IsConsistent}
use preemptdb.OidAlloc.Sound.{drain_cache-IsConsistent}
use preemptdb.OidAlloc.Ordered.{fill_round-IsConsistent}

pub record System : Type 0 where
  pub alloc : Allocator
  pub caches : ℕ → Cache

abbrev pub seen_by : System → ℕ → Local
seen_by s t = (s.alloc, s.caches t)

abbrev pub stored : System → ℕ → Local → System
stored s t (a, tc) = record { alloc = a; caches = set_at s.caches t tc }

pub data Step (mem : Lanes) (s : System) : System → Type 0 where
  allocates :
      (t x : ℕ) (st : Local)
      → context_allocate mem (seen_by s t) ≡ some (x, st)
      → Step mem s (stored s t st)
  frees :
      (t x : ℕ) (st : Local) → context_free x (seen_by s t) ≡ some st → Step mem s (stored s t st)

pub data Reachable (mem : Lanes) : System → Type 0 where
  starts : (memory : Allocator) → Reachable mem (record { alloc = make memory; caches = λ _. [] })
  steps : {s s' : System} → Reachable mem s → Step mem s s' → Reachable mem s'

-- The result, if there is one, has a property.
pub data Gives {A : Type 0} (P : A → Type 0) : Option A → Type 0 where
  nothing : Gives P none
  result : {a : A} → P a → Gives P (some a)

pub given : {A : Type 0} (P : A → Type 0) (a : A) → Gives P (some a) → P a
given P a (result holds) = holds

pub bound :
    {A B : Type 0} (P : A → Type 0) (Q : B → Type 0) (o : Option A) (f : A → Option B)
    → Gives P o
    → ((a : A) → P a → Gives Q (f a))
    → Gives Q (o >>= f)
bound P Q none f nothing keeps = nothing
bound P Q (some a) f (result holds) keeps = keeps a holds

abbrev Filled : Bool × Local → Type 0
Filled r = IsConsistent (r.1.0)

next_round-IsConsistent :
    (r : Round × Local) (again : ℕ → Local → Option (Bool × Local))
    → ((target : ℕ) (st : Local) → IsConsistent (st.0) → Gives Filled (again target st))
    → IsConsistent (r.1.0)
    → Gives Filled (next_round r again)
unfolding next_round
next_round-IsConsistent (returns filled, st) again keeps valid = result valid
next_round-IsConsistent (drains_l1 target, st) again keeps valid = keeps target st valid
next_round-IsConsistent (goes_on target, st) again keeps valid = nothing

fill_rounds-IsConsistent :
    (fuel : ℕ) (mem : Lanes) (target : ℕ) (st : Local)
    → IsConsistent (st.0)
    → Gives Filled (fill_rounds fuel mem target st)
unfolding fill_rounds
fill_rounds-IsConsistent zero mem target st valid = nothing
fill_rounds-IsConsistent (suc fuel) mem target st valid =
    next_round-IsConsistent (fill_round mem target st) (fill_rounds fuel mem)
      (fill_rounds-IsConsistent fuel mem) (fill_round-IsConsistent mem target st valid)

fill_cache-IsConsistent :
    (mem : Lanes) (st : Local) → IsConsistent (st.0) → Gives Filled (fill_cache mem st)
unfolding fill_cache
fill_cache-IsConsistent mem st valid =
    fill_rounds-IsConsistent (fill_target + 2) mem (first_target (st.1)) st valid

-- The second try of `refill`
retry-IsConsistent :
    (mem : Lanes) (filled : Bool) (st : Local)
    → IsConsistent (st.0)
    → Gives Filled (if filled then some (filled, st) else fill_cache mem (grow st))
unfolding grow IsConsistent HasOwners HasRoom
retry-IsConsistent mem true st valid = result valid
retry-IsConsistent mem false st valid = fill_cache-IsConsistent mem (grow st) valid

abbrev pub Kept : Local → Type 0
Kept st = IsConsistent (st.0)

abbrev pub Taken : ℕ × Local → Type 0
Taken r = IsConsistent (r.1.0)

refill-IsConsistent : (mem : Lanes) (st : Local) → Kept st → Gives Kept (refill mem st)
unfolding refill
refill-IsConsistent mem st valid =
    bound Filled Kept (fill_cache mem st) _ (fill_cache-IsConsistent mem st valid) (λ r valid'.
      bound Filled Kept (if r.0 then some (r.0, r.1) else fill_cache mem (grow (r.1))) _
        (retry-IsConsistent mem (r.0) (r.1) valid') (λ r' valid''. result valid''))

ready-IsConsistent :
    (mem : Lanes) (empty : Bool) (st : Local)
    → Kept st
    → Gives Kept (if empty then refill mem st else some st)
ready-IsConsistent mem true st valid = refill-IsConsistent mem st valid
ready-IsConsistent mem false st valid = result valid

popped-IsConsistent :
    (a : Allocator) (o : Option (ℕ × Cache))
    → IsConsistent a
    → Gives Taken (o >>= λ p. some (p.0, (a, p.1)))
popped-IsConsistent a none valid = nothing
popped-IsConsistent a (some p) valid = result valid

pub context_allocate-IsConsistent :
    (mem : Lanes) (st : Local) → Kept st → Gives Taken (context_allocate mem st)
unfolding context_allocate
context_allocate-IsConsistent mem st valid =
    bound Kept Taken (if length (st.1) == 0 then refill mem st else some st) _
      (ready-IsConsistent mem (length (st.1) == 0) st valid)
      (λ st' valid'. popped-IsConsistent (st'.0) (pop_entry (st'.1)) valid')

make_space-IsConsistent : (st : Local) → Kept st → Kept (make_space st)
unfolding make_space
make_space-IsConsistent st valid = elim (Bool-cases (leb cache_capacity (length (st.1)))) [
  | inl over ↦ rw over (drain_cache-IsConsistent 0 st valid)
  | inr room ↦ rw room valid
]

-- What a thread that gives an OID back leaves
pub context_free_inv :
    (x : ℕ) (st st' : Local)
    → context_free x st ≡ some st'
    → (length ((make_space st).1) < cache_capacity)
      × (st' ≡ ((make_space st).0, (make_space st).1 ++ x ∷ []))
unfolding context_free
context_free_inv x st st' q = elim (Bool-cases (leb cache_capacity (length ((make_space st).1)))) [
  | inl full ↦ ground (arith, full, q)
  | inr room ↦ (ground (arith, room), ground (arith, room, q))
]

pub context_free-IsConsistent :
    (x : ℕ) (st st' : Local) → Kept st → context_free x st ≡ some st' → Kept st'
context_free-IsConsistent x st st' valid q =
    let (_, same) = context_free_inv x st st' q in
    subst Kept (sym same) (make_space-IsConsistent st valid)

-- In every state that threads reach by taking OIDs and giving them back, whatever is read where bitsets
-- are read: there is no second level yet, or each of its bitsets has at most one place among the
-- list of full ones, the swaths and the list of unused ones, the two lists do not meet in `l2`, and
-- the bitsets of swaths have room.
pub Reachable-IsConsistent : (mem : Lanes) (s : System) → Reachable mem s → IsConsistent s.alloc
unfolding IsConsistent make
Reachable-IsConsistent mem s (starts memory) = inl refl
Reachable-IsConsistent mem s (steps {s = before} reach (allocates t x st got)) =
    given Taken (x, st)
      (subst (Gives Taken) got (
        context_allocate-IsConsistent mem (seen_by before t)
          (Reachable-IsConsistent mem before reach)))
Reachable-IsConsistent mem s (steps {s = before} reach (frees t x st done)) =
    context_free-IsConsistent x (seen_by before t) st (Reachable-IsConsistent mem before reach) done
