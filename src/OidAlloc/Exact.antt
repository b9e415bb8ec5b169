-- ===== src/OidAlloc/Exact.antt =====
-- `context_allocate` and `context_free` of dbcore/sm-oid.cpp over all threads, with the OIDs that are taken.
use preemptdb.Prelude.{
  ℕ, zero, suc, ◌+◌, ◌-◌, ◌/◌, ◌%◌, ◌^◌, ◌≤◌, ◌<◌, ◌≡◌, refl, ap, ◌∙◌, inl, inr, false, Bool-cases,
  some, ◌==◌, if◌then◌else◌, set_at, List, [], ◌∷◌, ◌++◌, length, take, drop, leb, ltb, arith,
}
use mathlib.Core.Path.{subst}
use preemptdb.OidAlloc.{
  Allocator, Local, Cache, l1_capacity, l2_capacity, cache_capacity, make, swath, retire, assign,
  add_entry, is_normal, drain_one, drain_all, drain_l1, drain_cache, l2_valid, init_l2,
}
use preemptdb.OidAlloc.Scan.{Lanes}
use preemptdb.OidAlloc.Context.{context_allocate, make_space, context_free}
use preemptdb.OidAlloc.Owners.{IsConsistent}
use preemptdb.OidAlloc.Held.{one, count, count-append}
use preemptdb.OidAlloc.Free.{free_in, free, context_free-free}
use preemptdb.OidAlloc.System.{
  System, seen_by, stored, context_free_inv, Gives, Taken, given, context_allocate-IsConsistent,
}
use preemptdb.OidAlloc.Quiet.{IsQuiet, available}
use preemptdb.OidAlloc.Taken.{context_allocate-available}

-- How often an OID is in the caches of the first threads
unfoldable in_caches : ℕ → ℕ → (ℕ → Cache) → ℕ
in_caches y zero caches = 0
in_caches y (suc n) caches = count y (caches n) + in_caches y n caches

-- How often it can still be taken by `n` threads
unfoldable pub remaining : ℕ → ℕ → System → ℕ
unfolding in_caches
remaining y n s =
    in_caches y n s.caches
    + free_in y s.alloc
    + (if leb (s.alloc.hiwater_mark) (y % 2 ^ 32) then 1 else 0)

-- What `n` threads can lead to, with the OIDs that are taken: an OID is taken while the second level need
-- not be read, and a thread gives back only what is taken.
pub data Run (mem : Lanes) (n : ℕ) : System → List ℕ → Type 0 where
  begins : (memory : Allocator) → Run mem n (record { alloc = make memory; caches = λ _. [] }) []
  takes :
      {s : System} {used : List ℕ} (t x : ℕ) (st : Local)
      → Run mem n s used
      → t < n
      → IsQuiet s.alloc
      → context_allocate mem (seen_by s t) ≡ some (x, st)
      → Run mem n (stored s t st) (x ∷ used)
  gives :
      {s : System} (before after : List ℕ) (t x : ℕ) (st : Local)
      → Run mem n s (before ++ x ∷ after)
      → t < n
      → context_free x (seen_by s t) ≡ some st
      → Run mem n (stored s t st) (before ++ after)

other_cache :
    (y n t : ℕ) (caches : ℕ → Cache) (tc : Cache)
    → n ≤ t
    → in_caches y n (set_at caches t tc) ≡ in_caches y n caches
unfolding in_caches
other_cache y zero t caches tc above = refl
other_cache y (suc n) t caches tc above =
    let other : (n == t) ≡ false = ground arith in
    let rest = other_cache y n t caches tc (omega arith) in rw other (rw rest refl)

one_cache :
    (y n t : ℕ) (caches : ℕ → Cache) (tc : Cache)
    → t < n
    → in_caches y n (set_at caches t tc) + count y (caches t) ≡ in_caches y n caches + count y tc
unfolding in_caches
one_cache y zero t caches tc under = absurd (omega arith)
one_cache y (suc n) t caches tc under = elim (Bool-cases (n == t)) [
  | inl same ↦
      let at : count y (caches n) ≡ count y (caches t) =
        ap (λ k. count y (caches k)) (ground arith) in
      let rest = other_cache y n t caches tc (ground arith) in rw same (omega (arith, at, rest))
  | inr other ↦
      let rest = one_cache y n t caches tc (ground arith) in rw other (omega (arith, rest))
]

no_caches : (y n : ℕ) → in_caches y n (λ _. []) ≡ 0
unfolding in_caches count
no_caches y zero = refl
no_caches y (suc n) = omega (arith, no_caches y n)

drain_one-mark : (x : ℕ) (a : Allocator) → (drain_one x a).hiwater_mark ≡ a.hiwater_mark
unfolding drain_one retire assign add_entry
drain_one-mark x a = elim (Bool-cases (a.l2_assignments (swath x) == 0)) [
  | inl null ↦ elim (Bool-cases (a.l2_first_unused == l2_capacity)) [
    | inl none_left ↦ rw null (rw none_left refl)
    | inr some_left ↦ rw null (rw some_left refl)
  ]
  | inr has ↦ elim (Bool-cases (is_normal ((add_entry x a).1))) [
    | inl stays ↦ rw has (rw stays refl)
    | inr fills ↦ rw has (rw fills refl)
  ]
]

drain_all-mark : (xs : List ℕ) (a : Allocator) → (drain_all xs a).hiwater_mark ≡ a.hiwater_mark
unfolding drain_all
drain_all-mark [] a = refl
drain_all-mark (x ∷ xs) a = drain_all-mark xs (drain_one x a) ∙ drain_one-mark x a

drain_l1-mark : (target : ℕ) (a : Allocator) → (drain_l1 target a).1.hiwater_mark ≡ a.hiwater_mark
unfolding drain_l1 init_l2
drain_l1-mark target a =
    let base = length a.l1 - target in
    elim (Bool-cases (l2_valid a)) [
      | inl there ↦ rw there (drain_all-mark (drop base a.l1) (record a { l1 = take base a.l1 }))
      | inr absent ↦
          rw absent (drain_all-mark (drop base a.l1) (record (init_l2 a) { l1 = take base a.l1 }))
    ]

make_space-mark : (st : Local) → (make_space st).0.hiwater_mark ≡ st.0.hiwater_mark
unfolding make_space drain_cache
make_space-mark (a, tc) =
    let over = ltb l1_capacity (length a.l1 + length tc) in
    elim (Bool-cases (leb cache_capacity (length tc))) [
      | inl full ↦ elim (Bool-cases over) [
        | inl drains ↦ rw full (rw drains (drain_l1-mark (l1_capacity / 2) a))
        | inr fits ↦ rw full (rw fits refl)
      ]
      | inr room ↦ rw room refl
    ]

used-split :
    (y x : ℕ) (before after : List ℕ)
    → count y (before ++ x ∷ after) ≡ one x y + count y (before ++ after)
unfolding count
used-split y x before after =
    omega (arith, count-append y before (x ∷ after), count-append y before after)

make-free_in : (y : ℕ) (memory : Allocator) → free_in y (make memory) ≡ 0
unfolding free_in count make
make-free_in y memory = omega arith

stored-remaining :
    (y n t : ℕ) (s : System) (st : Local)
    → t < n
    → remaining y n (stored s t st) + available y (seen_by s t) ≡ remaining y n s + available y st
unfolding remaining free
stored-remaining y n t s (a, tc) under = omega (arith, one_cache y n t s.caches tc under)

context_free-mark :
    (x : ℕ) (st st' : Local) → context_free x st ≡ some st' → st'.0.hiwater_mark ≡ st.0.hiwater_mark
context_free-mark x st st' q =
    let (_, same) = context_free_inv x st st' q in rw same (make_space-mark st)

freed-available :
    (x y : ℕ) (st st' : Local)
    → context_free x st ≡ some st'
    → free y st' ≡ one x y + free y st
    → available y st' ≡ one x y + available y st
freed-available x y st st' q same =
    let above =
      ap {B = ℕ} (λ (m : ℕ). if leb m (y % 2 ^ 32) then 1 else 0) (context_free-mark x st st' q) in
    omega (arith, same, above)

-- Each OID is at exactly one place, in every state that `n` threads reach by taking OIDs while the second
-- level need not be read, and giving back what was taken, with no assertion failing: it is taken, and once only, or it is in
-- one thread's cache, on one level, or above the high water mark. So no OID is handed out to two
-- takers, and none is lost.
pub Run-exact :
    (mem : Lanes) (n : ℕ) (s : System) (used : List ℕ)
    → Run mem n s used
    → ((y : ℕ) → count y used + remaining y n s ≡ 1) × IsConsistent s.alloc
unfolding remaining count make IsConsistent
Run-exact mem n s used (begins memory) =
    (λ y. ground (arith, no_caches y n, make-free_in y memory), inl refl)
Run-exact mem n s used (takes {s = was} {used = old} t x st run under quiet got) =
    let (exact, consistent) = Run-exact mem n was old run in
    let (took, _) = context_allocate-available mem (seen_by was t) st x quiet got in
    let kept =
      subst (Gives Taken) got (context_allocate-IsConsistent mem (seen_by was t) consistent) in
    (
      λ y. omega (arith, exact y, took y, stored-remaining y n t was st under),
      given Taken (x, st) kept,
    )
Run-exact mem n s used (gives {s = was} before after t x st run under done) =
    let (exact, consistent) = Run-exact mem n was (before ++ x ∷ after) run in
    let freed = λ (y : ℕ).
      context_free-free x y (seen_by was t) st consistent (λ z. omega (arith, exact z)) done in
    (
      λ y. omega (
        arith,
        exact y,
        (freed y).0,
        freed-available x y (seen_by was t) st done ((freed y).0),
        used-split y x before after,
        stored-remaining y n t was st under,
      ),
      (freed x).2,
    )
