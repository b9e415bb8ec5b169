-- ===== src/XidAlloc/Reach.antt =====
-- dbcore/xid.h and dbcore/xid.cpp: what the steps of all threads lead to, with a round of `xid_alloc` for one step.
use preemptdb.Prelude.{ℕ, ◌/◌, ◌≡◌, ◌≢◌, refl, sym, ap, ◌∙◌, true, some, arith}
use preemptdb.XidAlloc.{Pool, half, global_init, take_one, xid_free, grab, open_epoch}
use preemptdb.XidAlloc.Places.{Place, shared, local_word, owned, holds, IsValid}
use preemptdb.XidAlloc.Kept.{grab-IsValid, take-IsValid, free-IsValid, open-IsValid}

-- What a thread or the epoch manager may do; an XID that is freed is a real one.
pub data Step (s : Pool) : Pool → Type 0 where
  grabs : {s' : Pool} (t e : ℕ) → grab s t e ≡ some s' → Step s s'
  takes : {s' : Pool} (t x : ℕ) → take_one s t ≡ some (x, s') → Step s s'
  frees : {s' : Pool} (x : ℕ) → x ≢ 0 → xid_free s x ≡ some s' → Step s s'
  opens : (e : ℕ) → Step s (open_epoch s e)

pub data Reachable : Pool → Type 0 where
  starts : Reachable global_init
  steps : {s s' : Pool} → Reachable s → Step s s' → Reachable s'

Step-IsValid : (s s' : Pool) → IsValid s → Step s s' → IsValid s'
Step-IsValid s s' v (grabs t e q) = grab-IsValid s s' t e v q
Step-IsValid s s' v (takes t x q) = take-IsValid s s' t x v q
Step-IsValid s s' v (frees x real q) = free-IsValid s s' x v real q
Step-IsValid s _ v (opens e) = open-IsValid s e v

init_home : (p : Place) (id : ℕ) → holds global_init p id ≡ true → p ≡ shared (id / half)
unfolding holds global_init
init_home (shared k) id h = ap shared (ground arith)
init_home (local_word t) id h = ground arith
init_home owned id h = ground arith

init-IsValid : IsValid global_init
unfolding global_init
init-IsValid = record {
  unique = λ id p q hp hq. init_home p id hp ∙ sym (init_home q id hq);
  local_half = λ t id h. let bad = init_home (local_word t) id h in cc;
  owned_half = λ id real. absurd (real refl);
}

-- With each round of `xid_alloc` for one step: from the initial bitmaps on, whatever threads grab words, take contexts, free them and open epochs, in
-- whatever order: no context is at two places, of a bitmap, a thread's word and an owner, and each is in the
-- half of the contexts that its epoch uses.
pub Reachable-IsValid : (s : Pool) → Reachable s → IsValid s
Reachable-IsValid s starts = init-IsValid
Reachable-IsValid s (steps {s = s0} r step) = Step-IsValid s0 s (Reachable-IsValid s0 r) step
