-- ===== src/SpinLock/Exclusive.antt =====
-- `TATAS` of dbcore/sm-spinlock.cpp: its word, and who is past `lock`.
use preemptdb.Prelude.{
  ℕ, ◌+◌, ◌≡◌, ◌≢◌, refl, sym, ap, ◌∙◌, ◌⊎◌, inl, inr, true, Bool-cases, ◌==◌, set_at, arith,
}
use preemptdb.SpinLock.{
  outside, inside, Waiter, State, call_lock, load, swap, unlock, back_off, with_thread, with_both,
  Step, calls, loads, swaps, unlocks, new_lock, Reachable, starts, steps,
}

-- The word is 0 and nobody is inside, or it is not and one thread alone is inside.
unfoldable pub IsExclusive : State → Type 0
IsExclusive s =
    ((s.lock_ ≡ 0) × ((t : ℕ) → (s.threads t).stage ≢ inside))
    ⊎ ((s.lock_ ≢ 0)
        × ((o : ℕ) × ((s.threads o).stage ≡ inside)
            × ((t : ℕ) → (s.threads t).stage ≡ inside → t ≡ o)))

-- A thread that is not inside before or after: who is inside stays the same.
elsewhere :
    (s : State) (t t' : ℕ) (w : Waiter)
    → w.stage ≢ inside
    → (set_at s.threads t w t').stage ≡ inside
    → (s.threads t').stage ≡ inside
elsewhere s t t' w out in' = elim (Bool-cases (t' == t)) [
  | inl same ↦ absurd (out (rw same at in'))
  | inr other ↦ rw other at in'
]

still_inside :
    (s : State) (t t' : ℕ) (w : Waiter)
    → (s.threads t).stage ≢ inside
    → (s.threads t').stage ≡ inside
    → (set_at s.threads t w t').stage ≡ inside
still_inside s t t' w out in' = elim (Bool-cases (t' == t)) [
  | inl same ↦
      let at' : (s.threads t').stage ≡ (s.threads t).stage =
        ap (λ k. (s.threads k).stage) (ground arith) in
      absurd (out (sym at' ∙ in'))
  | inr other ↦ rw other in'
]

outer-IsExclusive :
    (s : State) (t : ℕ) (w : Waiter)
    → IsExclusive s
    → (s.threads t).stage ≢ inside
    → w.stage ≢ inside
    → IsExclusive (with_thread s t w)
unfolding IsExclusive
outer-IsExclusive s t w (inl (free, nobody)) before after =
    inl (free, λ t' in'. nobody t' (elsewhere s t t' w after in'))
outer-IsExclusive s t w (inr (taken, (o, in', alone))) before after = inr (
  taken,
  (o, still_inside s t o w before in', λ t' in''. alone t' (elsewhere s t t' w after in'')),
)

load-stage : (lock_ : ℕ) (w : Waiter) → (load lock_ w).stage ≢ inside
unfolding load back_off
load-stage lock_ w = elim (Bool-cases (lock_ == 0)) [
  | inl free ↦ λ e. ground (arith, (rw free at e))
  | inr taken ↦ λ e. ground (arith, (rw taken at e))
]

entered-IsExclusive :
    (s : State) (t : ℕ) (w : Waiter)
    → IsExclusive s
    → s.lock_ ≡ 0
    → w.stage ≡ inside
    → IsExclusive (with_both s t (1, w))
unfolding IsExclusive
entered-IsExclusive s t w (inl (_, nobody)) free in' = inr (
  λ e. ground (arith, e),
  (
    t,
    (let here : (t == t) ≡ true = ground arith in rw here in'),
    λ t' in''. elim (Bool-cases (t' == t)) [
      | inl same ↦ ground arith
      | inr other ↦ absurd (nobody t' (rw other at in''))
    ],
  ),
)
entered-IsExclusive s t w (inr (taken, _)) free in' = absurd (taken free)

left-IsExclusive :
    (s : State) (t : ℕ) (w : Waiter)
    → IsExclusive s
    → (s.threads t).stage ≡ inside
    → w.stage ≢ inside
    → IsExclusive (with_both s t (0, w))
unfolding IsExclusive
left-IsExclusive s t w (inl (_, nobody)) in' out = absurd (nobody t in')
left-IsExclusive s t w (inr (_, (o, _, alone))) in' out = inl (
  refl,
  λ t' in''.
      let there = elsewhere s t t' w out in'' in
      let same : t' ≡ t = alone t' there ∙ sym (alone t in') in
      let here : (t' == t) ≡ true = ground arith in out (rw here at in''),
)

Step-IsExclusive : (s s' : State) → IsExclusive s → Step s s' → IsExclusive s'
unfolding swap unlock call_lock back_off
Step-IsExclusive s s' safe (calls t address out) =
    outer-IsExclusive s t (call_lock address) safe (λ e. ground (arith, sym out ∙ e))
      (λ e. ground (arith, e))
Step-IsExclusive s s' safe (loads t waits) =
    outer-IsExclusive s t (load s.lock_ (s.threads t)) safe (λ e. ground (arith, sym waits ∙ e))
      (load-stage s.lock_ (s.threads t))
Step-IsExclusive s s' safe (swaps t tries) = elim (Bool-cases (s.lock_ == 0)) [
  | inl free ↦
      rw free
        (entered-IsExclusive s t (record (s.threads t) { stage = inside }) safe (ground arith) refl)
  | inr taken ↦
      let w = s.threads t in
      rw taken (
        outer-IsExclusive s t (back_off (record w { cas_failure = w.cas_failure + 1 })) safe
          (λ e. ground (arith, sym tries ∙ e)) (λ e. ground (arith, e)))
]
Step-IsExclusive s s' safe (unlocks t in') =
    left-IsExclusive s t (record (s.threads t) { stage = outside }) safe in'
      (λ e. ground (arith, e))

-- In every state that the steps of any number of threads lead to, the word of the lock is 0 and no thread is
-- past `lock`, or it is not 0 and exactly one thread is.
pub Reachable-IsExclusive : (s : State) → Reachable s → IsExclusive s
unfolding IsExclusive new_lock
Reachable-IsExclusive s starts = inl (refl, λ t e. ground (arith, e))
Reachable-IsExclusive s (steps {s = before} reach step) =
    Step-IsExclusive before s (Reachable-IsExclusive before reach) step
