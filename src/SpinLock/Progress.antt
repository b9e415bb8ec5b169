-- ===== src/SpinLock/Progress.antt =====
-- `TATAS` of dbcore/sm-spinlock.cpp: the steps that let a waiting thread in.
use preemptdb.Prelude.{
  ℕ, ◌≡◌, ◌≢◌, refl, sym, ap, ◌∙◌, ◌⊎◌, inl, inr, true, Bool-cases, ◌==◌, set_at, arith,
}
use preemptdb.SpinLock.{
  Stage, outside, retrying, seen_free, inside, Waiter, State, load, swap, unlock, with_thread,
  with_both, Step, loads, swaps, unlocks, Reachable,
}
use preemptdb.SpinLock.Exclusive.{IsExclusive, Reachable-IsExclusive}

-- Any number of steps
pub data Steps : State → State → Type 0 where
  none_more : {s : State} → Steps s s
  one_more : {s s' s'' : State} → Step s s' → Steps s' s'' → Steps s s''

-- A state with the thread inside can be reached.
abbrev pub CanEnter : State → ℕ → Type 0
CanEnter s t = (s' : State) × Steps s s' × ((s'.threads t).stage ≡ inside)

own : (f : ℕ → Waiter) (t : ℕ) (w : Waiter) → set_at f t w t ≡ w
own f t w = let here : (t == t) ≡ true = ground arith in rw here refl

seen_free-CanEnter :
    (s : State) (t : ℕ) → s.lock_ ≡ 0 → (s.threads t).stage ≡ seen_free → CanEnter s t
unfolding swap
seen_free-CanEnter s t free tries =
    let zero : (s.lock_ == 0) ≡ true = ground arith in
    let (word, w) = swap s.lock_ (s.threads t) in
    let in' : w.stage ≡ inside = rw zero refl in
    (
      with_both s t (word, w),
      one_more (swaps t tries) none_more,
      ap (λ (v : Waiter). v.stage) (own s.threads t w) ∙ in',
    )

further : (s s' : State) (t : ℕ) → Step s s' → CanEnter s' t → CanEnter s t
further s s' t step (s'', more, in') = (s'', one_more step more, in')

retrying-CanEnter :
    (s : State) (t : ℕ) → s.lock_ ≡ 0 → (s.threads t).stage ≡ retrying → CanEnter s t
unfolding load
retrying-CanEnter s t free waits =
    let zero : (s.lock_ == 0) ≡ true = ground arith in
    let w = load s.lock_ (s.threads t) in
    let sees : w.stage ≡ seen_free = rw zero refl in
    further s (with_thread s t w) t (loads t waits) (
      seen_free-CanEnter (with_thread s t w) t free
        (ap (λ (v : Waiter). v.stage) (own s.threads t w) ∙ sees))

free-CanEnter :
    (s : State) (t : ℕ)
    → s.lock_ ≡ 0
    → ((s.threads t).stage ≡ retrying) ⊎ ((s.threads t).stage ≡ seen_free)
    → CanEnter s t
free-CanEnter s t free (inl waits) = retrying-CanEnter s t free waits
free-CanEnter s t free (inr tries) = seen_free-CanEnter s t free tries

untouched :
    (s : State) (o t : ℕ) (w : Waiter)
    → (s.threads o).stage ≢ (s.threads t).stage
    → set_at s.threads o w t ≡ s.threads t
untouched s o t w differ = elim (Bool-cases (t == o)) [
  | inl same ↦ absurd (differ (ap (λ k. (s.threads k).stage) (sym (ground arith))))
  | inr other ↦ rw other refl
]

owner_differs : (p q : Stage) → p ≡ inside → (q ≡ retrying) ⊎ (q ≡ seen_free) → p ≢ q
owner_differs p q in' (inl waits) = λ e. ground (arith, sym in' ∙ (e ∙ waits))
owner_differs p q in' (inr tries) = λ e. ground (arith, sym in' ∙ (e ∙ tries))

-- No deadlock: in every state that the threads' steps lead to, some further steps let a thread in that is
-- waiting in `lock`, whether another thread is past `lock` or not.
pub waiting_enters :
    (s : State) (t : ℕ)
    → Reachable s
    → ((s.threads t).stage ≡ retrying) ⊎ ((s.threads t).stage ≡ seen_free)
    → (s' : State) × Steps s s' × ((s'.threads t).stage ≡ inside)
unfolding IsExclusive unlock
waiting_enters s t reach waits = elim (Reachable-IsExclusive s reach) [
  | inl (free, nobody) ↦ free-CanEnter s t free waits
  | inr (taken, (o, in', alone)) ↦
      let w : Waiter = record (s.threads o) { stage = outside } in
      let same : (set_at s.threads o w t).stage ≡ (s.threads t).stage =
        ap (λ (v : Waiter). v.stage)
          (untouched s o t w
            (owner_differs ((s.threads o).stage) ((s.threads t).stage) in' waits)) in
      further s (with_both s o (0, w)) t (unlocks o in') (
        free-CanEnter (with_both s o (0, w)) t refl
          (elim waits [ inl retries ↦ inl (same ∙ retries) | inr tries ↦ inr (same ∙ tries) ]))
]
