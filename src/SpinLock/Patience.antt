-- ===== src/SpinLock/Patience.antt =====
-- How long a thread waits between two reads of the lock
use preemptdb.Prelude.{
  ℕ, ◌+◌, ◌%◌, ◌≤◌, ◌<◌, ◌≡◌, ◌≢◌, refl, sym, ◌∙◌, ◌⊎◌, inl, inr, Bool-cases, ◌==◌, set_at, arith,
}
use native.Mathlib.Nat.{mod-lt}
use preemptdb.SpinLock.{
  Stage, outside, seen_free, inside, Waiter, State, call_lock, load, swap, unlock, back_off, calls,
  loads, swaps, unlocks, new_lock, Reachable, starts, steps, backoff_base, backoff_limit, next_seed,
  next_u32,
}

-- The bounds of a wait, and of the next
unfoldable pub IsPatient : Waiter → Type 0
IsPatient w =
    (w.stage ≡ outside)
    ⊎ ((w.delay < backoff_limit) × (backoff_base ≤ w.max_delay) × (w.max_delay ≤ backoff_limit))

back_off-IsPatient :
    (w : Waiter) → backoff_base ≤ w.max_delay → w.max_delay ≤ backoff_limit → IsPatient (back_off w)
unfolding IsPatient back_off next_seed next_u32
back_off-IsPatient w low high =
    let r = next_u32 (next_seed w.seed) in
    let small : r % w.max_delay < w.max_delay = mod-lt r (omega arith) in
    inr (omega (arith, small), omega arith, omega arith)

-- A change of the stage alone
same-IsPatient :
    (w : Waiter) (p : Stage) → w.stage ≢ outside → IsPatient w → IsPatient (record w { stage = p })
unfolding IsPatient
same-IsPatient w p at (inl out) = absurd (at out)
same-IsPatient w p at (inr bounds) = inr bounds

failed-IsPatient :
    (w : Waiter) (n : ℕ)
    → w.stage ≢ outside
    → IsPatient w
    → IsPatient (back_off (record w { cas_failure = n }))
unfolding IsPatient
failed-IsPatient w n at (inl out) = absurd (at out)
failed-IsPatient w n at (inr (_, low, high)) =
    back_off-IsPatient (record w { cas_failure = n }) low high

load-IsPatient :
    (lock_ : ℕ) (w : Waiter) → w.stage ≢ outside → IsPatient w → IsPatient (load lock_ w)
unfolding load
load-IsPatient lock_ w at patient = elim (Bool-cases (lock_ == 0)) [
  | inl free ↦ rw free (same-IsPatient w seen_free at patient)
  | inr taken ↦ rw taken (failed-IsPatient w w.cas_failure at patient)
]

swap-IsPatient :
    (lock_ : ℕ) (w : Waiter) → w.stage ≢ outside → IsPatient w → IsPatient ((swap lock_ w).1)
unfolding swap
swap-IsPatient lock_ w at patient = elim (Bool-cases (lock_ == 0)) [
  | inl free ↦ rw free (same-IsPatient w inside at patient)
  | inr taken ↦ rw taken (failed-IsPatient w (w.cas_failure + 1) at patient)
]

abbrev Patient : State → Type 0
Patient s = (t : ℕ) → IsPatient (s.threads t)

one-Patient :
    (f : ℕ → Waiter) (t : ℕ) (w : Waiter)
    → ((t' : ℕ) → IsPatient (f t'))
    → IsPatient w
    → (t' : ℕ) → IsPatient (set_at f t w t')
one-Patient f t w all this t' = elim (Bool-cases (t' == t)) [
  | inl same ↦ rw same this
  | inr other ↦ rw other (all t')
]

-- In every state that the threads' steps lead to, a thread at the lock waits for less than 32,000 rounds
-- before it reads the word again, and takes its next wait from between 4,000 and 32,000 values: it
-- never divides by zero.
pub Reachable-IsPatient : (s : State) (t : ℕ) → Reachable s → IsPatient (s.threads t)
unfolding IsPatient new_lock call_lock unlock
Reachable-IsPatient s t starts = inl refl
Reachable-IsPatient s t (steps {s = was} reach (calls t' address out)) =
    one-Patient was.threads t' (call_lock address) (λ k. Reachable-IsPatient was k reach)
      (inr (omega arith, omega arith, omega arith)) t
Reachable-IsPatient s t (steps {s = was} reach (loads t' waits)) =
    let w = was.threads t' in
    one-Patient was.threads t' (load was.lock_ w) (λ k. Reachable-IsPatient was k reach)
      (load-IsPatient was.lock_ w (λ e. ground (arith, sym waits ∙ e))
        (Reachable-IsPatient was t' reach))
      t
Reachable-IsPatient s t (steps {s = was} reach (swaps t' tries)) =
    let w = was.threads t' in
    one-Patient was.threads t' ((swap was.lock_ w).1) (λ k. Reachable-IsPatient was k reach)
      (swap-IsPatient was.lock_ w (λ e. ground (arith, sym tries ∙ e))
        (Reachable-IsPatient was t' reach))
      t
Reachable-IsPatient s t (steps {s = was} reach (unlocks t' in')) =
    one-Patient was.threads t' (record (was.threads t') { stage = outside })
      (λ k. Reachable-IsPatient was k reach) (inl refl) t
