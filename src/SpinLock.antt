-- ===== src/SpinLock.antt =====
-- dbcore/sm-spinlock.h and dbcore/sm-spinlock.cpp: the lock `TATAS`, which reads its word before it tries to
-- swap it, and waits for a while in between. Each read, swap and write of the word is one step.
pub mod Exclusive
pub mod Progress
pub mod Patience
use preemptdb.Prelude.{ℕ, ◌+◌, ◌*◌, ◌/◌, ◌%◌, ◌^◌, min, bit_xor, ◌≡◌, ◌==◌, if◌then◌else◌, set_at}

-- Where a thread is: not at the lock, at the label `retry`, past a read that found the lock free, or past
-- `lock`
pub data Stage : Type 0 where
  outside : Stage
  retrying : Stage
  seen_free : Stage
  inside : Stage

-- The local variables of `lock`; `delay` is the argument of the last `DELAY`.
pub record Waiter : Type 0 where
  pub stage : Stage
  pub cas_failure : ℕ
  pub seed : ℕ
  pub max_delay : ℕ
  pub delay : ℕ

-- `kExpBackoffBase`, `kExpBackoffLimit` and `kExpBackoffMultiplier`
abbrev pub backoff_base : ℕ
backoff_base = 4000

abbrev pub backoff_limit : ℕ
backoff_limit = 32000

abbrev pub backoff_multiplier : ℕ
backoff_multiplier = 2

unfoldable pub next_seed : ℕ → ℕ
next_seed seed = (seed * 3494654325 + 1406832674) % 2 ^ 64

-- `next_u32`, once the seed has moved on
unfoldable pub next_u32 : ℕ → ℕ
next_u32 seed = bit_xor (seed / 2 ^ 32) (seed % 2 ^ 32)

-- The wait, with a longer one to follow, and back to `retry`
unfoldable pub back_off : Waiter → Waiter
unfolding next_seed next_u32
back_off w =
    let seed = next_seed w.seed in
    record w {
      stage = retrying;
      seed = seed;
      delay = next_u32 seed % w.max_delay;
      max_delay = min (w.max_delay * backoff_multiplier) backoff_limit;
    }

-- From the call of `lock` to `retry`. The seed is an address.
unfoldable pub call_lock : ℕ → Waiter
unfolding next_seed
call_lock address = record {
  stage = retrying;
  cas_failure = 0;
  seed = next_seed address;
  max_delay = backoff_base;
  delay = 0;
}

-- The read of the word
unfoldable pub load : ℕ → Waiter → Waiter
unfolding back_off
load lock_ w = if lock_ == 0 then record w { stage = seen_free } else back_off w

-- The swap: the word and the thread after it
unfoldable pub swap : ℕ → Waiter → ℕ × Waiter
unfolding back_off
swap lock_ w =
    if lock_ == 0
    then (1, record w { stage = inside })
    else (lock_, back_off (record w { cas_failure = w.cas_failure + 1 }))

-- `unlock`
unfoldable pub unlock : Waiter → ℕ × Waiter
unlock w = (0, record w { stage = outside })

-- The word of the lock, and all threads
pub record State : Type 0 where
  pub lock_ : ℕ
  pub threads : ℕ → Waiter

abbrev pub with_thread : State → ℕ → Waiter → State
with_thread s t w = record s { threads = set_at s.threads t w }

abbrev pub with_both : State → ℕ → ℕ × Waiter → State
with_both s t (lock_, w) = record { lock_ = lock_; threads = set_at s.threads t w }

-- A step of a thread
pub data Step (s : State) : State → Type 0 where
  calls :
      (t address : ℕ) → (s.threads t).stage ≡ outside → Step s (with_thread s t (call_lock address))
  loads :
      (t : ℕ)
      → (s.threads t).stage ≡ retrying
      → Step s (with_thread s t (load s.lock_ (s.threads t)))
  swaps :
      (t : ℕ)
      → (s.threads t).stage ≡ seen_free
      → Step s (with_both s t (swap s.lock_ (s.threads t)))
  unlocks : (t : ℕ) → (s.threads t).stage ≡ inside → Step s (with_both s t (unlock (s.threads t)))

-- A new lock, with no thread at it
unfoldable pub new_lock : State
new_lock = record {
  lock_ = 0;
  threads = λ _. record { stage = outside; cas_failure = 0; seed = 0; max_delay = 0; delay = 0 };
}

pub data Reachable : State → Type 0 where
  starts : Reachable new_lock
  steps : {s s' : State} → Reachable s → Step s s' → Reachable s'
