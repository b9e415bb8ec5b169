-- ===== src/TlsLog/Defs.antt =====
-- dbcore/dlog.h: the state of one thread's log, its configuration and its outcomes.
use preemptdb.Prelude.{ℕ, ◌+◌, ◌%◌, Bool, List}
use preemptdb.CommitQueue.{CommitQueue, u64_mod}

-- What `ermia::config`, the build and the other threads supply: `log_direct_io`,
-- `null_log_device`, `pcommit_thread`, PAGE_SIZE, the durable CSNs of the other threads, the clock.
pub record Config : Type 0 where
  pub direct_io : Bool
  pub null_device : Bool
  pub commit_thread : Bool
  pub page_size : ℕ
  pub other_csns : List ℕ
  pub now : ℕ

pub record Segment : Type 0 where
  pub start_offset : ℕ
  pub size : ℕ
  pub expected_size : ℕ

-- A write that was handed to the ring: `size` bytes of a buffer at `offset` of segment `segnum`.
pub record Submission : Type 0 where
  pub segnum : ℕ
  pub offset : ℕ
  pub size : ℕ

-- `second_active` says which of the two buffers is active. `current` is the last segment and
-- `closed` those before it; `ring` holds the submitted writes, oldest first.
pub record TlsLog : Type 0 where
  pub flushing : Bool
  pub logbuf_size : ℕ
  pub second_active : Bool
  pub last_csn_first : ℕ
  pub last_csn_second : ℕ
  pub latest_csn : ℕ
  pub logbuf_offset : ℕ
  pub durable_lsn : ℕ
  pub current_lsn : ℕ
  pub segment_size : ℕ
  pub closed : List Segment
  pub current : Segment
  pub ring : List Submission
  pub tls_durable_csn : ℕ
  pub queue : CommitQueue
  pub daemon_has_work : Bool

-- `fatal` is LOG(FATAL); `waits` is a poll of a ring that holds nothing, which never returns.
pub data Result {ℓ} (A : Type ℓ) : Type ℓ where
  ok : A → Result A
  fatal : Result A
  waits : Result A

infixl 5 ◌>>=◌
abbrev pub ◌>>=◌ {ℓ κ} : {A : Type ℓ} {B : Type κ} → Result A → (A → Result B) → Result B
ok a >>= f = f a
fatal >>= f = fatal
waits >>= f = waits

-- `uint64_t` sums
infixl 65 ◌+u64◌
abbrev pub ◌+u64◌ : ℕ → ℕ → ℕ
a +u64 b = (a + b) % u64_mod
