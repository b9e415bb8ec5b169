-- ===== src/CommitQueue/Enqueue.antt =====
-- `tls_log::enqueue_committed_xct` of dbcore/dlog.cpp: it retries while the queue is nearly full, and makes it
-- longer every eleventh time. What flushing the logs and dequeuing do to the queue is an argument.
use preemptdb.Prelude.{
  ℕ, zero, suc, ◌+◌, ◌*◌, ◌^◌, ◌≤◌, ◌<◌, ◌≡◌, true, false, Option, some, none, leb, if◌then◌else◌,
}
use preemptdb.CommitQueue.{Entry, CommitQueue, Pushed, push_back, extend}

-- What becomes of the queue in the `n`-th flush
abbrev pub Flushes : Type 0
Flushes = ℕ → CommitQueue → CommitQueue

-- From the label `retry` to the test of `flush` at the end. The clock gives
-- each call of `push_back` its entry's start time.
unfoldable pub try_once : Flushes → (ℕ → Entry) → ℕ → ℕ → Pushed → Pushed
unfolding push_back extend
try_once flushes entry n count p =
    let q = if p.flush then flushes n p.after else p.after in
    let p' = push_back q (entry (n + n)) false p.insert in
    if leb 10 count then push_back (extend p'.after) (entry (n + n + 1)) p'.flush p'.insert else p'

-- The test of `flush` at the end of a round
unfoldable pub unless_flush : Pushed → Option Pushed → Option Pushed
unless_flush p rest = if p.flush then rest else some p

-- The retries; each round's `count` starts anew after the queue has been made longer.
unfoldable pub retry : ℕ → Flushes → (ℕ → Entry) → ℕ → ℕ → Pushed → Option Pushed
unfolding try_once unless_flush
retry zero flushes entry n count p = none
retry (suc fuel) flushes entry n count p =
    let p' = try_once flushes entry n count p in
    unless_flush p' (retry fuel flushes entry (n + 1) (if leb 10 count then 1 else count + 1) p')

unfoldable pub enqueue_committed_xct : Flushes → (ℕ → Entry) → CommitQueue → Option Pushed
enqueue_committed_xct flushes entry q =
    retry 13 flushes entry 0 0 (record { after = q; flush = false; insert = true })

-- Flushing adds no entries, and leaves the length.
abbrev pub OnlyDequeues : Flushes → Type 0
OnlyDequeues flushes =
    (n : ℕ) (q : CommitQueue) → ((flushes n q).items ≤ q.items) × ((flushes n q).length ≡ q.length)

abbrev pub Fits : CommitQueue → Type 0
Fits q = (2 ≤ q.length) × (q.length ≤ 2 ^ 30) × (q.items ≤ q.length)

-- The rounds ended, and the flag says that the entry was written.
abbrev Done : Option Pushed → Type 0
Done o = (p : Pushed) × (o ≡ some p) × (p.insert ≡ false)

-- Less than four fifths of the queue are in use.
abbrev IsCalm : CommitQueue → Type 0
IsCalm q = (1 ≤ q.length) × (5 * q.items < 4 * q.length)

abbrev flushed : Flushes → ℕ → Pushed → CommitQueue
flushed flushes n p = if p.flush then flushes n p.after else p.after
