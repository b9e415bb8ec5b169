-- ===== src/CommitQueue.antt =====
-- dbcore/pcommit.h and dbcore/pcommit.cpp: the queue of transactions that wait for durability, and
-- the CSN up to which all transactions are durable. The queue's lock makes each call of `push_back` and of
-- `dequeue_committed_xcts` one step; `extend` takes no lock, and is taken to run alone. The clock is an
-- argument. `uint32_t` and `uint64_t` fields wrap.
pub mod Contents
pub mod Queue
pub mod Dequeue
pub mod Durable
pub mod Enqueue
use preemptdb.Prelude.{
  ℕ, zero, suc, ◌+◌, ◌-◌, ◌*◌, ◌/◌, ◌%◌, ◌^◌, bit_and, bit_or, Bool, true, false, not, ◌&&◌, ltb,
  leb, ◌==◌, if◌then◌else◌, List, [], ◌∷◌, min,
}

abbrev pub u32_mod : ℕ
u32_mod = 2 ^ 32

abbrev pub u64_mod : ℕ
u64_mod = 2 ^ 64

pub record Entry : Type 0 where
  pub csn : ℕ
  pub start_time : ℕ

-- `queue` is the array, read and written below `length` only.
pub record CommitQueue : Type 0 where
  pub queue : ℕ → Entry
  pub start : ℕ
  pub items : ℕ
  pub total_latency_us : ℕ
  pub length : ℕ

abbrev pub no_entry : Entry
no_entry = record { csn = 0; start_time = 0 }

pub init : ℕ → CommitQueue
init queue_length = record {
  queue = λ _. no_entry;
  start = 0;
  items = 0;
  total_latency_us = 0;
  length = queue_length;
}

abbrev pub write_at : (ℕ → Entry) → ℕ → Entry → ℕ → Entry
write_at array i e j = if j == i then e else array j

-- What `push_back` leaves in the queue and in the two flags that it is handed.
pub record Pushed : Type 0 where
  pub after : CommitQueue
  pub flush : Bool
  pub insert : Bool

-- `items >= length * 0.8`, cleared of the fraction
abbrev pub nearly_full : CommitQueue → Bool
nearly_full q = leb (4 * q.length) (5 * q.items)

abbrev pub slot : CommitQueue → ℕ → ℕ
slot q j = (q.start + j) % u32_mod % q.length

pub push_back : CommitQueue → Entry → Bool → Bool → Pushed
push_back q e flush insert =
    if insert && ltb q.items q.length
    then record {
      after = record q {
        queue = write_at q.queue (slot q q.items) e;
        items = (q.items + 1) % u32_mod;
      };
      flush = if nearly_full q then true else flush;
      insert = false;
    }
    else record { after = q; flush = if nearly_full q then true else flush; insert = insert }

-- `new Entry[length * 2]` and a `memcpy` of the first `length` entries
pub extend : CommitQueue → CommitQueue
extend q = record q {
  queue = λ i. if ltb i q.length then q.queue i else no_entry;
  length = q.length * 2 % u32_mod;
}

-- The loop of `dequeue_committed_xcts`: entries `j`, `j + 1`, … of `left`, up to the first that is
-- not durable; the count so far and the latency so far.
pub record Drain : Type 0 where
  pub dequeue : ℕ
  pub latency : ℕ

pub drain : CommitQueue → ℕ → ℕ → ℕ → ℕ → Drain → Drain
drain q upto_csn end_time zero j d = d
drain q upto_csn end_time (suc left) j d =
    let entry = q.queue (slot q j) in
    let rest = drain q upto_csn end_time left (j + 1) (record {
      dequeue = d.dequeue + 1;
      latency = (d.latency + (end_time + u64_mod - entry.start_time)) % u64_mod;
    }) in
    if ltb upto_csn entry.csn then d else rest

pub dequeue_committed_xcts : CommitQueue → ℕ → ℕ → CommitQueue
dequeue_committed_xcts q upto_csn end_time =
    let d =
      drain q upto_csn end_time q.items 0 (record { dequeue = 0; latency = q.total_latency_us }) in
    record q { items = q.items - d.dequeue; start = slot q d.dequeue; total_latency_us = d.latency }

-- Bit 63 of a thread's durable CSN: some of its log blocks are not durable.
abbrev pub dirty_flag : ℕ
dirty_flag = 2 ^ 63

pub set_dirty_flag : ℕ → ℕ
set_dirty_flag csn = bit_or csn dirty_flag

pub record Scan : Type 0 where
  pub found : Bool
  pub min_dirty : ℕ
  pub max_clean : ℕ

-- One round of the loop over `_tls_durable_csn`; `csn & ~DIRTY_FLAG` keeps the low 63 bits.
pub scan_step : ℕ → Scan → Scan
scan_step csn s =
    if csn == 0
    then s
    else if bit_and csn dirty_flag == 0
    then (if ltb s.max_clean csn then record s { max_clean = csn } else s)
    else record s { min_dirty = min (bit_and csn (2 ^ 63 - 1)) s.min_dirty; found = true }

pub scan : List ℕ → Scan → Scan
scan [] s = s
scan (csn ∷ rest) s = scan rest (scan_step csn s)

pub get_global_durable_csn : List ℕ → ℕ
get_global_durable_csn csns =
    let s = scan csns (record { found = false; min_dirty = u64_mod - 1; max_clean = 0 }) in
    if s.found then s.min_dirty else s.max_clean
