-- ===== src/Lib.antt =====
-- PreemptDB is a memory-optimized multi-version database engine whose transactions can be
-- preempted. A transaction gets an XID and a context that other transactions consult. Its versions
-- hang in a chain from the OID array entry of each tuple; a version carries its writer's XID until
-- the writer stamps it with a commit sequence number (CSN). At commit the transaction puts a block
-- in the log of its thread, stamps its versions, and waits in that thread's commit queue until the
-- log of every thread is durable up to its CSN.
--
-- The files, and the code that each models:
-- - Prelude: Boolean tests, lists, and bit operations on the native numbers.
-- - SizeEncode: dbcore/size-encode.cpp, dbcore/size-encode.h and the alignment helpers of
--   dbcore/sm-defs.h. `search` is the loop of `encode_size_aligned`; the other names are the
--   code's.
-- - FatPtr: `fat_ptr` of dbcore/sm-common.h; FatPtr/Lsn, FatPtr/Xid and FatPtr/Csn are the structs
--   of these names. A word is a number below 2 ^ 64.
-- - CommitQueue: `commit_queue` and `tls_committer` of dbcore/pcommit.h and dbcore/pcommit.cpp.
--   CommitQueue/Contents is the abstract queue, a list of entries. CommitQueue/Enqueue is
--   `enqueue_committed_xct` of dbcore/dlog.cpp; 13 rounds are enough for it.
-- - TlsLog: `tls_log` of dbcore/dlog.h and dbcore/dlog.cpp. TlsLog/Defs is its state, with the
--   list of writes submitted to the ring; `complete`, `settle` and `submit` are parts of
--   `poll_flush` and `issue_flush`, `relocate`, `make_room`, `append` and `new_block` parts of
--   `allocate_log_block`.
-- - Visibility: `TestVisibility` and `oid_get_version` of dbcore/sm-oid.cpp, and `xid_get_context`
--   of dbcore/xid.h, in the build for snapshot isolation (without SSN, SSI, RC, RC_SPIN).
-- - XidAlloc: `xid_alloc`, `take_one` and `xid_free` of dbcore/xid.h and dbcore/xid.cpp. `grab` is
--   a round of the loop of `xid_alloc`, `open_epoch` its reset of the next bitmap. XidAlloc/Places
--   says where a context is, XidAlloc/Reach what the steps of all threads can lead to.
-- - SparseBitset: `sparse_bitset` of dbcore/sm-oid-alloc.h, the sets in which the OID allocator
--   keeps freed OIDs.
-- - OidAlloc: `sm_allocator` of dbcore/sm-oid-alloc.h and dbcore/sm-oid-alloc.cpp, and
--   `context_allocate` and `context_free` of dbcore/sm-oid.cpp (OidAlloc/Context). `drain_one`,
--   `add_entry`, `retire` and `assign` are parts of `_drain_l1`; OidAlloc/Scan has the scans and
--   scavenges of the second level, with their filters and sinks; in OidAlloc/Fill, `reclaim_l3`
--   and the names before it are `_scavenge_l3`, and `part_l1`, `part_l2` and `part_bump` the parts
--   of `fill_cache`. OidAlloc/Owners says where a bitset is, OidAlloc/Held and OidAlloc/Free where
--   an OID is, OidAlloc/System and OidAlloc/Exact what the steps of all threads can lead to.
-- - Update: `UpdateTuple` of dbcore/sm-oid.cpp, `Object::Create` of dbcore/sm-object.cpp and
--   `UnlinkTuple` of dbcore/sm-oid.h, in the same build. `judge_update`, `wait_for_holder` and
--   `update_state` are the tests of the head, `install_at`, `swap_head`, `install_version` and
--   `overwrite_version` what follows the label `install`; `is_object` and `is_released` are
--   assertions.
-- - Txn: `transaction` of txn.h and txn.cc and the log records of dbcore/dlog-tx.h, in the same
--   build. Txn/Defs is the state; `post_one` is a round of the loop of `si_commit`,
--   `commit_writes` what follows its early returns. Txn/Write is `Update`, `Insert`, `DoTupleRead`
--   and the outer `commit`.
-- - RingQueue: `OneToOneQueue` of dbcore/ring-buff-queue.h. RingQueue/Fifo is the abstract queue.
-- - SpinLock: `TATAS` of dbcore/sm-spinlock.h and dbcore/sm-spinlock.cpp, over interleaved steps
--   of any number of threads.
-- - Examples: concrete states.
--
-- Integers of the code wrap where it lets them: `% 2 ^ 32` and `% 2 ^ 64` are written out. The
-- lock of a queue and of a log makes each of their calls one step; `extend` takes no lock, and
-- is taken to run alone. In XidAlloc the rounds of `xid_alloc` are one step, coarser than the
-- source's. Where an assertion that is modelled fails, a definition has no result, or one that
-- says so (`fatal`, `fails`, `failed`). In Visibility other threads change the memory between
-- any two reads: a history gives the memory at each tick, and each read takes one. Update is
-- stated over the same histories. Each operation of Txn is one step over a store.
--
-- Bounds: `search` takes eight rounds, since the range halves and starts below 2 ^ 8.
-- `test_visibility`, `get_version` and `update_tuple` take fuel, for the loops that wait for
-- another transaction; `spins` and `unfinished` say that it ran out. `fill_cache` has the fuel
-- that its jumps back to `drain_l1` need, and the other loops of OidAlloc that of their cursors,
-- which is enough for the scan of the third level where its hand is below its capacity. A
-- poll of a ring without a write would never return: `waits`. The log's statements ask for 2 ^ 34
-- bytes of room below the end of the 64-bit LSN.
--
-- Parameters: the clock, the durable CSNs of the other threads, the configuration and the page
-- size. `as_array` of a bitset reads at an address made of the bitset's numbers: what is there is
-- a parameter of OidAlloc. The kernel's ring is the list of submissions, completed in order and
-- without errors.
--
-- Not modelled: `encode_size`, which has no caller; reads from the
-- log; `_drain_l2`, which has no caller, and what only it uses, and the growth of the OID
-- array; epochs, and when one may be opened; the commit protocols other than snapshot isolation;
-- deallocation and garbage collection; the queue lock, a copy of another project's; the index
-- (masstree) and other third-party code; user interrupts and coroutines; the benchmarks.
pub mod Prelude
pub mod SizeEncode
pub mod FatPtr
pub mod CommitQueue
pub mod TlsLog
pub mod Visibility
pub mod RingQueue
pub mod Update
pub mod XidAlloc
pub mod SparseBitset
pub mod OidAlloc
pub mod SpinLock
pub mod Txn
mod Examples
