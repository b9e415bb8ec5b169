-- ===== src/Txn.antt =====
-- txn.h, txn.cc and dbcore/dlog-tx.h, in the build for snapshot isolation: a transaction's write set, its
-- log records, its commit and its abort. Each of these is one step over the store that it writes;
-- what others read meanwhile is the subject of Visibility.
mod Defs
pub mod Commit
pub mod Rounds
pub mod Stamped
pub mod Logged
pub mod Abort
pub mod Snapshot
pub mod Write
unfoldable pub use Defs.*
use preemptdb.Prelude.{
  set_at, ℕ, suc, ◌+◌, ◌*◌, ◌%◌, ◌^◌, Bool, true, false, not, ◌&&◌, ◌||◌, Option, none, some, List,
  [], ◌∷◌, ◌++◌, ltb, leb, ◌==◌, if◌then◌else◌, length,
}
use preemptdb.SizeEncode.{Encoded, align_up, encode_size_aligned}
use preemptdb.FatPtr.{asi_type, asi_xid, asi_log, asi_csn, offset}
use preemptdb.FatPtr.Lsn
use preemptdb.FatPtr.Xid
use preemptdb.FatPtr.Csn
use preemptdb.CommitQueue.{u32_mod, u64_mod}
use preemptdb.TlsLog.{Config, TlsLog, Block, Result, ok, fatal, waits, ◌>>=◌, allocate_log_block}
use preemptdb.Visibility.{
  TxnState, active, committing, committed, aborted, XidContext, Object, Memory,
}
use preemptdb.Update.{create, unlink_tuple}

-- The constructor: the XID and its context are allocated by the caller.
unfoldable pub start : Store → Bool → ℕ → Transaction
start s read_only xid = record {
  read_only = read_only;
  xid = xid;
  begin = s.current_csn;
  has_log = true;
  log_size = 0;
  write_set = [];
  absent_set = [];
}

-- The bytes of a log record with `size` bytes behind its header
unfoldable pub record_size : ℕ → ℕ
record_size size = align_up (size + record_header) alignment

-- `write_set_t::emplace_back` is fatal when the set is full.
unfoldable pub add_to_write_set : Transaction → ℕ → ℕ → ℕ → ℕ → Bool → Bool → Result Transaction
unfolding record_size
add_to_write_set tx entry fid oid size insert cold =
    if ltb (length tx.write_set) 256
    then ok (record tx {
      log_size = (tx.log_size + record_size (size + tuple_header)) % u32_mod;
      write_set =
          tx.write_set
          ++ record {
            entry = entry;
            fid = fid;
            oid = oid;
            size = (size + tuple_header) % u32_mod;
            is_insert = insert;
            is_cold = cold;
          }
            ∷ [];
    })
    else fatal

-- `log_record`, with its offset in the payload of its block
pub record LogRecord : Type 0 where
  pub is_insert : Bool
  pub fid : ℕ
  pub oid : ℕ
  pub csn : ℕ
  pub off : ℕ
  pub size : ℕ
  pub after_image : List ℕ

-- The image is the tuple's: `size` is what the write set says of it.
pub populate_log_record : Bool → Block → ℕ → ℕ → List ℕ → ℕ → Result (LogRecord × Block)
unfolding record_size
populate_log_record is_insert block fid oid after_image size =
    if ltb block.capacity ((block.payload_size + size) % u32_mod)
    then fatal
    else ok (
      record {
        is_insert = is_insert;
        fid = fid;
        oid = oid;
        csn = block.csn;
        off = block.payload_size;
        size = size;
        after_image = after_image;
      },
      record block { payload_size = (block.payload_size + record_size size) % u32_mod },
    )

-- `LSN::make(...).to_ptr()` for a record at `off` in the payload of a block; `make` asserts that the segment
-- number has four bits and the offset 40.
pub record_address : Config → ℕ → Block → ℕ → ℕ → Result ℕ
record_address c log_id block off size_code =
    let loff = block.cur_lsn + c.page_size + off in
    if leb (2 ^ 4) block.seg_num || leb (2 ^ 40) loff
    then fatal
    else ok (Lsn.to_ptr (Lsn.make log_id loff block.seg_num size_code))

pub install_csn : Object → ℕ → ℕ → Object
install_csn o pdest end_stamp = record o { pdest = pdest; csn = Csn.to_ptr (Csn.make end_stamp) }

-- The persistent address replaces the entry of a cold tuple, and else the object gets it and its CSN.
pub place : Store → WriteRecord → ℕ → ℕ → Store
unfolding install_csn
place s w pdest end_stamp =
    if w.is_cold then record s { entries = set_at s.entries w.entry pdest } else record s {
      object =
          set_at s.object (offset (s.entries w.entry))
            (install_csn (s.object (offset (s.entries w.entry))) pdest end_stamp);
    }

-- The assertions on the address and the stamp of a version in memory
pub is_placed : WriteRecord → ℕ → ℕ → Bool
is_placed w pdest end_stamp =
    w.is_cold
    || (asi_type pdest == asi_log && (asi_type (Csn.to_ptr (Csn.make end_stamp)) == asi_csn))

-- What the loop of `si_commit` carries: the store, the block, and the records in it.
pub record Posted : Type 0 where
  pub store : Store
  pub block : Block
  pub records : List LogRecord

-- One round of the loop; the size code comes from a search that always ends.
pub post_one : Config → ℕ → WriteRecord → Posted → Result Posted
unfolding populate_log_record record_address place is_placed
post_one c end_stamp w p =
    let value = (p.store.object (offset (p.store.entries w.entry))).value in
    populate_log_record w.is_insert p.block w.fid w.oid value w.size >>= λ (r, block).
    if ltb block.capacity block.payload_size
    then fatal
    else elim (encode_size_aligned (record_size w.size) alignment_bits) [
      | none ↦ waits
      | some e ↦ record_address c p.store.log_id p.block r.off e.code >>= λ pdest.
          if is_placed w pdest end_stamp
          then ok (record {
            store = place p.store w pdest end_stamp;
            block = block;
            records = p.records ++ r ∷ [];
          })
          else fatal
    ]

pub post_all : Config → ℕ → List WriteRecord → Posted → Result Posted
post_all c end_stamp [] p = ok p
post_all c end_stamp (w ∷ ws) p = post_one c end_stamp w p >>= λ p'. post_all c end_stamp ws p'

pub set_own_state : TxnState → Transaction → Store → Store
set_own_state state tx s = record s {
  contexts = set_at s.contexts (Xid.local tx.xid) (set_state state (s.contexts (Xid.local tx.xid)));
}

pub set_end : ℕ → Transaction → Store → Store
set_end end_stamp tx s = record s {
  contexts =
      set_at s.contexts (Xid.local tx.xid)
        (record (s.contexts (Xid.local tx.xid)) { end_stamp = end_stamp });
}

-- The block that was allocated; the loop, and the assertion that the block is full. Without a block, the
-- first write would be made through a null pointer.
pub post_commit : Config → ℕ → Transaction → Store → Option Block → Result (Store × List LogRecord)
unfolding post_all
post_commit c end_stamp tx s none = if length tx.write_set == 0 then ok (s, []) else fatal
post_commit c end_stamp tx s (some block) =
    post_all c end_stamp tx.write_set (record { store = s; block = block; records = [] }) >>= λ p.
    if p.block.payload_size == p.block.capacity then ok (p.store, p.records) else fatal

-- No absent range has changed: `version` is what `ExtractVersionNumber` reads from a node of the index.
unfoldable pub masstree_check_phantom : (ℕ → ℕ) → List (ℕ × ℕ) → Bool
masstree_check_phantom version [] = true
masstree_check_phantom version ((node, seen) ∷ rest) =
    if version node == seen then masstree_check_phantom version rest else false

-- The transaction has written: it takes a CSN and a log block, and posts its versions.
pub commit_writes : Config → Transaction → Store → Result (Rc × Store × List LogRecord)
unfolding post_commit set_own_state set_end
commit_writes c tx s =
    let end_stamp = s.current_csn in
    let s' = set_end end_stamp tx (record s { current_csn = (s.current_csn + 1) % u64_mod }) in
    allocate_log_block c s'.log tx.log_size end_stamp >>= λ (l, block).
    post_commit c end_stamp tx (record s' { log = l }) block >>= λ (s'', records).
    ok (rc_true, set_own_state committed tx s'', records)

-- `phantom_prot` is `config::phantom_prot`.
pub si_commit : Config → Bool → (ℕ → ℕ) → Transaction → Store → Result (Rc × Store × List LogRecord)
unfolding commit_writes set_own_state set_end
si_commit c phantom_prot version tx s =
    let empty = length tx.write_set == 0 in
    if not tx.has_log && (tx.read_only || empty)
    then ok (rc_true, set_own_state committed tx s, [])
    else if phantom_prot && not (masstree_check_phantom version tx.absent_set)
    then ok (rc_abort_phantom, s, [])
    else if empty
    then ok (rc_true, set_own_state committed tx (set_end tx.begin tx s), [])
    else commit_writes c tx s

-- One round of the loop of `Abort`
pub abort_one : WriteRecord → Store → Store
unfolding unlink_tuple
abort_one w s =
    let obj = offset (s.entries w.entry) in
    let s' = record s { object = set_at s.object obj (record (s.object obj) { csn = 0 }) } in
    record s' { entries = set_at s'.entries w.entry (unlink_tuple (tuple_at s' w.entry)).entry }

pub abort_all : List WriteRecord → Store → Store
unfolding abort_one
abort_all [] s = s
abort_all (w ∷ ws) s = abort_all ws (abort_one w s)

pub abort : Transaction → Store → Store
unfolding abort_all set_own_state
abort tx s = abort_all tx.write_set (set_own_state aborted tx s)
