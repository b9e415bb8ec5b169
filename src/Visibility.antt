-- ===== src/Visibility.antt =====
-- dbcore/sm-oid.cpp and dbcore/xid.h, in the build for snapshot isolation: which version of a tuple a
-- transaction reads. Other threads change the memory between any two reads: a history gives the
-- memory at each tick, and every volatile read takes a tick.
pub mod Sound
pub mod Held
pub mod Chain
use preemptdb.Prelude.{
  ℕ, zero, suc, ◌+◌, ◌*◌, Bool, true, false, ◌&&◌, ◌||◌, Option, none, some, List, ltb, leb, ◌==◌,
  if◌then◌else◌,
}
use preemptdb.FatPtr.{asi_type, asi_log, asi_xid, asi_csn, offset}
use preemptdb.FatPtr.Xid

pub data TxnState : Type 0 where
  active : TxnState
  committing : TxnState
  committed : TxnState
  aborted : TxnState
  invalid : TxnState

-- `struct xid_context`, without the pointer to the transaction
pub record XidContext : Type 0 where
  pub begin_epoch : ℕ
  pub owner : ℕ
  pub begin : ℕ
  pub end_stamp : ℕ
  pub state : TxnState

-- `class Object` and the bytes of the `dbtuple` behind it; the payload is in memory.
pub record Object : Type 0 where
  pub alloc_epoch : ℕ
  pub pdest : ℕ
  pub next_pdest : ℕ
  pub next_volatile : ℕ
  pub csn : ℕ
  pub value : List ℕ

-- `contexts` is `xid_contexts`; `entry` is the OID array entry of the tuple.
pub record Memory : Type 0 where
  pub contexts : ℕ → XidContext
  pub object : ℕ → Object
  pub entry : ℕ

abbrev pub History : Type 0
History = ℕ → Memory

-- The reading transaction: its XID, its begin stamp, and whether it gives up on cold tuples.
pub record Visitor : Type 0 where
  pub owner : ℕ
  pub begin : ℕ
  pub abort_if_cold : Bool

-- `xid_get_context`, given the owner word that it read: does it return the context?
unfoldable pub has_context : ℕ → ℕ → Bool
has_context owner xid =
    if owner == 0
    then false
    else if ltb (Xid.epoch owner) (Xid.epoch xid) || leb (Xid.epoch xid + 3) (Xid.epoch owner)
    then false
    else true

-- `spins` is a wait for a committing transaction that outlasts the fuel; `fails` is an assertion of the
-- source that does not hold.
pub data Verdict : Type 0 where
  visible : Verdict
  invisible : Verdict
  retry : Verdict
  fails : Verdict
  spins : Verdict

-- The state and the end stamp of the holder, once its context is known to be the holder's.
unfoldable pub judge_state : TxnState → ℕ → ℕ → Verdict → Verdict
judge_state committing end_stamp begin again = again
judge_state committed end_stamp begin again = if ltb end_stamp begin then visible else invisible
judge_state _ end_stamp begin again = invisible

abbrev pub context_at : History → ℕ → ℕ → XidContext
context_at h t xid = (h t).contexts (Xid.local xid)

-- The label `wait_for_commit`: the owner is read by `xid_get_context`, then the state, the owner
-- again, and the end stamp.
pub wait_for_commit : ℕ → History → ℕ → ℕ → ℕ → Verdict
wait_for_commit zero h t holder_xid begin = spins
wait_for_commit (suc fuel) h t holder_xid begin =
    let again = wait_for_commit fuel h (t + 4) holder_xid begin in
    if has_context (context_at h t holder_xid).owner holder_xid
    then (if (context_at h (t + 2) holder_xid).owner == holder_xid
        then judge_state (context_at h (t + 1) holder_xid).state
            (context_at h (t + 3) holder_xid).end_stamp begin again
        else retry)
    else retry

-- Below a version of the visitor's own there is nothing, or a version that carries a CSN.
unfoldable pub is_above_committed : History → ℕ → ℕ → Bool
is_above_committed h t obj =
    let next = offset ((h (t + 1)).object obj).next_volatile in
    (offset ((h t).object obj).next_volatile == 0)
    || (asi_type ((h (t + 2)).object next).csn == asi_csn)

-- `csn` is what the first read of the object's stamp gave. A stamp must be in the XID or the CSN address
-- space.
unfoldable pub judge_csn : ℕ → History → ℕ → ℕ → ℕ → Visitor → Verdict
unfolding is_above_committed
judge_csn fuel h t obj csn v =
    if csn == 0
    then retry
    else if asi_type csn == asi_xid
    then (if csn == v.owner
        then (if is_above_committed h t obj then visible else fails)
        else wait_for_commit fuel h t csn v.begin)
    else if asi_type csn == asi_csn
    then (if leb (offset csn) v.begin then visible else invisible)
    else fails

unfoldable pub test_visibility : ℕ → History → ℕ → ℕ → Visitor → Verdict
unfolding judge_csn
test_visibility fuel h t obj v = judge_csn fuel h (t + 1) obj ((h t).object obj).csn v

-- `cold` is a version in the log, which the caller loads; `forced_abort` is the null result that
-- also marks the transaction; `failed` is an assertion that does not hold.
pub data Found : Type 0 where
  version : ℕ → Found
  cold : ℕ → Found
  forced_abort : Found
  nothing : Found
  failed : Found
  unfinished : Found

-- Where the loop stands: at `start_over`, or at a pointer of the chain.
pub data Cursor : Type 0 where
  start_over : Cursor
  at_ptr : ℕ → Cursor

unfoldable pub follow : Verdict → ℕ → Found → Found → Found
follow visible obj again next = version obj
follow invisible obj again next = next
follow retry obj again next = again
follow fails obj again next = failed
follow spins obj again next = unfinished

-- A test with `suc fuel` rounds makes its last read before tick `t + 2 + 4 * suc fuel`, where the loop
-- goes on: between two ticks of a history the memory may stay as it is or change.
unfoldable pub get_version : ℕ → History → ℕ → Visitor → Cursor → Found
get_version zero h t v c = unfinished
get_version (suc fuel) h t v start_over =
    let ptr = (h t).entry in
    let walk = get_version fuel h (t + 1) v (at_ptr ptr) in
    if asi_type ptr == asi_log
    then (if v.abort_if_cold then forced_abort else cold ptr)
    else if asi_type ptr == 0
    then walk
    else failed
get_version (suc fuel) h t v (at_ptr ptr) =
    let obj = offset ptr in
    let tentative_next = ((h t).object obj).next_volatile in
    let again = get_version fuel h (t + 2 + 4 * suc fuel) v start_over in
    let next = get_version fuel h (t + 2 + 4 * suc fuel) v (at_ptr tentative_next) in
    if obj == 0
    then nothing
    else if asi_type ptr == 0 && (asi_type tentative_next == 0)
    then follow (test_visibility (suc fuel) h (t + 1) obj v) obj again next
    else failed
