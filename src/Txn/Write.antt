-- ===== src/Txn/Write.antt =====
-- txn.cc: updates, inserts and reads of tuples, and the outer part of a commit.
pub mod Pending
pub mod Replaced
pub mod Kept
pub mod Ends
pub mod Undo
use preemptdb.Prelude.{
  set_at, ℕ, ◌-◌, Bool, true, false, not, ◌&&◌, Option, none, some, List, length, ltb, ◌==◌,
  if◌then◌else◌,
}
use preemptdb.FatPtr.{asi_type, asi_xid, offset}
use preemptdb.FatPtr.Xid
use preemptdb.TlsLog.{Config, Result, ok, fatal, waits, ◌>>=◌}
use preemptdb.Visibility.{TxnState, active, committing, Object, Memory, Visitor}
use preemptdb.Update.{Outcome, updated, refused, unfinished, failed, create, update_tuple}
use preemptdb.Txn.{
  Transaction, Store, LogRecord, Rc, rc_true, rc_false, rc_abort_si_conflict, tuple_at,
  add_to_write_set, set_own_state, si_commit,
}

abbrev pub visitor : Transaction → Visitor
visitor tx = record { owner = tx.xid; begin = tx.begin; abort_if_cold = false }

abbrev pub own_epoch : Transaction → Store → ℕ
own_epoch tx s = (s.contexts (Xid.local tx.xid)).begin_epoch

-- One tuple's share of the store is put back.
unfoldable pub put_tuple : Store → ℕ → Memory → Store
put_tuple s entry m = record s { object = m.object; entries = set_at s.entries entry m.entry }

-- `prev_csn` is the stamp of the version that was replaced: an update of the transaction's own version
-- has its record already.
unfoldable pub record_update : Transaction → ℕ → ℕ → ℕ → ℕ → ℕ → Result Transaction
record_update tx entry fid oid size prev_csn =
    if asi_type prev_csn == asi_xid && prev_csn == tx.xid
    then ok tx
    else add_to_write_set tx entry fid oid size false false

unfoldable pub finish_update :
    Outcome → Transaction → Store → ℕ → ℕ → ℕ → ℕ → Result (Rc × Transaction × Store)
unfolding record_update put_tuple
finish_update (updated prev m) tx s entry fid oid size =
    if offset prev == 0
    then ok (rc_abort_si_conflict, tx, put_tuple s entry m)
    else record_update tx entry fid oid size (m.object (offset prev)).csn >>= λ tx'.
        ok (rc_true, tx', put_tuple s entry m)
finish_update refused tx s entry fid oid size = ok (rc_abort_si_conflict, tx, s)
finish_update unfinished tx s entry fid oid size = waits
finish_update failed tx s entry fid oid size = fatal

-- `Update` and `SyncUpdate`: `fresh` is the fat pointer of the new object, `fuel` bounds the waits of
-- `UpdateTuple`.
unfoldable pub update :
    ℕ → Transaction → Store → ℕ → ℕ → ℕ → ℕ → List ℕ → Result (Rc × Transaction × Store)
unfolding finish_update
update fuel tx s entry fid oid fresh value =
    finish_update
      (update_tuple fuel (λ _. tuple_at s entry) 0 fresh value (visitor tx) (own_epoch tx s)) tx s
      entry fid oid (length value)

-- `Insert`: `oid` is the OID that was allocated, `entry` its place in the array.
unfoldable pub insert :
    Transaction → Store → ℕ → ℕ → ℕ → ℕ → List ℕ → Bool → Result (Transaction × Store)
insert tx s entry fid oid fresh value cold =
    add_to_write_set tx entry fid oid (length value) true cold >>= λ tx'. ok (
      tx',
      record s {
        object =
            set_at s.object (offset fresh)
              (record (create value (own_epoch tx s)) { csn = Xid.to_ptr tx.xid });
        entries = set_at s.entries entry fresh;
      },
    )

-- The value that is read, and whether there is one.
pub do_tuple_read : Object → Rc × List ℕ
do_tuple_read tuple = (if ltb 0 (length tuple.value) then rc_true else rc_false, tuple.value)

-- `end = !end || write_set.size() ? end : end - 1`
pub queued_csn : ℕ → Transaction → ℕ
queued_csn end_stamp tx =
    if end_stamp == 0
    then end_stamp
    else if ltb 0 (length tx.write_set)
    then end_stamp
    else end_stamp - 1

-- `xid_free`, as far as the context goes
pub free_context : Transaction → Store → Store
free_context tx s = record s {
  contexts =
      set_at s.contexts (Xid.local tx.xid) (record (s.contexts (Xid.local tx.xid)) { owner = 0 });
}

-- What a commit hands over: the CSN with which the transaction waits in the commit queue, if it does.
pub record Ended : Type 0 where
  pub rc : Rc
  pub store : Store
  pub records : List LogRecord
  pub queued : Option ℕ

pub is_true : Rc → Bool
is_true rc_true = true
is_true _ = false

abbrev pub is_active : TxnState → Bool
is_active active = true
is_active _ = false

-- A commit that ended well frees the context, and may enter the commit queue.
pub end_commit : Bool → Transaction → Rc × Store × List LogRecord → Ended
unfolding queued_csn free_context is_true
end_commit pcommit tx (rc, s, records) =
    if is_true rc
    then record {
      rc = rc;
      store = free_context tx s;
      records = records;
      queued =
          if tx.has_log && pcommit
          then some (queued_csn (s.contexts (Xid.local tx.xid)).end_stamp tx)
          else none;
    }
    else record { rc = rc; store = s; records = records; queued = none }

-- `commit`; `pcommit` is `config::pcommit`.
pub commit : Config → Bool → Bool → (ℕ → ℕ) → Transaction → Store → Result Ended
unfolding end_commit
commit c pcommit phantom_prot version tx s =
    if is_active (s.contexts (Xid.local tx.xid)).state
    then (si_commit c phantom_prot version tx (set_own_state committing tx s) >>= λ r.
        ok (end_commit pcommit tx r))
    else fatal
