-- ===== src/Examples/Commits.antt =====
-- A transaction that has replaced the version of one of two tuples.
use preemptdb.Prelude.{
  set_at, ℕ, ◌*◌, ◌^◌, ◌≡◌, ◌≢◌, refl, true, false, [], ◌∷◌, some, ◌==◌, if◌then◌else◌, arith,
}
use preemptdb.SizeEncode.{align_up}
use preemptdb.FatPtr.{asi, asi_type, asi_xid, offset, size_code}
use preemptdb.FatPtr.Fields.{asi_type_lem}
use preemptdb.FatPtr.Xid
use preemptdb.FatPtr.Csn
use preemptdb.CommitQueue.{set_dirty_flag}
use preemptdb.TlsLog.{TlsLog, ok, allocate_log_block, make_room, append, new_block}
use preemptdb.Visibility.{active, aborted}
use preemptdb.Update.{
  update_tuple, decide, is_object, judge_update, install_at, swap_head, await_pdest,
  install_version, overwrite_version, publish, create,
}
use preemptdb.Txn.{
  WriteRecord, Transaction, Store, rc_true, tuple_at, add_to_write_set, record_size, commit_writes,
  masstree_check_phantom, abort,
}
use preemptdb.Txn.Commit.{total_size, Every}
use preemptdb.Txn.Stamped.{Stamped, Committed}
use preemptdb.Txn.Logged.{Addressed, commit_writes-Committed}
use preemptdb.Txn.Commit.{image, logged}
use preemptdb.Txn.Snapshot.{Judged, test_visibility-commit_writes}
use preemptdb.Txn.Abort.{Undone, abort_undoes}
use preemptdb.Txn.Write.{
  visitor, put_tuple, record_update, finish_update, update, insert, Ended, commit,
}
use preemptdb.Txn.Write.Pending.{head_stamp, Pending}
use preemptdb.Txn.Write.Undo.{abort-update}
use preemptdb.Txn.Write.Kept.{update-Pending, update_own_keeps_record}
use preemptdb.Txn.Write.Ends.{commit_of_writes}
use preemptdb.Examples.Data.{config, log, writer_xid, reader}

abbrev first_write : WriteRecord
first_write = record { entry = 0; fid = 1; oid = 1; size = 5; is_insert = false; is_cold = false }

abbrev writer : Transaction
writer = record {
  read_only = false;
  xid = writer_xid;
  begin = 7;
  has_log = true;
  log_size = 32;
  write_set = first_write ∷ [];
  absent_set = [];
}

abbrev store : Store
store = record {
  contexts =
      λ _. record { begin_epoch = 1; owner = writer_xid; begin = 7; end_stamp = 0; state = active };
  object = λ obj.
      if obj == 5
      then record {
        alloc_epoch = 1;
        pdest = 0;
        next_pdest = 1;
        next_volatile = 3 * 2 ^ 16;
        csn = writer_xid;
        value = 9 ∷ [];
      }
      else record {
        alloc_epoch = 1;
        pdest = 1;
        next_pdest = 0;
        next_volatile = 0;
        csn = Csn.to_ptr (Csn.make 5);
        value = 8 ∷ [];
      };
  entries = λ e. if e == 0 then 5 * 2 ^ 16 else 2 * 2 ^ 16;
  current_csn = 11;
  log_id = 1;
  log = log;
}

abbrev marked : TlsLog
marked = record log { tls_durable_csn = set_dirty_flag log.tls_durable_csn }

given :
    allocate_log_block config log 32 11
    ≡ ok (append config marked 32 11, some (new_block marked 32 11))
unfolding allocate_log_block make_room
given = refl

sized : writer.log_size ≡ total_size writer.write_set
unfolding total_size record_size align_up
sized = refl

commit_writes-Committed_example :
    (s' : Store) × (commit_writes config writer store
      ≡ ok (rc_true, s', logged (image store) 11 0 writer.write_set))
    × Addressed config 1 (new_block marked 32 11) store.entries s' 0 writer.write_set
    × Committed writer store s' (append config marked 32 11)
unfolding new_block
commit_writes-Committed_example =
    commit_writes-Committed config writer store (append config marked 32 11)
      (new_block marked 32 11) sized (omega arith) (omega arith, tt) (refl, tt) (tt, tt)
      (omega arith) (omega arith) (omega arith) (omega arith) given

-- The store after it
written :
    (s' : Store) × (commit_writes config writer store
      ≡ ok (rc_true, s', logged (image store) 11 0 writer.write_set))
written = (commit_writes-Committed_example.0, commit_writes-Committed_example.1)

test_visibility-commit_writes_example : Every (Judged 11 (written.0) reader 3 0 7) writer.write_set
test_visibility-commit_writes_example =
    test_visibility-commit_writes config writer store (written.0) (append config marked 32 11)
      (new_block marked 32 11) (logged (image store) 11 0 writer.write_set) sized (omega arith)
      (omega arith, tt) (refl, tt) given (omega arith) (written.1) reader 3 0

abort_undoes_example :
    Every (Undone store (abort writer store)) writer.write_set
    × ((e : ℕ)
        → Every (λ w. w.entry ≢ e) writer.write_set
        → (abort writer store).entries e ≡ store.entries e)
    × (((abort writer store).contexts (Xid.local writer_xid)).state ≡ aborted)
abort_undoes_example = abort_undoes writer store (tt, tt)

writer-Pending : Pending writer store
unfolding offset
writer-Pending = record { sized = sized; apart = (tt, tt); owns = (refl, tt) }

typed : asi_type writer_xid ≡ asi_xid
typed = omega (arith, asi_type_lem writer_xid)

abbrev fresh : ℕ
fresh = 8 * 2 ^ 16

-- The second tuple is updated, and the first one again.
abbrev second_write : WriteRecord
second_write = record { entry = 1; fid = 1; oid = 2; size = 6; is_insert = false; is_cold = false }

abbrev writer_of_two : Transaction
writer_of_two = record writer { log_size = 64; write_set = first_write ∷ second_write ∷ [] }

abbrev second_updated : Store
second_updated =
    put_tuple store 1
      (install_version (tuple_at store 1) fresh (3 ∷ 4 ∷ []) (visitor writer) 1 (2 * 2 ^ 16) 1)

updates_second :
    update 1 writer store 1 1 2 fresh (3 ∷ 4 ∷ []) ≡ ok (rc_true, writer_of_two, second_updated)
unfolding update finish_update record_update put_tuple update_tuple decide is_object size_code
    judge_update install_at swap_head await_pdest install_version publish create offset asi_type asi
    tuple_at add_to_write_set record_size align_up Csn.to_ptr Csn.make
updates_second = refl

update-Pending_example : Pending writer_of_two second_updated
unfolding total_size record_size align_up offset Xid.to_ptr
update-Pending_example =
    update-Pending 1 writer writer_of_two store second_updated 1 1 2 fresh (3 ∷ 4 ∷ [])
      writer-Pending refl typed ((λ e. omega (arith, e)), tt) (λ e. omega (arith, e)) (omega arith)
      (omega arith) updates_second

foreign : head_stamp store 1 ≢ writer_xid
unfolding offset Csn.to_ptr Csn.make
foreign e = omega (arith, e)

abort-update_example : (abort writer_of_two second_updated).entries 1 ≡ 2 * 2 ^ 16
unfolding total_size record_size align_up offset Xid.to_ptr
abort-update_example =
    abort-update 1 writer writer_of_two store second_updated 1 1 2 fresh (3 ∷ 4 ∷ []) writer-Pending
      refl typed ((λ e. omega (arith, e)), tt) (λ e. omega (arith, e)) (omega arith) (omega arith)
      foreign updates_second

abbrev first_updated : Store
first_updated =
    put_tuple store 0
      (overwrite_version (tuple_at store 0) fresh (3 ∷ 4 ∷ []) (visitor writer) 1 (5 * 2 ^ 16))

updates_first : update 1 writer store 0 1 1 fresh (3 ∷ 4 ∷ []) ≡ ok (rc_true, writer, first_updated)
unfolding update finish_update record_update put_tuple update_tuple decide is_object size_code
    judge_update install_at overwrite_version publish create offset asi_type asi tuple_at
updates_first = refl

update_own_keeps_record_example :
    (writer ≡ writer)
    × ((first_updated.object (offset (first_updated.entries 0))).value ≡ 3 ∷ 4 ∷ [])
unfolding offset
update_own_keeps_record_example =
    update_own_keeps_record 1 writer writer store first_updated 0 1 1 fresh (3 ∷ 4 ∷ []) typed refl
      (λ e. omega (arith, e)) updates_first

-- A third tuple is inserted.
abbrev third_write : WriteRecord
third_write = record { entry = 2; fid = 1; oid = 3; size = 6; is_insert = true; is_cold = false }

abbrev inserter : Transaction
inserter = record writer { log_size = 64; write_set = first_write ∷ third_write ∷ [] }

abbrev third_inserted : Store
third_inserted = record store {
  object =
      set_at store.object (offset fresh)
        (record (create (3 ∷ 4 ∷ []) 1) { csn = Xid.to_ptr writer_xid });
  entries = set_at store.entries 2 fresh;
}

inserts_third : insert writer store 2 1 3 fresh (3 ∷ 4 ∷ []) false ≡ ok (inserter, third_inserted)
unfolding insert add_to_write_set record_size align_up
inserts_third = refl

commit_of_writes_example :
    (e : Ended) × (commit config true true (λ _. 0) writer store ≡ ok e)
    × (e.rc ≡ rc_true)
    × Every (Stamped 11 e.store) writer.write_set
    × (e.queued ≡ some 11)
unfolding new_block masstree_check_phantom
commit_of_writes_example =
    commit_of_writes config true true (λ _. 0) writer store (append config marked 32 11)
      (new_block marked 32 11) refl writer-Pending refl (omega arith) (omega arith)
      (omega arith, tt) (refl, tt) (omega arith) (omega arith) (omega arith) (omega arith) refl
      given
