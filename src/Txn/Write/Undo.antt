-- ===== src/Txn/Write/Undo.antt =====
-- An abort takes an update back.
use preemptdb.Prelude.{
  ℕ, ◌+◌, ◌%◌, ◌^◌, ◌<◌, ◌≡◌, ◌≢◌, sym, ap, ◌∙◌, false, List, [], ◌∷◌, ◌++◌, length, arith, ◌==◌,
}
use mathlib.Core.Path.{subst}
use preemptdb.FatPtr.{asi_type, asi_xid, offset}
use preemptdb.FatPtr.Xid
use preemptdb.TlsLog.{ok}
use preemptdb.Visibility.{Object}
use preemptdb.Update.{update_tuple}
use preemptdb.Txn.{
  WriteRecord, Transaction, Store, rc_true, tuple_at, tuple_header, record_size, add_to_write_set,
  abort,
}
use preemptdb.Txn.Commit.{total_size, Every}
use preemptdb.Txn.Abort.{Undone, abort_undoes}
use preemptdb.Txn.Write.{visitor, own_epoch, record_update, update}
use preemptdb.Txn.Write.Pending.{head_stamp, Pending, add_to_write_set_inv}
use preemptdb.Txn.Write.Replaced.{update_tuple-Replaced, finish_update_inv}
use preemptdb.Txn.Write.Kept.{update-Pending, put_tuple-here}

Every-last :
    (P : WriteRecord → Type 0) (ws : List WriteRecord) (w : WriteRecord)
    → Every P (ws ++ w ∷ [])
    → P w
Every-last P [] w (last, _) = last
Every-last P (v ∷ ws) w (_, rest) = Every-last P ws w rest

recorded_foreign :
    (tx tx' : Transaction) (entry fid oid size csn : ℕ)
    → csn ≢ tx.xid
    → record_update tx entry fid oid size csn ≡ ok tx'
    → add_to_write_set tx entry fid oid size false false ≡ ok tx'
unfolding record_update
recorded_foreign tx tx' entry fid oid size csn foreign q =
    let no : (csn == tx.xid) ≡ false = ground arith in ground (arith, no)

-- An update of a version of another transaction, under the conditions that keep the write set in order,
-- and an abort right after it leave the tuple's entry as it was.
pub abort-update :
    (fuel : ℕ) (tx tx' : Transaction) (s s' : Store) (entry fid oid fresh : ℕ) (value : List ℕ)
    → Pending tx s
    → Xid.to_ptr tx.xid ≡ tx.xid
    → asi_type tx.xid ≡ asi_xid
    → Every (λ w. offset (s.entries w.entry) ≢ offset fresh) tx.write_set
    → offset (s.entries entry) ≢ offset fresh
    → length value + tuple_header < 2 ^ 32
    → total_size tx.write_set + record_size (length value + tuple_header) < 2 ^ 32
    → head_stamp s entry ≢ tx.xid
    → update fuel tx s entry fid oid fresh value ≡ ok (rc_true, tx', s')
    → (abort tx' s').entries entry ≡ s.entries entry
unfolding update
abort-update fuel tx tx' s s' entry fid oid fresh value pending word typed used unused small room
      foreign q =
    let after =
      update-Pending fuel tx tx' s s' entry fid oid fresh value pending word typed used unused small
        room q in
    let (undone, _, _) = abort_undoes tx' s' after.apart in
    let o = update_tuple fuel (λ _. tuple_at s entry) 0 fresh value (visitor tx) (own_epoch tx s) in
    let (prev, m, done, recorded, left) =
      finish_update_inv o tx tx' s s' entry fid oid (length value) q in
    let r = update_tuple-Replaced fuel tx s entry fresh value prev m done in
    let seen : (m.object (offset prev)).csn ≡ head_stamp s entry =
      ap (λ (x : Object). x.csn) (r.objects (offset prev) (λ e. unused (ap offset (sym r.old) ∙ e)))
      ∙ ap (λ p. (s.object (offset p)).csn) r.old in
    let added =
      recorded_foreign tx tx' entry fid oid (length value) (m.object (offset prev)).csn
        (λ e. foreign (sym seen ∙ e)) recorded in
    let is_tx = add_to_write_set_inv tx tx' entry fid oid (length value) false false added in
    let new : WriteRecord = record {
      entry = entry;
      fid = fid;
      oid = oid;
      size = (length value + 4) % 2 ^ 32;
      is_insert = false;
      is_cold = false;
    } in
    let mine : Undone s' (abort tx' s') new =
      Every-last (Undone s' (abort tx' s')) tx.write_set new (
        subst (λ ws. Every (Undone s' (abort tx' s')) ws)
          (ap (λ (x : Transaction). x.write_set) is_tx) undone) in
    mine.entry
    ∙ (subst (λ (x : Store). (x.object (offset (x.entries entry))).next_volatile ≡ s.entries entry)
        left
        (ap (λ p. (m.object (offset p)).next_volatile) (put_tuple-here s entry m)
          ∙ r.linked foreign))
