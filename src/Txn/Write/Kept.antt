-- ===== src/Txn/Write/Kept.antt =====
-- Updates and inserts keep a transaction's write set in order.
use preemptdb.Prelude.{
  set_at, ℕ, ◌+◌, ◌^◌, ◌<◌, ◌≡◌, ◌≢◌, sym, ap, ◌∙◌, Bool, true, List, length, arith,
}
use mathlib.Core.Path.{subst}
use preemptdb.FatPtr.{asi_type, asi_xid, offset}
use preemptdb.FatPtr.Xid
use preemptdb.TlsLog.{Result, ok, fatal, waits, ◌>>=◌}
use preemptdb.Visibility.{Object, Memory}
use preemptdb.Update.{update_tuple, create}
use preemptdb.Txn.{
  WriteRecord, Transaction, Store, rc_true, tuple_at, tuple_header, record_size, add_to_write_set,
}
use preemptdb.Txn.Commit.{total_size, Every, Every-map, Every-zip}
use preemptdb.Txn.Write.{visitor, own_epoch, put_tuple, record_update, update, insert}
use preemptdb.Txn.Write.Pending.{head_stamp, Pending, add_to_write_set-Pending}
use preemptdb.Txn.Write.Replaced.{update_tuple-Replaced, finish_update_inv, record_update-Pending}

-- An update that succeeds keeps a transaction's write set in order, if the new object is at a place that
-- neither the tuple's head nor a written tuple's is at, and the records' sizes stay within 32 bits.
pub update-Pending :
    (fuel : ℕ) (tx tx' : Transaction) (s s' : Store) (entry fid oid fresh : ℕ) (value : List ℕ)
    → Pending tx s
    → Xid.to_ptr tx.xid ≡ tx.xid
    → asi_type tx.xid ≡ asi_xid
    → Every (λ w. offset (s.entries w.entry) ≢ offset fresh) tx.write_set
    → offset (s.entries entry) ≢ offset fresh
    → length value + tuple_header < 2 ^ 32
    → total_size tx.write_set + record_size (length value + tuple_header) < 2 ^ 32
    → update fuel tx s entry fid oid fresh value ≡ ok (rc_true, tx', s')
    → Pending tx' s'
unfolding update
update-Pending fuel tx tx' s s' entry fid oid fresh value pending word typed used unused small room
      q =
    let o = update_tuple fuel (λ _. tuple_at s entry) 0 fresh value (visitor tx) (own_epoch tx s) in
    let (prev, m, done, recorded, left) =
      finish_update_inv o tx tx' s s' entry fid oid (length value) q in
    let r = update_tuple-Replaced fuel tx s entry fresh value prev m done in
    subst (λ x. Pending tx' x) left
      (record_update-Pending tx tx' s entry fid oid fresh value (length value) prev m r pending word
        typed used (λ e. unused (ap offset (sym r.old) ∙ e)) small room recorded)

pub put_tuple-here :
    (s : Store) (entry : ℕ) (m : Memory) → (put_tuple s entry m).entries entry ≡ m.entry
unfolding put_tuple
put_tuple-here s entry m = ground arith

-- An update of a version of the transaction's own replaces its value, and changes neither the write set nor
-- the log size, whatever the length of the new value, if the new object is not at the old one's place.
pub update_own_keeps_record :
    (fuel : ℕ) (tx tx' : Transaction) (s s' : Store) (entry fid oid fresh : ℕ) (value : List ℕ)
    → asi_type tx.xid ≡ asi_xid
    → head_stamp s entry ≡ tx.xid
    → offset (s.entries entry) ≢ offset fresh
    → update fuel tx s entry fid oid fresh value ≡ ok (rc_true, tx', s')
    → (tx' ≡ tx) × ((s'.object (offset (s'.entries entry))).value ≡ value)
unfolding update record_update
update_own_keeps_record fuel tx tx' s s' entry fid oid fresh value typed own unused q =
    let o = update_tuple fuel (λ _. tuple_at s entry) 0 fresh value (visitor tx) (own_epoch tx s) in
    let (prev, m, done, recorded, left) =
      finish_update_inv o tx tx' s s' entry fid oid (length value) q in
    let r = update_tuple-Replaced fuel tx s entry fresh value prev m done in
    let seen : (m.object (offset prev)).csn ≡ tx.xid =
      ap (λ (x : Object). x.csn) (r.objects (offset prev) (λ e. unused (ap offset (sym r.old) ∙ e)))
      ∙ (ap (λ p. (s.object (offset p)).csn) r.old ∙ own) in
    (
      ground (arith, rw seen at recorded, typed),
      subst (λ (x : Store). (x.object (offset (x.entries entry))).value ≡ value) left
          (ap (λ p. (m.object (offset p)).value) (put_tuple-here s entry m) ∙ r.wrote),
    )

abbrev with_tx : Store → Transaction → Result (Transaction × Store)
with_tx s tx = ok (tx, s)

insert_inv :
    (r : Result Transaction) (s s' : Store) (tx' : Transaction)
    → (r >>= with_tx s) ≡ ok (tx', s')
    → (r ≡ ok tx') × (s ≡ s')
insert_inv (ok x) s s' tx' q = (ground arith, ground arith)
insert_inv fatal s s' tx' q = cc
insert_inv waits s s' tx' q = cc

inserted : Transaction → Store → ℕ → ℕ → List ℕ → Store
unfolding create
inserted tx s entry fresh value = record s {
  object =
      set_at s.object (offset fresh)
        (record (create value (own_epoch tx s)) { csn = Xid.to_ptr tx.xid });
  entries = set_at s.entries entry fresh;
}

inserted-own :
    (tx : Transaction) (s : Store) (entry fresh : ℕ) (value : List ℕ)
    → head_stamp (inserted tx s entry fresh value) entry ≡ Xid.to_ptr tx.xid
unfolding inserted
inserted-own tx s entry fresh value = ground arith

inserted-other :
    (tx : Transaction) (s : Store) (entry fresh : ℕ) (value : List ℕ) (w : WriteRecord)
    → head_stamp s w.entry ≡ tx.xid
    → (w.entry ≢ entry) × (offset (s.entries w.entry) ≢ offset fresh)
    → head_stamp (inserted tx s entry fresh value) w.entry ≡ tx.xid
unfolding inserted
inserted-other tx s entry fresh value w owned (apart, unused) = ground arith

-- An insert keeps a transaction's write set in order, if its array entry is not that of a written tuple, the new object
-- is not at the place of a written tuple's head, and the records' sizes stay within 32 bits.
pub insert-Pending :
    (tx tx' : Transaction) (s s' : Store) (entry fid oid fresh : ℕ) (value : List ℕ) (cold : Bool)
    → Pending tx s
    → Xid.to_ptr tx.xid ≡ tx.xid
    → Every (λ w. (w.entry ≢ entry) × (offset (s.entries w.entry) ≢ offset fresh)) tx.write_set
    → length value + tuple_header < 2 ^ 32
    → total_size tx.write_set + record_size (length value + tuple_header) < 2 ^ 32
    → insert tx s entry fid oid fresh value cold ≡ ok (tx', s')
    → Pending tx' s'
unfolding insert inserted
insert-Pending tx tx' s s' entry fid oid fresh value cold pending word others small room q =
    let after = inserted tx s entry fresh value in
    let (added, left) =
      insert_inv (add_to_write_set tx entry fid oid (length value) true cold) after s' tx' q in
    let still : Pending tx after = record {
      sized = pending.sized;
      apart = pending.apart;
      owns =
          Every-zip (λ w owned other. inserted-other tx s entry fresh value w owned other)
            tx.write_set pending.owns others;
    } in
    subst (λ x. Pending tx' x) left
      (add_to_write_set-Pending tx tx' after entry fid oid (length value) true cold still
        (Every-map (λ w other. other.0) tx.write_set others)
        (inserted-own tx s entry fresh value ∙ word) small room added)
