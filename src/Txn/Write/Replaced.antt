-- ===== src/Txn/Write/Replaced.antt =====
-- The store after an update, and the record of it.
use preemptdb.Prelude.{
  ℕ, ◌+◌, ◌^◌, ◌<◌, ◌≡◌, ◌≢◌, refl, sym, ap, ◌∙◌, inl, inr, Bool, true, false, Bool-cases, ◌&&◌,
  List, ◌==◌, if◌then◌else◌, arith,
}
use mathlib.Core.Path.{subst}
use preemptdb.FatPtr.{asi_type, asi_xid, offset}
use preemptdb.FatPtr.Xid
use preemptdb.TlsLog.{Result, ok, fatal, waits, ◌>>=◌}
use preemptdb.Visibility.{Object, Memory}
use preemptdb.Update.{Outcome, updated, refused, unfinished, failed, update_tuple}
use preemptdb.Update.Wins.{stored_at, update_tuple_wins}
use preemptdb.Update.Own.{stored_at-own, stored_at-next, stored_at-elsewhere}
use preemptdb.Txn.{
  WriteRecord, Transaction, Store, Rc, rc_true, rc_abort_si_conflict, tuple_at, tuple_header,
  record_size,
}
use preemptdb.Txn.Commit.{total_size, Every, Every-map, Every-zip}
use preemptdb.Txn.Write.{visitor, own_epoch, put_tuple, record_update, finish_update}
use preemptdb.Txn.Write.Pending.{head_stamp, Pending, add_to_write_set-Pending}

-- What an update of the tuple leaves: its head is the transaction's own, other heads are as they were,
-- and the version that was replaced keeps its stamp.
pub record Replaced (tx : Transaction) (s : Store) (entry fresh : ℕ) (value : List ℕ) (prev : ℕ)
    (m : Memory) : Type 0 where
  pub old : prev ≡ s.entries entry
  pub own : head_stamp (put_tuple s entry m) entry ≡ Xid.to_ptr tx.xid
  pub wrote : (m.object (offset m.entry)).value ≡ value
  pub linked :
      head_stamp s entry ≢ tx.xid → (m.object (offset m.entry)).next_volatile ≡ s.entries entry
  pub objects : (obj : ℕ) → obj ≢ offset fresh → m.object obj ≡ s.object obj

put_tuple-head :
    (s : Store) (entry : ℕ) (m : Memory)
    → head_stamp (put_tuple s entry m) entry ≡ (m.object (offset m.entry)).csn
unfolding put_tuple
put_tuple-head s entry m = ground arith

pub update_tuple-Replaced :
    (fuel : ℕ) (tx : Transaction) (s : Store) (entry fresh : ℕ) (value : List ℕ) (prev : ℕ)
    (m : Memory)
    → update_tuple fuel (λ _. tuple_at s entry) 0 fresh value (visitor tx) (own_epoch tx s)
      ≡ updated prev m
    → Replaced tx s entry fresh value prev m
unfolding tuple_at
update_tuple-Replaced fuel tx s entry fresh value prev m q =
    let v = visitor tx in
    let epoch = own_epoch tx s in
    let before = tuple_at s entry in
    let w = update_tuple_wins fuel (λ _. before) 0 fresh value v epoch prev m q in
    let (at_fresh, own, wrote) =
      stored_at-own (λ _. before) w.at fresh value v epoch prev w.pa w.overwrite in
    record {
      old = sym w.headed;
      own =
          put_tuple-head s entry m
          ∙ (ap (λ (x : Memory). (x.object (offset x.entry)).csn) w.stored
              ∙ (ap
                    (λ p.
                      ((stored_at (λ _. before) w.at fresh value v epoch prev w.pa
                          w.overwrite).object
                        (offset p)).csn)
                    at_fresh
                  ∙ own));
      wrote =
          ap (λ (x : Memory). (x.object (offset x.entry)).value) w.stored
          ∙ (ap
                (λ p.
                  ((stored_at (λ _. before) w.at fresh value v epoch prev w.pa w.overwrite).object
                    (offset p)).value)
                at_fresh
              ∙ wrote);
      linked = λ foreign.
          ap (λ (x : Memory). (x.object (offset x.entry)).next_volatile) w.stored
          ∙ (ap
                (λ p.
                  ((stored_at (λ _. before) w.at fresh value v epoch prev w.pa w.overwrite).object
                    (offset p)).next_volatile)
                at_fresh
              ∙ (stored_at-next before w.at (w.seen + 2) fresh value v epoch prev w.pa _ w.overwrite
                    w.allowed (λ e. foreign (ap (λ p. (s.object (offset p)).csn) w.headed ∙ e))
                  ∙ sym w.headed));
      objects = λ obj apart.
          ap (λ (x : Memory). x.object obj) w.stored
          ∙ stored_at-elsewhere before w.at fresh value v epoch prev w.pa w.overwrite obj apart;
    }

put_tuple-other :
    (s : Store) (entry : ℕ) (m : Memory) (e : ℕ)
    → e ≢ entry
    → head_stamp (put_tuple s entry m) e ≡ (m.object (offset (s.entries e))).csn
unfolding put_tuple
put_tuple-other s entry m e apart = ground arith

-- The records that there are stay those of versions of the transaction.
Replaced-owns :
    (tx : Transaction) (s : Store) (entry fresh : ℕ) (value : List ℕ) (prev : ℕ) (m : Memory)
    (w : WriteRecord)
    → Replaced tx s entry fresh value prev m
    → Xid.to_ptr tx.xid ≡ tx.xid
    → head_stamp s w.entry ≡ tx.xid
    → offset (s.entries w.entry) ≢ offset fresh
    → head_stamp (put_tuple s entry m) w.entry ≡ tx.xid
Replaced-owns tx s entry fresh value prev m w r word owned apart =
    elim (Bool-cases (w.entry == entry)) [
      | inl same ↦
          let e : w.entry ≡ entry = ground arith in
          subst (λ x. head_stamp (put_tuple s entry m) x ≡ tx.xid) (sym e) (r.own ∙ word)
      | inr other ↦
          put_tuple-other s entry m w.entry (λ e. ground arith)
          ∙ (ap (λ (o : Object). o.csn) (r.objects (offset (s.entries w.entry)) apart) ∙ owned)
    ]

ok_inj {ℓ} : {A : Type ℓ} {x y : A} → ok x ≡ ok y → x ≡ y
ok_inj q = cc

not_own :
    (csn xid : ℕ)
    → asi_type xid ≡ asi_xid
    → (asi_type csn == asi_xid && csn == xid) ≡ false
    → csn ≢ xid
not_own csn xid typed q e = ground arith

pub others_apart :
    (tx : Transaction) (s : Store) (entry : ℕ)
    → head_stamp s entry ≢ tx.xid
    → (w : WriteRecord) → head_stamp s w.entry ≡ tx.xid
    → w.entry ≢ entry
others_apart tx s entry foreign w owned e = foreign (subst (λ x. head_stamp s x ≡ tx.xid) e owned)

-- The record of an update that has replaced a version
pub record_update-Pending :
    (tx tx' : Transaction) (s : Store) (entry fid oid fresh : ℕ) (value : List ℕ) (size prev : ℕ)
    (m : Memory)
    → Replaced tx s entry fresh value prev m
    → Pending tx s
    → Xid.to_ptr tx.xid ≡ tx.xid
    → asi_type tx.xid ≡ asi_xid
    → Every (λ w. offset (s.entries w.entry) ≢ offset fresh) tx.write_set
    → offset prev ≢ offset fresh
    → size + tuple_header < 2 ^ 32
    → total_size tx.write_set + record_size (size + tuple_header) < 2 ^ 32
    → record_update tx entry fid oid size (m.object (offset prev)).csn ≡ ok tx'
    → Pending tx' (put_tuple s entry m)
unfolding record_update
record_update-Pending tx tx' s entry fid oid fresh value size prev m r pending word typed used
      unused small room q =
    let csn = (m.object (offset prev)).csn in
    let seen : csn ≡ head_stamp s entry =
      ap (λ (o : Object). o.csn) (r.objects (offset prev) unused)
      ∙ ap (λ p. (s.object (offset p)).csn) r.old in
    let owns =
      Every-zip (λ w owned apart. Replaced-owns tx s entry fresh value prev m w r word owned apart)
        tx.write_set pending.owns used in
    let still : Pending tx (put_tuple s entry m) = record {
      sized = pending.sized;
      apart = pending.apart;
      owns = owns;
    } in
    elim (Bool-cases (asi_type csn == asi_xid && csn == tx.xid)) [
      | inl mine ↦ subst (λ x. Pending x (put_tuple s entry m)) (ok_inj (rw mine at q)) still
      | inr theirs ↦
          let foreign : head_stamp s entry ≢ tx.xid =
            λ e. not_own csn tx.xid typed theirs (seen ∙ e) in
          add_to_write_set-Pending tx tx' (put_tuple s entry m) entry fid oid size false false still
            (Every-map (others_apart tx s entry foreign) tx.write_set pending.owns) (r.own ∙ word)
            small room (rw theirs at q)
    ]

abbrev with_store : Store → Transaction → Result (Rc × Transaction × Store)
with_store s tx = ok (rc_true, tx, s)

recorded_inv :
    (empty : Bool) (r : Result Transaction) (tx tx' : Transaction) (s s' : Store)
    → (if empty then ok (rc_abort_si_conflict, tx, s) else (r >>= with_store s))
      ≡ ok (rc_true, tx', s')
    → (r ≡ ok tx') × (s ≡ s')
recorded_inv true r tx tx' s s' q = cc
recorded_inv false (ok x) tx tx' s s' q = (ground arith, ground arith)
recorded_inv false fatal tx tx' s s' q = cc
recorded_inv false waits tx tx' s s' q = cc

pub finish_update_inv :
    (o : Outcome) (tx tx' : Transaction) (s s' : Store) (entry fid oid size : ℕ)
    → finish_update o tx s entry fid oid size ≡ ok (rc_true, tx', s')
    → (prev : ℕ) × (m : Memory) × (o ≡ updated prev m)
      × (record_update tx entry fid oid size (m.object (offset prev)).csn ≡ ok tx')
      × (put_tuple s entry m ≡ s')
unfolding finish_update
finish_update_inv (updated prev m) tx tx' s s' entry fid oid size q =
    let (recorded, left) =
      recorded_inv (offset prev == 0)
        (record_update tx entry fid oid size (m.object (offset prev)).csn) tx tx'
        (put_tuple s entry m) s' q in
    (prev, m, refl, recorded, left)
finish_update_inv refused tx tx' s s' entry fid oid size q = cc
finish_update_inv unfinished tx tx' s s' entry fid oid size q = cc
finish_update_inv failed tx tx' s s' entry fid oid size q = cc
