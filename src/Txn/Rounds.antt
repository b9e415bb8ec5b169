-- ===== src/Txn/Rounds.antt =====
-- The loop of `si_commit` of txn.cc in a block that has room for all records.
use preemptdb.Prelude.{
  set_at, leb, ℕ, ◌+◌, ◌%◌, ◌^◌, ◌≤◌, ◌<◌, ◌≡◌, refl, ◌∙◌, false, List, [], ◌∷◌, ltb, ◌++◌, arith,
}
use mathlib.Core.Path.{fun_ext, ap, sym}
use preemptdb.SizeEncode.Decode.{align_up_bounds}
use preemptdb.SizeEncode.Search.{encode_size_aligned_any}
use preemptdb.FatPtr.{offset}
use preemptdb.TlsLog.{Config, ok}
use preemptdb.FatPtr.Types.{Lsn-round_trip, Csn-round_trip}
use preemptdb.FatPtr.Lsn
use preemptdb.Txn.{
  WriteRecord, Store, Posted, LogRecord, record_size, populate_log_record, place, record_address,
  post_one, post_all, is_placed, install_csn,
}
use mathlib.Core.List.{append_assoc, append-nil}
use preemptdb.Txn.Commit.{total_size, Every, image, logged, AddressOf, PlacedAll}

record_size_bounds :
    (size : ℕ) → size < 2 ^ 32 → (size + 24 ≤ record_size size) × (record_size size < 2 ^ 33)
unfolding record_size
record_size_bounds size h =
    let bounds = align_up_bounds 60 4 refl (size + 24) (omega arith) in
    (omega (arith, bounds.0), omega (arith, bounds.1))

not_ltb : {a b : ℕ} → b ≤ a → ltb a b ≡ false
not_ltb h = ground arith

abbrev new_record : WriteRecord → Posted → LogRecord
new_record w p = record {
  is_insert = w.is_insert;
  fid = w.fid;
  oid = w.oid;
  csn = p.block.csn;
  off = p.block.payload_size;
  size = w.size;
  after_image = (p.store.object (offset (p.store.entries w.entry))).value;
}

-- A version in memory is placed.
abbrev placed : Store → WriteRecord → ℕ → ℕ → Store
placed s w addr e = record s {
  object =
      set_at s.object (offset (s.entries w.entry))
        (install_csn (s.object (offset (s.entries w.entry))) addr e);
}

placed-image : (s : Store) (w : WriteRecord) (addr e : ℕ) → image (placed s w addr e) ≡ image s
unfolding install_csn
placed-image s w addr e = fun_ext (λ entry. ground arith)

abbrev after_one : WriteRecord → Posted → ℕ → ℕ → Posted
after_one w p addr e = record {
  store = placed p.store w addr e;
  block = record (p.block) { payload_size = p.block.payload_size + record_size w.size };
  records = p.records ++ new_record w p ∷ [];
}

-- One round, in a block with room for the record, whose segment and offsets an LSN can hold
post_one_total :
    (c : Config) (end_stamp : ℕ) (w : WriteRecord) (p : Posted)
    → w.size < 2 ^ 32
    → w.is_cold ≡ false
    → p.block.payload_size + record_size w.size ≤ p.block.capacity
    → p.block.capacity < 2 ^ 32
    → end_stamp < 2 ^ 48
    → p.store.log_id < 2 ^ 8
    → p.block.seg_num < 2 ^ 4
    → p.block.cur_lsn + c.page_size + p.block.payload_size < 2 ^ 40
    → (addr : ℕ) × (post_one c end_stamp w p ≡ ok (after_one w p addr end_stamp))
      × AddressOf c p.store.log_id p.block p.block.payload_size w addr
unfolding post_one populate_log_record record_address is_placed place
post_one_total c end_stamp w p short hot room small stamp_fits log_fits seg_fits loff_fits =
    let bounds = record_size_bounds w.size short in
    let (e, coded, byte, holds, _, _) =
      encode_size_aligned_any (record_size w.size) 4 60 refl (omega arith)
        (omega (arith, bounds.1)) in
    let guard : ltb p.block.capacity ((p.block.payload_size + w.size) % 2 ^ 32) ≡ false =
      not_ltb (omega (arith, bounds.0)) in
    let sum : (p.block.payload_size + record_size w.size) % 2 ^ 32
        ≡ p.block.payload_size + record_size w.size =
      omega arith in
    let full : ltb p.block.capacity ((p.block.payload_size + record_size w.size) % 2 ^ 32) ≡ false =
      not_ltb (omega arith) in
    let loff = p.block.cur_lsn + c.page_size + p.block.payload_size in
    let addr = Lsn.to_ptr (Lsn.make p.store.log_id loff p.block.seg_num e.code) in
    let (logs, _, _, _, _) =
      Lsn-round_trip p.store.log_id loff p.block.seg_num e.code log_fits loff_fits seg_fits byte in
    let stamps = (Csn-round_trip end_stamp stamp_fits).1 in
    let whole =
      ap
        (λ (n : ℕ).
          ok (record (after_one w p addr end_stamp) {
            block = record (p.block) { payload_size = n };
          }))
        sum in
    let seg : leb 16 p.block.seg_num ≡ false = ground arith in
    let off : leb (2 ^ 40) loff ≡ false = ground arith in
    (
      addr,
      rw guard (rw full (rw coded (rw seg (rw off (rw hot (rw logs (rw stamps whole))))))),
      (e.code, refl, byte, holds),
    )

-- Every round of the loop succeeds in a block that has room for all records, and whose segment and
-- offsets an LSN can hold. No tuple is to be left cold.
pub post_all_total :
    (c : Config) (end_stamp : ℕ) (ws : List WriteRecord) (p : Posted)
    → Every (λ w. w.size < 2 ^ 32) ws
    → Every (λ w. w.is_cold ≡ false) ws
    → p.block.payload_size + total_size ws ≤ p.block.capacity
    → p.block.capacity < 2 ^ 32
    → end_stamp < 2 ^ 48
    → p.store.log_id < 2 ^ 8
    → p.block.seg_num < 2 ^ 4
    → p.block.cur_lsn + c.page_size + p.block.capacity ≤ 2 ^ 40
    → (p' : Posted) × (post_all c end_stamp ws p ≡ ok p')
      × PlacedAll
          (AddressOf c p.store.log_id p.block)
          p.block.payload_size
          end_stamp
          ws
          p.store
          p'.store
      × (p'.block.payload_size ≡ p.block.payload_size + total_size ws)
      × (p'.block.capacity ≡ p.block.capacity)
      × (p'.records ≡ p.records ++ logged (image p.store) p.block.csn p.block.payload_size ws)
unfolding post_all total_size PlacedAll logged place
post_all_total c end_stamp [] p short hot room small stamp_fits log_fits seg_fits loff_fits =
    (p, refl, refl, omega arith, refl, sym (append-nil p.records))
post_all_total c end_stamp (w ∷ ws) p (short, shorts) (hot, hots) room small stamp_fits log_fits
      seg_fits loff_fits =
    let onward =
      λ (i : ℕ → List ℕ). logged i p.block.csn (p.block.payload_size + record_size w.size) ws in
    let some_bytes = (record_size_bounds w.size short).0 in
    let (addr, done, good) =
      post_one_total c end_stamp w p short hot (omega arith) small stamp_fits log_fits seg_fits
        (omega (arith, some_bytes)) in
    let (p', rest, stores, size, cap, recs) =
      post_all_total c end_stamp ws (after_one w p addr end_stamp) shorts hots (omega arith) small
        stamp_fits log_fits seg_fits loff_fits in
    (
      p',
      rw done rest,
      (addr, good, rw hot stores),
      omega (arith, size),
      cap,
      recs
          ∙ append_assoc p.records (new_record w p ∷ [])
              (onward (image (placed p.store w addr end_stamp)))
          ∙ ap (λ i. p.records ++ new_record w p ∷ onward i)
              (placed-image p.store w addr end_stamp),
    )
