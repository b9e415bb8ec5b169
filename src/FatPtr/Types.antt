-- ===== src/FatPtr/Types.antt =====
-- What is put into a word comes out of it, and the three kinds of words are told apart.
use preemptdb.Prelude.{ℕ, ◌+◌, ◌*◌, ◌/◌, ◌%◌, ◌^◌, ◌<◌, ◌≡◌, ap, ◌∙◌, bit_or, some, arith}
use preemptdb.Prelude.Bits.{bit_and_mask, bit_or_ones, bit_or_shift}
use preemptdb.FatPtr.{asi_type, asi_segment, asi_log, asi_xid, asi_csn, size_code, offset}
use preemptdb.FatPtr.Lsn
use preemptdb.FatPtr.Xid
use preemptdb.FatPtr.Csn
use preemptdb.FatPtr.Fields.{bit_or_below, size_code_lem, asi_segment_lem, asi_type_lem}

xid_word :
    (e i : ℕ) → e < 2 ^ 32 → i < 2 ^ 32 → Xid.make e i ≡ (e % 2 ^ 16 * 2 ^ 32 + i) * 2 ^ 16 + 0x40ff
unfolding Xid.make
xid_word e i he hi =
    let high = bit_or_below 32 (e * 2 ^ 32 % 2 ^ 64) e i (omega arith) hi in
    let body = e * 2 ^ 32 % 2 ^ 64 + i in
    let typed =
      bit_or_below 16 (body * 2 ^ 16 % 2 ^ 64) (e % 2 ^ 16 * 2 ^ 32 + i) 0x4000 (omega arith)
        (omega arith) in
    let coded =
      bit_or_below 8 (body * 2 ^ 16 % 2 ^ 64 + 0x4000) ((e % 2 ^ 16 * 2 ^ 32 + i) * 2 ^ 8 + 0x40)
        0xff (omega arith) (omega arith) in
    rw high (rw typed (rw coded (omega arith)))

-- An XID made of a 32-bit epoch and a 32-bit local part gives back the local part and the low 16
-- bits of the epoch, and as a fat pointer it is in the XID address space.
pub Xid-round_trip :
    (e i : ℕ)
    → e < 2 ^ 32
    → i < 2 ^ 32
    → (Xid.epoch (Xid.make e i) ≡ e % 2 ^ 16)
      × (Xid.local (Xid.make e i) ≡ i)
      × (asi_type (Xid.to_ptr (Xid.make e i)) ≡ asi_xid)
unfolding Xid.epoch Xid.local Xid.to_ptr
Xid-round_trip e i he hi =
    let word = xid_word e i he hi in
    let low : Xid.make e i ≡ Xid.make e i / 2 ^ 8 * 2 ^ 8 + 0xff = omega (arith, word) in
    (
      omega (arith, word),
      omega (arith, word),
      ap asi_type (bit_or_ones 8 (Xid.make e i))
          ∙ omega (arith, asi_type_lem (Xid.make e i / 2 ^ 8 * 2 ^ 8 + 0xff), word),
    )

csn_word : (c : ℕ) → c < 2 ^ 48 → Csn.make c ≡ c * 2 ^ 16 + 0x60ff
unfolding Csn.make
csn_word c h =
    let typed = bit_or_below 16 (c * 2 ^ 16 % 2 ^ 64) c 0x6000 (omega arith) (omega arith) in
    let coded =
      bit_or_below 8 (c * 2 ^ 16 % 2 ^ 64 + 0x6000) (c * 2 ^ 8 + 0x60) 0xff (omega arith)
        (omega arith) in
    rw typed (rw coded (omega arith))

-- A CSN that fits 48 bits comes out of its fat pointer, which is in the CSN address space.
pub Csn-round_trip :
    (c : ℕ)
    → c < 2 ^ 48
    → (offset (Csn.to_ptr (Csn.make c)) ≡ c) × (asi_type (Csn.to_ptr (Csn.make c)) ≡ asi_csn)
unfolding Csn.to_ptr offset
Csn-round_trip c h =
    let word = csn_word c h in
    let same : bit_or (Csn.make c) 0xff ≡ c * 2 ^ 16 + 0x60ff =
      omega (arith, bit_or_ones 8 (Csn.make c), word) in
    (omega (arith, same), omega (arith, asi_type_lem (bit_or (Csn.make c) 0xff), same))

module _ (logid loff segnum size : ℕ) (log_fits : logid < 2 ^ 8) (loff_fits : loff < 2 ^ 40)
    (seg_fits : segnum < 2 ^ 4) (size_fits : size < 2 ^ 8) where
  lsn_word :
      Lsn.make logid loff segnum size ≡ logid * 2 ^ 56 + loff * 2 ^ 16 + segnum * 2 ^ 8 + size
  unfolding Lsn.make
  lsn_word =
      let a = logid * 2 ^ 56 % 2 ^ 64 in
      let b = loff * 2 ^ 16 % 2 ^ 64 in
      let s = segnum * 2 ^ 8 % 2 ^ 64 in
      let one = bit_or_below 56 a logid b (omega arith) (omega arith) in
      let two = bit_or_below 16 (a + b) (logid * 2 ^ 40 + loff) s (omega arith) (omega arith) in
      let three =
        bit_or_below 8 (a + b + s) (logid * 2 ^ 48 + loff * 2 ^ 8 + segnum) size (omega arith)
          size_fits in
      rw one (rw two (rw three (omega arith)))

  lsn_ptr :
      Lsn.to_ptr (Lsn.make logid loff segnum size)
      ≡ logid * 2 ^ 56 + loff * 2 ^ 16 + 0x1000 + segnum * 2 ^ 8 + size
  unfolding Lsn.to_ptr
  lsn_ptr =
      let w = Lsn.make logid loff segnum size in
      omega (
        arith,
        lsn_word,
        bit_or_shift 12 w 1,
        bit_or_below 4 (w / 2 ^ 12) (logid * 2 ^ 40 + loff) 1 (omega (arith, lsn_word))
            (omega arith),
      )

  -- An LSN within its fields keeps the log, the offset and the segment when it goes through a fat
  -- pointer, which is in the log address space and carries the size code; the LSN that comes back
  -- carries the invalid size code.
  pub Lsn-round_trip :
      let ptr = Lsn.to_ptr (Lsn.make logid loff segnum size) in
      (asi_type ptr ≡ asi_log)
      × (asi_segment ptr ≡ segnum)
      × (size_code ptr ≡ size)
      × (offset ptr ≡ logid * 2 ^ 40 + loff)
      × (Lsn.from_ptr ptr ≡ some (Lsn.make logid loff segnum 0xff))
  unfolding offset
  Lsn-round_trip =
      let ptr = Lsn.to_ptr (Lsn.make logid loff segnum size) in
      let typed : asi_type ptr ≡ 16 = omega (arith, asi_type_lem ptr, lsn_ptr) in
      let seg : asi_segment ptr ≡ segnum = omega (arith, asi_segment_lem ptr, lsn_ptr) in
      let off : ptr / 2 ^ 16 ≡ logid * 2 ^ 40 + loff = omega (arith, lsn_ptr) in
      (
        typed,
        seg,
        omega (arith, size_code_lem ptr, lsn_ptr),
        off,
        Lsn.from_ptr_lem ptr logid loff segnum typed (omega (arith, off))
            (bit_and_mask 40 (ptr / 2 ^ 16) ∙ omega (arith, off)) seg,
      )
