-- ===== src/TlsLog/Allocate.antt =====
-- `allocate_log_block`: the block fits one buffer, and lies where its LSN says.
use preemptdb.Prelude.{
  ℕ, ◌+◌, ◌%◌, ◌^◌, ◌≤◌, ◌<◌, ◌≡◌, ◌≢◌, refl, ◌⊎◌, inl, inr, Bool, true, false, ◌||◌, length, some,
  arith, Bool-cases, ltb_false→le,
}
use preemptdb.CommitQueue.{u32_mod, set_dirty_flag}
use preemptdb.TlsLog.{
  Config, TlsLog, ok, fatal, flush_active, is_empty, switch_log_buffers, create_segment,
  create_segment_if, relocate, make_room, append, new_block, Block, alloc_size, spans_segments,
  spans_buffers, allocate_log_block,
}
use preemptdb.TlsLog.Position.{IsValid, flush_cases}
use preemptdb.TlsLog.Flush.{switched-IsValid, switched-lsn, switched-offset, switched-size}

-- A new segment may start wherever the buffer is empty.
create_segment-IsValid : (l : TlsLog) → IsValid l → l.logbuf_offset ≡ 0 → IsValid (create_segment l)
unfolding create_segment
create_segment-IsValid l v e = record {
  one = v.one;
  small = v.small;
  fits = v.fits;
  accounted = v.accounted;
  placed = omega arith;
}

create_segment_keeps :
    (l : TlsLog)
    → ((create_segment l).logbuf_offset ≡ l.logbuf_offset)
      × ((create_segment l).current_lsn ≡ l.current_lsn)
      × ((create_segment l).logbuf_size ≡ l.logbuf_size)
unfolding create_segment
create_segment_keeps l = (refl, refl, refl)

append-IsValid :
    (c : Config) (l : TlsLog) (payload_size csn : ℕ)
    → IsValid l
    → l.current_lsn + 2 ^ 32 ≤ 2 ^ 64
    → l.logbuf_offset + alloc_size c payload_size ≤ l.logbuf_size
    → IsValid (append c l payload_size csn)
unfolding append
append-IsValid c l payload_size csn v h room = record {
  one = v.one;
  small = v.small;
  fits = omega (arith, v.small);
  accounted = omega (arith, v.small, v.accounted);
  placed = omega (arith, v.small, v.placed);
}

-- What `make_room` establishes
record Roomy (c : Config) (payload_size : ℕ) (l l' : TlsLog) : Type 0 where
  valid : IsValid l'
  room : l'.logbuf_offset + alloc_size c payload_size ≤ l'.logbuf_size
  range : l'.current_lsn ≤ l.current_lsn + 2 ^ 31

emptied :
    (c : Config) (payload_size : ℕ) (l e : TlsLog) (b : Bool)
    → IsValid e
    → e.logbuf_offset ≡ 0
    → alloc_size c payload_size ≤ e.logbuf_size
    → e.current_lsn ≤ l.current_lsn + 2 ^ 31
    → Roomy c payload_size l (create_segment_if b e)
unfolding create_segment_if
emptied c p l e true v z room range = record {
  valid = create_segment-IsValid e v z;
  room = omega (arith, create_segment_keeps e);
  range = omega (arith, create_segment_keeps e);
}
emptied c p l e false v z room range = record { valid = v; room = omega arith; range = range }

module _ (c : Config) (l : TlsLog) (b : Bool) where
  relocate_empty : is_empty l ≡ true → relocate c b l ≡ ok (create_segment_if b l)
  unfolding relocate
  relocate_empty e = rw e refl

  relocate_fails : is_empty l ≡ false → flush_active c l ≡ fatal → relocate c b l ≡ fatal
  unfolding relocate
  relocate_fails e over = rw (e, over) refl

  relocate_flushes :
      (f : TlsLog)
      → is_empty l ≡ false
      → flush_active c l ≡ ok f
      → relocate c b l ≡ ok (create_segment_if b (switch_log_buffers f))
  unfolding relocate
  relocate_flushes f e flushed = rw (e, flushed) refl

or_false : (a b : Bool) → (a || b) ≡ false → a ≡ false
or_false true b h = cc
or_false false b h = refl

-- What a caller learns of its block: it holds the CSN, it was carved out of the log's open segment,
-- and its bytes are the last that the log handed out.
pub record Placed (c : Config) (payload_size : ℕ) (l' : TlsLog) (b : Block) (block_csn : ℕ)
    : Type 0 where
  pub stamped : b.csn ≡ block_csn
  pub sized : b.capacity ≡ payload_size
  pub segment : b.seg_num ≡ length l'.closed
  pub last : b.cur_lsn + alloc_size c payload_size ≡ l'.current_lsn
  pub in_segment : l'.current.start_offset ≤ b.cur_lsn

append-Placed :
    (c : Config) (payload_size csn : ℕ) (r : TlsLog)
    → IsValid r
    → r.current_lsn + 2 ^ 32 ≤ 2 ^ 64
    → r.logbuf_offset + alloc_size c payload_size ≤ r.logbuf_size
    → Placed c payload_size (append c r payload_size csn) (new_block r payload_size csn) csn
unfolding append new_block
append-Placed c payload_size csn r v h room = record {
  stamped = refl;
  sized = refl;
  segment = refl;
  last = omega (arith, v.small);
  in_segment = omega (arith, v.placed);
}

redirty-IsValid : (l : TlsLog) (csn : ℕ) → IsValid l → IsValid (record l { tls_durable_csn = csn })
redirty-IsValid l csn v = record {
  one = v.one;
  small = v.small;
  fits = v.fits;
  accounted = v.accounted;
  placed = v.placed;
}

module _ (c : Config) (payload_size : ℕ) where
  pub allocate_runs :
      (l r : TlsLog) (csn : ℕ)
      → payload_size ≢ 0
      → alloc_size c payload_size ≤ l.logbuf_size
      → make_room c (record l { tls_durable_csn = set_dirty_flag l.tls_durable_csn }) payload_size
        ≡ ok r
      → allocate_log_block c l payload_size csn
        ≡ ok (append c r payload_size csn, some (new_block r payload_size csn))
  unfolding allocate_log_block
  allocate_runs l r csn some_payload fits roomy = ground arith

  allocate_fails :
      (l : TlsLog) (csn : ℕ)
      → payload_size ≢ 0
      → make_room c (record l { tls_durable_csn = set_dirty_flag l.tls_durable_csn }) payload_size
        ≡ fatal
      → allocate_log_block c l payload_size csn ≡ fatal
  unfolding allocate_log_block
  allocate_fails l csn some_payload over = ground arith

module _ (c : Config) (real : c.null_device ≡ false) (k m : ℕ) (page : c.page_size ≡ 2 ^ k)
    (whole : m + k ≡ 64) (k_small : k < 32) (payload_size : ℕ) where
  relocate_cases :
      (l : TlsLog) (b : Bool)
      → IsValid l
      → l.current_lsn + 2 ^ 34 ≤ 2 ^ 64
      → alloc_size c payload_size ≤ l.logbuf_size
      → (relocate c b l ≡ fatal)
        ⊎ ((l' : TlsLog) × (relocate c b l ≡ ok l') × Roomy c payload_size l l')
  relocate_cases l b v h fits = elim (Bool-cases (is_empty l)) [
    | inl e ↦ inr (
      create_segment_if b l,
      relocate_empty c l b e,
      emptied c payload_size l l b v (ground arith) fits (omega arith),
    )
    | inr e ↦ elim (flush_cases c real k m page whole k_small l v (omega arith)) [
      | inl over ↦ inl (relocate_fails c l b e over)
      | inr (f, flushed, fl) ↦ inr (
        create_segment_if b (switch_log_buffers f),
        relocate_flushes c l b f e flushed,
        emptied c payload_size l (switch_log_buffers f) b
            (switched-IsValid c real k m page whole k_small l f fl v.small) (switched-offset f)
            (omega (arith, switched-size f, fl.buffer)) (omega (arith, switched-lsn f, fl.padding)),
      )
    ]
  ]

  make_room_cases :
      (l : TlsLog)
      → IsValid l
      → l.current_lsn + 2 ^ 34 ≤ 2 ^ 64
      → alloc_size c payload_size ≤ l.logbuf_size
      → (make_room c l payload_size ≡ fatal)
        ⊎ ((l' : TlsLog) × (make_room c l payload_size ≡ ok l') × Roomy c payload_size l l')
  unfolding make_room
  make_room_cases l v h fits =
      elim (Bool-cases (spans_buffers c l payload_size || spans_segments c l payload_size)) [
        | inl moves ↦ rw moves (relocate_cases l (spans_segments c l payload_size) v h fits)
        | inr stays ↦
            rw stays
              (inr (l, refl, record { valid = v; room = no_span stays; range = omega arith }))
      ]
    where
      no_span :
          (spans_buffers c l payload_size || spans_segments c l payload_size) ≡ false
          → l.logbuf_offset + alloc_size c payload_size ≤ l.logbuf_size
      no_span e = omega (
        arith,
        v.small,
        v.fits,
        fits,
        ltb_false→le l.logbuf_size ((alloc_size c payload_size + l.logbuf_offset) % u32_mod)
            (or_false _ _ e),
      )

  -- On a real device with pages of a power of two below 2 ^ 32 bytes, in a well-formed log with
  -- 2 ^ 34 bytes left in its LSNs, with a payload that makes a block no larger than the buffer,
  -- `allocate_log_block` ends the process, or returns a
  -- block in the open segment whose LSN range ends at the log's current LSN; the log stays well
  -- formed, so the block fits in one buffer, every byte is durable, submitted or buffered, and the
  -- current LSN is the segment's start plus the bytes submitted to it and buffered for it.
  pub allocate_log_block-IsValid :
      (l : TlsLog) (block_csn : ℕ)
      → IsValid l
      → l.current_lsn + 2 ^ 34 ≤ 2 ^ 64
      → payload_size ≢ 0
      → alloc_size c payload_size ≤ l.logbuf_size
      → (allocate_log_block c l payload_size block_csn ≡ fatal)
        ⊎ ((l' : TlsLog) × (b : Block) × (allocate_log_block c l payload_size block_csn
              ≡ ok (l', some b))
            × IsValid l'
            × Placed c payload_size l' b block_csn)
  allocate_log_block-IsValid l block_csn v h some_payload fits =
      let dirty = record l { tls_durable_csn = set_dirty_flag l.tls_durable_csn } in
      elim (make_room_cases dirty (redirty-IsValid l _ v) h fits) [
        | inl over ↦ inl (allocate_fails c payload_size l block_csn some_payload over)
        | inr (r, roomy, it) ↦
            let range : r.current_lsn + 2 ^ 32 ≤ 2 ^ 64 = omega (arith, it.range) in
            inr (
              append c r payload_size block_csn,
              new_block r payload_size block_csn,
              allocate_runs c payload_size l r block_csn some_payload fits roomy,
              append-IsValid c r payload_size block_csn it.valid range it.room,
              append-Placed c payload_size block_csn r it.valid range it.room,
            )
      ]
