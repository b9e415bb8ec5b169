-- ===== src/TlsLog/Dirty.antt =====
-- The dirty flag of a thread's durable CSN across `allocate_log_block`.
use preemptdb.Prelude.{
  ℕ, ◌%◌, ◌≤◌, ◌≡◌, ◌≢◌, refl, ◌∙◌, [], ◌∷◌, true, false, some, arith, if◌then◌else◌,
}
use preemptdb.CommitQueue.{u32_mod, set_dirty_flag}
use preemptdb.TlsLog.Position.{run_flush}
use preemptdb.TlsLog.Allocate.{allocate_runs}
use preemptdb.TlsLog.{
  Config, TlsLog, Submission, ok, settle, complete, submit, padded, switch_log_buffers, append,
  new_block, Block, flush_active, align_up_flush_size, make_room, relocate, create_segment_if,
  alloc_size, is_empty, spans_buffers, spans_segments, allocate_log_block,
}

not_aligned :
    (c : Config) (l : TlsLog)
    → c.direct_io ≡ false
    → align_up_flush_size c l l.logbuf_offset ≡ ok l.logbuf_offset
unfolding align_up_flush_size
not_aligned c l e = rw e refl

module _ (c : Config) (real : c.null_device ≡ false) (buffered_io : c.direct_io ≡ false)
    (l : TlsLog) (w : Submission) (busy : l.flushing ≡ true) (one : l.ring ≡ w ∷ []) where
  polled : TlsLog
  unfolding complete padded
  polled = record (complete c w [] (padded l.logbuf_offset l)) { flushing = false }

  settle-padded : settle c (padded l.logbuf_offset l) ≡ ok polled
  unfolding settle padded polled
  settle-padded = ground arith

  flush_active_polls : flush_active c l ≡ ok (submit (l.logbuf_offset % u32_mod) polled)
  flush_active_polls = run_flush c real l polled l.logbuf_offset aligned settle-padded
    where
      aligned : align_up_flush_size c l l.logbuf_offset ≡ ok l.logbuf_offset
      aligned = not_aligned c l buffered_io

  pub flushed : TlsLog
  flushed = switch_log_buffers (submit (l.logbuf_offset % u32_mod) polled)

  make_room_polls :
      (payload_size : ℕ)
      → is_empty l ≡ false
      → spans_buffers c l payload_size ≡ true
      → spans_segments c l payload_size ≡ false
      → make_room c l payload_size ≡ ok flushed
  unfolding make_room relocate create_segment_if flushed
  make_room_polls payload_size e over within =
      rw (over, within) (rw e (rw (flush_active_polls) refl))

  flushed_state :
      (flushed.tls_durable_csn ≡ (if l.second_active then l.last_csn_first else l.last_csn_second))
      × (flushed.logbuf_offset ≡ 0)
  unfolding flushed switch_log_buffers submit polled complete padded
  flushed_state = (refl, refl)

append_state :
    (c : Config) (f : TlsLog) (payload_size csn : ℕ)
    → f.logbuf_offset ≡ 0
    → ((append c f payload_size csn).tls_durable_csn ≡ f.tls_durable_csn)
      × ((append c f payload_size csn).logbuf_offset ≡ alloc_size c payload_size)
unfolding append
append_state c f payload_size csn z = (refl, omega arith)

-- With buffered I/O on a real device, when `allocate_log_block` finds that the block does not fit
-- the active buffer (within the segment), and a write of the other buffer is under way, it returns
-- with its block in the buffer, and with the thread's durable CSN equal to the last CSN of the
-- other buffer: the dirty flag that it set on entry is gone wherever that CSN has no such bit.
pub allocate_log_block_undirties :
    (c : Config) (l : TlsLog) (w : Submission) (payload_size block_csn : ℕ)
    → c.null_device ≡ false
    → c.direct_io ≡ false
    → l.flushing ≡ true
    → l.ring ≡ w ∷ []
    → payload_size ≢ 0
    → alloc_size c payload_size ≤ l.logbuf_size
    → is_empty l ≡ false
    → spans_buffers c l payload_size ≡ true
    → spans_segments c l payload_size ≡ false
    → (l' : TlsLog) × (b : Block) × (allocate_log_block c l payload_size block_csn
        ≡ ok (l', some b))
      × (l'.tls_durable_csn ≡ (if l.second_active then l.last_csn_first else l.last_csn_second))
      × (l'.logbuf_offset ≡ alloc_size c payload_size)
allocate_log_block_undirties c l w payload_size block_csn real buffered_io busy one some_payload
      fits e over within =
    let dirty = record l { tls_durable_csn = set_dirty_flag l.tls_durable_csn } in
    let f = flushed c real buffered_io dirty w busy one in
    let state = flushed_state c real buffered_io dirty w busy one in
    let after = append_state c f payload_size block_csn state.1 in
    (
      append c f payload_size block_csn,
      new_block f payload_size block_csn,
      allocate_runs c payload_size l f block_csn some_payload fits
          (make_room_polls c real buffered_io dirty w busy one payload_size e over within),
      after.0 ∙ state.0,
      after.1,
    )
