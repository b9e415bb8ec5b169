-- ===== src/TlsLog.antt =====
-- dbcore/dlog.cpp: appending log blocks to a thread's log, and flushing its buffers through the ring.
-- The log's mutex makes each call one step.
mod Defs
pub mod Position
pub mod Flush
pub mod Allocate
pub mod Placement
pub mod Dirty
pub mod Blocks
unfoldable pub use Defs.*
use preemptdb.Prelude.{
  ℕ, zero, suc, ◌+◌, ◌-◌, ◌%◌, ◌^◌, bit_or, Bool, true, false, not, ◌||◌, List, [], ◌∷◌, ◌++◌,
  Option, none, some, ltb, ◌==◌, if◌then◌else◌, length,
}
use preemptdb.SizeEncode.{align_up}
use preemptdb.CommitQueue.{
  CommitQueue, u32_mod, u64_mod, dirty_flag, set_dirty_flag, get_global_durable_csn,
  dequeue_committed_xcts,
}

pub switch_log_buffers : TlsLog → TlsLog
switch_log_buffers l = record l { second_active = not l.second_active; logbuf_offset = 0 }

-- `poll_flush`, once a completion is there: the write has ended well.
pub complete : Config → Submission → List Submission → TlsLog → TlsLog
complete c w rest l =
    let csn = if l.second_active then l.last_csn_first else l.last_csn_second in
    record l {
      ring = rest;
      durable_lsn = l.durable_lsn +u64 w.size;
      current = record (l.current) { size = l.current.size +u64 w.size };
      tls_durable_csn = csn;
      daemon_has_work = if c.commit_thread then true else l.daemon_has_work;
      queue =
          if c.commit_thread
          then l.queue
          else dequeue_committed_xcts l.queue (get_global_durable_csn (csn ∷ c.other_csns)) c.now;
    }

poll_ring : Config → List Submission → TlsLog → Result TlsLog
unfolding complete
poll_ring c [] l = waits
poll_ring c (w ∷ rest) l = ok (complete c w rest l)

pub poll_flush : Config → TlsLog → Result TlsLog
unfolding poll_ring
poll_flush c l = if c.null_device then ok l else poll_ring c l.ring l

-- `if (flushing) { poll_flush(); flushing = false; }`
pub settle : Config → TlsLog → Result TlsLog
unfolding poll_flush
settle c l =
    if l.flushing then (poll_flush c l >>= λ l'. ok (record l' { flushing = false })) else ok l

pub submit : ℕ → TlsLog → TlsLog
submit size l = record l {
  flushing = true;
  ring = l.ring ++ record { segnum = length l.closed; offset = l.current.size; size = size } ∷ [];
  current = record (l.current) { expected_size = l.current.expected_size +u64 size };
}

pub issue_flush : Config → ℕ → TlsLog → Result TlsLog
unfolding submit
issue_flush c size l =
    if c.null_device
    then ok (record l { durable_lsn = l.durable_lsn +u64 size })
    else settle c l >>= λ l'. ok (submit size l')

pub align_up_flush_size : Config → TlsLog → ℕ → Result ℕ
align_up_flush_size c l size =
    if c.direct_io
    then (if ltb l.logbuf_size (align_up size c.page_size)
        then fatal
        else ok (align_up size c.page_size))
    else ok size

-- The lines that `uninitialize`, `enqueue_flush`, `last_flush` and `allocate_log_block` share: pad
-- the active buffer and hand it to the ring.
pub padded : ℕ → TlsLog → TlsLog
padded aligned_size l = record l {
  current_lsn = l.current_lsn +u64 (aligned_size - l.logbuf_offset);
  logbuf_offset = aligned_size % u32_mod;
}

pub flush_active : Config → TlsLog → Result TlsLog
unfolding padded
flush_active c l = align_up_flush_size c l l.logbuf_offset >>= λ aligned_size.
    issue_flush c (aligned_size % u32_mod) (padded aligned_size l)

abbrev pub is_empty : TlsLog → Bool
is_empty l = l.logbuf_offset == 0

pub enqueue_flush : Config → TlsLog → Result TlsLog
enqueue_flush c l = settle c l >>= λ l'.
    if is_empty l' then ok l' else flush_active c l' >>= λ l''. ok (switch_log_buffers l'')

pub last_flush : Config → TlsLog → Result TlsLog
last_flush c l = settle c l >>= λ l'.
    if is_empty l'
    then ok l'
    else flush_active c l' >>= λ l''.
        poll_flush c (switch_log_buffers l'') >>= λ l'''. ok (record l''' { flushing = false })

pub uninitialize : Config → TlsLog → Result TlsLog
uninitialize c l = if is_empty l then ok l else flush_active c l >>= λ l'. poll_flush c l'

-- `create_segment`, and the start offset that each caller sets right after it
pub create_segment : TlsLog → TlsLog
create_segment l = record l {
  closed = l.current ∷ l.closed;
  current = record { start_offset = l.current_lsn; size = 0; expected_size = 0 };
}

-- The results through `out_cur_lsn` and `out_seg_num`, and the block in the buffer.
pub record Block : Type 0 where
  pub cur_lsn : ℕ
  pub seg_num : ℕ
  pub csn : ℕ
  pub capacity : ℕ
  pub payload_size : ℕ

-- sizeof(log_block): its fields are padded to a page.
abbrev pub alloc_size : Config → ℕ → ℕ
alloc_size c payload_size = (payload_size + c.page_size) % u32_mod

abbrev pub spans_segments : Config → TlsLog → ℕ → Bool
spans_segments c l payload_size =
    ltb l.segment_size
      ((alloc_size c payload_size + l.logbuf_offset) % u32_mod +u64 l.current.expected_size)

abbrev pub spans_buffers : Config → TlsLog → ℕ → Bool
spans_buffers c l payload_size =
    ltb l.logbuf_size ((alloc_size c payload_size + l.logbuf_offset) % u32_mod)

pub create_segment_if : Bool → TlsLog → TlsLog
create_segment_if b l = if b then create_segment l else l

-- The active buffer is flushed unless it is empty, and a segment opened where one is needed.
pub relocate : Config → Bool → TlsLog → Result TlsLog
relocate c create_new_segment l =
    (if is_empty l then ok l else flush_active c l >>= λ l'. ok (switch_log_buffers l')) >>= λ l'.
    ok (create_segment_if create_new_segment l')

unfoldable pub make_room : Config → TlsLog → ℕ → Result TlsLog
make_room c l payload_size =
    if spans_buffers c l payload_size || spans_segments c l payload_size
    then relocate c (spans_segments c l payload_size) l
    else ok l

unfoldable pub append : Config → TlsLog → ℕ → ℕ → TlsLog
append c l payload_size block_csn = record l {
  logbuf_offset = (l.logbuf_offset + alloc_size c payload_size) % u32_mod;
  current_lsn = l.current_lsn +u64 alloc_size c payload_size;
  latest_csn = block_csn;
  last_csn_first = if l.second_active then l.last_csn_first else block_csn;
  last_csn_second = if l.second_active then block_csn else l.last_csn_second;
}

unfoldable pub new_block : TlsLog → ℕ → ℕ → Block
new_block l payload_size block_csn = record {
  cur_lsn = l.current_lsn;
  seg_num = length l.closed;
  csn = block_csn;
  capacity = payload_size;
  payload_size = 0;
}

-- Without a payload there is no block, and nothing changes.
unfoldable pub allocate_log_block : Config → TlsLog → ℕ → ℕ → Result (TlsLog × Option Block)
allocate_log_block c l payload_size block_csn =
    if payload_size == 0
    then ok (l, none)
    else let l' = record l { tls_durable_csn = set_dirty_flag l.tls_durable_csn } in
      if ltb l.logbuf_size (alloc_size c payload_size)
      then fatal
      else make_room c l' payload_size >>= λ l''.
          ok (append c l'' payload_size block_csn, some (new_block l'' payload_size block_csn))
