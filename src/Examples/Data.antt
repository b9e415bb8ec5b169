-- ===== src/Examples/Data.antt =====
-- A queue of four slots whose two entries wrap around its end, a log of two buffers of 64 KB, and
-- memories with one version of one tuple.
use preemptdb.Prelude.{ℕ, ◌+◌, ◌*◌, ◌^◌, false, true, [], ◌∷◌}
use preemptdb.FatPtr.Csn
use preemptdb.CommitQueue.{Entry, CommitQueue, write_at, no_entry}
use preemptdb.TlsLog.{Config, Submission, TlsLog}
use preemptdb.Visibility.{committed, Memory, Visitor}

abbrev pub old_entry : Entry
old_entry = record { csn = 5; start_time = 10 }

abbrev pub new_entry : Entry
new_entry = record { csn = 9; start_time = 20 }

abbrev pub wrapped : CommitQueue
wrapped = record {
  queue = write_at (write_at (λ _. no_entry) 0 new_entry) 3 old_entry;
  start = 3;
  items = 2;
  total_latency_us = 0;
  length = 4;
}

abbrev pub flat : CommitQueue
flat = record wrapped { start = 0; queue = write_at (λ _. old_entry) 1 new_entry }

abbrev pub config : Config
config = record {
  direct_io = false;
  null_device = false;
  commit_thread = false;
  page_size = 4096;
  other_csns = 3 ∷ [];
  now = 100;
}

abbrev pub write_under_way : Submission
write_under_way = record { segnum = 0; offset = 0; size = 4096 }

abbrev pub log : TlsLog
log = record {
  flushing = true;
  logbuf_size = 65536;
  second_active = true;
  last_csn_first = 5;
  last_csn_second = 9;
  latest_csn = 9;
  logbuf_offset = 8192;
  durable_lsn = 0;
  current_lsn = 12288;
  segment_size = 2 ^ 30;
  closed = [];
  current = record { start_offset = 0; size = 0; expected_size = 4096 };
  ring = write_under_way ∷ [];
  tls_durable_csn = 2 ^ 63 + 2;
  queue = flat;
  daemon_has_work = false;
}

-- `XID::make(1, 2)`
abbrev pub writer_xid : ℕ
writer_xid = 2 ^ 48 + 2 * 2 ^ 16 + 0x40ff

abbrev pub reader : Visitor
reader = record { owner = 2 ^ 48 + 3 * 2 ^ 16 + 0x40ff; begin = 7; abort_if_cold = false }

abbrev pub memory_with : ℕ → Memory
memory_with stamp = record {
  contexts = λ _. record {
    begin_epoch = 1;
    owner = writer_xid;
    begin = 1;
    end_stamp = 7;
    state = committed;
  };
  object = λ _. record {
    alloc_epoch = 1;
    pdest = 1;
    next_pdest = 0;
    value = 8 ∷ [];
    csn = stamp;
    next_volatile = 0;
  };
  entry = 2 ^ 16;
}

abbrev pub after_post_commit : Memory
after_post_commit = memory_with (Csn.to_ptr (Csn.make 7))
