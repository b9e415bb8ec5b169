-- ===== src/Examples/Logs.antt =====
-- The log with a write under way.
use preemptdb.Prelude.{◌≡◌, ◌⊎◌, refl, false, [], ◌∷◌, some, arith}
use preemptdb.TlsLog.{
  TlsLog, Block, ok, fatal, last_flush, issue_flush, create_segment, allocate_log_block, alloc_size,
}
use preemptdb.TlsLog.Position.{IsValid}
use preemptdb.TlsLog.Flush.{last_flush_durable}
use preemptdb.TlsLog.Allocate.{Placed, allocate_log_block-IsValid}
use preemptdb.TlsLog.Placement.{IsSynced, Issued, issue_flush_place, issue_flush_misplaced}
use preemptdb.TlsLog.Dirty.{allocate_log_block_undirties}
use preemptdb.Examples.Data.{config, log, write_under_way}

log-IsValid : IsValid log
log-IsValid = record {
  one = tt;
  small = omega arith;
  fits = omega arith;
  accounted = omega arith;
  placed = omega arith;
}

log-IsSynced : IsSynced log
log-IsSynced = record { one = tt; sum = omega arith; range = omega arith }

last_flush_durable_example :
    (last_flush config log ≡ fatal)
    ⊎ ((l' : TlsLog) × (last_flush config log ≡ ok l')
        × (l'.durable_lsn ≡ l'.current_lsn)
        × (l'.logbuf_offset ≡ 0)
        × (l'.flushing ≡ false)
        × IsValid l')
last_flush_durable_example =
    last_flush_durable config refl 12 52 refl refl (omega arith) log log-IsValid (omega arith)

allocate_log_block-IsValid_example :
    (allocate_log_block config log 60000 11 ≡ fatal)
    ⊎ ((l' : TlsLog) × (b : Block) × (allocate_log_block config log 60000 11 ≡ ok (l', some b))
        × IsValid l'
        × Placed config 60000 l' b 11)
allocate_log_block-IsValid_example =
    allocate_log_block-IsValid config refl 12 52 refl refl (omega arith) 60000 log 11 log-IsValid
      (omega arith) (omega arith) (omega arith)

issue_flush_place_example :
    (l' : TlsLog) × (issue_flush config 8192 log ≡ ok l') × Issued log l' 8192
issue_flush_place_example = issue_flush_place config refl 8192 (omega arith) log log-IsSynced

issue_flush_misplaced_example :
    (l' : TlsLog) × (issue_flush config 8192 (create_segment log) ≡ ok l')
    × (l'.ring ≡ record { segnum = 1; offset = 4096; size = 8192 } ∷ [])
issue_flush_misplaced_example =
    issue_flush_misplaced config refl 8192 (omega arith) log write_under_way refl refl (omega arith)

allocate_log_block_undirties_example :
    (l' : TlsLog) × (b : Block) × (allocate_log_block config log 60000 11 ≡ ok (l', some b))
    × (l'.tls_durable_csn ≡ 5)
    × (l'.logbuf_offset ≡ alloc_size config 60000)
allocate_log_block_undirties_example =
    allocate_log_block_undirties config log write_under_way 60000 11 refl refl refl refl
      (omega arith) (omega arith) refl refl refl
