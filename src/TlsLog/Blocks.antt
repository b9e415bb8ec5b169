-- ===== src/TlsLog/Blocks.antt =====
-- What `allocate_log_block` hands out.
use preemptdb.Prelude.{ℕ, ◌≡◌, Option, inl, inr, some, arith, Bool-cases, ltb, ◌==◌}
use preemptdb.CommitQueue.{set_dirty_flag}
use preemptdb.TlsLog.{
  Config, TlsLog, Result, ok, fatal, waits, ◌>>=◌, make_room, append, new_block, Block, alloc_size,
  allocate_log_block,
}

abbrev append_block : Config → ℕ → ℕ → TlsLog → Result (TlsLog × Option Block)
append_block c n csn l = ok (append c l n csn, some (new_block l n csn))

block_inv :
    (c : Config) (r : Result TlsLog) (n csn : ℕ) (l' : TlsLog) (b : Block)
    → (r >>= append_block c n csn) ≡ ok (l', some b)
    → (b.capacity ≡ n) × (b.payload_size ≡ 0) × (b.csn ≡ csn)
unfolding new_block
block_inv c (ok r) n csn l' b q = (ground arith, ground arith, ground arith)
block_inv c fatal n csn l' b q = cc
block_inv c waits n csn l' b q = cc

-- A block that was allocated is empty and holds what was asked for.
pub allocate_log_block-Block :
    (c : Config) (l : TlsLog) (n csn : ℕ) (l' : TlsLog) (b : Block)
    → allocate_log_block c l n csn ≡ ok (l', some b)
    → (b.capacity ≡ n) × (b.payload_size ≡ 0) × (b.csn ≡ csn)
unfolding allocate_log_block
allocate_log_block-Block c l n csn l' b q = elim (Bool-cases (n == 0)) [
  | inl none_asked ↦ ground (arith, none_asked)
  | inr some_asked ↦ elim (Bool-cases (ltb l.logbuf_size (alloc_size c n))) [
    | inl over ↦ ground (arith, some_asked, over)
    | inr fits ↦
        block_inv c
          (make_room c (record l { tls_durable_csn = set_dirty_flag l.tls_durable_csn }) n) n csn l'
          b (rw fits at (rw some_asked at q))
  ]
]
