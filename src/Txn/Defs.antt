-- ===== src/Txn/Defs.antt =====
-- The state that a transaction keeps, and what it writes to.
use preemptdb.Prelude.{ℕ, Bool, List}
use preemptdb.TlsLog.{TlsLog}
use preemptdb.Visibility.{TxnState, XidContext, Object, Memory}

-- `DEFAULT_ALIGNMENT`, and the sizes of `dbtuple` and `log_record`
abbrev pub alignment : ℕ
alignment = 16

abbrev pub alignment_bits : ℕ
alignment_bits = 4

abbrev pub tuple_header : ℕ
tuple_header = 4

abbrev pub record_header : ℕ
record_header = 24

-- `write_record_t`; `entry` is the address of an OID array entry.
pub record WriteRecord : Type 0 where
  pub entry : ℕ
  pub fid : ℕ
  pub oid : ℕ
  pub size : ℕ
  pub is_insert : Bool
  pub is_cold : Bool

-- `begin` is `xc->begin`; `has_log` says that `log` is not null; `absent_set` is
-- `masstree_absent_set`, nodes of the index with the versions that were seen.
pub record Transaction : Type 0 where
  pub read_only : Bool
  pub xid : ℕ
  pub begin : ℕ
  pub has_log : Bool
  pub log_size : ℕ
  pub write_set : List WriteRecord
  pub absent_set : List (ℕ × ℕ)

-- What a transaction writes to: contexts by their number, objects and OID array entries by their
-- addresses, the CSN counter, and the log of the transaction's thread with its number.
pub record Store : Type 0 where
  pub contexts : ℕ → XidContext
  pub object : ℕ → Object
  pub entries : ℕ → ℕ
  pub current_csn : ℕ
  pub log_id : ℕ
  pub log : TlsLog

-- `rc_t`
pub data Rc : Type 0 where
  rc_true : Rc
  rc_false : Rc
  rc_abort_si_conflict : Rc
  rc_abort_phantom : Rc

-- One tuple's share of the store
unfoldable pub tuple_at : Store → ℕ → Memory
tuple_at s entry = record { contexts = s.contexts; object = s.object; entry = s.entries entry }

unfoldable pub set_state : TxnState → XidContext → XidContext
set_state state x = record x { state = state }
