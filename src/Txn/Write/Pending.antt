-- ===== src/Txn/Write/Pending.antt =====
-- What holds of a transaction that is under way.
use preemptdb.Prelude.{ℕ, ◌+◌, ◌%◌, ◌^◌, ◌<◌, ◌≡◌, ◌≢◌, sym, ap, Bool, List, [], ◌∷◌, ◌++◌, arith}
use mathlib.Core.Path.{subst}
use preemptdb.FatPtr.{offset}
use preemptdb.TlsLog.{ok}
use preemptdb.Txn.{WriteRecord, Transaction, Store, tuple_header, record_size, add_to_write_set}
use preemptdb.Txn.Commit.{total_size, Every}
use preemptdb.Txn.Abort.{Apart}

-- The stamp of the version that an entry points to
abbrev pub head_stamp : Store → ℕ → ℕ
head_stamp s entry = (s.object (offset (s.entries entry))).csn

-- The log size is that of the records; they are of different tuples; and the head of each is the
-- transaction's own.
pub record Pending (tx : Transaction) (s : Store) : Type 0 where
  pub sized : tx.log_size ≡ total_size tx.write_set
  pub apart : Apart tx.write_set
  pub owns : Every (λ w. head_stamp s w.entry ≡ tx.xid) tx.write_set

total_size-append :
    (ws : List WriteRecord) (w : WriteRecord)
    → total_size (ws ++ w ∷ []) ≡ total_size ws + record_size w.size
unfolding total_size
total_size-append [] w = omega arith
total_size-append (v ∷ ws) w = omega (arith, total_size-append ws w)

Every-append :
    (P : WriteRecord → Type 0) (ws : List WriteRecord) (w : WriteRecord)
    → Every P ws
    → P w
    → Every P (ws ++ w ∷ [])
Every-append P [] w all last = (last, tt)
Every-append P (v ∷ ws) w (first, all) last = (first, Every-append P ws w all last)

Apart-append :
    (ws : List WriteRecord) (w : WriteRecord)
    → Apart ws
    → Every (λ v. v.entry ≢ w.entry) ws
    → Apart (ws ++ w ∷ [])
Apart-append [] w apart others = (tt, tt)
Apart-append (v ∷ ws) w (first, apart) (other, others) = (
  Every-append (λ v'. v'.entry ≢ v.entry) ws w first (λ e. other (sym e)),
  Apart-append ws w apart others,
)

pub add_to_write_set_inv :
    (tx tx' : Transaction) (entry fid oid size : ℕ) (is_insert cold : Bool)
    → add_to_write_set tx entry fid oid size is_insert cold ≡ ok tx'
    → tx' ≡ record tx {
      log_size = (tx.log_size + record_size (size + tuple_header)) % 2 ^ 32;
      write_set =
          tx.write_set
          ++ record {
            entry = entry;
            fid = fid;
            oid = oid;
            size = (size + tuple_header) % 2 ^ 32;
            is_insert = is_insert;
            is_cold = cold;
          }
            ∷ [];
    }
unfolding add_to_write_set
add_to_write_set_inv tx tx' entry fid oid size is_insert cold q = ground arith

-- A record for a tuple that has none yet
pub add_to_write_set-Pending :
    (tx tx' : Transaction) (s : Store) (entry fid oid size : ℕ) (is_insert cold : Bool)
    → Pending tx s
    → Every (λ w. w.entry ≢ entry) tx.write_set
    → head_stamp s entry ≡ tx.xid
    → size + tuple_header < 2 ^ 32
    → total_size tx.write_set + record_size (size + tuple_header) < 2 ^ 32
    → add_to_write_set tx entry fid oid size is_insert cold ≡ ok tx'
    → Pending tx' s
add_to_write_set-Pending tx tx' s entry fid oid size is_insert cold pending others owned small room
      q =
    let new : WriteRecord = record {
      entry = entry;
      fid = fid;
      oid = oid;
      size = (size + 4) % 2 ^ 32;
      is_insert = is_insert;
      is_cold = cold;
    } in
    let size_same : (size + 4) % 2 ^ 32 ≡ size + 4 = omega arith in
    let same = ap record_size size_same in
    subst (λ x. Pending x s) (sym (add_to_write_set_inv tx tx' entry fid oid size is_insert cold q))
      (record {
        sized = omega (arith, pending.sized, total_size-append tx.write_set new, same);
        apart = Apart-append tx.write_set new pending.apart others;
        owns =
            Every-append (λ w. head_stamp s w.entry ≡ tx.xid) tx.write_set new pending.owns owned;
      })
