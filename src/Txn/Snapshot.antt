-- ===== src/Txn/Snapshot.antt =====
-- Who sees the versions of a commit.
use preemptdb.Prelude.{ℕ, ◌+◌, ◌^◌, ◌<◌, ◌≡◌, ◌≢◌, some, List, leb, if◌then◌else◌, arith}
use preemptdb.FatPtr.{asi_type, asi_csn, offset}
use preemptdb.FatPtr.Csn
use preemptdb.FatPtr.Types.{Csn-round_trip}
use preemptdb.FatPtr.Fields.{asi_type_lem}
use preemptdb.TlsLog.{Config, TlsLog, Block, ok, allocate_log_block}
use preemptdb.Visibility.{History, Visitor, Verdict, visible, invisible, judge_csn, test_visibility}
use preemptdb.Txn.{WriteRecord, Transaction, Store, LogRecord, rc_true, tuple_at, commit_writes}
use preemptdb.Txn.Commit.{total_size, Every, Every-map}
use preemptdb.Txn.Stamped.{Hot, Stamped, commit_writes_left}

abbrev by_csn : ℕ → ℕ → Verdict
by_csn csn begin = if leb csn begin then visible else invisible

judge_csn_by_stamp :
    (fuel : ℕ) (m : History) (t obj csn n : ℕ) (v : Visitor)
    → asi_type csn ≡ asi_csn
    → offset csn ≡ n
    → judge_csn fuel m t obj csn v ≡ by_csn n v.begin
unfolding judge_csn
judge_csn_by_stamp fuel m t obj csn n v typed off =
    let real : csn ≢ 0 = λ e. omega (arith, asi_type_lem csn, typed, e) in ground (arith, real)

-- What a reader makes of the head of a written tuple
abbrev pub Judged : ℕ → Store → Visitor → ℕ → ℕ → ℕ → WriteRecord → Type 0
Judged csn s v fuel t begin w =
    test_visibility fuel (λ _. tuple_at s w.entry) t (offset (s.entries w.entry)) v
    ≡ by_csn csn begin

Stamped-Judged :
    (csn : ℕ) (s : Store) (v : Visitor) (fuel t : ℕ) (w : WriteRecord)
    → csn < 2 ^ 48
    → Stamped csn s w
    → Judged csn s v fuel t v.begin w
unfolding test_visibility tuple_at
Stamped-Judged csn s v fuel t w small stamped =
    let (off, kind) = Csn-round_trip csn small in
    rw stamped (
      judge_csn_by_stamp fuel (λ _. tuple_at s w.entry) (t + 1) (offset (s.entries w.entry))
        (Csn.to_ptr (Csn.make csn)) csn v kind off)

-- A commit of writes, of a transaction whose log size is that of its records, with less than 2 ^ 32
-- bytes of them and no tuple to leave cold, to which the log gives a block, and whose CSN fits 48 bits: once it has
-- ended, a reader sees its versions, all of them or none, and sees them just when its begin stamp is
-- at least the CSN.
pub test_visibility-commit_writes :
    (c : Config) (tx : Transaction) (s s' : Store) (l : TlsLog) (b : Block)
    (records : List LogRecord)
    → tx.log_size ≡ total_size tx.write_set
    → tx.log_size < 2 ^ 32
    → Every (λ w. w.size < 2 ^ 32) tx.write_set
    → Every Hot tx.write_set
    → allocate_log_block c s.log tx.log_size s.current_csn ≡ ok (l, some b)
    → s.current_csn < 2 ^ 48
    → commit_writes c tx s ≡ ok (rc_true, s', records)
    → (v : Visitor) (fuel t : ℕ) → Every (Judged s.current_csn s' v fuel t v.begin) tx.write_set
test_visibility-commit_writes c tx s s' l b records sized small short hot given csn_small done v
      fuel t =
    let left = commit_writes_left c tx s s' l b records hot given done in
    Every-map (λ w stamped. Stamped-Judged s.current_csn s' v fuel t w csn_small stamped)
      tx.write_set left.stamped
