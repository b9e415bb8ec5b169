-- ===== src/Txn/Write/Ends.antt =====
-- What a commit hands to the commit queue.
use preemptdb.Prelude.{
  ℕ, ◌+◌, ◌≤◌, ◌^◌, ◌<◌, ◌≡◌, ◌≢◌, refl, ap, ◌∙◌, Bool, true, false, ◌&&◌, some, none, List, length,
  ◌==◌, if◌then◌else◌, arith,
}
use preemptdb.FatPtr.Xid
use preemptdb.TlsLog.{Config, TlsLog, Block, ok, fatal, ◌>>=◌, allocate_log_block}
use preemptdb.Visibility.{active, committed, committing}
use preemptdb.Txn.{
  Transaction, Store, LogRecord, rc_true, set_own_state, commit_writes, masstree_check_phantom,
  si_commit,
}
use preemptdb.Txn.Commit.{Every}
use preemptdb.Txn.Stamped.{Hot, Stamped, commit_writes_total}
use preemptdb.Txn.Write.{Ended, queued_csn, free_context, is_true, is_active, end_commit, commit}
use preemptdb.Txn.Write.Pending.{Pending}

queued_written : (e : ℕ) (tx : Transaction) → length tx.write_set ≢ 0 → queued_csn e tx ≡ e
unfolding queued_csn
queued_written e tx wrote = ground arith

si_commit-writes :
    (c : Config) (phantom_prot : Bool) (version : ℕ → ℕ) (tx : Transaction) (s s' : Store)
    (records : List LogRecord)
    → tx.has_log ≡ true
    → length tx.write_set ≢ 0
    → masstree_check_phantom version tx.absent_set ≡ true
    → commit_writes c tx s ≡ ok (rc_true, s', records)
    → si_commit c phantom_prot version tx s ≡ ok (rc_true, s', records)
unfolding si_commit
si_commit-writes c true version tx s s' records logged wrote unchanged done =
    let some_write : (length tx.write_set == 0) ≡ false = ground arith in
    rw logged (rw some_write (rw unchanged done))
si_commit-writes c false version tx s s' records logged wrote unchanged done =
    let some_write : (length tx.write_set == 0) ≡ false = ground arith in
    rw logged (rw some_write done)

queued_lem :
    (pcommit : Bool) (a e : ℕ)
    → a ≡ e
    → (if pcommit then some a else none) ≡ (if pcommit then some e else none)
queued_lem pcommit a e same = ap (λ x. if pcommit then some x else none) same

commit_lem :
    (c : Config) (pcommit phantom_prot : Bool) (version : ℕ → ℕ) (tx : Transaction) (s s' : Store)
    (records : List LogRecord)
    → (s.contexts (Xid.local tx.xid)).state ≡ active
    → si_commit c phantom_prot version tx (set_own_state committing tx s)
      ≡ ok (rc_true, s', records)
    → commit c pcommit phantom_prot version tx s ≡ ok (end_commit pcommit tx (rc_true, s', records))
unfolding commit
commit_lem c pcommit phantom_prot version tx s s' records began done =
    let r = si_commit c phantom_prot version tx (set_own_state committing tx s) in
    ap (λ x. if is_active x then (r >>= λ y. ok (end_commit pcommit tx y)) else fatal) began
    ∙ ap (λ x. x >>= λ y. ok (end_commit pcommit tx y)) done

ended_queued :
    (pcommit : Bool) (tx : Transaction) (s : Store) (records : List LogRecord) (e : ℕ)
    → tx.has_log ≡ true
    → queued_csn (s.contexts (Xid.local tx.xid)).end_stamp tx ≡ e
    → (end_commit pcommit tx (rc_true, s, records)).queued ≡ (if pcommit then some e else none)
unfolding end_commit is_true
ended_queued pcommit tx s records e logged same =
    let end_stamp = (s.contexts (Xid.local tx.xid)).end_stamp in
    ap (λ b. if b && pcommit then some (queued_csn end_stamp tx) else none) logged
    ∙ queued_lem pcommit (queued_csn end_stamp tx) e same

-- An active transaction whose write set is in order and not empty, with less than 2 ^ 32 bytes of records and no tuple
-- to leave cold, to which the log gives a block and whose index nodes have not changed, where the
-- CSN, the log's number, the block's segment and its end fit the fields of a CSN and of an LSN: its commit
-- succeeds, stamps all of its versions with the CSN that the counter had, and leaves that CSN to wait for in the commit queue, if there is
-- one.
pub commit_of_writes :
    (c : Config) (pcommit phantom_prot : Bool) (version : ℕ → ℕ) (tx : Transaction) (s : Store)
    (l : TlsLog) (b : Block)
    → (s.contexts (Xid.local tx.xid)).state ≡ active
    → Pending tx s
    → tx.has_log ≡ true
    → length tx.write_set ≢ 0
    → tx.log_size < 2 ^ 32
    → Every (λ w. w.size < 2 ^ 32) tx.write_set
    → Every Hot tx.write_set
    → s.current_csn < 2 ^ 48
    → s.log_id < 2 ^ 8
    → b.seg_num < 2 ^ 4
    → b.cur_lsn + c.page_size + tx.log_size ≤ 2 ^ 40
    → masstree_check_phantom version tx.absent_set ≡ true
    → allocate_log_block c s.log tx.log_size s.current_csn ≡ ok (l, some b)
    → (e : Ended) × (commit c pcommit phantom_prot version tx s ≡ ok e)
      × (e.rc ≡ rc_true)
      × Every (Stamped s.current_csn e.store) tx.write_set
      × (e.queued ≡ (if pcommit then some s.current_csn else none))
unfolding end_commit is_true set_own_state free_context
commit_of_writes c pcommit phantom_prot version tx s l b began pending logged wrote small short hot
      stamp_fits log_fits seg_fits loff_fits unchanged given =
    let start = set_own_state committing tx s in
    let (after, records, done, _, _, left) =
      commit_writes_total c tx start l b pending.sized small short hot stamp_fits log_fits seg_fits
        loff_fits given in
    let s' = set_own_state committed tx after in
    let ended =
      si_commit-writes c phantom_prot version tx start s' records logged wrote unchanged done in
    (
      end_commit pcommit tx (rc_true, s', records),
      commit_lem c pcommit phantom_prot version tx s s' records began ended,
      refl,
      left.stamped,
      ended_queued pcommit tx s' records s.current_csn logged
          (ap (λ x. queued_csn x tx) left.end_stamp ∙ queued_written s.current_csn tx wrote),
    )
