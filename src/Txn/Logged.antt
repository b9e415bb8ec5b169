-- ===== src/Txn/Logged.antt =====
-- The log records that `si_commit` of txn.cc makes, and the persistent addresses of the versions.
use preemptdb.Prelude.{
  ℕ, ◌+◌, ◌^◌, ◌≤◌, ◌<◌, ◌≡◌, ◌≢◌, refl, sym, ap, ◌∙◌, some, List, [], ◌∷◌, arith,
}
use mathlib.Core.Path.{subst}
use preemptdb.FatPtr.{offset}
use preemptdb.TlsLog.{Config, TlsLog, Block, ok, allocate_log_block}
use preemptdb.Txn.{
  WriteRecord, Transaction, Store, rc_true, record_size, place, install_csn, commit_writes,
  committed, set_own_state, set_end,
}
use preemptdb.Txn.Commit.{total_size, Every, image, address, logged, AddressOf, PlacedAll}
use preemptdb.Txn.Stamped.{Hot, Committed, store_in_loop, commit_writes_total}

-- The tuples have different versions at their heads; `entries` is what the entries hold.
abbrev pub Distinct : (ℕ → ℕ) → List WriteRecord → Type 0
Distinct entries [] = Unit {0}
Distinct entries (w ∷ ws) =
    Every (λ v. offset (entries w.entry) ≢ offset (entries v.entry)) ws × Distinct entries ws

-- Each version has the address of its record: the records are behind the header of the block, one
-- behind the other from `off`.
unfoldable pub Addressed : Config → ℕ → Block → (ℕ → ℕ) → Store → ℕ → List WriteRecord → Type 0
Addressed c log_id b entries s off [] = Unit {0}
Addressed c log_id b entries s off (w ∷ ws) =
    AddressOf c log_id b off w (address s (offset (entries w.entry)))
    × Addressed c log_id b entries s (off + record_size w.size) ws

place_elsewhere :
    (s : Store) (w : WriteRecord) (addr e obj : ℕ)
    → Hot w
    → obj ≢ offset (s.entries w.entry)
    → address (place s w addr e) obj ≡ address s obj
unfolding place install_csn
place_elsewhere s w addr e obj hot other = ground arith

place_here :
    (s : Store) (w : WriteRecord) (addr e : ℕ)
    → Hot w
    → address (place s w addr e) (offset (s.entries w.entry)) ≡ addr
unfolding place install_csn
place_here s w addr e hot = ground arith

place-entries :
    (s : Store) (w : WriteRecord) (addr e : ℕ) → Hot w → (place s w addr e).entries ≡ s.entries
unfolding place
place-entries s w addr e hot = rw hot refl

all_elsewhere :
    (Good : ℕ → WriteRecord → ℕ → Type 0) (off e : ℕ) (ws : List WriteRecord) (s s' : Store)
    (obj : ℕ)
    → Every Hot ws
    → Every (λ v. obj ≢ offset (s.entries v.entry)) ws
    → PlacedAll Good off e ws s s'
    → address s' obj ≡ address s obj
unfolding PlacedAll
all_elsewhere Good off e [] s s' obj hot others same = ap (λ (t : Store). address t obj) (sym same)
all_elsewhere Good off e (w ∷ ws) s s' obj (hot, hots) (other, others) (addr, _, rest) =
    let kept = place-entries s w addr e hot in
    all_elsewhere Good (off + record_size w.size) e ws (place s w addr e) s' obj hots
      (subst (λ f. Every (λ v. obj ≢ offset (f v.entry)) ws) (sym kept) others) rest
    ∙ place_elsewhere s w addr e obj hot other

all-Addressed :
    (c : Config) (log_id : ℕ) (b : Block) (off e : ℕ) (ws : List WriteRecord) (s s' : Store)
    → Every Hot ws
    → Distinct s.entries ws
    → PlacedAll (AddressOf c log_id b) off e ws s s'
    → Addressed c log_id b s.entries s' off ws
unfolding PlacedAll Addressed
all-Addressed c log_id b off e [] s s' hot distinct same = tt
all-Addressed c log_id b off e (w ∷ ws) s s' (hot, hots) (first, distinct) (addr, good, rest) =
    let kept = place-entries s w addr e hot in
    let next = off + record_size w.size in
    let obj = offset (s.entries w.entry) in
    let there =
      all_elsewhere (AddressOf c log_id b) next e ws (place s w addr e) s' obj hots
        (subst (λ f. Every (λ v. obj ≢ offset (f v.entry)) ws) (sym kept) first) rest
      ∙ place_here s w addr e hot in
    (
      subst (λ x. AddressOf c log_id b off w x) (sym there) good,
      subst (λ f. Addressed c log_id b f s' next ws) kept
          (all-Addressed c log_id b next e ws (place s w addr e) s' hots
            (subst (λ f. Distinct f ws) (sym kept) distinct) rest),
    )

pub commit_writes-Committed :
    (c : Config) (tx : Transaction) (s : Store) (l : TlsLog) (b : Block)
    → tx.log_size ≡ total_size tx.write_set
    → tx.log_size < 2 ^ 32
    → Every (λ w. w.size < 2 ^ 32) tx.write_set
    → Every Hot tx.write_set
    → Distinct s.entries tx.write_set
    → s.current_csn < 2 ^ 48
    → s.log_id < 2 ^ 8
    → b.seg_num < 2 ^ 4
    → b.cur_lsn + c.page_size + tx.log_size ≤ 2 ^ 40
    → allocate_log_block c s.log tx.log_size s.current_csn ≡ ok (l, some b)
    → (s' : Store) × (commit_writes c tx s
        ≡ ok (rc_true, s', logged (image s) s.current_csn 0 tx.write_set))
      × Addressed c s.log_id b s.entries s' 0 tx.write_set
      × Committed tx s s' l
unfolding set_own_state set_end Addressed
commit_writes-Committed c tx s l b sized small short hot distinct stamp_fits log_fits seg_fits
      loff_fits given =
    let (after, records, done, logs, placed, left) =
      commit_writes_total c tx s l b sized small short hot stamp_fits log_fits seg_fits loff_fits
        given in
    (
      set_own_state committed tx after,
      done ∙ ap (λ r. ok (rc_true, set_own_state committed tx after, r)) logs,
      all-Addressed c s.log_id b 0 s.current_csn tx.write_set (store_in_loop tx s l) after hot
          distinct placed,
      left,
    )
