-- ===== src/Txn/Stamped.antt =====
-- What a commit leaves in the store.
use preemptdb.Prelude.{
  set_at, ℕ, ◌+◌, ◌%◌, ◌^◌, ◌<◌, ◌≤◌, inl, inr, Bool-cases, if◌then◌else◌, ◌≡◌, refl, sym, ap, ◌∙◌,
  true, false, some, List, [], ◌∷◌, ◌==◌, arith,
}
use mathlib.Core.Path.{subst}
use preemptdb.FatPtr.{offset}
use preemptdb.FatPtr.Xid
use preemptdb.FatPtr.Csn
use preemptdb.CommitQueue.{u64_mod}
use preemptdb.TlsLog.{Config, TlsLog, Block, Result, ok, fatal, ◌>>=◌, allocate_log_block}
use preemptdb.TlsLog.Blocks.{allocate_log_block-Block}
use preemptdb.Visibility.{committed, XidContext}
use preemptdb.Txn.{
  WriteRecord, Transaction, Store, Posted, LogRecord, Rc, rc_true, record_size, post_all, set_state,
  place, install_csn, post_commit, commit_writes, set_end, set_own_state,
}
use preemptdb.Txn.Commit.{
  total_size, Every, image, logged, AddressOf, Anywhere, PlacedAll, bind_inv, post_all_inv,
}
use preemptdb.Txn.Rounds.{post_all_total}

abbrev pub Hot : WriteRecord → Type 0
Hot w = w.is_cold ≡ false

abbrev csn_of : Store → ℕ → ℕ
csn_of s obj = (s.object obj).csn

-- A version in memory that has the stamp of a commit
abbrev pub Stamped : ℕ → Store → WriteRecord → Type 0
Stamped end_stamp s w = csn_of s (offset (s.entries w.entry)) ≡ Csn.to_ptr (Csn.make end_stamp)

-- What the loop leaves alone for versions in memory
record Kept (s s' : Store) : Type 0 where
  contexts : s'.contexts ≡ s.contexts
  entries : s'.entries ≡ s.entries
  current_csn : s'.current_csn ≡ s.current_csn
  log : s'.log ≡ s.log

place-Kept : (s : Store) (w : WriteRecord) (addr e : ℕ) → Hot w → Kept s (place s w addr e)
unfolding place
place-Kept s w addr e hot =
    rw hot (record { contexts = refl; entries = refl; current_csn = refl; log = refl })

place_stamps :
    (s : Store) (w : WriteRecord) (addr e : ℕ)
    → Hot w
    → csn_of (place s w addr e) (offset (s.entries w.entry)) ≡ Csn.to_ptr (Csn.make e)
unfolding place install_csn
place_stamps s w addr e hot = ground arith

place_keeps :
    (s : Store) (w : WriteRecord) (addr e obj : ℕ)
    → Hot w
    → csn_of s obj ≡ Csn.to_ptr (Csn.make e)
    → csn_of (place s w addr e) obj ≡ Csn.to_ptr (Csn.make e)
unfolding place install_csn
place_keeps s w addr e obj hot was = ground arith

all_keep :
    (Good : ℕ → WriteRecord → ℕ → Type 0) (off e : ℕ) (ws : List WriteRecord) (s s' : Store)
    (obj : ℕ)
    → Every Hot ws
    → PlacedAll Good off e ws s s'
    → csn_of s obj ≡ Csn.to_ptr (Csn.make e)
    → csn_of s' obj ≡ Csn.to_ptr (Csn.make e)
unfolding PlacedAll
all_keep Good off e [] s s' obj hot same was = sym (ap (λ (t : Store). csn_of t obj) same) ∙ was
all_keep Good off e (w ∷ ws) s s' obj (hot, hots) (addr, _, rest) was =
    all_keep Good (off + record_size w.size) e ws (place s w addr e) s' obj hots rest
      (place_keeps s w addr e obj hot was)

all-Kept :
    (Good : ℕ → WriteRecord → ℕ → Type 0) (off e : ℕ) (ws : List WriteRecord) (s s' : Store)
    → Every Hot ws
    → PlacedAll Good off e ws s s'
    → Kept s s'
unfolding PlacedAll
all-Kept Good off e [] s s' hot same =
    subst (λ t. Kept s t) same
      (record { contexts = refl; entries = refl; current_csn = refl; log = refl })
all-Kept Good off e (w ∷ ws) s s' (hot, hots) (addr, _, rest) =
    let first = place-Kept s w addr e hot in
    let later = all-Kept Good (off + record_size w.size) e ws (place s w addr e) s' hots rest in
    record {
      contexts = later.contexts ∙ first.contexts;
      entries = later.entries ∙ first.entries;
      current_csn = later.current_csn ∙ first.current_csn;
      log = later.log ∙ first.log;
    }

all_stamped :
    (Good : ℕ → WriteRecord → ℕ → Type 0) (off e : ℕ) (ws : List WriteRecord) (s s' : Store)
    → Every Hot ws
    → PlacedAll Good off e ws s s'
    → Every (λ w. csn_of s' (offset (s.entries w.entry)) ≡ Csn.to_ptr (Csn.make e)) ws
unfolding PlacedAll
all_stamped Good off e [] s s' hot same = tt
all_stamped Good off e (w ∷ ws) s s' (hot, hots) (addr, _, rest) =
    let first = place-Kept s w addr e hot in
    (
      all_keep Good (off + record_size w.size) e ws (place s w addr e) s'
          (offset (s.entries w.entry)) hots rest (place_stamps s w addr e hot),
      subst (λ f. Every (λ v. csn_of s' (offset (f v.entry)) ≡ Csn.to_ptr (Csn.make e)) ws)
          first.entries
          (all_stamped Good (off + record_size w.size) e ws (place s w addr e) s' hots rest),
    )

is_equal : {a b : ℕ} → a ≡ b → (a == b) ≡ true
is_equal h = ground arith

set_at_same {ℓ} : {A : Type ℓ} → (f : ℕ → A) (a : ℕ) (x : A) → set_at f a x a ≡ x
set_at_same f a x = rw (is_equal {a = a} refl) refl

abbrev end_of : XidContext → ℕ
end_of x = x.end_stamp

-- The store when the loop begins
abbrev pub store_in_loop : Transaction → Store → TlsLog → Store
store_in_loop tx s l =
    record (set_end s.current_csn tx (record s { current_csn = (s.current_csn + 1) % u64_mod })) {
      log = l;
    }

-- What a commit leaves: the versions carry the CSN, which the context has as its end stamp; the
-- counter has moved on by one, and the entries are as they were.
pub record Committed (tx : Transaction) (s s' : Store) (l : TlsLog) : Type 0 where
  pub stamped : Every (Stamped s.current_csn s') tx.write_set
  pub state : (s'.contexts (Xid.local tx.xid)).state ≡ committed
  pub end_stamp : (s'.contexts (Xid.local tx.xid)).end_stamp ≡ s.current_csn
  pub counter : s'.current_csn ≡ (s.current_csn + 1) % u64_mod
  pub entries : s'.entries ≡ s.entries
  pub log : s'.log ≡ l

placed-Committed :
    (Good : ℕ → WriteRecord → ℕ → Type 0) (off : ℕ) (tx : Transaction) (s after : Store)
    (l : TlsLog)
    → Every Hot tx.write_set
    → PlacedAll Good off s.current_csn tx.write_set (store_in_loop tx s l) after
    → Committed tx s (set_own_state committed tx after) l
unfolding set_own_state set_end set_state
placed-Committed Good off tx s after l hot placed =
    let i = Xid.local tx.xid in
    let start = store_in_loop tx s l in
    let stamps = all_stamped Good off s.current_csn tx.write_set start after hot placed in
    let kept = all-Kept Good off s.current_csn tx.write_set start after hot placed in
    record {
      stamped =
          subst
            (λ (f : ℕ → ℕ).
              Every (λ w. csn_of after (offset (f w.entry)) ≡ Csn.to_ptr (Csn.make s.current_csn))
                tx.write_set)
            (sym kept.entries) stamps;
      state =
          ap (λ (x : XidContext). x.state)
            (set_at_same after.contexts i (set_state committed (after.contexts i)));
      end_stamp =
          ap end_of (set_at_same after.contexts i (set_state committed (after.contexts i)))
          ∙ (ap (λ (f : ℕ → XidContext). end_of (f i)) kept.contexts
              ∙ ap end_of
                  (set_at_same s.contexts i (record (s.contexts i) { end_stamp = s.current_csn })));
      counter = kept.current_csn;
      entries = kept.entries;
      log = kept.log;
    }

-- The end of `post_commit`, and of `commit_writes`
abbrev if_full : Posted → Result (Store × List LogRecord)
if_full p = if p.block.payload_size == p.block.capacity then ok (p.store, p.records) else fatal

abbrev with_state : Transaction → Store × List LogRecord → Result (Rc × Store × List LogRecord)
with_state tx r = ok (rc_true, set_own_state committed tx (r.0), r.1)

if_full_inv :
    (tx : Transaction) (p : Posted) (s' : Store) (records : List LogRecord)
    → (if_full p >>= with_state tx) ≡ ok (rc_true, s', records)
    → set_own_state committed tx p.store ≡ s'
if_full_inv tx p s' records done = elim (Bool-cases (p.block.payload_size == p.block.capacity)) [
  | inl full ↦ let q = rw full at done in cc
  | inr short ↦ let q = rw short at done in cc
]

-- What a commit that has ended leaves, when no tuple was to be left cold
pub commit_writes_left :
    (c : Config) (tx : Transaction) (s s' : Store) (l : TlsLog) (b : Block)
    (records : List LogRecord)
    → Every Hot tx.write_set
    → allocate_log_block c s.log tx.log_size s.current_csn ≡ ok (l, some b)
    → commit_writes c tx s ≡ ok (rc_true, s', records)
    → Committed tx s s' l
unfolding commit_writes post_commit
commit_writes_left c tx s s' l b records hot given done =
    let start = store_in_loop tx s l in
    let begin : Posted = record { store = start; block = b; records = [] } in
    let q = rw given at done in
    let (r, posted, last) =
      bind_inv (post_commit c s.current_csn tx start (some b)) (with_state tx)
        (rc_true, s', records) q in
    let (p, looped, full) =
      bind_inv (post_all c s.current_csn tx.write_set begin) if_full r posted in
    let placed = post_all_inv c s.current_csn 0 tx.write_set begin p looped in
    let same = if_full_inv tx p s' records (rw full last) in
    subst (λ x. Committed tx s x l) same (placed-Committed Anywhere 0 tx s p.store l hot placed)

-- A commit of writes that gets past its assertions: its log records, and where the versions are placed
pub commit_writes_total :
    (c : Config) (tx : Transaction) (s : Store) (l : TlsLog) (b : Block)
    → tx.log_size ≡ total_size tx.write_set
    → tx.log_size < 2 ^ 32
    → Every (λ w. w.size < 2 ^ 32) tx.write_set
    → Every Hot tx.write_set
    → s.current_csn < 2 ^ 48
    → s.log_id < 2 ^ 8
    → b.seg_num < 2 ^ 4
    → b.cur_lsn + c.page_size + tx.log_size ≤ 2 ^ 40
    → allocate_log_block c s.log tx.log_size s.current_csn ≡ ok (l, some b)
    → (after : Store) × (records : List LogRecord) × (commit_writes c tx s
        ≡ ok (rc_true, set_own_state committed tx after, records))
      × (records ≡ logged (image s) s.current_csn 0 tx.write_set)
      × PlacedAll (AddressOf c s.log_id b) 0 s.current_csn tx.write_set (store_in_loop tx s l) after
      × Committed tx s (set_own_state committed tx after) l
unfolding commit_writes post_commit set_end
commit_writes_total c tx s l b sized small short hot stamp_fits log_fits seg_fits loff_fits given =
    let (cap, empty, stamp) =
      allocate_log_block-Block c s.log tx.log_size s.current_csn l b given in
    let start = store_in_loop tx s l in
    let begin : Posted = record { store = start; block = b; records = [] } in
    let (p, looped, placed, size, cap', recs) =
      post_all_total c s.current_csn tx.write_set begin short hot (omega (arith, cap, empty, sized))
        (omega (arith, cap)) stamp_fits log_fits seg_fits (omega (arith, cap)) in
    let full : (p.block.payload_size == p.block.capacity) ≡ true =
      is_equal (omega (arith, cap, empty, sized, size, cap')) in
    let placed' =
      subst (λ n. PlacedAll (AddressOf c s.log_id b) n s.current_csn tx.write_set start p.store)
        empty placed in
    (
      p.store,
      p.records,
      rw given (rw looped (rw full refl)),
      recs
          ∙ ap (λ n. logged (image s) n b.payload_size tx.write_set) stamp
          ∙ ap (λ n. logged (image s) s.current_csn n tx.write_set) empty,
      placed',
      placed-Committed (AddressOf c s.log_id b) 0 tx s p.store l hot placed',
    )
