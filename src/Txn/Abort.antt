-- ===== src/Txn/Abort.antt =====
-- What an abort leaves in the store.
use preemptdb.Prelude.{ℕ, ◌≡◌, ◌≢◌, refl, sym, ap, ◌∙◌, List, [], ◌∷◌, arith}
use mathlib.Core.Path.{subst}
use preemptdb.FatPtr.{offset}
use preemptdb.FatPtr.Xid
use preemptdb.Visibility.{TxnState, XidContext, aborted}
use preemptdb.Update.{unlink_tuple}
use preemptdb.Txn.{
  WriteRecord, Transaction, Store, tuple_at, set_state, set_own_state, abort_one, abort_all, abort,
}
use preemptdb.Txn.Commit.{Every, Every-map, Every-zip}

-- No two records are of one OID array entry.
abbrev pub Apart : List WriteRecord → Type 0
Apart [] = Unit {0}
Apart (w ∷ ws) = Every (λ w'. w'.entry ≢ w.entry) ws × Apart ws

abbrev next_of : Store → ℕ → ℕ
next_of s obj = (s.object obj).next_volatile

abbrev head_csn : Store → ℕ → ℕ
head_csn s obj = (s.object obj).csn

one_next : (w : WriteRecord) (s : Store) (obj : ℕ) → next_of (abort_one w s) obj ≡ next_of s obj
unfolding abort_one
one_next w s obj = ground arith

one_elsewhere :
    (w : WriteRecord) (s : Store) (e : ℕ) → e ≢ w.entry → (abort_one w s).entries e ≡ s.entries e
unfolding abort_one
one_elsewhere w s e apart = ground arith

one_here :
    (w : WriteRecord) (s : Store)
    → (abort_one w s).entries w.entry ≡ next_of s (offset (s.entries w.entry))
unfolding abort_one unlink_tuple tuple_at
one_here w s = ground arith

one_csn : (w : WriteRecord) (s : Store) → head_csn (abort_one w s) (offset (s.entries w.entry)) ≡ 0
unfolding abort_one
one_csn w s = ground arith

one_keeps_csn :
    (w : WriteRecord) (s : Store) (obj : ℕ) → head_csn s obj ≡ 0 → head_csn (abort_one w s) obj ≡ 0
unfolding abort_one
one_keeps_csn w s obj was = ground arith

all_elsewhere :
    (ws : List WriteRecord) (s : Store) (e : ℕ)
    → Every (λ w. w.entry ≢ e) ws
    → (abort_all ws s).entries e ≡ s.entries e
unfolding abort_all
all_elsewhere [] s e apart = refl
all_elsewhere (w ∷ ws) s e (apart, rest) =
    all_elsewhere ws (abort_one w s) e rest ∙ one_elsewhere w s e (λ q. apart (sym q))

all_keep_csn :
    (ws : List WriteRecord) (s : Store) (obj : ℕ)
    → head_csn s obj ≡ 0
    → head_csn (abort_all ws s) obj ≡ 0
unfolding abort_all
all_keep_csn [] s obj was = was
all_keep_csn (w ∷ ws) s obj was = all_keep_csn ws (abort_one w s) obj (one_keeps_csn w s obj was)

-- What became of one written tuple
pub record Undone (s s' : Store) (w : WriteRecord) : Type 0 where
  pub entry : s'.entries w.entry ≡ next_of s (offset (s.entries w.entry))
  pub csn : head_csn s' (offset (s.entries w.entry)) ≡ 0

Undone-later :
    (w w' : WriteRecord) (s s' : Store)
    → w'.entry ≢ w.entry
    → Undone (abort_one w s) s' w'
    → Undone s s' w'
Undone-later w w' s s' apart u =
    let same = one_elsewhere w s w'.entry apart in
    record {
      entry =
          u.entry
          ∙ one_next w s (offset ((abort_one w s).entries w'.entry))
          ∙ ap (λ p. next_of s (offset p)) same;
      csn = subst (λ p. head_csn s' (offset p) ≡ 0) same u.csn;
    }

all-Undone : (ws : List WriteRecord) (s : Store) → Apart ws → Every (Undone s (abort_all ws s)) ws
unfolding abort_all
all-Undone [] s apart = tt
all-Undone (w ∷ ws) s (apart, rest) =
    let s' = abort_one w s in
    (
      record {
        entry = all_elsewhere ws s' w.entry apart ∙ one_here w s;
        csn = all_keep_csn ws s' (offset (s.entries w.entry)) (one_csn w s);
      },
      Every-zip (λ w' p u. Undone-later w w' s (abort_all ws s') p u) ws apart
          (all-Undone ws s' rest),
    )

one_contexts : (w : WriteRecord) (s : Store) → (abort_one w s).contexts ≡ s.contexts
unfolding abort_one
one_contexts w s = refl

all_contexts : (ws : List WriteRecord) (s : Store) → (abort_all ws s).contexts ≡ s.contexts
unfolding abort_all
all_contexts [] s = refl
all_contexts (w ∷ ws) s = all_contexts ws (abort_one w s) ∙ one_contexts w s

own_state :
    (tx : Transaction) (s : Store) (state : TxnState)
    → ((set_own_state state tx s).contexts (Xid.local tx.xid)).state ≡ state
unfolding set_own_state set_state
own_state tx s state = ground arith

-- An abort of a transaction whose records are of different tuples takes each of its versions off the
-- chain, so that the entry is the pointer to the version before, and clears the version's CSN; it leaves the
-- entries of all other tuples, and marks the transaction as aborted.
pub abort_undoes :
    (tx : Transaction) (s : Store)
    → Apart tx.write_set
    → Every (Undone s (abort tx s)) tx.write_set
      × ((e : ℕ) → Every (λ w. w.entry ≢ e) tx.write_set → (abort tx s).entries e ≡ s.entries e)
      × (((abort tx s).contexts (Xid.local tx.xid)).state ≡ aborted)
unfolding abort
abort_undoes tx s apart =
    let s' = set_own_state aborted tx s in
    (
      Every-map (λ w u. record { entry = u.entry; csn = u.csn }) tx.write_set
          (all-Undone tx.write_set s' apart),
      λ e others. all_elsewhere tx.write_set s' e others,
      ap (λ (f : ℕ → XidContext). (f (Xid.local tx.xid)).state) (all_contexts tx.write_set s')
          ∙ own_state tx s aborted,
    )
