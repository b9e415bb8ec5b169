-- ===== src/Update/Own.antt =====
-- What the updater reads after its update.
use preemptdb.Prelude.{ℕ, suc, ◌+◌, ◌≡◌, ◌≢◌, refl, ◌∙◌, sym, ap, Bool, true, false, List, arith}
use preemptdb.FatPtr.{asi_type, asi_xid, offset}
use preemptdb.FatPtr.Xid
use preemptdb.Visibility.{
  Memory, History, Visitor, version, start_over, get_version, visible, is_above_committed,
  judge_csn, test_visibility, follow,
}
use preemptdb.Visibility.Chain.{stamp}
use preemptdb.Update.{updated, create, publish, overwrite_version, install_version, update_tuple}
use preemptdb.Update.Decide.{Allowed}
use preemptdb.Update.Wins.{stored_at, update_tuple_wins}

-- A version that carries the reader's own XID is visible at once.
own_visible :
    (fuel : ℕ) (m : Memory) (t obj : ℕ) (v : Visitor)
    → stamp m obj ≡ v.owner
    → v.owner ≢ 0
    → asi_type v.owner ≡ asi_xid
    → is_above_committed (λ _. m) 0 obj ≡ true
    → test_visibility fuel (λ _. m) t obj v ≡ visible
unfolding test_visibility judge_csn
own_visible fuel m t obj v own real typed above = rw own (ground (arith, above))

get_version_own :
    (rounds : ℕ) (m : Memory) (t : ℕ) (v : Visitor)
    → asi_type m.entry ≡ 0
    → asi_type ((m.object (offset m.entry)).next_volatile) ≡ 0
    → offset m.entry ≢ 0
    → is_above_committed (λ _. m) 0 (offset m.entry) ≡ true
    → stamp m (offset m.entry) ≡ v.owner
    → v.owner ≢ 0
    → asi_type v.owner ≡ asi_xid
    → get_version (suc (suc rounds)) (λ _. m) t v start_over ≡ version (offset m.entry)
unfolding get_version follow
get_version_own rounds m t v hot onward there above own real typed =
    ground (arith, own_visible (suc rounds) m (t + 1 + 1) (offset m.entry) v own real typed above)

pub stored_at-own :
    (h : History) (t fresh : ℕ) (value : List ℕ) (v : Visitor) (epoch head pa : ℕ) (o : Bool)
    → ((stored_at h t fresh value v epoch head pa o).entry ≡ fresh)
      × (stamp (stored_at h t fresh value v epoch head pa o) (offset fresh) ≡ Xid.to_ptr v.owner)
      × (((stored_at h t fresh value v epoch head pa o).object (offset fresh)).value ≡ value)
unfolding overwrite_version install_version publish create
stored_at-own h t fresh value v epoch head pa true = (refl, ground arith, ground arith)
stored_at-own h t fresh value v epoch head pa false = (refl, ground arith, ground arith)

pub stored_at-elsewhere :
    (m : Memory) (t fresh : ℕ) (value : List ℕ) (v : Visitor) (epoch head pa : ℕ) (o : Bool)
    (obj : ℕ)
    → obj ≢ offset fresh
    → (stored_at (λ _. m) t fresh value v epoch head pa o).object obj ≡ m.object obj
unfolding overwrite_version install_version publish
stored_at-elsewhere m t fresh value v epoch head pa true obj apart = ground arith
stored_at-elsewhere m t fresh value v epoch head pa false obj apart = ground arith

-- Whatever other threads did during an update, in the memory that it leaves the updater, whose XID is a
-- word of the XID address space, reads the version that it installed, with the value that it wrote, and
-- no assertion fails, if the next pointer of that version is to memory and the version there, if any, carries a CSN.
pub update_tuple-reads_own :
    (fuel rounds : ℕ) (h : History) (m' : Memory) (t t' fresh : ℕ) (value : List ℕ) (v : Visitor)
    (epoch head : ℕ)
    → asi_type fresh ≡ 0
    → offset fresh ≢ 0
    → v.owner ≢ 0
    → asi_type v.owner ≡ asi_xid
    → Xid.to_ptr v.owner ≡ v.owner
    → asi_type ((m'.object (offset fresh)).next_volatile) ≡ 0
    → is_above_committed (λ _. m') 0 (offset fresh) ≡ true
    → update_tuple fuel h t fresh value v epoch ≡ updated head m'
    → (get_version (suc (suc rounds)) (λ _. m') t' v start_over ≡ version (offset fresh))
      × ((m'.object (offset fresh)).value ≡ value)
update_tuple-reads_own fuel rounds h m' t t' fresh value v epoch head hot there real typed word
      onward above q =
    let w = update_tuple_wins fuel h t fresh value v epoch head m' q in
    let (entry, own, wrote) = stored_at-own h w.at fresh value v epoch head w.pa w.overwrite in
    let at_fresh : offset m'.entry ≡ offset fresh =
      ap (λ (m : Memory). offset m.entry) w.stored ∙ ap offset entry in
    let stamp_own : stamp m' (offset fresh) ≡ v.owner =
      ap (λ (m : Memory). stamp m (offset fresh)) w.stored ∙ own ∙ word in
    let hot' : asi_type m'.entry ≡ 0 =
      ap (λ (m : Memory). asi_type m.entry) w.stored ∙ ap asi_type entry ∙ hot in
    (
      get_version_own rounds m' t' v hot'
            (ap (λ o. asi_type ((m'.object o).next_volatile)) at_fresh ∙ onward)
            (λ e. there (sym at_fresh ∙ e)) (ap (is_above_committed (λ _. m') 0) at_fresh ∙ above)
            (ap (stamp m') at_fresh ∙ stamp_own) real typed
          ∙ ap version at_fresh,
      ap (λ (m : Memory). (m.object (offset fresh)).value) w.stored ∙ wrote,
    )

-- A version that replaces one of another transaction is linked to it.
pub stored_at-next :
    (m : Memory) (t t' fresh : ℕ) (value : List ℕ) (v : Visitor) (epoch head pa csn : ℕ) (o : Bool)
    → Allowed o (λ _. m) t' csn v
    → csn ≢ v.owner
    → ((stored_at (λ _. m) t fresh value v epoch head pa o).object (offset fresh)).next_volatile
      ≡ head
unfolding Allowed overwrite_version install_version publish create
stored_at-next m t t' fresh value v epoch head pa csn true own foreign = absurd (foreign own)
stored_at-next m t t' fresh value v epoch head pa csn false allowed foreign = ground arith
