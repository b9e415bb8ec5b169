-- ===== src/Visibility/Chain.antt =====
-- What a reader finds in a chain of versions while no other thread changes it.
use preemptdb.Prelude.{
  ℕ, zero, suc, ◌+◌, ◌*◌, ◌≤◌, ◌<◌, ◌≡◌, ◌≢◌, refl, inl, inr, Bool, true, false, ◌==◌, leb, ltb,
  List, [], ◌∷◌, length, arith, Bool-cases, if◌then◌else◌,
}
use preemptdb.FatPtr.{asi_type, asi_xid, asi_csn, offset}
use preemptdb.FatPtr.Xid
use preemptdb.Visibility.{
  TxnState, committing, committed, XidContext, Memory, Visitor, Verdict, visible, invisible,
  judge_state, is_above_committed, judge_csn, wait_for_commit, test_visibility, Found, version,
  nothing, start_over, at_ptr, follow, get_version,
}
use preemptdb.Visibility.Held.{has_context_self, judge_csn_held}

-- Snapshot isolation: a reader sees its own versions, those of transactions that ended before it
-- began, and those stamped at most with its begin.
unfoldable pub ended_before : TxnState → ℕ → ℕ → Bool
ended_before committed end_stamp begin = ltb end_stamp begin
ended_before _ end_stamp begin = false

abbrev pub stamp : Memory → ℕ → ℕ
stamp m obj = (m.object obj).csn

abbrev pub holder : Memory → ℕ → XidContext
holder m obj = m.contexts (Xid.local (stamp m obj))

unfoldable pub sees : Memory → Visitor → ℕ → Bool
unfolding ended_before
sees m v obj =
    if asi_type (stamp m obj) == asi_xid
    then if stamp m obj == v.owner
      then true
      else ended_before (holder m obj).state (holder m obj).end_stamp v.begin
    else leb (offset (stamp m obj)) v.begin

-- The version is not being unlinked; if another transaction holds it, that one's context is its
-- own and is not about to commit. If it is the reader's own, the one below is none or carries a
-- CSN; if no one holds it, it carries a CSN.
pub record IsSettled (m : Memory) (v : Visitor) (obj : ℕ) : Type 0 where
  pub linked : stamp m obj ≢ 0
  pub owned :
      asi_type (stamp m obj) ≡ asi_xid → stamp m obj ≢ v.owner → (holder m obj).owner ≡ stamp m obj
  pub still :
      asi_type (stamp m obj) ≡ asi_xid → stamp m obj ≢ v.owner → (holder m obj).state ≢ committing
  pub above : stamp m obj ≡ v.owner → is_above_committed (λ _. m) 0 obj ≡ true
  pub stamped : asi_type (stamp m obj) ≢ asi_xid → asi_type (stamp m obj) ≡ asi_csn

-- The objects of the chain at a pointer, in the order of the links; all the pointers are to memory.
unfoldable pub Chain : Memory → Visitor → ℕ → List ℕ → Type 0
Chain m v ptr [] = (offset ptr ≡ 0) × (asi_type ptr ≡ 0)
Chain m v ptr (obj ∷ older) =
    (offset ptr ≡ obj)
    × (asi_type ptr ≡ 0)
    × (obj ≢ 0)
    × IsSettled m v obj
    × Chain m v (m.object obj).next_volatile older

-- The first version of the chain that the reader sees
unfoldable pub newest : Memory → Visitor → List ℕ → Found
newest m v [] = nothing
newest m v (obj ∷ older) = if sees m v obj then version obj else newest m v older

abbrev verdict : Bool → Verdict
verdict seen = if seen then visible else invisible

judge_state_lem :
    (s : TxnState) (e b : ℕ) (again : Verdict)
    → s ≢ committing
    → judge_state s e b again ≡ verdict (ended_before s e b)
unfolding judge_state ended_before
judge_state_lem TxnState.active e b again h = refl
judge_state_lem TxnState.committing e b again h = absurd (h refl)
judge_state_lem TxnState.committed e b again h = refl
judge_state_lem TxnState.aborted e b again h = refl
judge_state_lem TxnState.invalid e b again h = refl

wait_for_commit_lem :
    (fuel : ℕ) (m : Memory) (t xid begin : ℕ)
    → xid ≢ 0
    → (m.contexts (Xid.local xid)).owner ≡ xid
    → (m.contexts (Xid.local xid)).state ≢ committing
    → wait_for_commit (suc fuel) (λ _. m) t xid begin
      ≡ verdict (
          ended_before
            (m.contexts (Xid.local xid)).state
            (m.contexts (Xid.local xid)).end_stamp
            begin)
unfolding wait_for_commit
wait_for_commit_lem fuel m t xid begin real owner still =
    let c = m.contexts (Xid.local xid) in
    let same = wait_for_commit fuel (λ _. m) (t + 4) xid begin in
    rw owner (
      rw (has_context_self xid real)
        (ground (arith, judge_state_lem c.state c.end_stamp begin same still)))

own_lem :
    (fuel : ℕ) (m : Memory) (t obj x : ℕ) (v : Visitor)
    → x ≢ 0
    → x ≡ v.owner
    → asi_type x ≡ asi_xid
    → is_above_committed (λ _. m) 0 obj ≡ true
    → judge_csn fuel (λ _. m) t obj x v ≡ visible
unfolding judge_csn
own_lem fuel m t obj x v real own typed above = ground (arith, above)

stamped_lem :
    (fuel : ℕ) (m : Memory) (t obj x : ℕ) (v : Visitor)
    → x ≢ 0
    → asi_type x ≡ asi_csn
    → judge_csn fuel (λ _. m) t obj x v ≡ verdict (leb (offset x) v.begin)
unfolding judge_csn
stamped_lem fuel m t obj x v real typed = ground arith

-- A settled version is judged as the specification says.
test_visibility_lem :
    (fuel : ℕ) (m : Memory) (t obj : ℕ) (v : Visitor)
    → IsSettled m v obj
    → test_visibility (suc fuel) (λ _. m) t obj v ≡ verdict (sees m v obj)
unfolding test_visibility sees
test_visibility_lem fuel m t obj v s =
    let x = stamp m obj in
    elim (Bool-cases (asi_type x == asi_xid)) [
      | inl typed ↦ elim (Bool-cases (x == v.owner)) [
        | inl own ↦
            let same : x ≡ v.owner = ground (arith, own) in
            rw
              (own_lem (suc fuel) m (t + 1) obj x v s.linked same (ground (arith, typed))
                (s.above same))
              (rw typed (rw own refl))
        | inr other ↦
            let kind : asi_type x ≡ asi_xid = ground (arith, typed) in
            let apart : x ≢ v.owner = λ e. ground (arith, other, e) in
            rw (judge_csn_held (suc fuel) (λ _. m) (t + 1) obj x v s.linked apart kind) (
              rw typed (
                rw other (
                  wait_for_commit_lem fuel m (t + 1) x v.begin s.linked (s.owned kind apart)
                    (s.still kind apart))))
      ]
      | inr untyped ↦
          let csn : asi_type x ≡ asi_csn = s.stamped (λ e. ground (arith, untyped, e)) in
          rw (stamped_lem (suc fuel) m (t + 1) obj x v s.linked csn) (ground (arith, untyped))
    ]

follow-verdict :
    (seen : Bool) (obj : ℕ) (again next : Found)
    → follow (verdict seen) obj again next ≡ (if seen then version obj else next)
unfolding follow
follow-verdict true obj again next = refl
follow-verdict false obj again next = refl

pub Chain-hot :
    (m : Memory) (v : Visitor) (ptr : ℕ) (objs : List ℕ) → Chain m v ptr objs → asi_type ptr ≡ 0
unfolding Chain
Chain-hot m v ptr [] (_, hot) = hot
Chain-hot m v ptr (obj ∷ older) (_, hot, _, _, _) = hot

walk :
    (m : Memory) (v : Visitor) (older : List ℕ) (fuel t ptr : ℕ)
    → Chain m v ptr older
    → length older < fuel
    → get_version fuel (λ _. m) t v (at_ptr ptr) ≡ newest m v older
unfolding get_version Chain newest
walk m v older zero t ptr chain enough = absurd (omega arith)
walk m v [] (suc fuel) t ptr (ends, _) enough = rw ends refl
walk m v (obj ∷ older) (suc fuel) t ptr (here, hot, some_obj, settled, rest) enough =
    let onward = t + 2 + 4 * suc fuel in
    let again = get_version fuel (λ _. m) onward v start_over in
    let ih = walk m v older fuel onward (m.object obj).next_volatile rest (omega arith) in
    let onward_hot = Chain-hot m v (m.object obj).next_volatile older rest in
    rw here (
      rw (test_visibility_lem fuel m (t + 1) obj v settled) (
        rw ih (
          ground (
            arith,
            hot,
            onward_hot,
            some_obj,
            follow-verdict (sees m v obj) obj again (newest m v older),
          ))))

pub get_version-newest :
    (m : Memory) (v : Visitor) (objs : List ℕ) (fuel t : ℕ)
    → Chain m v m.entry objs
    → length objs + 2 ≤ fuel
    → get_version fuel (λ _. m) t v start_over ≡ newest m v objs
unfolding get_version
get_version-newest m v objs zero t chain enough = absurd (omega arith)
get_version-newest m v objs (suc fuel) t chain enough =
    let hot = Chain-hot m v m.entry objs chain in
    ground (arith, hot, walk m v objs fuel (t + 1) m.entry chain (omega arith))
