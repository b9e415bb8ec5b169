-- ===== src/Update/Frozen.antt =====
-- Updates while no other thread changes the memory, against what the updater reads.
use preemptdb.Prelude.{
  inl, inr, ℕ, suc, ◌+◌, ◌*◌, ◌≤◌, ◌≡◌, ◌≢◌, refl, ◌∙◌, sym, ap, Bool, true, false, some, List, ◌∷◌,
  ◌==◌, ltb, length, arith, Bool-cases, if◌then◌else◌,
}
use mathlib.Core.Path.{subst}
use preemptdb.FatPtr.{asi_type, asi_xid, asi_csn, offset}
use preemptdb.FatPtr.Xid
use preemptdb.Visibility.{TxnState, committing, Memory, Visitor, version, start_over, get_version}
use preemptdb.Visibility.Held.{has_context_self}
use preemptdb.Visibility.Chain.{
  stamp, holder, ended_before, sees, IsSettled, Chain, newest, get_version-newest,
}
use preemptdb.Update.{
  Decision, install, conflict, update_state, wait_for_holder, judge_update, await_pdest, updated,
  refused, overwrite_version, install_version, swap_head, install_at, is_object, decide,
  update_tuple,
}

-- First updater wins: the head is the updater's own, or of a transaction that ended before the updater
-- began, or stamped below the updater's begin.
pub may_update : Memory → Visitor → ℕ → Bool
unfolding ended_before
may_update m v obj =
    if asi_type (stamp m obj) == asi_xid
    then if stamp m obj == v.owner
      then true
      else ended_before (holder m obj).state (holder m obj).end_stamp v.begin
    else ltb (offset (stamp m obj)) v.begin

pub is_own : Memory → Visitor → ℕ → Bool
is_own m v obj = if asi_type (stamp m obj) == asi_xid then stamp m obj == v.owner else false

abbrev decision : Bool → Bool → Decision
decision own allowed = if allowed then install own else conflict

update_state_lem :
    (s : TxnState) (e b : ℕ) (again : Decision)
    → s ≢ committing
    → update_state s e b again ≡ decision false (ended_before s e b)
unfolding update_state ended_before
update_state_lem TxnState.active e b again h = refl
update_state_lem TxnState.committing e b again h = absurd (h refl)
update_state_lem TxnState.committed e b again h = ground arith
update_state_lem TxnState.aborted e b again h = refl
update_state_lem TxnState.invalid e b again h = refl

wait_for_holder_lem :
    (fuel : ℕ) (m : Memory) (t head xid begin : ℕ)
    → xid ≢ 0
    → (m.contexts (Xid.local xid)).owner ≡ xid
    → (m.contexts (Xid.local xid)).state ≢ committing
    → wait_for_holder (suc fuel) (λ _. m) t head xid begin
      ≡ decision false (
          ended_before
            (m.contexts (Xid.local xid)).state
            (m.contexts (Xid.local xid)).end_stamp
            begin)
unfolding wait_for_holder
wait_for_holder_lem fuel m t head xid begin real owner still =
    let c = m.contexts (Xid.local xid) in
    let same = wait_for_holder fuel (λ _. m) (t + 4) head xid begin in
    rw owner (
      rw (has_context_self xid real)
        (ground (arith, update_state_lem c.state c.end_stamp begin same still)))

-- A settled head is judged as the specification says.
judge_update_lem :
    (fuel : ℕ) (m : Memory) (t head obj : ℕ) (v : Visitor)
    → IsSettled m v obj
    → judge_update (suc fuel) (λ _. m) t head (stamp m obj) v
      ≡ decision (is_own m v obj) (may_update m v obj)
unfolding judge_update may_update is_own
judge_update_lem fuel m t head obj v s =
    let x = stamp m obj in
    elim (Bool-cases (asi_type x == asi_xid)) [
      | inl typed ↦ elim (Bool-cases (x == v.owner)) [
        | inl own ↦ ground (arith, typed, own, s.linked)
        | inr other ↦
            let kind : asi_type x ≡ asi_xid = ground (arith, typed) in
            let apart : x ≢ v.owner = λ e. ground (arith, other, e) in
            let waited =
              wait_for_holder_lem fuel m t head x v.begin s.linked (s.owned kind apart)
                (s.still kind apart) in
            ground (arith, typed, other, s.linked, waited)
      ]
      | inr untyped ↦
          let csn : asi_type x ≡ asi_csn = s.stamped (λ e. ground (arith, untyped, e)) in
          ground (arith, untyped, csn, s.linked)
    ]

await_pdest_lem :
    (fuel : ℕ) (m : Memory) (t obj : ℕ)
    → (m.object obj).pdest ≢ 0
    → await_pdest (suc fuel) (λ _. m) t obj ≡ some ((m.object obj).pdest, t + 1)
unfolding await_pdest
await_pdest_lem fuel m t obj there = ground arith

-- The memory that an allowed update leaves
pub stored : Memory → ℕ → List ℕ → Visitor → ℕ → Memory
stored m fresh value v epoch =
    if is_own m v (offset m.entry)
    then overwrite_version m fresh value v epoch m.entry
    else install_version m fresh value v epoch m.entry (m.object (offset m.entry)).pdest

install_at_lem :
    (own : Bool) (fuel : ℕ) (m : Memory) (t fresh : ℕ) (value : List ℕ) (v : Visitor) (epoch : ℕ)
    → (m.object (offset m.entry)).pdest ≢ 0
    → install_at own (suc fuel) (λ _. m) t fresh value v epoch m.entry
      ≡ updated m.entry (
          if own
          then overwrite_version m fresh value v epoch m.entry
          else install_version m fresh value v epoch m.entry (m.object (offset m.entry)).pdest)
unfolding install_at swap_head
install_at_lem true fuel m t fresh value v epoch there = refl
install_at_lem false fuel m t fresh value v epoch there =
    rw (await_pdest_lem fuel m t (offset m.entry) there) (ground arith)

-- In a memory that does not change, where the entry points to a settled version in memory with a
-- persistent address and a valid size code, `UpdateTuple` fails no assertion: it installs the new version over it if the first-updater-wins rule allows that, and is
-- refused otherwise.
pub update_tuple_frozen :
    (fuel : ℕ) (m : Memory) (t fresh : ℕ) (value : List ℕ) (v : Visitor) (epoch : ℕ)
    → is_object m.entry ≡ true
    → IsSettled m v (offset m.entry)
    → (m.object (offset m.entry)).pdest ≢ 0
    → update_tuple (suc fuel) (λ _. m) t fresh value v epoch ≡ (
        if may_update m v (offset m.entry)
        then updated m.entry (stored m fresh value v epoch)
        else refused)
unfolding update_tuple decide stored
update_tuple_frozen fuel m t fresh value v epoch object s there =
    let head = offset m.entry in
    let judged = judge_update_lem fuel m (t + 2) m.entry head v s in
    rw object (
      rw judged (elim (Bool-cases (may_update m v head)) [
        | inl yes_it_may ↦ rw yes_it_may (
            install_at_lem (is_own m v head) fuel m (t + 2 + 4 * suc fuel) fresh value v epoch
              there)
        | inr may_not ↦ rw may_not refl
      ]))

may_update-sees :
    (m : Memory) (v : Visitor) (obj : ℕ) → may_update m v obj ≡ true → sees m v obj ≡ true
unfolding may_update sees
may_update-sees m v obj q = ground arith

updated_inv :
    (b : Bool) (h h' : ℕ) (m m' : Memory)
    → (if b then updated h m else refused) ≡ updated h' m'
    → (b ≡ true) × (h ≡ h') × (m ≡ m')
updated_inv true h h' m m' q = (refl, ground arith, ground arith)
updated_inv false h h' m m' q = cc

newest-head :
    (m : Memory) (v : Visitor) (obj : ℕ) (older : List ℕ)
    → sees m v obj ≡ true
    → newest m v (obj ∷ older) ≡ version obj
unfolding newest
newest-head m v obj older seen = rw seen refl

-- In such a memory, if the entry points to a chain of settled versions and has a valid size code, an update
-- replaces the very version that the updater reads.
pub update_tuple-get_version :
    (fuel rounds : ℕ) (m m' : Memory) (t t' fresh : ℕ) (value : List ℕ) (v : Visitor)
    (epoch head obj : ℕ) (older : List ℕ)
    → is_object m.entry ≡ true
    → Chain m v m.entry (obj ∷ older)
    → (m.object obj).pdest ≢ 0
    → length older + 3 ≤ rounds
    → update_tuple (suc fuel) (λ _. m) t fresh value v epoch ≡ updated head m'
    → (head ≡ m.entry) × (get_version rounds (λ _. m) t' v start_over ≡ version (offset head))
unfolding Chain
update_tuple-get_version fuel rounds m m' t t' fresh value v epoch head obj older object chain there
      enough q =
    let (here, _, some_obj, settled, rest) = chain in
    let settled' = subst (λ x. IsSettled m v x) (sym here) settled in
    let there' = subst (λ x. (m.object x).pdest ≢ 0) (sym here) there in
    let (allowed, same, _) =
      updated_inv (may_update m v (offset m.entry)) m.entry head (stored m fresh value v epoch) m'
        (sym (update_tuple_frozen fuel m t fresh value v epoch object settled' there') ∙ q) in
    let seen = subst (λ x. sees m v x ≡ true) here (may_update-sees m v (offset m.entry) allowed) in
    (
      sym same,
      get_version-newest m v (obj ∷ older) rounds t' chain (omega arith)
          ∙ newest-head m v obj older seen
          ∙ ap version (sym here ∙ ap offset same),
    )
