-- ===== src/Update/Decide.antt =====
-- Why a new version may be installed.
use preemptdb.Prelude.{
  ℕ, zero, suc, ◌+◌, ◌<◌, ◌≡◌, ◌≢◌, refl, ◌⊎◌, inl, inr, Bool, true, false, ◌==◌, leb, arith,
  if◌then◌else◌,
}
use preemptdb.FatPtr.{asi_type, asi_xid, asi_csn, offset}
use preemptdb.Visibility.{
  TxnState, committing, committed, History, Visitor, has_context, context_at,
}
use preemptdb.Visibility.Sound.{SeenCommitted}
use preemptdb.Update.{
  Decision, install, conflict, start_again, fails, is_released, update_state, wait_for_holder,
  judge_update,
}

update_state_inv :
    (s : TxnState) (e b : ℕ) (again : Decision) (o : Bool)
    → update_state s e b again ≡ install o
    → ((s ≡ committing) × (again ≡ install o)) ⊎ ((s ≡ committed) × (e < b) × (o ≡ false))
unfolding update_state
update_state_inv TxnState.active e b again o q = cc
update_state_inv TxnState.committing e b again o q = inl (refl, q)
update_state_inv TxnState.committed e b again o q = inr (refl, ground arith, ground arith)
update_state_inv TxnState.aborted e b again o q = cc
update_state_inv TxnState.invalid e b again o q = cc

round_inv :
    (found same released : Bool) (judged : Decision) (o : Bool)
    → (if found
        then (if same then judged else start_again)
        else if released
        then start_again
        else fails)
      ≡ install o
    → (same ≡ true) × (judged ≡ install o)
round_inv true true released judged o q = (refl, q)
round_inv true false released judged o q = cc
round_inv false same true judged o q = cc
round_inv false same false judged o q = cc

wait_for_holder_sound :
    (fuel : ℕ) (h : History) (t head xid begin : ℕ) (o : Bool)
    → wait_for_holder fuel h t head xid begin ≡ install o
    → SeenCommitted h t xid begin × (o ≡ false)
unfolding wait_for_holder
wait_for_holder_sound zero h t head xid begin o q = cc
wait_for_holder_sound (suc fuel) h t head xid begin o q =
    let again = wait_for_holder fuel h (t + 4) head xid begin in
    let state = (context_at h (t + 1) xid).state in
    let end_stamp = (context_at h (t + 3) xid).end_stamp in
    let (same, judged) =
      round_inv (has_context (context_at h t xid).owner xid)
        ((context_at h (t + 2) xid).owner == xid) (is_released h (t + 1) head)
        (update_state state end_stamp begin again) o q in
    elim (update_state_inv state end_stamp begin again o judged) [
      | inl (_, waited) ↦
          let (later, new) = wait_for_holder_sound fuel h (t + 4) head xid begin o waited in
          (
            record {
              when = later.when;
              after = omega (arith, later.after);
              state = later.state;
              owner = later.owner;
              before = later.before;
            },
            new,
          )
      | inr (done, earlier, new) ↦ (
        record {
          when = t;
          after = omega arith;
          state = done;
          owner = ground arith;
          before = earlier;
        },
        new,
      )
    ]

-- What a test of the head's stamp `csn` at tick `t` can find to allow an update: the updater's own
-- version, the version of a transaction that was seen to have ended before, or a stamp below.
unfoldable pub Allowed : Bool → History → ℕ → ℕ → Visitor → Type 0
Allowed true h t csn v = csn ≡ v.owner
Allowed false h t csn v =
    SeenCommitted h t csn v.begin ⊎ ((asi_type csn ≢ asi_xid) × (offset csn < v.begin))

branches_inv :
    (empty typed own stamped late : Bool) (waited : Decision) (o : Bool)
    → (if empty
        then start_again
        else if typed
        then (if own then install true else waited)
        else if stamped
        then (if late then conflict else install false)
        else fails)
      ≡ install o
    → (empty ≡ false)
      × (((own ≡ true) × (o ≡ true))
          ⊎ ((typed ≡ true) × (waited ≡ install o))
          ⊎ ((typed ≡ false) × (late ≡ false) × (o ≡ false)))
branches_inv true typed own stamped late waited o q = cc
branches_inv false true true stamped late waited o q = (refl, inl (refl, ground arith))
branches_inv false true false stamped late waited o q = (refl, inr (inl (refl, q)))
branches_inv false false own true true waited o q = cc
branches_inv false false own true false waited o q = (refl, inr (inr (refl, refl, ground arith)))
branches_inv false false own false late waited o q = cc

pub judge_update_sound :
    (fuel : ℕ) (h : History) (t head csn : ℕ) (v : Visitor) (o : Bool)
    → judge_update fuel h t head csn v ≡ install o
    → (csn ≢ 0) × Allowed o h t csn v
unfolding judge_update Allowed
judge_update_sound fuel h t head csn v true q =
    let (some_csn, why) =
      branches_inv (csn == 0) (asi_type csn == asi_xid) (csn == v.owner) (asi_type csn == asi_csn)
        (leb v.begin (offset csn)) (wait_for_holder fuel h t head csn v.begin) true q in
    (
      λ e. ground arith,
      elim why [
        | inl (own, _) ↦ ground arith
        | inr (inl (_, waited)) ↦
            let (_, new) = wait_for_holder_sound fuel h t head csn v.begin true waited in cc
        | inr (inr (_, _, new)) ↦ cc
      ],
    )
judge_update_sound fuel h t head csn v false q =
    let (some_csn, why) =
      branches_inv (csn == 0) (asi_type csn == asi_xid) (csn == v.owner) (asi_type csn == asi_csn)
        (leb v.begin (offset csn)) (wait_for_holder fuel h t head csn v.begin) false q in
    (
      λ e. ground arith,
      elim why [
        | inl (_, old) ↦ cc
        | inr (inl (_, waited)) ↦
            let (seen, _) = wait_for_holder_sound fuel h t head csn v.begin false waited in inl seen
        | inr (inr (untyped, early, _)) ↦ inr (λ e. ground arith, ground arith)
      ],
    )
