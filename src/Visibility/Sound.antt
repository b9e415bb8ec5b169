-- ===== src/Visibility/Sound.antt =====
-- Why a version was visible.
use preemptdb.Prelude.{
  ℕ, zero, suc, ◌+◌, ◌≤◌, ◌<◌, ◌≡◌, ◌≢◌, refl, ◌⊎◌, inl, inr, Bool, true, false, ◌==◌, leb, arith,
  if◌then◌else◌,
}
use preemptdb.FatPtr.{asi_type, asi_xid, asi_csn, offset}
use preemptdb.Visibility.{
  TxnState, committing, committed, History, Visitor, Verdict, visible, invisible, retry, fails,
  is_above_committed, has_context, judge_state, context_at, wait_for_commit, judge_csn,
  test_visibility,
}

-- The holder was seen to have committed before the visitor began.
pub record SeenCommitted (h : History) (t xid begin : ℕ) : Type 0 where
  pub when : ℕ
  pub after : t ≤ when
  pub state : (context_at h (when + 1) xid).state ≡ committed
  pub owner : (context_at h (when + 2) xid).owner ≡ xid
  pub before : (context_at h (when + 3) xid).end_stamp < begin

judge_state_inv :
    (s : TxnState) (e b : ℕ) (again : Verdict)
    → judge_state s e b again ≡ visible
    → ((s ≡ committing) × (again ≡ visible)) ⊎ ((s ≡ committed) × (e < b))
unfolding judge_state
judge_state_inv TxnState.active e b again q = cc
judge_state_inv TxnState.committing e b again q = inl (refl, q)
judge_state_inv TxnState.committed e b again q = inr (refl, ground arith)
judge_state_inv TxnState.aborted e b again q = cc
judge_state_inv TxnState.invalid e b again q = cc

-- A round that ends visible passed both checks of the context.
round_inv :
    (found same : Bool) (judged : Verdict)
    → (if found then (if same then judged else retry) else retry) ≡ visible
    → (same ≡ true) × (judged ≡ visible)
round_inv true true judged q = (refl, q)
round_inv true false judged q = cc
round_inv false same judged q = cc

wait_for_commit_sound :
    (fuel : ℕ) (h : History) (t xid begin : ℕ)
    → wait_for_commit fuel h t xid begin ≡ visible
    → SeenCommitted h t xid begin
unfolding wait_for_commit
wait_for_commit_sound zero h t xid begin q = cc
wait_for_commit_sound (suc fuel) h t xid begin q =
    let (same, judged) =
      round_inv (has_context (context_at h t xid).owner xid)
        ((context_at h (t + 2) xid).owner == xid)
        (judge_state (context_at h (t + 1) xid).state (context_at h (t + 3) xid).end_stamp begin
          (wait_for_commit fuel h (t + 4) xid begin))
        q in
    elim (judge_state_inv (context_at h (t + 1) xid).state (context_at h (t + 3) xid).end_stamp
      begin (wait_for_commit fuel h (t + 4) xid begin) judged) [
        | inl (_, again) ↦
            let later = wait_for_commit_sound fuel h (t + 4) xid begin again in
            record {
              when = later.when;
              after = omega (arith, later.after);
              state = later.state;
              owner = later.owner;
              before = later.before;
            }
        | inr (done, earlier) ↦ record {
          when = t;
          after = omega arith;
          state = done;
          owner = ground arith;
          before = earlier;
        }
      ]

-- What a test of the stamp `csn` at tick `t` can find visible
pub Witnessed : History → ℕ → ℕ → Visitor → Type 0
Witnessed h t csn v =
    (csn ≡ v.owner)
    ⊎ SeenCommitted h t csn v.begin
    ⊎ ((asi_type csn ≢ asi_xid) × (offset csn ≤ v.begin))

-- The branches of a test, by what their conditions came to
branches_inv :
    (empty typed own above stamped below : Bool) (waited : Verdict)
    → (if empty
        then retry
        else if typed
        then (if own then (if above then visible else fails) else waited)
        else if stamped
        then (if below then visible else invisible)
        else fails)
      ≡ visible
    → ((typed ≡ true) × (own ≡ true))
      ⊎ ((typed ≡ true) × (waited ≡ visible))
      ⊎ ((typed ≡ false) × (below ≡ true))
branches_inv true typed own above stamped below waited q = cc
branches_inv false true true above stamped below waited q = inl (refl, refl)
branches_inv false true false above stamped below waited q = inr (inl (refl, q))
branches_inv false false own above true true waited q = inr (inr (refl, refl))
branches_inv false false own above true false waited q = cc
branches_inv false false own above false below waited q = cc

judge_csn_sound :
    (fuel : ℕ) (h : History) (t obj csn : ℕ) (v : Visitor)
    → judge_csn fuel h t obj csn v ≡ visible
    → Witnessed h t csn v
unfolding judge_csn Witnessed
judge_csn_sound fuel h t obj csn v q =
    elim (branches_inv (csn == 0) (asi_type csn == asi_xid) (csn == v.owner)
      (is_above_committed h t obj) (asi_type csn == asi_csn) (leb (offset csn) v.begin)
      (wait_for_commit fuel h t csn v.begin) q) [
        | inl (_, own) ↦ inl (ground arith)
        | inr (inl (_, waited)) ↦ inr (inl (wait_for_commit_sound fuel h t csn v.begin waited))
        | inr (inr (untyped, below)) ↦ inr (inr (λ e. ground arith, ground arith))
      ]

-- Whatever other threads do meanwhile, a version that `TestVisibility` finds visible carries the
-- visitor's own XID, or the XID of a transaction that was seen, after the stamp was read, to have
-- committed with an end stamp before the visitor's begin, or a CSN that is at most that begin.
pub test_visibility_sound :
    (fuel : ℕ) (h : History) (t obj : ℕ) (v : Visitor)
    → test_visibility fuel h t obj v ≡ visible
    → Witnessed h (t + 1) ((h t).object obj).csn v
unfolding test_visibility
test_visibility_sound fuel h t obj v q =
    judge_csn_sound fuel h (t + 1) obj ((h t).object obj).csn v q
