-- ===== src/Visibility/Held.antt =====
-- Tests of `xid_get_context` and of `TestVisibility` in the branch of a version that another transaction holds.
use preemptdb.Prelude.{ℕ, ◌≡◌, ◌≢◌, true, arith}
use preemptdb.FatPtr.{asi_type, asi_xid}
use preemptdb.Visibility.{History, Visitor, has_context, wait_for_commit, judge_csn}

pub has_context_self : (x : ℕ) → x ≢ 0 → has_context x x ≡ true
unfolding has_context
has_context_self x h = ground arith

-- A version that carries the XID of another transaction
pub judge_csn_held :
    (fuel : ℕ) (h : History) (t obj csn : ℕ) (v : Visitor)
    → csn ≢ 0
    → csn ≢ v.owner
    → asi_type csn ≡ asi_xid
    → judge_csn fuel h t obj csn v ≡ wait_for_commit fuel h t csn v.begin
unfolding judge_csn
judge_csn_held fuel h t obj csn v real other typed = ground arith
