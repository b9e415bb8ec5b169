-- ===== src/Update/Wins.antt =====
-- The first updater wins, whatever other threads do meanwhile.
use preemptdb.Prelude.{
  ℕ, zero, suc, ◌+◌, ◌*◌, ◌≤◌, ◌≡◌, ◌≢◌, refl, ◌⊎◌, inl, inr, Bool, true, false, Option, none, some,
  List, arith, if◌then◌else◌,
}
use mathlib.Core.Path.{subst}
use preemptdb.FatPtr.{offset}
use preemptdb.Visibility.{Memory, History, Visitor}
use preemptdb.Update.{
  Decision, install, conflict, start_again, spins, fails, is_object, judge_update, await_pdest,
  Outcome, updated, overwrite_version, install_version, swap_head, install_at, decide, update_tuple,
}
use preemptdb.Update.Decide.{Allowed, judge_update_sound}

abbrev stamp_at : History → ℕ → ℕ → ℕ
stamp_at h t head = ((h t).object (offset head)).csn

abbrev pub stored_at : History → ℕ → ℕ → List ℕ → Visitor → ℕ → ℕ → ℕ → Bool → Memory
stored_at h t fresh value v epoch head pa true = overwrite_version (h t) fresh value v epoch head
stored_at h t fresh value v epoch head pa false = install_version (h t) fresh value v epoch head pa

-- How an update came about: at `seen` the entry held the head; the stamp that the head had at the next
-- tick was not null and allowed the update, by what was read after it; at `at` the new version was
-- stored, over the same head unless the updater replaced a version of its own.
pub record Won (h : History) (t fresh : ℕ) (value : List ℕ) (v : Visitor) (epoch head : ℕ)
    (m' : Memory) : Type 0 where
  pub overwrite : Bool
  pub seen : ℕ
  pub at : ℕ
  pub pa : ℕ
  pub began : t ≤ seen
  pub later : seen + 2 ≤ at
  pub headed : (h seen).entry ≡ head
  pub linked : stamp_at h (seen + 1) head ≢ 0
  pub allowed : Allowed overwrite h (seen + 2) (stamp_at h (seen + 1) head) v
  pub still : overwrite ≡ false → (h at).entry ≡ head
  pub stored : m' ≡ stored_at h at fresh value v epoch head pa overwrite

await_pdest_later :
    (fuel : ℕ) (h : History) (t obj pa t' : ℕ) → await_pdest fuel h t obj ≡ some (pa, t') → t ≤ t'
unfolding await_pdest
await_pdest_later zero h t obj pa t' q = cc
await_pdest_later (suc fuel) h t obj pa t' q =
    ground (arith, await_pdest_later fuel h (t + 1) obj pa t')

-- Installing ends in a store at some later tick.
Installed : Bool → History → ℕ → ℕ → List ℕ → Visitor → ℕ → ℕ → ℕ → Memory → Type 0
Installed o h t fresh value v epoch head head' m' =
    (at : ℕ) × (pa : ℕ) × (head ≡ head')
    × (t ≤ at)
    × (o ≡ false → (h at).entry ≡ head)
    × (m' ≡ stored_at h at fresh value v epoch head pa o)

swap_head_inv :
    (found : Option (ℕ × ℕ)) (h : History) (fresh : ℕ) (value : List ℕ) (v : Visitor)
    (epoch head head' : ℕ) (m' : Memory)
    → swap_head found h fresh value v epoch head ≡ updated head' m'
    → (pa : ℕ) × (t' : ℕ) × (found ≡ some (pa, t'))
      × (head ≡ head')
      × ((h t').entry ≡ head)
      × (m' ≡ install_version (h t') fresh value v epoch head pa)
unfolding swap_head
swap_head_inv none h fresh value v epoch head head' m' q = cc
swap_head_inv (some (pa, t')) h fresh value v epoch head head' m' q =
    (pa, t', refl, ground arith, ground arith, ground arith)

install_at_inv :
    (o : Bool) (fuel : ℕ) (h : History) (t fresh : ℕ) (value : List ℕ) (v : Visitor)
    (epoch head head' : ℕ) (m' : Memory)
    → install_at o fuel h t fresh value v epoch head ≡ updated head' m'
    → Installed o h t fresh value v epoch head head' m'
unfolding install_at Installed
install_at_inv true fuel h t fresh value v epoch head head' m' q =
    (t, 0, ground arith, omega arith, λ e. cc, ground arith)
install_at_inv false fuel h t fresh value v epoch head head' m' q =
    let (pa, t', found, same, still, stored) =
      swap_head_inv (await_pdest fuel h t (offset head)) h fresh value v epoch head head' m' q in
    (t', pa, same, await_pdest_later fuel h t (offset head) pa t' found, λ _. still, stored)

-- An update comes from the first reading of the head or from a later one.
decide_inv :
    (d : Decision) (again : Outcome) (go : Bool → Outcome) (head' : ℕ) (m' : Memory)
    → decide d again go ≡ updated head' m'
    → (again ≡ updated head' m') ⊎ ((o : Bool) × (d ≡ install o) × (go o ≡ updated head' m'))
unfolding decide
decide_inv (install o) again go head' m' q = inr (o, refl, q)
decide_inv conflict again go head' m' q = cc
decide_inv start_again again go head' m' q = inl q
decide_inv spins again go head' m' q = cc
decide_inv fails again go head' m' q = cc

-- An object that is updated passed the assertions on the head.
object_inv :
    (object : Bool) (judged : Decision) (o : Bool)
    → (if object then judged else fails) ≡ install o
    → judged ≡ install o
object_inv true judged o q = q
object_inv false judged o q = cc

Won-now :
    (o : Bool) (after : ℕ) (h : History) (t fresh : ℕ) (value : List ℕ) (v : Visitor)
    (epoch head : ℕ) (m' : Memory)
    → t + 2 ≤ after
    → Installed o h after fresh value v epoch (h t).entry head m'
    → (stamp_at h (t + 1) (h t).entry ≢ 0) × Allowed o h (t + 2) (stamp_at h (t + 1) (h t).entry) v
    → Won h t fresh value v epoch head m'
unfolding Installed
Won-now o after h t fresh value v epoch head m' order (at, pa, same, later, still, stored)
      (linked, allowed) =
    subst (λ x. Won h t fresh value v epoch x m') same
      (record {
        overwrite = o;
        seen = t;
        at = at;
        pa = pa;
        began = omega arith;
        later = omega arith;
        headed = refl;
        linked = linked;
        allowed = allowed;
        still = still;
        stored = stored;
      })

-- Whatever other threads do meanwhile, if `UpdateTuple` returns the old head, then at some tick the
-- entry held that head, whose stamp was then not null and was the updater's own XID, or the XID of a
-- transaction that was seen committed with an end stamp before the updater's begin, or a CSN below that begin;
-- the memory that it leaves is that of a later tick with the new version in the entry, and at that tick the entry
-- still held the old head, unless the stamp was the updater's own.
pub update_tuple_wins :
    (fuel : ℕ) (h : History) (t fresh : ℕ) (value : List ℕ) (v : Visitor) (epoch head : ℕ)
    (m' : Memory)
    → update_tuple fuel h t fresh value v epoch ≡ updated head m'
    → Won h t fresh value v epoch head m'
unfolding update_tuple
update_tuple_wins zero h t fresh value v epoch head m' q = cc
update_tuple_wins (suc fuel) h t fresh value v epoch head m' q =
    let old = (h t).entry in
    let after = t + 2 + 4 * suc fuel in
    let d = judge_update (suc fuel) h (t + 2) old ((h (t + 1)).object (offset old)).csn v in
    elim (decide_inv (if is_object old then d else fails)
      (update_tuple fuel h after fresh value v epoch)
      (λ o. install_at o (suc fuel) h after fresh value v epoch old) head m' q) [
        | inl again ↦
            let w = update_tuple_wins fuel h after fresh value v epoch head m' again in
            record {
              overwrite = w.overwrite;
              seen = w.seen;
              at = w.at;
              pa = w.pa;
              began = omega (arith, w.began);
              later = w.later;
              headed = w.headed;
              linked = w.linked;
              allowed = w.allowed;
              still = w.still;
              stored = w.stored;
            }
        | inr (o, why, done) ↦
            Won-now o after h t fresh value v epoch head m' (omega arith)
              (install_at_inv o (suc fuel) h after fresh value v epoch old head m' done)
              (judge_update_sound (suc fuel) h (t + 2) old (stamp_at h (t + 1) old) v o
                (object_inv (is_object old) d o why))
      ]
