-- ===== src/XidAlloc/Rows.antt =====
-- The second row of bitmaps is never filled.
use preemptdb.Prelude.{
  ℕ, ◌%◌, ◌^◌, ◌<◌, ◌≡◌, ◌≢◌, refl, sym, ap, ◌∙◌, inl, inr, true, Bool-cases, ◌==◌, set_at, arith,
  some,
}
use mathlib.Core.Path.{subst}
use preemptdb.FatPtr.Xid
use preemptdb.FatPtr.Types.{Xid-round_trip}
use preemptdb.XidAlloc.{ContextData, Pool, global_init, take_one, xid_free, grab, open_epoch}
use preemptdb.XidAlloc.Places.{shared, local_word, holds, IsValid}
use preemptdb.XidAlloc.Bits.{set_at-same, set_at-other}
use preemptdb.XidAlloc.Grab.{after_grab, grab_inv, grab-moved, grab-local, grab-shared}
use preemptdb.XidAlloc.Take.{taken_id, taken_xid, take_one_inv, take-moved, take-local}
use preemptdb.XidAlloc.Free.{home, xid_free_inv, free-shared}
use preemptdb.XidAlloc.Kept.{at_thread, take_epoch, freed_half, open_holds}
use preemptdb.XidAlloc.Reach.{
  Step, grabs, takes, frees, opens, Reachable, starts, steps, Reachable-IsValid,
}

-- Contexts are in the first row only, or come from it.
record FirstRow (s : Pool) : Type 0 where
  in_bitmap : (k id : ℕ) → holds s (shared k) id ≡ true → k < 2
  in_word : (t id : ℕ) → holds s (local_word t) id ≡ true → (s.thread t).epoch % 4 < 2
  in_xid : (id : ℕ) → s.owner id ≢ 0 → Xid.epoch (s.owner id) % 4 < 2

grab_first : (s s' : Pool) (t e : ℕ) → FirstRow s → grab s t e ≡ some s' → FirstRow s'
grab_first s s' t e r q =
    let (empty, room, same) = grab_inv s s' t e q in
    subst FirstRow same (record {
      in_bitmap = λ k id h. r.in_bitmap k id (grab-shared s t e k id empty h);
      in_word = λ t' id h. elim (Bool-cases (t' == t)) [
        | inl here ↦
            let at : t' ≡ t = ground arith in
            let (from, _) =
              grab-moved s t e id room empty
                (subst (λ x. holds (after_grab s t e) (local_word x) id ≡ true) at h) in
            subst (λ (c : ContextData). c.epoch % 4 < 2) (sym (at_thread s t t' _ at))
              (r.in_bitmap (e % 4) id from)
        | inr other ↦
            let apart : t' ≢ t = λ x. ground arith in
            subst (λ (c : ContextData). c.epoch % 4 < 2) (sym (set_at-other s.thread t t' _ apart))
              (r.in_word t' id (grab-local s t e t' id apart h))
      ];
      in_xid = r.in_xid;
    })

take_first :
    (s s' : Pool) (t x : ℕ) → IsValid s → FirstRow s → take_one s t ≡ some (x, s') → FirstRow s'
unfolding holds
take_first s s' t x v r q =
    let (some_set, _, same) = take_one_inv s s' t x q in
    let was = (take-moved s t some_set).0 in
    let low = r.in_word t (taken_id s t) was in
    let in_half = v.local_half t (taken_id s t) was in
    let (epoch, _, _) =
      Xid-round_trip ((s.thread t).epoch % 2 ^ 32) (taken_id s t) (omega arith)
        (omega (arith, in_half)) in
    let low_xid : Xid.epoch (taken_xid s t) % 4 < 2 = omega (arith, epoch, low) in
    subst FirstRow same (record {
      in_bitmap = r.in_bitmap;
      in_word = λ t' id h.
          subst (λ e. e % 4 < 2) (sym (take_epoch s t t'))
            (r.in_word t' id (take-local s t t' id h));
      in_xid = λ id real. elim (Bool-cases (id == taken_id s t)) [
        | inl here ↦
            let at : id ≡ taken_id s t = ground arith in
            subst (λ o. Xid.epoch o % 4 < 2)
              (sym (
                ap (set_at s.owner (taken_id s t) (taken_xid s t)) at
                ∙ set_at-same s.owner (taken_id s t) (taken_xid s t)))
              low_xid
        | inr other ↦
            let owner =
              set_at-other s.owner (taken_id s t) id (taken_xid s t) (λ e. ground arith) in
            subst (λ o. Xid.epoch o % 4 < 2) (sym owner) (r.in_xid id (λ e. real (owner ∙ e)))
      ];
    })

free_first :
    (s s' : Pool) (x : ℕ) → IsValid s → FirstRow s → x ≢ 0 → xid_free s x ≡ some s' → FirstRow s'
unfolding holds
free_first s s' x v r real q =
    let (own, same) = xid_free_inv s s' x q in
    let low : home x < 2 =
      subst (λ o. Xid.epoch o % 4 < 2) own (r.in_xid (Xid.local x) (λ e. real (sym own ∙ e))) in
    subst FirstRow same (record {
      in_bitmap = λ k id h. elim (free-shared s x k id (freed_half s s' x v real q) h) [
        | inl old ↦ r.in_bitmap k id old
        | inr (at, _) ↦ subst (λ k'. k' < 2) (sym at) low
      ];
      in_word = λ t id h. r.in_word t id h;
      in_xid = λ id real'. elim (Bool-cases (id == Xid.local x)) [
        | inl here ↦
            let at : id ≡ Xid.local x = ground arith in
            absurd
              (real' (ap (set_at s.owner (Xid.local x) 0) at ∙ set_at-same s.owner (Xid.local x) 0))
        | inr other ↦
            let owner = set_at-other s.owner (Xid.local x) id 0 (λ e. ground arith) in
            subst (λ o. Xid.epoch o % 4 < 2) (sym owner) (r.in_xid id (λ e. real' (owner ∙ e)))
      ];
    })

init_first : FirstRow global_init
unfolding holds global_init
init_first = record {
  in_bitmap = λ k id h. ground arith;
  in_word = λ t id h. ground arith;
  in_xid = λ id real. absurd (real refl);
}

Step-FirstRow : (s s' : Pool) → IsValid s → FirstRow s → Step s s' → FirstRow s'
unfolding open_epoch
Step-FirstRow s s' v r (grabs t e q) = grab_first s s' t e r q
Step-FirstRow s s' v r (takes t x q) = take_first s s' t x v r q
Step-FirstRow s s' v r (frees x real q) = free_first s s' x v r real q
Step-FirstRow s _ v r (opens e) = record {
  in_bitmap = λ k id h. r.in_bitmap k id (open_holds s e (shared k) id h);
  in_word = λ t id h. r.in_word t id (open_holds s e (local_word t) id h);
  in_xid = r.in_xid;
}

Reachable-FirstRow : (s : Pool) → Reachable s → FirstRow s
Reachable-FirstRow s starts = init_first
Reachable-FirstRow s (steps {s = s0} r step) =
    Step-FirstRow s0 s (Reachable-IsValid s0 r) (Reachable-FirstRow s0 r) step

-- From the initial bitmaps on, whatever threads grab words, take contexts, free them and open epochs, each
-- of these in one step and in whatever order: a context that is in a bitmap is in one of the first row.
pub second_row_empty : (s : Pool) (k id : ℕ) → Reachable s → holds s (shared k) id ≡ true → k < 2
second_row_empty s k id r h = (Reachable-FirstRow s r).in_bitmap k id h
