-- ===== src/XidAlloc/Kept.antt =====
-- Every step keeps the contexts apart.
use preemptdb.Prelude.{
  ℕ, ◌+◌, ◌*◌, ◌/◌, ◌%◌, ◌^◌, ◌<◌, ◌≡◌, ◌≢◌, sym, ap, ◌∙◌, inl, inr, true, Bool-cases, some, ◌==◌,
  set_at, arith,
}
use mathlib.Core.Path.{subst}
use preemptdb.FatPtr.Xid
use preemptdb.FatPtr.Types.{Xid-round_trip}
use preemptdb.XidAlloc.{
  ContextData, Pool, nwords, half, has_bit, take_one, xid_free, grab, open_epoch,
}
use preemptdb.XidAlloc.Places.{Place, shared, local_word, owned, holds, IsValid, Moves-unique}
use preemptdb.XidAlloc.Bits.{set_at-same, set_at-other, in_word, in_local}
use preemptdb.XidAlloc.Grab.{after_grab, grab_inv, grab-Moves}
use preemptdb.XidAlloc.Take.{
  after_take, taken_id, taken_xid, take_one_inv, take-moved, take-local, take-Moves,
}
use preemptdb.XidAlloc.Free.{home, xid_free_inv, free-Moves}

pub at_thread : (s : Pool) (t t' : ℕ) (c : ContextData) → t' ≡ t → set_at s.thread t c t' ≡ c
at_thread s t t' c at = ap (set_at s.thread t c) at ∙ set_at-same s.thread t c

grab-half :
    (s : Pool) (t e t' id : ℕ)
    → IsValid s
    → (s.bitmaps (e % 4)).widx < nwords
    → holds (after_grab s t e) (local_word t') id ≡ true
    → id / half ≡ ((after_grab s t e).thread t').epoch % 2
unfolding holds
grab-half s t e t' id v room h =
    let b = s.bitmaps (e % 4) in
    let base = e % 2 * half + b.widx * 64 in
    let c' : ContextData = record { epoch = e; bitmap = b.words b.widx; base_id = base } in
    elim (Bool-cases (t' == t)) [
      | inl same ↦
          let at : t' ≡ t = ground arith in
          let here = at_thread s t t' c' at in
          let (lo, hi, _) = in_word base id c'.bitmap (subst (λ x. in_local x id ≡ true) here h) in
          let in_half : id / half ≡ e % 2 = omega (arith, lo, hi, room) in
          in_half ∙ ap (λ (x : ContextData). x.epoch % 2) (sym here)
      | inr other ↦
          let there = set_at-other s.thread t t' c' (λ q. ground arith) in
          v.local_half t' id (subst (λ x. in_local x id ≡ true) there h)
          ∙ ap (λ (x : ContextData). x.epoch % 2) (sym there)
    ]

pub grab-IsValid : (s s' : Pool) (t e : ℕ) → IsValid s → grab s t e ≡ some s' → IsValid s'
grab-IsValid s s' t e v q =
    let (_, room, same) = grab_inv s s' t e q in
    let unique =
      Moves-unique s s' (shared (e % 4)) (local_word t) v.unique (grab-Moves s s' t e q) in
    record {
      unique = unique;
      local_half =
          subst
            (λ (x : Pool).
              (t' id : ℕ) → holds x (local_word t') id ≡ true → id / half ≡ (x.thread t').epoch % 2)
            same (λ t' id h. grab-half s t e t' id v room h);
      owned_half =
          subst (λ (x : Pool). (id : ℕ) → x.owner id ≢ 0 → id / half ≡ Xid.epoch (x.owner id) % 2)
            same v.owned_half;
    }

pub take_epoch : (s : Pool) (t t' : ℕ) → ((after_take s t).thread t').epoch ≡ (s.thread t').epoch
take_epoch s t t' = elim (Bool-cases (t' == t)) [
  | inl same ↦
      let at : t' ≡ t = ground arith in
      subst (λ x. ((after_take s t).thread x).epoch ≡ (s.thread x).epoch) (sym at)
        (ap (λ (c : ContextData). c.epoch) (set_at-same s.thread t _))
  | inr other ↦ ap (λ (c : ContextData). c.epoch) (set_at-other s.thread t t' _ (λ q. ground arith))
]

-- The context that is taken is in its epoch's half, and its XID says which.
pub taken_xid_lem :
    (s : Pool) (t : ℕ)
    → IsValid s
    → has_bit 64 (s.thread t).bitmap ≡ true
    → (Xid.local (taken_xid s t) ≡ taken_id s t)
      × (taken_id s t / half ≡ Xid.epoch (taken_xid s t) % 2)
taken_xid_lem s t v some_set =
    let in_half = v.local_half t (taken_id s t) (take-moved s t some_set).0 in
    let (epoch, local, _) =
      Xid-round_trip ((s.thread t).epoch % 2 ^ 32) (taken_id s t) (omega arith)
        (omega (arith, in_half)) in
    (local, omega (arith, in_half, epoch))

pub take-IsValid : (s s' : Pool) (t x : ℕ) → IsValid s → take_one s t ≡ some (x, s') → IsValid s'
take-IsValid s s' t x v q =
    let (some_set, _, same) = take_one_inv s s' t x q in
    let (_, in_half) = taken_xid_lem s t v some_set in
    record {
      unique = Moves-unique s s' (local_word t) owned v.unique (take-Moves s s' t x q);
      local_half =
          subst
            (λ (y : Pool).
              (t' id : ℕ) → holds y (local_word t') id ≡ true → id / half ≡ (y.thread t').epoch % 2)
            same
            (λ t' id h.
              v.local_half t' id (take-local s t t' id h)
              ∙ ap (λ e. e % 2) (sym (take_epoch s t t')));
      owned_half =
          subst (λ (y : Pool). (id : ℕ) → y.owner id ≢ 0 → id / half ≡ Xid.epoch (y.owner id) % 2)
            same
            (λ id real. elim (Bool-cases (id == taken_id s t)) [
              | inl here ↦
                  let at : id ≡ taken_id s t = ground arith in
                  let owner : set_at s.owner (taken_id s t) (taken_xid s t) id ≡ taken_xid s t =
                    ap (set_at s.owner (taken_id s t) (taken_xid s t)) at
                    ∙ set_at-same s.owner (taken_id s t) (taken_xid s t) in
                  ap (λ i. i / half) at ∙ (in_half ∙ ap (λ o. Xid.epoch o % 2) (sym owner))
              | inr other ↦
                  let owner =
                    set_at-other s.owner (taken_id s t) id (taken_xid s t) (λ e. ground arith) in
                  v.owned_half id (λ e. real (owner ∙ e)) ∙ ap (λ o. Xid.epoch o % 2) (sym owner)
            ]);
    }

pub freed_half :
    (s s' : Pool) (x : ℕ)
    → IsValid s
    → x ≢ 0
    → xid_free s x ≡ some s'
    → Xid.local x / half ≡ Xid.epoch x % 2
freed_half s s' x v real q =
    let (own, _) = xid_free_inv s s' x q in
    v.owned_half (Xid.local x) (λ e. real (sym own ∙ e)) ∙ ap (λ o. Xid.epoch o % 2) own

pub free-IsValid : (s s' : Pool) (x : ℕ) → IsValid s → x ≢ 0 → xid_free s x ≡ some s' → IsValid s'
unfolding holds
free-IsValid s s' x v real q =
    let (own, same) = xid_free_inv s s' x q in
    record {
      unique =
          Moves-unique s s' owned (shared (home x)) v.unique
            (free-Moves s s' x real (freed_half s s' x v real q) q);
      local_half =
          subst
            (λ (y : Pool).
              (t' id : ℕ) → holds y (local_word t') id ≡ true → id / half ≡ (y.thread t').epoch % 2)
            same (λ t' id h. v.local_half t' id h);
      owned_half =
          subst (λ (y : Pool). (id : ℕ) → y.owner id ≢ 0 → id / half ≡ Xid.epoch (y.owner id) % 2)
            same
            (λ id real'. elim (Bool-cases (id == Xid.local x)) [
              | inl here ↦
                  let at : id ≡ Xid.local x = ground arith in
                  absurd (
                    real' (
                      ap (set_at s.owner (Xid.local x) 0) at ∙ set_at-same s.owner (Xid.local x) 0))
              | inr other ↦
                  let owner = set_at-other s.owner (Xid.local x) id 0 (λ e. ground arith) in
                  v.owned_half id (λ e. real' (owner ∙ e)) ∙ ap (λ o. Xid.epoch o % 2) (sym owner)
            ]);
    }

pub open_holds :
    (s : Pool) (e : ℕ) (p : Place) (id : ℕ)
    → holds (open_epoch s e) p id ≡ true
    → holds s p id ≡ true
unfolding holds open_epoch
open_holds s e (shared k) id h = ground arith
open_holds s e (local_word t) id h = h
open_holds s e owned id h = h

pub open-IsValid : (s : Pool) (e : ℕ) → IsValid s → IsValid (open_epoch s e)
unfolding open_epoch
open-IsValid s e v = record {
  unique = λ id p q hp hq. v.unique id p q (open_holds s e p id hp) (open_holds s e q id hq);
  local_half = λ t id h. v.local_half t id (open_holds s e (local_word t) id h);
  owned_half = v.owned_half;
}
