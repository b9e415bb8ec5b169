-- ===== src/XidAlloc/Take.antt =====
-- `take_one` moves a context from a thread's word to an owner.
use preemptdb.Prelude.{
  ℕ, ◌+◌, ◌-◌, ◌%◌, ◌^◌, ◌≡◌, refl, sym, ap, ◌∙◌, inl, inr, true, false, Bool-cases, some, ltb, leb,
  ◌==◌, set_at, arith,
}
use mathlib.Core.Path.{subst}
use preemptdb.FatPtr.Xid
use preemptdb.XidAlloc.{ContextData, Pool, has_bit, lowest, take_one}
use preemptdb.XidAlloc.Places.{shared, local_word, owned, holds, Moves}
use preemptdb.XidAlloc.Bits.{
  taken_bit, set_at-same, set_at-other, and_false, in_local, in_word, in_word_true,
}

abbrev pub taken_id : Pool → ℕ → ℕ
taken_id s t = (s.thread t).base_id + lowest 64 0 (s.thread t).bitmap

abbrev pub taken_xid : Pool → ℕ → ℕ
taken_xid s t = Xid.make ((s.thread t).epoch % 2 ^ 32) (taken_id s t)

abbrev pub after_take : Pool → ℕ → Pool
after_take s t =
    let c = s.thread t in
    record s {
      owner = set_at s.owner (taken_id s t) (taken_xid s t);
      thread =
          set_at s.thread t (record c { bitmap = set_at c.bitmap (lowest 64 0 c.bitmap) false });
    }

pub take_one_inv :
    (s s' : Pool) (t x : ℕ)
    → take_one s t ≡ some (x, s')
    → (has_bit 64 (s.thread t).bitmap ≡ true) × (taken_xid s t ≡ x) × (after_take s t ≡ s')
unfolding take_one
take_one_inv s s' t x q = elim (Bool-cases (has_bit 64 (s.thread t).bitmap)) [
  | inl some_set ↦ (some_set, ground (arith, some_set), ground (arith, some_set))
  | inr empty ↦ ground (arith, empty)
]

-- The context that is taken was in the thread's word, and no longer is.
pub take-moved :
    (s : Pool) (t : ℕ)
    → has_bit 64 (s.thread t).bitmap ≡ true
    → (holds s (local_word t) (taken_id s t) ≡ true)
      × (holds (after_take s t) (local_word t) (taken_id s t) ≡ false)
unfolding holds
take-moved s t some_set =
    let c = s.thread t in
    let bit = lowest 64 0 c.bitmap in
    let (set, below) = taken_bit c.bitmap some_set in
    let back : taken_id s t - c.base_id ≡ bit = omega arith in
    let c' : ContextData = record c { bitmap = set_at c.bitmap bit false } in
    let gone : set_at c.bitmap bit false (taken_id s t - c.base_id) ≡ false =
      ap (set_at c.bitmap bit false) back ∙ set_at-same c.bitmap bit false in
    (
      in_word_true c.base_id (taken_id s t) c.bitmap (omega arith) (omega (arith, below))
          (ap c.bitmap back ∙ set),
      ap (λ x. in_local x (taken_id s t)) (set_at-same s.thread t c')
          ∙ and_false (leb c.base_id (taken_id s t))
              (and_false (ltb (taken_id s t) (c.base_id + 64)) gone),
    )

pub take-local :
    (s : Pool) (t t' id : ℕ)
    → holds (after_take s t) (local_word t') id ≡ true
    → holds s (local_word t') id ≡ true
unfolding holds
take-local s t t' id h = elim (Bool-cases (t' == t)) [
  | inl same ↦
      let c = s.thread t in
      let c' : ContextData = record c { bitmap = set_at c.bitmap (lowest 64 0 c.bitmap) false } in
      let at : t' ≡ t = ground arith in
      let h' = subst (λ x. in_local (set_at s.thread t c' x) id ≡ true) at h in
      let (lo, hi, set) =
        in_word c.base_id id c'.bitmap
          (subst (λ x. in_local x id ≡ true) (set_at-same s.thread t c') h') in
      let was : c.bitmap (id - c.base_id) ≡ true = ground arith in
      subst (λ x. in_local (s.thread x) id ≡ true) (sym at)
        (in_word_true c.base_id id c.bitmap lo hi was)
  | inr other ↦ rw (set_at-other s.thread t t' _ (λ e. ground arith)) at h
]

taken-Moves :
    (s : Pool) (t : ℕ)
    → has_bit 64 (s.thread t).bitmap ≡ true
    → Moves s (after_take s t) (local_word t) owned
unfolding holds
taken-Moves s t some_set (shared k) id h = inl h
taken-Moves s t some_set (local_word t') id h = inl (take-local s t t' id h)
taken-Moves s t some_set owned id h = elim (Bool-cases (id == taken_id s t)) [
  | inl same ↦
      let at : id ≡ taken_id s t = ground arith in
      let (from, gone) = take-moved s t some_set in
      inr (
        refl,
        subst (λ x. holds s (local_word t) x ≡ true) (sym at) from,
        subst (λ x. holds (after_take s t) (local_word t) x ≡ false) (sym at) gone,
      )
  | inr other ↦
      inl (rw (set_at-other s.owner (taken_id s t) id (taken_xid s t) (λ e. ground arith)) at h)
]

pub take-Moves :
    (s s' : Pool) (t x : ℕ) → take_one s t ≡ some (x, s') → Moves s s' (local_word t) owned
take-Moves s s' t x q =
    let (some_set, _, same) = take_one_inv s s' t x q in
    subst (λ x. Moves s x (local_word t) owned) same (taken-Moves s t some_set)
