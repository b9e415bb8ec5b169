-- ===== src/XidAlloc/Free.antt =====
-- `xid_free` moves a context from its owner to a bitmap.
use preemptdb.Prelude.{
  ℕ, ◌/◌, ◌%◌, ◌≡◌, ◌≢◌, sym, ap, ◌∙◌, ◌⊎◌, inl, inr, true, false, not, Bool-cases, some, ◌==◌,
  set_at, arith,
}
use mathlib.Core.Path.{subst}
use preemptdb.FatPtr.Xid
use preemptdb.XidAlloc.{Word, Pool, nwords, half, xid_free}
use preemptdb.XidAlloc.Places.{shared, local_word, owned, holds, Moves}
use preemptdb.XidAlloc.Bits.{set_at-same, set_at-other}

abbrev pub home : ℕ → ℕ
home x = Xid.epoch x % 4

abbrev pub word_of : ℕ → ℕ
word_of x = Xid.local x / 64 % nwords

abbrev pub freed_words : Pool → ℕ → ℕ → Word
freed_words s x =
    let b = s.bitmaps (home x) in
    set_at b.words (word_of x) (set_at (b.words (word_of x)) (Xid.local x % 64) true)

abbrev pub after_free : Pool → ℕ → Pool
after_free s x = record s {
  owner = set_at s.owner (Xid.local x) 0;
  bitmaps = set_at s.bitmaps (home x) (record (s.bitmaps (home x)) { words = freed_words s x });
}

pub xid_free_inv :
    (s s' : Pool) (x : ℕ)
    → xid_free s x ≡ some s'
    → (s.owner (Xid.local x) ≡ x) × (after_free s x ≡ s')
unfolding xid_free
xid_free_inv s s' x q = elim (Bool-cases (s.owner (Xid.local x) == x)) [
  | inl own ↦ (ground (arith, own), ground (arith, own))
  | inr foreign ↦ ground (arith, foreign)
]

-- A context of the bitmap was in it, or is the one that was freed.
pub free-shared :
    (s : Pool) (x k id : ℕ)
    → Xid.local x / half ≡ Xid.epoch x % 2
    → holds (after_free s x) (shared k) id ≡ true
    → (holds s (shared k) id ≡ true) ⊎ ((k ≡ home x) × (id ≡ Xid.local x))
unfolding holds
free-shared s x k id homed h = elim (Bool-cases (k == home x)) [
  | inl same ↦ elim (Bool-cases (id / 64 % nwords == word_of x)) [
    | inl in_it ↦ elim (Bool-cases (id % 64 == Xid.local x % 64)) [
      | inl bit ↦
          let at : k ≡ home x = ground arith in
          let in_half : id / half ≡ k % 2 = ground arith in
          let same_word : id / 64 % nwords ≡ word_of x = ground arith in
          let same_bit : id % 64 ≡ Xid.local x % 64 = ground arith in
          inr (at, omega (arith, homed, at, in_half, same_word, same_bit))
      | inr other ↦ inl (ground (arith, same, in_it, other))
    ]
    | inr other ↦ inl (ground (arith, same, other))
  ]
  | inr elsewhere ↦ inl (ground (arith, elsewhere))
]

owner-gone : (s : Pool) (x : ℕ) → holds (after_free s x) owned (Xid.local x) ≡ false
unfolding holds
owner-gone s x = ap (λ o. not (o == 0)) (set_at-same s.owner (Xid.local x) 0)

owner-was :
    (s : Pool) (x : ℕ) → s.owner (Xid.local x) ≡ x → x ≢ 0 → holds s owned (Xid.local x) ≡ true
unfolding holds
owner-was s x own real = rw own (ground arith)

freed-Moves :
    (s : Pool) (x : ℕ)
    → x ≢ 0
    → s.owner (Xid.local x) ≡ x
    → Xid.local x / half ≡ Xid.epoch x % 2
    → Moves s (after_free s x) owned (shared (home x))
unfolding holds
freed-Moves s x real own homed (shared k) id h = elim (free-shared s x k id homed h) [
  | inl old ↦ inl old
  | inr (at, same) ↦ inr (
    ap shared at,
    subst (λ i. holds s owned i ≡ true) (sym same) (owner-was s x own real),
    subst (λ i. holds (after_free s x) owned i ≡ false) (sym same) (owner-gone s x),
  )
]
freed-Moves s x real own homed (local_word t) id h = inl h
freed-Moves s x real own homed owned id h = elim (Bool-cases (id == Xid.local x)) [
  | inl same ↦
      let at : id ≡ Xid.local x = ground arith in
      absurd (
        let both : true ≡ false =
          sym h ∙ (ap (λ i. holds (after_free s x) owned i) at ∙ owner-gone s x) in
        cc)
  | inr other ↦ inl (rw (set_at-other s.owner (Xid.local x) id 0 (λ e. ground arith)) at h)
]

pub free-Moves :
    (s s' : Pool) (x : ℕ)
    → x ≢ 0
    → Xid.local x / half ≡ Xid.epoch x % 2
    → xid_free s x ≡ some s'
    → Moves s s' owned (shared (home x))
free-Moves s s' x real homed q =
    let (own, same) = xid_free_inv s s' x q in
    subst (λ y. Moves s y owned (shared (home x))) same (freed-Moves s x real own homed)
