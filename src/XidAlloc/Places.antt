-- ===== src/XidAlloc/Places.antt =====
-- Where a context can be: in a bitmap, in a thread's word, or with an owner.
use preemptdb.Prelude.{
  ℕ, ◌+◌, ◌-◌, ◌/◌, ◌%◌, ◌≡◌, ◌≢◌, sym, ap, ◌∙◌, ◌⊎◌, inl, inr, Bool, true, false, not, ◌&&◌, ltb,
  leb, ◌==◌,
}
use preemptdb.FatPtr.Xid
use preemptdb.XidAlloc.{Pool, nwords, half}

pub data Place : Type 0 where
  shared : ℕ → Place
  local_word : ℕ → Place
  owned : Place

unfoldable pub holds : Pool → Place → ℕ → Bool
holds s (shared k) id = (id / half == k % 2) && (s.bitmaps k).words (id / 64 % nwords) (id % 64)
holds s (local_word t) id =
    leb (s.thread t).base_id id
    && (ltb id ((s.thread t).base_id + 64) && (s.thread t).bitmap (id - (s.thread t).base_id))
holds s owned id = not (s.owner id == 0)

-- A context is at one place at most, and in the half of the contexts that its epoch uses.
pub record IsValid (s : Pool) : Type 0 where
  pub unique : (id : ℕ) (p q : Place) → holds s p id ≡ true → holds s q id ≡ true → p ≡ q
  pub local_half :
      (t id : ℕ) → holds s (local_word t) id ≡ true → id / half ≡ (s.thread t).epoch % 2
  pub owned_half : (id : ℕ) → s.owner id ≢ 0 → id / half ≡ Xid.epoch (s.owner id) % 2

-- A step that moves contexts from one place to another
abbrev pub Moves : Pool → Pool → Place → Place → Type 0
Moves s s' src dst =
    (p : Place) (id : ℕ)
    → holds s' p id ≡ true
    → (holds s p id ≡ true) ⊎ ((p ≡ dst) × (holds s src id ≡ true) × (holds s' src id ≡ false))

old_moved :
    (s s' : Pool) (src : Place) (id : ℕ) (p : Place)
    → p ≡ src
    → holds s' p id ≡ true
    → holds s' src id ≢ false
old_moved s s' src id p same new gone =
    let both : true ≡ false = sym new ∙ (ap (λ x. holds s' x id) same ∙ gone) in cc

pub Moves-unique :
    (s s' : Pool) (src dst : Place)
    → ((id : ℕ) (p q : Place) → holds s p id ≡ true → holds s q id ≡ true → p ≡ q)
    → Moves s s' src dst
    → (id : ℕ) (p q : Place) → holds s' p id ≡ true
    → holds s' q id ≡ true
    → p ≡ q
Moves-unique s s' src dst unique moves id p q hp hq = elim (moves p id hp) [
  | inl old ↦ elim (moves q id hq) [
    | inl old' ↦ unique id p q old old'
    | inr (_, from, gone) ↦ absurd (old_moved s s' src id p (unique id p src old from) hp gone)
  ]
  | inr (at, from, gone) ↦ elim (moves q id hq) [
    | inl old' ↦ absurd (old_moved s s' src id q (unique id q src old' from) hq gone)
    | inr (at', _, _) ↦ at ∙ sym at'
  ]
]
