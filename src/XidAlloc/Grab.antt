-- ===== src/XidAlloc/Grab.antt =====
-- A grab moves the contexts of one word from a bitmap to a thread.
use preemptdb.Prelude.{
  ℕ, ◌+◌, ◌-◌, ◌*◌, ◌/◌, ◌%◌, ◌≤◌, ◌<◌, ◌≡◌, ◌≢◌, ap, ◌∙◌, inl, inr, true, false, Bool-cases, some,
  ltb, ◌==◌, set_at, arith,
}
use mathlib.Core.Path.{subst}
use preemptdb.XidAlloc.{Word, XidBitmap, ContextData, Pool, nwords, half, has_bit, grab}
use preemptdb.XidAlloc.Places.{shared, local_word, owned, holds, Moves}
use preemptdb.XidAlloc.Bits.{
  no_bit, set_at-same, set_at-other, is_equal, and_true, and_false, in_local, in_word,
}

abbrev pub after_grab : Pool → ℕ → ℕ → Pool
after_grab s t e =
    let c = s.thread t in
    let b = s.bitmaps (e % 4) in
    record s {
      bitmaps =
          set_at s.bitmaps (e % 4)
            (record { words = set_at b.words b.widx c.bitmap; widx = b.widx + 1 });
      thread =
          set_at s.thread t
            (record { epoch = e; bitmap = b.words b.widx; base_id = e % 2 * half + b.widx * 64 });
    }

pub grab_inv :
    (s s' : Pool) (t e : ℕ)
    → grab s t e ≡ some s'
    → (has_bit 64 (s.thread t).bitmap ≡ false)
      × ((s.bitmaps (e % 4)).widx < nwords)
      × (after_grab s t e ≡ s')
unfolding grab
grab_inv s s' t e q = elim (Bool-cases (has_bit 64 (s.thread t).bitmap)) [
  | inl some_set ↦ ground (arith, some_set)
  | inr empty ↦ elim (Bool-cases (ltb (s.bitmaps (e % 4)).widx nwords)) [
    | inl room ↦ (empty, ground (arith, room), ground (arith, empty, room))
    | inr full ↦ ground (arith, empty, full)
  ]
]

-- The word that was taken is empty afterwards.
grabbed_word :
    (s : Pool) (t e id : ℕ)
    → id / 64 % nwords ≡ (s.bitmaps (e % 4)).widx
    → has_bit 64 (s.thread t).bitmap ≡ false
    → ((after_grab s t e).bitmaps (e % 4)).words (id / 64 % nwords) (id % 64) ≡ false
grabbed_word s t e id word empty =
    let b = s.bitmaps (e % 4) in
    let bits = (s.thread t).bitmap in
    ap (λ (x : XidBitmap). x.words (id / 64 % nwords) (id % 64)) (set_at-same s.bitmaps (e % 4) _)
    ∙ (ap (λ x. set_at b.words b.widx bits x (id % 64)) word
        ∙ (ap (λ (f : Word). f (id % 64)) (set_at-same b.words b.widx bits)
            ∙ no_bit 64 bits (id % 64) empty (omega arith)))

-- The contexts of a grabbed word are those of the word in the bitmap.
pub grab-moved :
    (s : Pool) (t e id : ℕ)
    → (s.bitmaps (e % 4)).widx < nwords
    → has_bit 64 (s.thread t).bitmap ≡ false
    → holds (after_grab s t e) (local_word t) id ≡ true
    → (holds s (shared (e % 4)) id ≡ true) × (holds (after_grab s t e) (shared (e % 4)) id ≡ false)
unfolding holds
grab-moved s t e id room empty h =
    let w = (s.bitmaps (e % 4)).widx in
    let base = e % 2 * half + w * 64 in
    let same : set_at s.thread t
          (record { epoch = e; bitmap = (s.bitmaps (e % 4)).words w; base_id = base }) t
        ≡ record { epoch = e; bitmap = (s.bitmaps (e % 4)).words w; base_id = base } =
      set_at-same s.thread t _ in
    let (lo, hi, set) =
      in_word base id ((s.bitmaps (e % 4)).words w)
        (subst (λ (c : ContextData). in_local c id ≡ true) same h) in
    let above : base ≤ id = lo in
    let below : id < base + 64 = hi in
    let in_half : id / half ≡ e % 4 % 2 = omega (arith, above, below, room) in
    let word : id / 64 % nwords ≡ w = omega (arith, above, below, room) in
    let bit : id % 64 ≡ id - base = omega (arith, above, below, room) in
    let words = (s.bitmaps (e % 4)).words in
    let bits = (s.thread t).bitmap in
    (
      and_true (is_equal in_half) (ap (λ x. words x (id % 64)) word ∙ (ap (words w) bit ∙ set)),
      and_false (id / half == e % 4 % 2) (grabbed_word s t e id word empty),
    )

-- What is left in the bitmaps is what was there.
pub grab-shared :
    (s : Pool) (t e k id : ℕ)
    → has_bit 64 (s.thread t).bitmap ≡ false
    → holds (after_grab s t e) (shared k) id ≡ true
    → holds s (shared k) id ≡ true
unfolding holds
grab-shared s t e k id empty h =
    let w = (s.bitmaps (e % 4)).widx in
    elim (Bool-cases (k == e % 4)) [
      | inl same ↦ elim (Bool-cases (id / 64 % nwords == w)) [
        | inl here ↦
            let gone = no_bit 64 (s.thread t).bitmap (id % 64) empty (omega arith) in
            ground (arith, same, here, gone)
        | inr other ↦ ground (arith, same, other)
      ]
      | inr elsewhere ↦ ground (arith, elsewhere)
    ]

pub grab-local :
    (s : Pool) (t e t' id : ℕ)
    → t' ≢ t
    → holds (after_grab s t e) (local_word t') id ≡ true
    → holds s (local_word t') id ≡ true
unfolding holds
grab-local s t e t' id other h = rw (set_at-other s.thread t t' _ other) at h

grabbed-Moves :
    (s : Pool) (t e : ℕ)
    → (s.bitmaps (e % 4)).widx < nwords
    → has_bit 64 (s.thread t).bitmap ≡ false
    → Moves s (after_grab s t e) (shared (e % 4)) (local_word t)
unfolding holds
grabbed-Moves s t e room empty (shared k) id h = inl (grab-shared s t e k id empty h)
grabbed-Moves s t e room empty (local_word t') id h = elim (Bool-cases (t' == t)) [
  | inl same ↦
      let at : t' ≡ t = ground arith in
      let (from, gone) =
        grab-moved s t e id room empty
          (subst (λ x. holds (after_grab s t e) (local_word x) id ≡ true) at h) in
      inr (ap local_word at, from, gone)
  | inr other ↦ inl (grab-local s t e t' id (λ e'. ground arith) h)
]
grabbed-Moves s t e room empty owned id h = inl h

pub grab-Moves :
    (s s' : Pool) (t e : ℕ) → grab s t e ≡ some s' → Moves s s' (shared (e % 4)) (local_word t)
grab-Moves s s' t e q =
    let (empty, room, same) = grab_inv s s' t e q in
    subst (λ x. Moves s x (shared (e % 4)) (local_word t)) same (grabbed-Moves s t e room empty)
