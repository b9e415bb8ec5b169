-- ===== src/RingQueue/Fifo.antt =====
-- The ring as the list of what it holds, oldest first.
use native.Mathlib.Nat.{mod-eq_of_lt, mod_self}
use mathlib.Core.Path.{ap₂}
use preemptdb.Prelude.{
  ℕ, zero, suc, ◌+◌, ◌-◌, ◌^◌, ◌<◌, ◌≡◌, ◌≢◌, refl, inl, inr, false, List, [], ◌∷◌, ◌++◌, ltb, ◌==◌,
  if◌then◌else◌, arith, Bool-cases,
}
use preemptdb.RingQueue.{RingQueue, next_idx, is_empty, is_full, pop, front, push}

pub record IsValid {ℓ} {T : Type ℓ} (q : RingQueue T) : Type 0 where
  pub start : q.start_idx < q.capacity
  pub end : q.end_idx < q.capacity
  pub small : q.capacity < 2 ^ 32

-- The step of an index, and the number of entries between two indices
abbrev step : ℕ → ℕ → ℕ
step i capacity = if i + 1 == capacity then 0 else i + 1

abbrev held : ℕ → ℕ → ℕ → ℕ
held start end capacity = if ltb end start then end + capacity - start else end - start

next_idx-step :
    (i capacity : ℕ) → i < capacity → capacity < 2 ^ 32 → next_idx i capacity ≡ step i capacity
unfolding next_idx
next_idx-step i capacity below small =
    let inner = mod-eq_of_lt {n = i + 1} {m = 2 ^ 32} (omega arith) in
    elim (Bool-cases (i + 1 == capacity)) [
      | inl top ↦
          let same : i + 1 ≡ capacity = ground (arith, top) in
          rw inner (rw top (rw same (mod_self capacity)))
      | inr inside ↦ rw inner (rw inside (mod-eq_of_lt (ground (arith, inside))))
    ]

step-lt : (i capacity : ℕ) → i < capacity → step i capacity < capacity
step-lt i capacity h = ground arith

step-ne :
    (i j capacity : ℕ) → i < capacity → j < capacity → i ≢ j → step i capacity ≢ step j capacity
step-ne i j capacity h k apart = ground arith

held-zero : (i end capacity : ℕ) → i < capacity → 0 ≡ held i end capacity → i ≡ end
held-zero i end capacity h e = ground arith

held-suc :
    (i end capacity n : ℕ)
    → i < capacity
    → end < capacity
    → suc n ≡ held i end capacity
    → (i ≢ end) × (n ≡ held (step i capacity) end capacity)
held-suc i end capacity n h k e = (ground arith, ground arith)

one_more :
    (i end capacity : ℕ)
    → i < capacity
    → end < capacity
    → step end capacity ≢ i
    → held i (step end capacity) capacity ≡ suc (held i end capacity)
one_more i end capacity h k room = ground arith

one_less :
    (i end capacity : ℕ)
    → i < capacity
    → end < capacity
    → i ≢ end
    → held i end capacity ≡ suc (held (step i capacity) end capacity)
one_less i end capacity h k some_entry = ground arith

module _ {ℓ} {T : Type ℓ} where
  -- `n` entries from index `i` on
  unfoldable pub entries : (ℕ → T) → ℕ → ℕ → ℕ → List T
  entries array capacity zero i = []
  entries array capacity (suc n) i = array i ∷ entries array capacity n (step i capacity)

  abbrev pub contents : RingQueue T → List T
  contents q = entries q.array q.capacity (held q.start_idx q.end_idx q.capacity) q.start_idx

  -- Writing at the end of a range appends to it.
  entries_write :
      (array : ℕ → T) (t : T) (capacity end n i : ℕ)
      → i < capacity
      → end < capacity
      → n ≡ held i end capacity
      → entries (λ k. if k == end then t else array k) capacity (suc n) i
        ≡ entries array capacity n i ++ t ∷ []
  unfolding entries
  entries_write array t capacity end zero i below inside count =
      let same = held-zero i end capacity below count in ground (arith, same)
  entries_write array t capacity end (suc n) i below inside count =
      let (apart, fewer) = held-suc i end capacity n below inside count in
      ap₂ ◌∷◌ (ground (arith, apart)) (
        entries_write array t capacity end n (step i capacity) (step-lt i capacity below) inside
          fewer)

  -- A ring that is not full holds after a push what it held and the new entry behind it.
  pub push-contents :
      (t : T) (q : RingQueue T)
      → IsValid q
      → is_full q ≡ false
      → (contents (push t q) ≡ contents q ++ t ∷ [])
        × (is_empty (push t q) ≡ false)
        × IsValid (push t q)
  unfolding push is_full is_empty
  push-contents t q v room =
      let moved = next_idx-step q.end_idx q.capacity v.end v.small in
      let apart : step q.end_idx q.capacity ≢ q.start_idx = λ e. ground (arith, room, moved, e) in
      let more = one_more q.start_idx q.end_idx q.capacity v.start v.end apart in
      rw moved (
        rw more (entries_write q.array t q.capacity q.end_idx _ q.start_idx v.start v.end refl),
        ground (arith, apart),
        record { start = v.start; end = step-lt q.end_idx q.capacity v.end; small = v.small },
      )

  -- A ring that is not empty holds its front, and behind it what it holds after a pop.
  pub pop-contents :
      (q : RingQueue T)
      → IsValid q
      → is_empty q ≡ false
      → (contents q ≡ front q ∷ contents (pop q)) × (is_full (pop q) ≡ false) × IsValid (pop q)
  unfolding pop is_full is_empty front entries
  pop-contents q v some_entry =
      let moved = next_idx-step q.start_idx q.capacity v.start v.small in
      let moved_end = next_idx-step q.end_idx q.capacity v.end v.small in
      let apart : q.start_idx ≢ q.end_idx = λ e. ground (arith, some_entry, e) in
      rw moved (
        rw (one_less q.start_idx q.end_idx q.capacity v.start v.end apart) refl,
        rw moved_end (ground (arith, step-ne q.start_idx q.end_idx q.capacity v.start v.end apart)),
        record { start = step-lt q.start_idx q.capacity v.start; end = v.end; small = v.small },
      )
