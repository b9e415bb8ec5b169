-- ===== src/CommitQueue/Contents.antt =====
-- The queue as the list of its entries, oldest first.
use native.Mathlib.Decide.{dec_lt}
use native.Mathlib.Nat.{mod-eq_of_lt, mod-eq-sub-mod, mod-lt, add-zero}
use mathlib.Core.Path.{ap₂}
use preemptdb.Prelude.{
  ℕ, zero, suc, ◌+◌, ◌-◌, ◌%◌, ◌^◌, ◌≤◌, ◌<◌, ◌≡◌, refl, sym, ap, ◌∙◌, ◌≢◌, List, [], ◌∷◌, ◌++◌,
  arith,
}
use preemptdb.CommitQueue.{Entry, CommitQueue, slot, u32_mod}

-- The `left` entries from the `j`th on
unfoldable pub entries : CommitQueue → ℕ → ℕ → List Entry
entries q zero j = []
entries q (suc left) j = q.queue (slot q j) ∷ entries q left (j + 1)

abbrev pub contents : CommitQueue → List Entry
contents q = entries q q.items 0

pub record IsValid (q : CommitQueue) : Type 0 where
  pub room : 0 < q.length
  pub small : q.length ≤ 2 ^ 31
  pub inside : q.start < q.length
  pub fits : q.items ≤ q.length

-- An index wraps at most once.
pub slot_lt :
    (q : CommitQueue) (j : ℕ) → IsValid q → q.start + j < q.length → slot q j ≡ q.start + j
slot_lt q j v h = grind arith

pub slot_ge :
    (q : CommitQueue) (j : ℕ)
    → IsValid q
    → j ≤ q.length
    → q.length ≤ q.start + j
    → slot q j ≡ q.start + j - q.length
slot_ge q j v h k =
    let small : q.start + j < u32_mod = omega arith in
    ap (λ (t : ℕ). t % q.length) (mod-eq_of_lt small)
    ∙ mod-eq-sub-mod k
    ∙ mod-eq_of_lt (omega arith)

pub slot-ne : (q : CommitQueue) (i j : ℕ) → IsValid q → i < j → j < q.length → slot q i ≢ slot q j
slot-ne q i j v h k e = elim (dec_lt (q.start + i) q.length) [
  | yes a ↦ elim (dec_lt (q.start + j) q.length) [
    | yes b ↦ omega (arith, slot_lt q i v a, slot_lt q j v b)
    | no b ↦ omega (arith, slot_lt q i v a, slot_ge q j v (omega arith) (omega arith))
  ]
  | no a ↦
      omega (
        arith,
        slot_ge q i v (omega arith) (omega arith),
        slot_ge q j v (omega arith) (omega arith),
      )
]

pub slot-lt : (q : CommitQueue) (j : ℕ) → IsValid q → slot q j < q.length
slot-lt q j v = mod-lt _ v.room

-- One entry more is one at the end.
pub entries-suc :
    (q : CommitQueue) (left j : ℕ)
    → entries q (suc left) j ≡ entries q left j ++ q.queue (slot q (j + left)) ∷ []
unfolding entries
entries-suc q zero j = ap (λ (t : ℕ). q.queue (slot q t) ∷ []) (sym (add-zero j))
entries-suc q (suc left) j =
    let next : j + 1 + left ≡ j + suc left = omega arith in
    ap (◌∷◌ (q.queue (slot q j))) (
      entries-suc q left (j + 1)
      ∙ ap (λ (t : ℕ). entries q left (j + 1) ++ q.queue (slot q t) ∷ []) next)

-- Entries are read below their end only.
pub entries-eq :
    (q r : CommitQueue) (left j : ℕ)
    → ((i : ℕ) → j ≤ i → i < j + left → q.queue (slot q i) ≡ r.queue (slot r i))
    → entries q left j ≡ entries r left j
unfolding entries
entries-eq q r zero j h = refl
entries-eq q r (suc left) j h =
    ap₂ ◌∷◌ (h j (omega arith) (omega arith))
      (entries-eq q r left (j + 1) (λ i a b. h i (omega arith) (omega arith)))

-- and equal lists have equal entries
pub entries_at :
    (q r : CommitQueue) (left j i : ℕ)
    → entries q left j ≡ entries r left j
    → i < left
    → q.queue (slot q (j + i)) ≡ r.queue (slot r (j + i))
unfolding entries
entries_at q r zero j i e h = absurd (omega arith)
entries_at q r (suc left) j zero e h = rw (add-zero j) (cc)
entries_at q r (suc left) j (suc i) e h =
    let next : j + 1 + i ≡ j + suc i = omega arith in
    rw (← next) (entries_at q r left (j + 1) i (cc) (omega arith))
