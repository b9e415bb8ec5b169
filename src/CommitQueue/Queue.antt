-- ===== src/CommitQueue/Queue.antt =====
-- `commit_queue` against a first-in first-out list: what each call does to the contents.
use mathlib.Core.Path.{ap₂}
use preemptdb.Prelude.{
  ℕ, suc, ◌+◌, ◌-◌, ◌*◌, ◌%◌, ◌^◌, ◌≤◌, ◌<◌, ◌≡◌, refl, sym, ap, ◌∙◌, ◌≢◌, inl, inr, [], ◌∷◌, ◌++◌,
  Bool, true, false, not, ◌&&◌, ltb, arith, if◌then◌else◌, Bool-cases, ltb→lt,
}
use preemptdb.CommitQueue.{
  Entry, CommitQueue, slot, u32_mod, write_at, no_entry, push_back, extend, init,
}
use preemptdb.CommitQueue.Contents.{
  entries, contents, IsValid, slot_lt, slot_ge, slot-ne, slot-lt, entries-suc, entries-eq,
  entries_at,
}

-- An empty queue of the configured length is well formed.
init-IsValid : (n : ℕ) → 0 < n → n ≤ 2 ^ 31 → IsValid (init n)
unfolding init
init-IsValid n h k = omega arith

abbrev accepts : CommitQueue → Bool → Bool
accepts q insert = insert && ltb q.items q.length

write_at_self : (f : ℕ → Entry) (i : ℕ) (e : Entry) → write_at f i e i ≡ e
write_at_self f i e = ground arith

write_at_ne : (f : ℕ → Entry) (i j : ℕ) (e : Entry) → i ≢ j → write_at f j e i ≡ f i
write_at_ne f i j e h = ground arith

module _ (q : CommitQueue) (e : Entry) where
  abbrev appended : CommitQueue
  appended = record q {
    queue = write_at q.queue (slot q q.items) e;
    items = (q.items + 1) % u32_mod;
  }

  appended-contents : IsValid q → q.items < q.length → contents appended ≡ contents q ++ e ∷ []
  appended-contents v h =
      ap (λ (t : ℕ). entries appended t 0) more
      ∙ entries-suc appended q.items 0
      ∙ ap₂ (λ xs (x : Entry). xs ++ x ∷ []) kept placed
    where
      more : (q.items + 1) % u32_mod ≡ suc q.items
      more = omega (arith, v.small)

      kept : entries appended q.items 0 ≡ entries q q.items 0
      kept = entries-eq appended q q.items 0 λ i a b.
          write_at_ne q.queue (slot q i) (slot q q.items) e (slot-ne q i q.items v (omega arith) h)

      placed : appended.queue (slot appended (0 + q.items)) ≡ e
      placed =
          ap (λ (t : ℕ). appended.queue (slot q t)) (omega arith)
          ∙ write_at_self q.queue (slot q q.items) e

  appended-IsValid : IsValid q → q.items < q.length → IsValid appended
  appended-IsValid v h = omega arith

-- In a well-formed queue, `push_back` puts the entry behind all others if the caller still has to
-- insert and there is room, and otherwise leaves the contents alone; it clears the caller's flag
-- exactly in the first case, and the queue stays well formed.
pub push_back-contents :
    (q : CommitQueue) (e : Entry) (flush insert : Bool)
    → IsValid q
    → let p = push_back q e flush insert in
      (contents p.after ≡ (if accepts q insert then contents q ++ e ∷ [] else contents q))
      × (p.insert ≡ (insert && not (ltb q.items q.length)))
      × IsValid p.after
unfolding push_back
push_back-contents q e flush false v = (refl, refl, v)
push_back-contents q e flush true v = elim (Bool-cases (ltb q.items q.length)) [
  | inl room ↦
      let less = ltb→lt q.items q.length room in
      rw room (appended-contents q e v less, refl, appended-IsValid q e v less)
  | inr full ↦ rw full (refl, refl, v)
]

extend-length : (q : CommitQueue) → q.length ≤ 2 ^ 30 → (extend q).length ≡ 2 * q.length
unfolding extend
extend-length q h = omega arith

extend-IsValid : (q : CommitQueue) → IsValid q → q.length ≤ 2 ^ 30 → IsValid (extend q)
unfolding extend
extend-IsValid q v h = omega arith

-- The doubled array is not reached around its end.
slot-extend :
    (q : CommitQueue) (j : ℕ)
    → IsValid q
    → q.length ≤ 2 ^ 30
    → j < q.length
    → slot (extend q) j ≡ q.start + j
unfolding extend
slot-extend q j v small h = slot_lt (extend q) j (extend-IsValid q v small) (omega arith)

extend_kept : (q : CommitQueue) (i : ℕ) → i < q.length → (extend q).queue i ≡ q.queue i
unfolding extend
extend_kept q i h = ground arith

extend_fresh : (q : CommitQueue) (i : ℕ) → q.length ≤ i → (extend q).queue i ≡ no_entry
unfolding extend
extend_fresh q i h = ground arith

extend-items : (q : CommitQueue) → (extend q).items ≡ q.items
unfolding extend
extend-items q = refl

-- Doubling a well-formed queue of at most 2 ^ 30 slots keeps the contents and well-formedness,
-- while the contents do not wrap around the end of the array.
pub extend-contents :
    (q : CommitQueue)
    → IsValid q
    → q.length ≤ 2 ^ 30
    → q.start + q.items ≤ q.length
    → (contents (extend q) ≡ contents q) × IsValid (extend q)
extend-contents q v small flat = (
  ap (λ (t : ℕ). entries (extend q) t 0) (extend-items q)
      ∙ entries-eq (extend q) q q.items 0 (λ i a b.
        ap (extend q).queue
          (slot-extend q i v small (omega arith) ∙ sym (slot_lt q i v (omega arith)))
        ∙ extend_kept q (slot q i) (slot-lt q i v)),
  extend-IsValid q v small,
)

-- Once the contents of such a queue wrap, doubling changes them, unless the entry at the front of
-- the array is the one that a fresh array holds.
pub extend_loses :
    (q : CommitQueue)
    → IsValid q
    → q.length ≤ 2 ^ 30
    → q.length < q.start + q.items
    → q.queue 0 ≢ no_entry
    → contents (extend q) ≢ contents q
extend_loses q v small wraps fresh e = fresh (sym front ∙ sym same ∙ lost)
  where
    j : ℕ
    j = q.length - q.start

    same : (extend q).queue (slot (extend q) (0 + j)) ≡ q.queue (slot q (0 + j))
    same =
        entries_at (extend q) q q.items 0 j
          (ap (λ (t : ℕ). entries (extend q) t 0) (sym (extend-items q)) ∙ e) (omega arith)

    front : q.queue (slot q (0 + j)) ≡ q.queue 0
    front = ap q.queue (slot_ge q (0 + j) v (omega arith) (omega arith) ∙ zeroth)
      where
        zeroth : q.start + (0 + j) - q.length ≡ 0
        zeroth = omega arith

    lost : (extend q).queue (slot (extend q) (0 + j)) ≡ no_entry
    lost = extend_fresh q _ (omega (arith, slot-extend q (0 + j) v small (omega arith)))
