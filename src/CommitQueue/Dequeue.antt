-- ===== src/CommitQueue/Dequeue.antt =====
-- `dequeue_committed_xcts` against a list: it drops the durable entries at the front.
use native.Mathlib.Decide.{dec_lt}
use native.Mathlib.Nat.{add-zero, zero-add, add_assoc}
use mathlib.Core.Path.{ap₂}
use preemptdb.Prelude.{
  ℕ, zero, suc, ◌+◌, ◌-◌, ◌%◌, ◌≤◌, ◌<◌, ◌≡◌, refl, sym, ap, ◌∙◌, inl, inr, List, [], ◌∷◌, ltb,
  arith, if◌then◌else◌, Bool-cases,
}
use preemptdb.CommitQueue.{
  Entry, CommitQueue, slot, u32_mod, u64_mod, Drain, drain, dequeue_committed_xcts,
}
use preemptdb.CommitQueue.Contents.{entries, contents, IsValid, slot_lt, slot_ge, slot-lt}

-- The entries from the first that is newer than `upto_csn` on
pub drop_durable : ℕ → List Entry → List Entry
drop_durable upto_csn [] = []
drop_durable upto_csn (e ∷ es) = if ltb upto_csn e.csn then e ∷ es else drop_durable upto_csn es

-- The latency of the entries before that one, added up as the counter does
pub durable_latency : ℕ → ℕ → List Entry → ℕ → ℕ
durable_latency upto_csn end_time [] total = total
durable_latency upto_csn end_time (e ∷ es) total =
    let rest =
      durable_latency upto_csn end_time es
        ((total + (end_time + u64_mod - e.start_time)) % u64_mod) in
    if ltb upto_csn e.csn then total else rest

whole : (n : ℕ) → suc n ≡ suc n - 0
whole n = omega arith

fewer : (n k : ℕ) → n - k ≡ suc n - suc k
fewer n k = omega arith

next : (j k : ℕ) → j + 1 + k ≡ j + suc k
next j k = omega arith

module _ (q : CommitQueue) (upto_csn end_time : ℕ) where
  drain-dequeue :
      (left j : ℕ) (d : Drain)
      → (k : ℕ) × (k ≤ left)
        × ((drain q upto_csn end_time left j d).dequeue ≡ d.dequeue + k)
        × (drop_durable upto_csn (entries q left j) ≡ entries q (left - k) (j + k))
  unfolding drain drop_durable entries
  drain-dequeue zero j d = (0, omega arith, omega arith, refl)
  drain-dequeue (suc left) j d = elim (Bool-cases (ltb upto_csn (q.queue (slot q j)).csn)) [
    | inl newer ↦
        rw newer (0, omega arith, omega arith, ap₂ (entries q) (whole left) (sym (add-zero j)))
    | inr durable ↦
        let d' : Drain = record {
          dequeue = d.dequeue + 1;
          latency = (d.latency + (end_time + u64_mod - (q.queue (slot q j)).start_time)) % u64_mod;
        } in
        let (k, le, count, rest) = drain-dequeue left (j + 1) d' in
        rw durable (
          suc k,
          omega arith,
          count ∙ next d.dequeue k,
          rest ∙ ap₂ (entries q) (fewer left k) (next j k),
        )
  ]

  drain-latency :
      (left j : ℕ) (d : Drain)
      → (drain q upto_csn end_time left j d).latency
        ≡ durable_latency upto_csn end_time (entries q left j) d.latency
  unfolding drain durable_latency entries
  drain-latency zero j d = refl
  drain-latency (suc left) j d = elim (Bool-cases (ltb upto_csn (q.queue (slot q j)).csn)) [
    | inl newer ↦ rw newer refl
    | inr durable ↦ rw durable (drain-latency left (j + 1) _)
  ]

regroup : (s k i l : ℕ) → l ≤ s + k → s + k - l + i ≡ s + (k + i) - l
regroup s k i l h = omega arith

-- Entries read from other places are the same list, if the places hold the same.
entries_moved :
    (r q : CommitQueue) (left a b : ℕ)
    → ((i : ℕ) → i < left → r.queue (slot r (a + i)) ≡ q.queue (slot q (b + i)))
    → entries r left a ≡ entries q left b
unfolding entries
entries_moved r q zero a b h = refl
entries_moved r q (suc left) a b h =
    ap₂ ◌∷◌
      (ap (λ (t : ℕ). r.queue (slot r t)) (sym (add-zero a))
        ∙ h 0 (omega arith)
        ∙ ap (λ (t : ℕ). q.queue (slot q t)) (add-zero b))
      (entries_moved r q left (a + 1) (b + 1) λ i lt.
        ap (λ (t : ℕ). r.queue (slot r t)) (next a i)
        ∙ h (suc i) (omega arith)
        ∙ ap (λ (t : ℕ). q.queue (slot q t)) (sym (next b i)))

slot-slot :
    (q : CommitQueue) (k i : ℕ)
    → IsValid q
    → k + i < q.length
    → slot (record q { start = slot q k }) i ≡ slot q (k + i)
slot-slot q k i v h = elim (dec_lt (q.start + k) q.length) [
  | yes a ↦
      ap (λ (t : ℕ). (t + i) % u32_mod % q.length) (slot_lt q k v a)
      ∙ ap (λ (t : ℕ). t % u32_mod % q.length) (add_assoc q.start k i)
  | no a ↦
      let moved = slot_ge q k v (omega arith) (omega arith) in
      slot_lt (record q { start = slot q k }) i (moved_valid k) (omega (arith, moved))
      ∙ ap (λ (t : ℕ). t + i) moved
      ∙ regroup q.start k i q.length (omega arith)
      ∙ sym (slot_ge q (k + i) v (omega arith) (omega arith))
]
  where
    moved_valid : (n : ℕ) → IsValid (record q { start = slot q n })
    moved_valid n = record { room = v.room; small = v.small; inside = slot-lt q n v; fits = v.fits }

abbrev without : CommitQueue → ℕ → ℕ → CommitQueue
without q latency k = record q { items = q.items - k; start = slot q k; total_latency_us = latency }

without-contents :
    (q : CommitQueue) (latency k : ℕ)
    → IsValid q
    → k ≤ q.items
    → contents (without q latency k) ≡ entries q (q.items - k) (0 + k)
without-contents q latency k v le =
    entries_moved (without q latency k) q (q.items - k) 0 (0 + k) λ i lt.
      ap (λ (t : ℕ). q.queue ((slot q k + t) % u32_mod % q.length)) (zero-add i)
      ∙ ap q.queue (slot-slot q k i v (omega (arith, v.fits)))
      ∙ ap (λ (t : ℕ). q.queue (slot q (t + i))) (sym (zero-add k))

dequeue-IsValid :
    (q : CommitQueue) (upto_csn end_time : ℕ)
    → IsValid q
    → IsValid (dequeue_committed_xcts q upto_csn end_time)
unfolding dequeue_committed_xcts
dequeue-IsValid q upto_csn end_time v = record {
  room = v.room;
  small = v.small;
  inside = slot-lt q _ v;
  fits = omega (arith, v.fits);
}

-- In a well-formed queue, `dequeue_committed_xcts` removes the entries at the front that are
-- durable, up to the first that is not, keeps the others in order, adds the latency of each entry
-- that it removes, and leaves the queue well formed.
pub dequeue-contents :
    (q : CommitQueue) (upto_csn end_time : ℕ)
    → IsValid q
    → let r = dequeue_committed_xcts q upto_csn end_time in
      (contents r ≡ drop_durable upto_csn (contents q))
      × (r.total_latency_us ≡ durable_latency upto_csn end_time (contents q) q.total_latency_us)
      × IsValid r
unfolding dequeue_committed_xcts
dequeue-contents q upto_csn end_time v =
    let start : Drain = record { dequeue = 0; latency = q.total_latency_us } in
    let (k, le, count, rest) = drain-dequeue q upto_csn end_time q.items 0 start in
    (
      ap (λ (t : ℕ). contents (without q (drain q upto_csn end_time q.items 0 start).latency t))
            (count ∙ zero-add k)
          ∙ without-contents q _ k v le
          ∙ sym rest,
      drain-latency q upto_csn end_time q.items 0 start,
      dequeue-IsValid q upto_csn end_time v,
    )
