-- ===== src/CommitQueue/Durable.antt =====
-- The CSN up to which all threads are durable.
use preemptdb.Prelude.{
  ℕ, ◌*◌, ◌/◌, ◌%◌, ◌^◌, ◌≤◌, ◌<◌, ◌-◌, ◌≡◌, refl, ap, ◌∙◌, List, [], ◌∷◌, bit_and, true, false,
  arith, min,
}
use preemptdb.Prelude.Bits.{bit_and_shift, bit_and_mask}
use preemptdb.CommitQueue.{Scan, scan_step, scan, get_global_durable_csn}

abbrev pub All : (ℕ → Type 0) → List ℕ → Type 0
All P [] = Unit {0}
All P (x ∷ xs) = P x × All P xs

dirty_bit : (csn : ℕ) → bit_and csn (2 ^ 63) ≡ csn / 2 ^ 63 % 2 * 2 ^ 63
dirty_bit csn = bit_and_shift 63 csn 1 ∙ ap (λ (t : ℕ). t * 2 ^ 63) (bit_and_mask 1 (csn / 2 ^ 63))

-- One round, by the bit that it tests
scan_step_dirty :
    (csn : ℕ) (s : Scan)
    → 2 ^ 63 ≤ csn
    → csn < 2 ^ 64
    → scan_step csn s ≡ record s { min_dirty = min (csn % 2 ^ 63) s.min_dirty; found = true }
unfolding scan_step
scan_step_dirty csn s h k = ground (arith, dirty_bit csn, bit_and_mask 63 csn)

scan_step_clean :
    (csn : ℕ) (s : Scan)
    → csn < 2 ^ 63
    → (scan_step csn s).found ≡ s.found
      × ((scan_step csn s).min_dirty ≡ s.min_dirty)
      × (csn ≤ (scan_step csn s).max_clean)
      × (s.max_clean ≤ (scan_step csn s).max_clean)
unfolding scan_step
scan_step_clean csn s h = ground (arith, dirty_bit csn)

-- A round keeps what it knows: a lower least, a higher greatest, and that a dirty word was seen.
scan_step_mono :
    (csn : ℕ) (s : Scan)
    → csn < 2 ^ 64
    → ((scan_step csn s).min_dirty ≤ s.min_dirty)
      × (s.found ≡ true → (scan_step csn s).found ≡ true)
unfolding scan_step
scan_step_mono csn s h = ground arith

abbrev Words : List ℕ → Type 0
Words = All (λ c. c < 2 ^ 64)

scan_mono :
    (csns : List ℕ) (s : Scan)
    → Words csns
    → ((scan csns s).min_dirty ≤ s.min_dirty) × (s.found ≡ true → (scan csns s).found ≡ true)
unfolding scan
scan_mono [] s w = (omega arith, λ h. h)
scan_mono (c ∷ cs) s w =
    let one = scan_step_mono c s w.0 in
    let more = scan_mono cs (scan_step c s) w.1 in
    (omega (arith, one.0, more.0), λ h. more.1 (one.1 h))

-- what a scan from `s` knows of one word
record Bounds (r : Scan) (c : ℕ) : Type 0 where
  dirty : 2 ^ 63 ≤ c → (r.found ≡ true) × (r.min_dirty ≤ c % 2 ^ 63)

scan_dirty : (csns : List ℕ) (s : Scan) → Words csns → All (Bounds (scan csns s)) csns
unfolding scan
scan_dirty [] s w = tt
scan_dirty (c ∷ cs) s w = (
  record {
    dirty = λ h.
        let step = scan_step_dirty c s h w.0 in
        let more = scan_mono cs (scan_step c s) w.1 in
        (
          more.1 (ap (λ (t : Scan). t.found) step),
          omega (arith, more.0, ap (λ (t : Scan). t.min_dirty) step),
        );
  },
  scan_dirty cs (scan_step c s) w.1,
)

All-map : {P Q : ℕ → Type 0} (csns : List ℕ) → ((c : ℕ) → P c → Q c) → All P csns → All Q csns
All-map [] f a = tt
All-map (c ∷ cs) f a = (f c a.0, All-map cs f a.1)

-- If some thread has log blocks that are not durable, as bit 63 of its 64-bit word says, the CSN
-- that is published is at most what is durable of each such thread.
pub global_durable-le-dirty :
    (csns : List ℕ)
    → All (λ c. c < 2 ^ 64) csns
    → All (λ c. 2 ^ 63 ≤ c → get_global_durable_csn csns ≤ c % 2 ^ 63) csns
unfolding get_global_durable_csn
global_durable-le-dirty csns w =
    All-map csns (λ c b h. let facts = b.dirty h in rw (facts.0) (facts.1))
      (scan_dirty csns (record { found = false; min_dirty = 2 ^ 64 - 1; max_clean = 0 }) w)

scan_clean :
    (csns : List ℕ) (s : Scan)
    → All (λ c. c < 2 ^ 63) csns
    → ((scan csns s).found ≡ s.found)
      × (s.max_clean ≤ (scan csns s).max_clean)
      × All (λ c. c ≤ (scan csns s).max_clean) csns
unfolding scan
scan_clean [] s w = (refl, omega arith, tt)
scan_clean (c ∷ cs) s w =
    let step = scan_step_clean c s w.0 in
    let more = scan_clean cs (scan_step c s) w.1 in
    (more.0 ∙ step.0, omega (arith, step.3, more.1), (omega (arith, step.2, more.1), more.2))

-- If every thread's log is durable, the CSN that is published is at least that of each thread.
pub global_durable-ge-clean :
    (csns : List ℕ) → All (λ c. c < 2 ^ 63) csns → All (λ c. c ≤ get_global_durable_csn csns) csns
unfolding get_global_durable_csn
global_durable-ge-clean csns w =
    let facts =
      scan_clean csns (record { found = false; min_dirty = 2 ^ 64 - 1; max_clean = 0 }) w in
    rw (facts.0) (facts.2)
