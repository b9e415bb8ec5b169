-- ===== src/OidAlloc/Scan.antt =====
-- The scans of the second and third level, which give OIDs to a sink.
use preemptdb.Prelude.{
  ℕ, zero, suc, ◌+◌, ◌-◌, ◌*◌, ◌%◌, ◌^◌, Bool, true, false, ◌&&◌, ◌||◌, not, List, [], ◌∷◌, ◌++◌,
  length, ltb, ◌==◌, if◌then◌else◌, set_at,
}
use preemptdb.SparseBitset.{SparseBitset}
use preemptdb.OidAlloc.{Local, bitset_capacity, l2_capacity, base_of, l2_valid}

-- The 16-bit numbers from an address on
abbrev pub Lanes : Type 0
Lanes = ℕ → ℕ → ℕ

-- The source takes the first eight bytes of the bitset for the address of the array.
unfoldable pub as_array : Lanes → SparseBitset → ℕ → ℕ
as_array mem s = mem (s.first 0 + s.first 1 * 2 ^ 16 + s.first 2 * 2 ^ 32 + s.first 3 * 2 ^ 48)

-- What an iterator goes through from an entry on: it ends at a zero and after the last entry.
unfoldable pub entries_from : ℕ → ℕ → (ℕ → ℕ) → List ℕ
entries_from zero k e = []
entries_from (suc n) k e =
    let rest = entries_from n (k + 1) e in if e k == 0 then [] else e k ∷ rest

-- From `begin` to `end`; the first entry is not tested.
unfoldable pub iterated : (ℕ → ℕ) → List ℕ
unfolding entries_from
iterated e = e 0 ∷ entries_from (bitset_capacity - 1) 1 e

-- All `n` entries from `k` on
unfoldable pub all_entries : ℕ → ℕ → (ℕ → ℕ) → List ℕ
all_entries zero k e = []
all_entries (suc n) k e = e k ∷ all_entries n (k + 1) e

-- What is done with an OID, and which swaths are taken; both can change the state.
abbrev pub Sink : Type 0
Sink = ℕ → Local → Local

abbrev pub Filter : Type 0
Filter = ℕ → Local → Bool × Local

-- `_nop_filter`
abbrev pub nop_filter : Filter
nop_filter base st = (true, st)

unfoldable pub to_cache : Sink
to_cache x (a, tc) = (a, tc ++ x ∷ [])

unfoldable pub to_l1 : Sink
to_l1 x (a, tc) = (record a { l1 = a.l1 ++ x ∷ [] }, tc)

unfoldable pub sink_all : Sink → ℕ → List ℕ → Local → Local
sink_all sink base [] st = st
sink_all sink base (x ∷ xs) st = sink_all sink base xs (sink (base + x) st)

-- The last full map is taken off the list, and its OIDs go to the sink.
unfoldable pub accept : Lanes → Sink → ℕ → Local → Local
unfolding as_array all_entries sink_all
accept mem sink x st =
    let bdx = x % 2 ^ 16 in
    let (a, tc) =
      sink_all sink (base_of x) (all_entries bitset_capacity 0 (as_array mem (st.0.l2_maps bdx)))
        st in
    let unused = a.l2_first_unused - 1 in
    (
      record a { l2_size = a.l2_size - 1; l2_first_unused = unused; l2 = set_at a.l2 unused bdx },
      tc,
    )

-- The last full map changes places with one at the front.
unfoldable pub reject : ℕ → Local → Local
reject rejects (a, tc) =
    let last = a.l2_size - 1 in
    (record a { l2 = set_at (set_at a.l2 last (a.l2 rejects)) rejects (a.l2 last) }, tc)

-- The loop of `_scan_l2`, whose cursors come closer in each round
unfoldable pub scan_rounds : Lanes → Filter → Sink → ℕ → ℕ → ℕ → Local → ℕ × Local
unfolding accept reject
scan_rounds mem f s zero rejects target st = (target, st)
scan_rounds mem f s (suc n) rejects target st =
    let x = st.0.l2 (st.0.l2_size - 1) in
    let (ok, st') = f (base_of x) st in
    let after = if ok then accept mem s x st' else reject rejects st' in
    let rejects' = if ok then rejects else rejects + 1 in
    let target' = if ok then target - bitset_capacity else target in
    let rest = scan_rounds mem f s n rejects' target' after in
    if not (target == 0) && ltb rejects st.0.l2_size then rest else (target, st)

-- The result is 0 where the source's is negative.
unfoldable pub scan_l2 : Lanes → Filter → Sink → ℕ → Local → ℕ × Local
unfolding scan_rounds
scan_l2 mem f s n st = scan_rounds mem f s (st.0.l2_size) 0 n st

unfoldable pub fill_from_l2 : Lanes → ℕ → Local → ℕ × Local
unfolding scan_l2 to_cache l2_valid
fill_from_l2 mem target st =
    if not (l2_valid (st.0)) || (st.0.l2_size == 0)
    then (target, st)
    else scan_l2 mem nop_filter to_cache target st

-- The OIDs of a swath's map go to the sink, and the map is unused.
unfoldable pub unassign : Lanes → Sink → ℕ → Local → ℕ × Local
unfolding as_array iterated sink_all
unassign mem sink idx st =
    let bdx = st.0.l2_assignments idx in
    let found = iterated (as_array mem (st.0.l2_maps bdx)) in
    let (a, tc) = sink_all sink (idx * 2 ^ 16) found st in
    let unused = a.l2_first_unused - 1 in
    (
      length found,
      (
        record a {
          l2_loose_oids = (a.l2_loose_oids + length found * (2 ^ 32 - 1)) % 2 ^ 32;
          l2_first_unused = unused;
          l2 = set_at a.l2 unused bdx;
          l2_assignments = set_at a.l2_assignments idx 0;
        },
        tc,
      ),
    )

-- The loop of `_scavenge_l2` from its `i`-th round on; the first result is `i` after it.
unfoldable pub scavenge_l2_rounds : Lanes → Filter → Sink → ℕ → ℕ → ℕ → Local → ℕ × (ℕ × Local)
unfolding unassign
scavenge_l2_rounds mem f s zero i target st = (i, (target, st))
scavenge_l2_rounds mem f s (suc n) i target st =
    let idx = (st.0.l2_scan_hand + i) % 2 ^ 16 in
    let skip = st.0.l2_assignments idx == 0 in
    let (ok, st') = if skip then (false, st) else f (idx * 2 ^ 16) st in
    let (found, after) = if ok then unassign mem s idx st' else (0, st') in
    elim (target == 0) [
      | true ↦ (i, (target, st))
      | false ↦ scavenge_l2_rounds mem f s n (i + 1) (target - found) after
    ]

unfoldable pub scavenge_l2 : Lanes → Filter → Sink → ℕ → Local → ℕ × Local
unfolding scavenge_l2_rounds
scavenge_l2 mem f s n st =
    let (i, (target, (a, tc))) = scavenge_l2_rounds mem f s l2_capacity 0 n st in
    (target, (record a { l2_scan_hand = (a.l2_scan_hand + i) % 2 ^ 32 }, tc))

-- `_scavenge_l2` of a target, which moves OIDs to the first level
unfoldable pub reclaim_l2 : Lanes → ℕ → Local → ℕ × Local
unfolding scavenge_l2 to_l1 l2_valid
reclaim_l2 mem target st =
    if not (l2_valid (st.0)) || ltb (st.0.l2_loose_oids) target
    then (target, st)
    else scavenge_l2 mem nop_filter to_l1 target st
