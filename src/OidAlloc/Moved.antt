-- ===== src/OidAlloc/Moved.antt =====
-- Rounds of `_drain_l1` of dbcore/sm-oid-alloc.cpp that retire or assign a bitset.
use preemptdb.Prelude.{
  ℕ, suc, ◌+◌, ◌%◌, ◌^◌, ◌<◌, ◌≡◌, ◌≢◌, refl, sym, ap, ◌∙◌, inl, inr, true, false, Bool-cases, ◌==◌,
  if◌then◌else◌, set_at, arith,
}
use preemptdb.SparseBitset.{SparseBitset, init1}
use preemptdb.OidAlloc.{Allocator, swath, offset, base_of, retire, assign}
use preemptdb.OidAlloc.Owners.{Place, assigned, reserved, unused, Owns}
use preemptdb.OidAlloc.Drained.{low_half}
use preemptdb.OidAlloc.Held.{
  one, held_in, swath_held, fulls_held, l2_held, fulls_held-same, fulls_held-behind, set_at-read,
  init1-held,
}
use preemptdb.OidAlloc.Freed.{full_used, swath_elsewhere, swath_here}

fulls_held-more :
    (n : ℕ) (l2 : ℕ → ℕ) (maps : ℕ → SparseBitset) (y : ℕ)
    → fulls_held (n + 1) l2 maps y
      ≡ (if swath (l2 n) == swath y then held_in (maps (l2 n % 2 ^ 16)) y else 0)
        + fulls_held n l2 maps y
unfolding fulls_held
fulls_held-more n l2 maps y =
    let next : n + 1 ≡ suc n = omega arith in ap (λ k. fulls_held k l2 maps y) next

high_half : (x b : ℕ) → b < 2 ^ 16 → swath (base_of x + b) ≡ swath x
high_half x b low = ground arith

-- The list has one bitset more.
longer :
    (n v x b : ℕ) (l2 : ℕ → ℕ) (maps : ℕ → SparseBitset) (y : ℕ)
    → swath v ≡ swath x
    → v % 2 ^ 16 ≡ b
    → fulls_held (n + 1) (set_at l2 n v) maps y
      ≡ (if swath x == swath y then held_in (maps b) y else 0) + fulls_held n l2 maps y
longer n v x b l2 maps y high low =
    let f = fulls_held n (set_at l2 n v) maps y in
    let here : (n == n) ≡ true = ground arith in
    let read : set_at l2 n v n ≡ v = rw here refl in
    let old = fulls_held-behind n n v l2 maps y (omega arith) in
    fulls_held-more n (set_at l2 n v) maps y
    ∙ (ap (λ w. (if swath w == swath y then held_in (maps (w % 2 ^ 16)) y else 0) + f) read
        ∙ (ap (λ s. (if s == swath y then held_in (maps (v % 2 ^ 16)) y else 0) + f) high
            ∙ (ap (λ k. (if swath x == swath y then held_in (maps k) y else 0) + f) low
                ∙ ap (λ g. (if swath x == swath y then held_in (maps b) y else 0) + g) old)))

other_swath :
    (f : ℕ → ℕ) (maps : ℕ → SparseBitset) (s v y : ℕ)
    → (swath y == s) ≡ false
    → swath_held (set_at f s v) maps y ≡ swath_held f maps y
unfolding swath_held
other_swath f maps s v y other = rw other refl

no_swath :
    (f : ℕ → ℕ) (maps : ℕ → SparseBitset) (s y : ℕ)
    → (swath y == s) ≡ true
    → swath_held (set_at f s 0) maps y ≡ 0
unfolding swath_held
no_swath f maps s y same = rw same refl

unassigned :
    (f : ℕ → ℕ) (maps : ℕ → SparseBitset) (y : ℕ) → f (swath y) ≡ 0 → swath_held f maps y ≡ 0
unfolding swath_held
unassigned f maps y null = rw null refl

-- A bitset that retires takes its OIDs along.
pub retire-l2_held :
    (owner : ℕ → Place) (x y : ℕ) (a : Allocator)
    → Owns owner a
    → a.l2_assignments (swath x) ≢ 0
    → l2_held y (retire x a) ≡ l2_held y a
unfolding l2_held retire
retire-l2_held owner x y a valid real =
    let f = a.l2_assignments in
    let b = f (swath x) in
    let low = (valid.swaths (swath x) real).1 in
    let new =
      longer a.l2_size (base_of x + b) x b a.l2 a.l2_maps y (high_half x b low)
        (low_half x b low) in
    elim (Bool-cases (swath y == swath x)) [
      | inl same ↦
          let is : (swath x == swath y) ≡ true = ground arith in
          let new' = rw is at new in
          let before = swath_here f a.l2_maps b y (ap f (ground arith)) real in
          omega (arith, no_swath f a.l2_maps (swath x) y same, new', before)
      | inr other ↦
          let not : (swath x == swath y) ≡ false = ground arith in
          let new' = rw not at new in
          omega (arith, other_swath f a.l2_maps (swath x) 0 y other, new')
    ]

-- A bitset that a swath gets has the one OID.
pub assign-l2_held :
    (owner : ℕ → Place) (x y : ℕ) (a : Allocator)
    → Owns owner a
    → a.l2_assignments (swath x) ≡ 0
    → a.l2_first_unused < 2 ^ 16
    → l2_held y (assign x a) ≡ one x y + l2_held y a
unfolding l2_held assign
assign-l2_held owner x y a valid null some_left =
    let f = a.l2_assignments in
    let b = a.l2 a.l2_first_unused % 2 ^ 16 in
    let m = init1 (offset x) in
    let was = valid.rest a.l2_first_unused (omega arith) some_left in
    let real : b ≢ 0 = λ e.
      let clash : reserved ≡ unused a.l2_first_unused =
        sym valid.first ∙ (ap owner (sym e) ∙ was) in
      ground (arith, clash) in
    let fulls =
      fulls_held-same a.l2_size b a.l2_maps m a.l2 y (full_used owner a valid some_left) in
    elim (Bool-cases (swath y == swath x)) [
      | inl same ↦
          let is : (swath x == swath y) ≡ true = ground arith in
          let at : set_at f (swath x) b (swath y) ≡ b = rw same refl in
          let after : swath_held (set_at f (swath x) b) (set_at a.l2_maps b m) y ≡ held_in m y =
            swath_here (set_at f (swath x) b) (set_at a.l2_maps b m) b y at real
            ∙ ap (λ n. held_in n y) (set_at-read a.l2_maps b m) in
          let before : swath_held f a.l2_maps y ≡ 0 =
            unassigned f a.l2_maps y (ap f (ground arith) ∙ null) in
          let gets = init1-held x y in rw is (omega (arith, fulls, after, before, gets))
      | inr other ↦
          let not : (swath x == swath y) ≡ false = ground arith in
          let apart : swath_held f (set_at a.l2_maps b m) y ≡ swath_held f a.l2_maps y =
            swath_elsewhere f a.l2_maps b m y (λ theirs e.
              let clash : unused a.l2_first_unused ≡ assigned (swath y) =
                sym was ∙ (ap owner (sym e) ∙ (valid.swaths (swath y) theirs).0) in
              ground (arith, clash)) in
          rw not
            (omega (arith, fulls, other_swath f (set_at a.l2_maps b m) (swath x) b y other, apart))
    ]
