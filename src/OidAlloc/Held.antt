-- ===== src/OidAlloc/Held.antt =====
-- How often an OID is on the first two levels.
use preemptdb.Prelude.{
  ℕ, zero, suc, ◌+◌, ◌%◌, ◌^◌, ◌≤◌, ◌<◌, ◌≡◌, ◌≢◌, refl, sym, ap, ◌∙◌, inl, inr, true, false,
  Bool-cases, ◌==◌, ◌&&◌, if◌then◌else◌, set_at, List, [], ◌∷◌, ◌++◌, take, drop, arith,
}
use preemptdb.SparseBitset.{SparseBitset, init1, already_full, insert, contains}
use preemptdb.SparseBitset.Contents.{insert-contains, init1-contains}
use preemptdb.OidAlloc.{Allocator, swath, offset}

-- One, if two OIDs are the same, as numbers of 32 bits
abbrev pub one : ℕ → ℕ → ℕ
one x y = if (swath x == swath y) && (offset x == offset y) then 1 else 0

unfoldable pub count : ℕ → List ℕ → ℕ
count y [] = 0
count y (x ∷ xs) = one x y + count y xs

-- Is the OID in a bitset of its swath?
unfoldable pub held_in : SparseBitset → ℕ → ℕ
held_in m y = if contains m (offset y) then 1 else 0

unfoldable pub swath_held : (ℕ → ℕ) → (ℕ → SparseBitset) → ℕ → ℕ
swath_held assignments maps y =
    if assignments (swath y) == 0 then 0 else held_in (maps (assignments (swath y))) y

-- In the first full bitsets of the list
unfoldable pub fulls_held : ℕ → (ℕ → ℕ) → (ℕ → SparseBitset) → ℕ → ℕ
fulls_held zero l2 maps y = 0
fulls_held (suc n) l2 maps y =
    (if swath (l2 n) == swath y then held_in (maps (l2 n % 2 ^ 16)) y else 0)
    + fulls_held n l2 maps y

unfoldable pub l2_held : ℕ → Allocator → ℕ
unfolding swath_held fulls_held
l2_held y a = swath_held a.l2_assignments a.l2_maps y + fulls_held a.l2_size a.l2 a.l2_maps y

pub count-append : (y : ℕ) (xs ys : List ℕ) → count y (xs ++ ys) ≡ count y xs + count y ys
unfolding count
count-append y [] ys = omega arith
count-append y (x ∷ xs) ys = omega (arith, count-append y xs ys)

pub count-split : (y n : ℕ) (xs : List ℕ) → count y (take n xs) + count y (drop n xs) ≡ count y xs
unfolding count
count-split y zero xs = omega arith
count-split y (suc n) [] = refl
count-split y (suc n) (x ∷ xs) = omega (arith, count-split y n xs)

-- A bitset that is in no place of the list of full ones can change.
pub fulls_held-same :
    (n b : ℕ) (maps : ℕ → SparseBitset) (m : SparseBitset) (l2 : ℕ → ℕ) (y : ℕ)
    → ((j : ℕ) → j < n → l2 j % 2 ^ 16 ≢ b)
    → fulls_held n l2 (set_at maps b m) y ≡ fulls_held n l2 maps y
unfolding fulls_held
fulls_held-same zero b maps m l2 y apart = refl
fulls_held-same (suc n) b maps m l2 y apart =
    let other : (l2 n % 2 ^ 16 == b) ≡ false = ground (arith, apart n) in
    let rest = fulls_held-same n b maps m l2 y (λ j under. apart j (omega arith)) in
    rw other (rw rest refl)

-- So can the entries behind the list.
pub fulls_held-behind :
    (n k v : ℕ) (l2 : ℕ → ℕ) (maps : ℕ → SparseBitset) (y : ℕ)
    → n ≤ k
    → fulls_held n (set_at l2 k v) maps y ≡ fulls_held n l2 maps y
unfolding fulls_held
fulls_held-behind zero k v l2 maps y above = refl
fulls_held-behind (suc n) k v l2 maps y above =
    let old : (n == k) ≡ false = ground arith in
    let rest = fulls_held-behind n k v l2 maps y (omega arith) in rw old (rw rest refl)

pub set_at-read : (maps : ℕ → SparseBitset) (b : ℕ) (m : SparseBitset) → set_at maps b m b ≡ m
set_at-read maps b m = let here : (b == b) ≡ true = ground arith in rw here refl

pub init1-held : (x y : ℕ) → held_in (init1 (offset x)) y ≡ (if offset x == offset y then 1 else 0)
unfolding held_in
init1-held x y = ap (λ b. if b then 1 else 0) (init1-contains (offset x) (offset y))

takes_one : (m : SparseBitset) (i : ℕ) → m.second 7 ≡ 0 → (insert m i).1 ≢ already_full
unfolding insert
takes_one m i room = λ e. ground (arith, room, e)

-- A bitset with room, and without the OID, gets it.
pub insert-held :
    (m : SparseBitset) (x y : ℕ)
    → m.second 7 ≡ 0
    → held_in m x ≡ 0
    → held_in ((insert m (offset x)).0) y ≡ (if offset x == offset y then 1 else 0) + held_in m y
unfolding held_in
insert-held m x y room new =
    let new' : contains m (offset x) ≡ false = ground (arith, new) in
    let after = insert-contains m (offset x) (offset y) new' (takes_one m (offset x) room) in
    elim (Bool-cases (offset x == offset y)) [
      | inl same ↦
          let gone : contains m (offset y) ≡ false = ap (contains m) (sym (ground arith)) ∙ new' in
          rw same (rw gone (rw after (rw same refl)))
      | inr other ↦ rw other (rw after (rw other (omega arith)))
    ]
