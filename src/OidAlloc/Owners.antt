-- ===== src/OidAlloc/Owners.antt =====
-- Who has each bitset of the second level: the list of full ones, a swath, or the list of unused ones.
use preemptdb.Prelude.{
  ℕ, zero, suc, ◌+◌, ◌%◌, ◌^◌, ◌≤◌, ◌<◌, ◌≡◌, ◌≢◌, refl, sym, ap, ◌∙◌, inl, inr, ◌⊎◌, true, false,
  Bool-cases, ◌==◌, if◌then◌else◌, set_at, arith,
}
use preemptdb.OidAlloc.{Allocator, init_l2}

-- The place of a bitset; the first one is not used.
pub data Place : Type 0 where
  reserved : Place
  full : ℕ → Place
  assigned : ℕ → Place
  unused : ℕ → Place

-- How many of the first swaths have a bitset?
unfoldable pub assigned_below : ℕ → (ℕ → ℕ) → ℕ
assigned_below zero f = 0
assigned_below (suc n) f = (if f n == 0 then 0 else 1) + assigned_below n f

-- `l2` has full bitsets below `size`, and unused ones from `unused_from` on.
pub record IsOwned (owner : ℕ → Place) (size unused_from : ℕ) (l2 assignments : ℕ → ℕ)
    : Type 0 where
  pub first : owner 0 ≡ reserved
  pub fulls : (k : ℕ) → k < size → owner (l2 k % 2 ^ 16) ≡ full k
  pub swaths :
      (s : ℕ) → assignments s ≢ 0 → (owner (assignments s) ≡ assigned s) × (assignments s < 2 ^ 16)
  pub rest : (k : ℕ) → unused_from ≤ k → k < 2 ^ 16 → owner (l2 k % 2 ^ 16) ≡ unused k
  pub room : size + assigned_below (2 ^ 16) assignments + 1 ≡ unused_from
  pub fits : unused_from ≤ 2 ^ 16

abbrev pub Owns : (ℕ → Place) → Allocator → Type 0
Owns owner a = IsOwned owner a.l2_size a.l2_first_unused a.l2 a.l2_assignments

-- Each bitset of the second level is in one place at most, and the two lists in `l2` do not meet.
unfoldable pub HasOwners : Allocator → Type 0
HasOwners a = (owner : ℕ → Place) × Owns owner a

-- The bitsets that swaths have are not full.
unfoldable pub HasRoom : Allocator → Type 0
HasRoom a = (s : ℕ) → a.l2_assignments s ≢ 0 → (a.l2_maps (a.l2_assignments s)).second 7 ≡ 0

-- Every bitset has one place, and those of swaths have room.
abbrev pub IsSound : Allocator → Type 0
IsSound a = HasOwners a × HasRoom a

-- Or there is no second level yet.
unfoldable pub IsConsistent : Allocator → Type 0
IsConsistent a = (a.l2_first_unused ≡ 0) ⊎ IsSound a

none_below : (n : ℕ) → assigned_below n (λ _. 0) ≡ 0
unfolding assigned_below
none_below zero = refl
none_below (suc n) = omega (arith, none_below n)

same_below : (n s v : ℕ) (f : ℕ → ℕ) → n ≤ s → assigned_below n (set_at f s v) ≡ assigned_below n f
unfolding assigned_below
same_below zero s v f above = refl
same_below (suc n) s v f above =
    let other : (n == s) ≡ false = ground arith in
    let before = same_below n s v f (omega arith) in rw other (rw before refl)

-- One more, when a swath gets its bitset
pub one_more :
    (n s v : ℕ) (f : ℕ → ℕ)
    → s < n
    → f s ≡ 0
    → v ≢ 0
    → assigned_below n (set_at f s v) ≡ suc (assigned_below n f)
unfolding assigned_below
one_more zero s v f below null real = absurd (omega arith)
one_more (suc n) s v f below null real = elim (Bool-cases (n == s)) [
  | inl same ↦ ground (arith, same, same_below n s v f)
  | inr other ↦ ground (arith, other, one_more n s v f)
]

-- And one less, when it loses it
pub one_less :
    (n s : ℕ) (f : ℕ → ℕ)
    → s < n
    → f s ≢ 0
    → suc (assigned_below n (set_at f s 0)) ≡ assigned_below n f
unfolding assigned_below
one_less zero s f below real = absurd (omega arith)
one_less (suc n) s f below real = elim (Bool-cases (n == s)) [
  | inl same ↦ ground (arith, same, same_below n s 0 f)
  | inr other ↦ ground (arith, other, one_less n s f)
]

-- A step that gives one bitset another place, and keeps the first one unused
pub set_at-at : (owner : ℕ → Place) (b c : ℕ) (p : Place) → b ≡ c → set_at owner b p c ≡ p
set_at-at owner b c p same = let here : (c == b) ≡ true = ground arith in rw here refl

pub set_at-off :
    (owner : ℕ → Place) (b c : ℕ) (p q r : Place)
    → owner b ≡ q
    → owner c ≡ r
    → q ≢ r
    → set_at owner b p c ≡ r
set_at-off owner b c p q r from to differ = elim (Bool-cases (c == b)) [
  | inl same ↦ absurd (differ (sym from ∙ (ap owner (ground arith) ∙ to)))
  | inr other ↦ rw other to
]

pub init_l2-Owns : (a : Allocator) → Owns (λ b. if b == 0 then reserved else unused b) (init_l2 a)
unfolding init_l2
init_l2-Owns a = record {
  first = refl;
  fulls = λ k below. absurd (omega arith);
  swaths = λ s real. absurd (real refl);
  rest = λ k from below.
      let here : k % 2 ^ 16 ≡ k = ground arith in
      let real : (k == 0) ≡ false = ground arith in rw here (rw real refl);
  room = omega (arith, none_below (2 ^ 16));
  fits = ground arith;
}
