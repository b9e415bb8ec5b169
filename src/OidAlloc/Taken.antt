-- ===== src/OidAlloc/Taken.antt =====
-- `context_allocate` of dbcore/sm-oid.cpp and the OIDs that can be taken.
use preemptdb.Prelude.{
  ℕ, zero, suc, ◌+◌, ◌≡◌, refl, sym, ◌∙◌, inl, inr, Bool, true, false, Bool-cases, Option, some,
  none, ◌==◌, if◌then◌else◌, List, [], ◌∷◌, length, arith,
}
use mathlib.Core.Path.{subst}
use preemptdb.OidAlloc.{Local, Cache, fill_target, l2_valid, l3_valid}
use preemptdb.OidAlloc.Scan.{Lanes}
use preemptdb.OidAlloc.Fill.{
  Round, returns, drains_l1, goes_on, has_l1, returns_if_filled, part_l1, part_l2, part_bump,
  then_part, fill_round, next_round, fill_rounds, fill_cache, first_target, bump, worthwhile,
  propose_capacity,
}
use preemptdb.OidAlloc.Context.{◌>>=◌, split_last, pop_entry, grow, refill, context_allocate}
use preemptdb.OidAlloc.Held.{one, count, l2_held}
use preemptdb.OidAlloc.Free.{free_in, free}
use preemptdb.OidAlloc.System.{Gives, nothing, result, given, bound}
use preemptdb.OidAlloc.Quiet.{
  IsQuiet, available, Keeps, quiet-scavenge, fill_from_l1-Keeps, bump-Keeps,
}

joined : (st st' st'' : Local) → Keeps st st' → Keeps st' st'' → Keeps st st''
joined st st' st'' (same, _) (same', quiet) = (λ y. same' y ∙ same y, quiet)

part_l1-Keeps : (target : ℕ) (st : Local) → IsQuiet (st.0) → Keeps st ((part_l1 target st).1)
unfolding part_l1 returns_if_filled
part_l1-Keeps target st quiet = elim (Bool-cases (has_l1 (st.0))) [
  | inl some_there ↦ rw some_there (fill_from_l1-Keeps target st quiet)
  | inr empty ↦ rw empty (λ y. refl, quiet)
]

part_l2-Keeps :
    (mem : Lanes) (target : ℕ) (st : Local) → IsQuiet (st.0) → Keeps st ((part_l2 mem target st).1)
unfolding part_l2
part_l2-Keeps mem target st quiet = rw quiet.no_full (λ y. refl, quiet)

part_bump-Keeps :
    (mem : Lanes) (target : ℕ) (st : Local)
    → IsQuiet (st.0)
    → Keeps st ((part_bump mem target st).1)
unfolding part_bump
part_bump-Keeps mem target st quiet =
    let bumped = (bump target st).1 in
    let kept = bump-Keeps target st quiet in
    let same = quiet-scavenge mem bumped (kept.1) in
    elim (Bool-cases (worthwhile (bumped.0))) [
      | inl pays ↦ rw pays (subst (Keeps st) (sym same) kept)
      | inr too_few ↦ rw too_few kept
    ]

then_part-Keeps :
    (st : Local) (r : Round × Local) (next : ℕ → Local → Round × Local)
    → Keeps st (r.1)
    → ((target : ℕ) (st' : Local) → IsQuiet (st'.0) → Keeps st' ((next target st').1))
    → Keeps st ((then_part r next).1)
unfolding then_part
then_part-Keeps st (returns b, st') next kept keeps = kept
then_part-Keeps st (drains_l1 target, st') next kept keeps = kept
then_part-Keeps st (goes_on target, st') next kept keeps =
    joined st st' ((next target st').1) kept (keeps target st' (kept.1))

fill_round-Keeps :
    (mem : Lanes) (target : ℕ) (st : Local)
    → IsQuiet (st.0)
    → Keeps st ((fill_round mem target st).1)
unfolding fill_round
fill_round-Keeps mem target st quiet =
    then_part-Keeps st (then_part (part_l1 target st) (part_l2 mem)) (part_bump mem)
      (then_part-Keeps st (part_l1 target st) (part_l2 mem) (part_l1-Keeps target st quiet)
        (part_l2-Keeps mem))
      (part_bump-Keeps mem)

abbrev Filled : Local → Bool × Local → Type 0
Filled st r = Keeps st (r.1)

later :
    (st st' : Local) (o : Option (Bool × Local))
    → Keeps st st'
    → Gives (Filled st') o
    → Gives (Filled st) o
later st st' none kept nothing = nothing
later st st' (some r) kept (result kept') = result (joined st st' (r.1) kept kept')

next_round-Keeps :
    (st : Local) (r : Round × Local) (next : ℕ → Local → Option (Bool × Local))
    → Keeps st (r.1)
    → ((target : ℕ) (st' : Local) → IsQuiet (st'.0) → Gives (Filled st') (next target st'))
    → Gives (Filled st) (next_round r next)
unfolding next_round
next_round-Keeps st (returns filled, st') next kept keeps = result kept
next_round-Keeps st (drains_l1 target, st') next kept keeps =
    later st st' (next target st') kept (keeps target st' (kept.1))
next_round-Keeps st (goes_on target, st') next kept keeps = nothing

fill_rounds-Keeps :
    (fuel : ℕ) (mem : Lanes) (target : ℕ) (st : Local)
    → IsQuiet (st.0)
    → Gives (Filled st) (fill_rounds fuel mem target st)
unfolding fill_rounds
fill_rounds-Keeps zero mem target st quiet = nothing
fill_rounds-Keeps (suc fuel) mem target st quiet =
    next_round-Keeps st (fill_round mem target st) (fill_rounds fuel mem)
      (fill_round-Keeps mem target st quiet) (fill_rounds-Keeps fuel mem)

fill_cache-Keeps :
    (mem : Lanes) (st : Local) → IsQuiet (st.0) → Gives (Filled st) (fill_cache mem st)
unfolding fill_cache
fill_cache-Keeps mem st quiet =
    fill_rounds-Keeps (fill_target + 2) mem (first_target (st.1)) st quiet

grow-Keeps : (st : Local) → IsQuiet (st.0) → Keeps st (grow st)
unfolding grow propose_capacity l2_valid l3_valid free free_in l2_held
grow-Keeps (a, tc) quiet = (
  λ y. refl,
  record {
    no_full = quiet.no_full;
    few_loose = quiet.few_loose;
    no_l3 = quiet.no_l3;
    small = ground arith;
  },
)

retry-Keeps :
    (mem : Lanes) (st : Local) (filled : Bool) (st' : Local)
    → Keeps st st'
    → Gives (Filled st) (if filled then some (filled, st') else fill_cache mem (grow st'))
retry-Keeps mem st true st' kept = result kept
retry-Keeps mem st false st' kept =
    let grown = joined st st' (grow st') kept (grow-Keeps st' (kept.1)) in
    later st (grow st') (fill_cache mem (grow st')) grown
      (fill_cache-Keeps mem (grow st') (grown.1))

ready-Keeps :
    (mem : Lanes) (empty : Bool) (st : Local)
    → IsQuiet (st.0)
    → Gives (Keeps st) (if empty then refill mem st else some st)
unfolding refill
ready-Keeps mem true st quiet =
    bound (Filled st) (Keeps st) (fill_cache mem st) _ (fill_cache-Keeps mem st quiet) (λ r kept.
      bound (Filled st) (Keeps st) (if r.0 then some (r.0, r.1) else fill_cache mem (grow (r.1))) _
        (retry-Keeps mem st (r.0) (r.1) kept) (λ r' kept'. result kept'))
ready-Keeps mem false st quiet = result (λ y. refl, quiet)

abbrev Popped : Cache → ℕ × Cache → Type 0
Popped tc p = (y : ℕ) → count y tc ≡ one (p.0) y + count y (p.1)

split_last-count :
    (x : ℕ) (xs : List ℕ) (y : ℕ)
    → one x y + count y xs ≡ one ((split_last x xs).0) y + count y ((split_last x xs).1)
unfolding split_last count
split_last-count x [] y = refl
split_last-count x (x' ∷ xs) y = omega (arith, split_last-count x' xs y)

pop_entry-count : (tc : Cache) → Gives (Popped tc) (pop_entry tc)
unfolding pop_entry count
pop_entry-count [] = nothing
pop_entry-count (x ∷ xs) = result (split_last-count x xs)

abbrev Takes : Local → ℕ × Local → Type 0
Takes st r = ((y : ℕ) → available y st ≡ one (r.0) y + available y (r.1)) × IsQuiet (r.1.0)

Takes-last :
    (st st' : Local) (o : Option (ℕ × Cache))
    → Keeps st st'
    → Gives (Popped (st'.1)) o
    → Gives (Takes st) (o >>= λ p. some (p.0, (st'.0, p.1)))
unfolding free
Takes-last st st' none kept nothing = nothing
Takes-last st st' (some p) kept (result popped) =
    result (λ y. omega (arith, kept.0 y, popped y), kept.1)

context_allocate-Takes :
    (mem : Lanes) (st : Local) → IsQuiet (st.0) → Gives (Takes st) (context_allocate mem st)
unfolding context_allocate
context_allocate-Takes mem st quiet =
    bound (Keeps st) (Takes st) (if length (st.1) == 0 then refill mem st else some st) _
      (ready-Keeps mem (length (st.1) == 0) st quiet)
      (λ st' kept. Takes-last st st' (pop_entry (st'.1)) kept (pop_entry-count (st'.1)))

-- While the second level has no full bitsets and too few loose OIDs to be scavenged: of the OIDs that can
-- be taken, because they are free or were never taken, a thread's allocation takes one, once, and no
-- other. This stays so for its next one.
pub context_allocate-available :
    (mem : Lanes) (st st' : Local) (x : ℕ)
    → IsQuiet (st.0)
    → context_allocate mem st ≡ some (x, st')
    → ((y : ℕ) → available y st ≡ one x y + available y st') × IsQuiet (st'.0)
context_allocate-available mem st st' x quiet got =
    given (Takes st) (x, st') (subst (Gives (Takes st)) got (context_allocate-Takes mem st quiet))
