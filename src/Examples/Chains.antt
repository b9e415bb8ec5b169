-- ===== src/Examples/Chains.antt =====
-- A chain of two versions: a newer one that its writer holds, committed too late for the reader,
-- and an older one that carries a CSN.
use preemptdb.Prelude.{ℕ, ◌^◌, ◌*◌, ◌≡◌, ◌≢◌, refl, ap, [], ◌∷◌, ◌==◌, if◌then◌else◌, arith}
use preemptdb.FatPtr.{asi_type, asi_csn, offset}
use preemptdb.FatPtr.Csn
use preemptdb.FatPtr.Fields.{asi_type_lem}
use preemptdb.FatPtr.Types.{Csn-round_trip}
use preemptdb.Visibility.{committed, Memory, Visitor}
use preemptdb.Visibility.Chain.{IsSettled, Chain}
use preemptdb.Examples.Data.{writer_xid, reader}

abbrev pub two_versions : Memory
two_versions = record {
  contexts = λ _. record {
    begin_epoch = 1;
    owner = writer_xid;
    begin = 1;
    end_stamp = 7;
    state = committed;
  };
  object = λ obj.
      if obj == 1
      then record {
        alloc_epoch = 1;
        pdest = 1;
        next_pdest = 0;
        value = 8 ∷ [];
        csn = writer_xid;
        next_volatile = 2 * 2 ^ 16;
      }
      else record {
        alloc_epoch = 1;
        pdest = 1;
        next_pdest = 0;
        value = 8 ∷ [];
        csn = Csn.to_ptr (Csn.make 5);
        next_volatile = 0;
      };
  entry = 2 ^ 16;
}

stamped_typed : asi_type (Csn.to_ptr (Csn.make 5)) ≡ asi_csn
stamped_typed = (Csn-round_trip 5 (omega arith)).1

abbrev pub reader_at : ℕ → Visitor
reader_at begin = record reader { begin = begin }

pub held-IsSettled : (begin : ℕ) → IsSettled two_versions (reader_at begin) 1
held-IsSettled begin = record {
  linked = omega arith;
  owned = λ _ _. refl;
  still = λ _ _. λ e. cc;
  above = λ e. absurd (omega (arith, e));
  stamped = λ untyped. absurd (untyped (omega (arith, asi_type_lem writer_xid)));
}

stamped-linked : Csn.to_ptr (Csn.make 5) ≢ 0
stamped-linked e = omega (arith, stamped_typed, e, asi_type_lem (Csn.to_ptr (Csn.make 5)))

stamped-IsSettled : (begin : ℕ) → IsSettled two_versions (reader_at begin) 2
stamped-IsSettled begin = record {
  linked = stamped-linked;
  owned = λ typed _. omega (arith, typed, stamped_typed);
  still = λ _ _. λ e. cc;
  above = λ e. absurd (omega (arith, stamped_typed, asi_type_lem reader.owner, ap asi_type e));
  stamped = λ _. stamped_typed;
}

pub two_versions-Chain : (begin : ℕ) → Chain two_versions (reader_at begin) (2 ^ 16) (1 ∷ 2 ∷ [])
unfolding Chain offset
two_versions-Chain begin = (
  refl,
  omega (arith, asi_type_lem (2 ^ 16)),
  omega arith,
  held-IsSettled begin,
  (
    refl,
    omega (arith, asi_type_lem (2 * 2 ^ 16)),
    omega arith,
    stamped-IsSettled begin,
    (refl, omega (arith, asi_type_lem 0)),
  ),
)
