-- ===== src/Txn/Commit.antt =====
-- The loop of `si_commit` of txn.cc over the write set: the log records, and where the versions are placed.
use preemptdb.Prelude.{
  ◌⊎◌, ◌*◌, Bool-cases, inl, inr, Option, some, none, if◌then◌else◌, ℕ, ◌+◌, ◌^◌, ◌≤◌, ◌<◌, ◌≡◌,
  refl, List, [], ◌∷◌, ltb, ◌++◌, arith,
}
use mathlib.Core.Path.{subst}
use preemptdb.FatPtr.{offset}
use preemptdb.TlsLog.{Config, Result, ok, fatal, waits, ◌>>=◌}
use preemptdb.SizeEncode.{decode_size, encode_size_aligned}
use preemptdb.FatPtr.Lsn
use preemptdb.TlsLog.{Block}
use preemptdb.Txn.{
  WriteRecord, Store, Posted, LogRecord, record_size, populate_log_record, place, record_address,
  post_one, post_all, is_placed, alignment_bits,
}

-- The bytes that the records of a write set take in a block
unfoldable pub total_size : List WriteRecord → ℕ
total_size [] = 0
total_size (w ∷ ws) = record_size w.size + total_size ws

abbrev pub Every : (WriteRecord → Type 0) → List WriteRecord → Type 0
Every P [] = Unit {0}
Every P (w ∷ ws) = P w × Every P ws

pub Every-map :
    {P Q : WriteRecord → Type 0}
    → ((w : WriteRecord) → P w → Q w)
    → (ws : List WriteRecord) → Every P ws
    → Every Q ws
Every-map f [] all = tt
Every-map f (w ∷ ws) (first, rest) = (f w first, Every-map f ws rest)

pub Every-zip :
    {P Q R : WriteRecord → Type 0}
    → ((w : WriteRecord) → P w → Q w → R w)
    → (ws : List WriteRecord) → Every P ws
    → Every Q ws
    → Every R ws
Every-zip f [] ps qs = tt
Every-zip f (w ∷ ws) (p, ps) (q, qs) = (f w p q, Every-zip f ws ps qs)

-- What the entry of a tuple leads to: the bytes of the version, and its persistent address
abbrev pub image : Store → ℕ → List ℕ
image s entry = (s.object (offset (s.entries entry))).value

abbrev pub address : Store → ℕ → ℕ
address s obj = (s.object obj).pdest

-- The log records of a write set, one behind the other from `off`, each with the image of its tuple
unfoldable pub logged : (ℕ → List ℕ) → ℕ → ℕ → List WriteRecord → List LogRecord
logged bytes csn off [] = []
logged bytes csn off (w ∷ ws) =
    record {
      is_insert = w.is_insert;
      fid = w.fid;
      oid = w.oid;
      csn = csn;
      off = off;
      size = w.size;
      after_image = bytes w.entry;
    }
    ∷ logged bytes csn (off + record_size w.size) ws

-- The address of a record at `off` behind the header of a block, with a code for a size that holds
-- the record
abbrev pub AddressOf : Config → ℕ → Block → ℕ → WriteRecord → ℕ → Type 0
AddressOf c log_id b off w addr =
    (code : ℕ) × (addr
      ≡ Lsn.to_ptr (Lsn.make log_id (b.cur_lsn + c.page_size + off) b.seg_num code))
    × (code < 256)
    × (record_size w.size ≤ decode_size code * 2 ^ 4)

-- The stores of the loop: each version is placed at some address, which is good for the offset of
-- its record.
unfoldable pub PlacedAll :
    (ℕ → WriteRecord → ℕ → Type 0) → ℕ → ℕ → List WriteRecord → Store → Store → Type 0
PlacedAll Good off end_stamp [] s s' = s ≡ s'
PlacedAll Good off end_stamp (w ∷ ws) s s' =
    (addr : ℕ) × Good off w addr
    × PlacedAll Good (off + record_size w.size) end_stamp ws (place s w addr end_stamp) s'

-- Any address
abbrev pub Anywhere : ℕ → WriteRecord → ℕ → Type 0
Anywhere _ _ _ = Unit {0}

option_cases : {A : Type 0} (o : Option A) → (o ≡ none) ⊎ ((a : A) × (o ≡ some a))
option_cases none = inl refl
option_cases (some a) = inr (a, refl)

pub bind_inv :
    {A B : Type 0} (r : Result A) (f : A → Result B) (b : B)
    → (r >>= f) ≡ ok b
    → (a : A) × (r ≡ ok a) × (f a ≡ ok b)
bind_inv (ok a) f b done = (a, refl, done)
bind_inv fatal f b done = cc
bind_inv waits f b done = cc

-- The end of a round, once the address is known
abbrev finish : ℕ → WriteRecord → Posted → LogRecord → Block → ℕ → Result Posted
finish end_stamp w p r block pdest =
    if is_placed w pdest end_stamp
    then ok (record {
      store = place p.store w pdest end_stamp;
      block = block;
      records = p.records ++ r ∷ [];
    })
    else fatal

finish_inv :
    (end_stamp : ℕ) (w : WriteRecord) (p p' : Posted) (r : LogRecord) (block : Block) (pdest : ℕ)
    → finish end_stamp w p r block pdest ≡ ok p'
    → p'.store ≡ place p.store w pdest end_stamp
finish_inv end_stamp w p p' r block pdest done = elim (Bool-cases (is_placed w pdest end_stamp)) [
  | inl sound ↦ let q = rw sound at done in ground (arith, q)
  | inr unsound ↦ let q = rw unsound at done in cc
]

-- What a round that succeeds does to the store
post_one_inv :
    (c : Config) (end_stamp : ℕ) (w : WriteRecord) (p p' : Posted)
    → post_one c end_stamp w p ≡ ok p'
    → (addr : ℕ) × (p'.store ≡ place p.store w addr end_stamp)
unfolding post_one
post_one_inv c end_stamp w p p' done =
    let value = (p.store.object (offset (p.store.entries w.entry))).value in
    let (a, _, rest) =
      bind_inv (populate_log_record w.is_insert p.block w.fid w.oid value w.size) _ p' done in
    elim (Bool-cases (ltb (a.1.capacity) (a.1.payload_size))) [
      | inl over ↦ let q = rw over at rest in cc
      | inr fits ↦ elim (option_cases (encode_size_aligned (record_size w.size) alignment_bits)) [
        | inl no_code ↦ let q = rw no_code at (rw fits at rest) in cc
        | inr (e, coded) ↦
            let q = rw coded at (rw fits at rest) in
            let (addr, _, last) =
              bind_inv (record_address c p.store.log_id p.block (a.0.off) e.code)
                (finish end_stamp w p (a.0) (a.1)) p' q in
            (addr, finish_inv end_stamp w p p' (a.0) (a.1) addr last)
      ]
    ]

pub post_all_inv :
    (c : Config) (end_stamp off : ℕ) (ws : List WriteRecord) (p p' : Posted)
    → post_all c end_stamp ws p ≡ ok p'
    → PlacedAll Anywhere off end_stamp ws p.store p'.store
unfolding post_all PlacedAll
post_all_inv c end_stamp off [] p p' done = ground arith
post_all_inv c end_stamp off (w ∷ ws) p p' done =
    let (p1, one, rest) = bind_inv (post_one c end_stamp w p) (post_all c end_stamp ws) p' done in
    let (addr, placed) = post_one_inv c end_stamp w p p1 one in
    (
      addr,
      tt,
      subst (λ x. PlacedAll Anywhere (off + record_size w.size) end_stamp ws x p'.store) placed
          (post_all_inv c end_stamp (off + record_size w.size) ws p1 p' rest),
    )
