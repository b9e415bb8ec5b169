-- ===== src/XidAlloc.antt =====
-- dbcore/xid.h and dbcore/xid.cpp: contexts are handed out from bitmaps, one word at a time to each
-- thread, and come back to the bitmap of the epoch in which they were taken. Each of these is taken for one step, which is coarser than the source;
-- a thread's word is its own. A word of a bitmap is given by its 64 bits.
pub mod Places
pub mod Bits
pub mod Grab
pub mod Take
pub mod Free
pub mod Kept
pub mod Reach
pub mod Rows
use preemptdb.Prelude.{
  ℕ, zero, suc, ◌+◌, ◌*◌, ◌/◌, ◌%◌, ◌^◌, Bool, true, false, Option, none, some, ltb, ◌==◌,
  if◌then◌else◌, set_at,
}
use preemptdb.FatPtr.Xid

-- `NWORDS`, and half of `NCONTEXTS`
abbrev pub nwords : ℕ
nwords = 2 ^ 15

abbrev pub half : ℕ
half = 2 ^ 21

abbrev pub Word : Type 0
Word = ℕ → Bool

-- `struct xid_bitmap`; `words` is its `data`.
pub record XidBitmap : Type 0 where
  pub words : ℕ → Word
  pub widx : ℕ

-- `struct context_data`
pub record ContextData : Type 0 where
  pub epoch : ℕ
  pub bitmap : Word
  pub base_id : ℕ

-- `xid_bitmaps`, the owners in `xid_contexts`, and each thread's `xid_context_data`
pub record Pool : Type 0 where
  pub bitmaps : ℕ → XidBitmap
  pub owner : ℕ → ℕ
  pub thread : ℕ → ContextData

-- Is one of the first bits set?
unfoldable pub has_bit : ℕ → Word → Bool
has_bit zero w = false
has_bit (suc n) w = let rest = has_bit n w in if w n then true else rest

-- The first bit that is set, from `k` on
unfoldable pub lowest : ℕ → ℕ → Word → ℕ
lowest zero k w = k
lowest (suc n) k w = let rest = lowest n (k + 1) w in if w k then k else rest

unfoldable pub global_init : Pool
global_init = record {
  bitmaps = λ i. record { words = λ _ _. ltb i 2; widx = 0 };
  owner = λ _. 0;
  thread = λ _. record { epoch = 0; bitmap = λ _. false; base_id = 0 };
}

-- The word loses its lowest bit, whose context gets a new XID.
unfoldable pub take_one : Pool → ℕ → Option (ℕ × Pool)
take_one s t =
    let c = s.thread t in
    let bit = lowest 64 0 c.bitmap in
    let id = c.base_id + bit in
    let x = Xid.make (c.epoch % 2 ^ 32) id in
    if has_bit 64 c.bitmap
    then some (
      x,
      record s {
        owner = set_at s.owner id x;
        thread = set_at s.thread t (record c { bitmap = set_at c.bitmap bit false });
      },
    )
    else none

-- The XID must be the owner of its context.
unfoldable pub xid_free : Pool → ℕ → Option Pool
xid_free s x =
    let id = Xid.local x in
    let b = s.bitmaps (Xid.epoch x % 4) in
    let word = id / 64 % nwords in
    if s.owner id == x
    then some (record s {
      owner = set_at s.owner id 0;
      bitmaps =
          set_at s.bitmaps (Xid.epoch x % 4)
            (record b { words = set_at b.words word (set_at (b.words word) (id % 64) true) });
    })
    else none

-- A round of the loop of `xid_alloc` in epoch `e`: a thread whose word is empty takes the next word of the
-- bitmap, if there is one left.
unfoldable pub grab : Pool → ℕ → ℕ → Option Pool
grab s t e =
    let c = s.thread t in
    let b = s.bitmaps (e % 4) in
    if has_bit 64 c.bitmap
    then none
    else if ltb b.widx nwords
    then some (record s {
      bitmaps =
          set_at s.bitmaps (e % 4)
            (record { words = set_at b.words b.widx c.bitmap; widx = b.widx + 1 });
      thread =
          set_at s.thread t
            (record { epoch = e; bitmap = b.words b.widx; base_id = e % 2 * half + b.widx * 64 });
    })
    else none

-- The bitmap of the next epoch is scanned from its start again.
unfoldable pub open_epoch : Pool → ℕ → Pool
open_epoch s e = record s {
  bitmaps = set_at s.bitmaps ((e + 1) % 4) (record (s.bitmaps ((e + 1) % 4)) { widx = 0 });
}
