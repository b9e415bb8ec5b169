-- ===== src/TlsLog/Position.antt =====
-- Where the bytes of a log are: durable, submitted to the ring, or in the active buffer; and which
-- place of the open segment the current LSN stands for.
use native.Mathlib.Nat.{pow-le-pow_right}
use preemptdb.Prelude.{
  ℕ, ◌+◌, ◌%◌, ◌^◌, ◌≤◌, ◌<◌, ◌≡◌, refl, ◌⊎◌, inl, inr, List, [], ◌∷◌, Bool, true, false, ltb,
  arith, if◌then◌else◌, Bool-cases, length,
}
use preemptdb.SizeEncode.{align_up}
use preemptdb.SizeEncode.Decode.{align_up_bounds}
use preemptdb.CommitQueue.{u32_mod}
use preemptdb.TlsLog.{
  Config, TlsLog, Submission, Result, ok, fatal, ◌>>=◌, settle, issue_flush, align_up_flush_size,
  flush_active, complete, padded, submit,
}

abbrev pub pending : List Submission → ℕ
pending [] = 0
pending (w ∷ ws) = w.size + pending ws

-- One write at most is under way, exactly when `flushing` says so.
abbrev pub OneWrite : Bool → List Submission → Type 0
OneWrite true (w ∷ []) = Unit {0}
OneWrite false [] = Unit {0}
OneWrite b ws = ⊥

pub record IsValid (l : TlsLog) : Type 0 where
  pub one : OneWrite l.flushing l.ring
  pub small : l.logbuf_size < 2 ^ 31
  pub fits : l.logbuf_offset ≤ l.logbuf_size
  pub accounted : l.durable_lsn + pending l.ring + l.logbuf_offset ≡ l.current_lsn
  pub placed : l.current.start_offset + l.current.expected_size + l.logbuf_offset ≡ l.current_lsn

-- Room for one more block and its padding in the 64 bits of an LSN
abbrev pub HasRange : TlsLog → Type 0
HasRange l = l.current_lsn + 2 ^ 33 ≤ 2 ^ 64

-- What an operation on the ring leaves alone
pub record Same (l l' : TlsLog) : Type 0 where
  pub lsn : l'.current_lsn ≡ l.current_lsn
  pub offset : l'.logbuf_offset ≡ l.logbuf_offset
  pub buffer : l'.logbuf_size ≡ l.logbuf_size
  pub limit : l'.segment_size ≡ l.segment_size
  pub start : l'.current.start_offset ≡ l.current.start_offset
  pub expected : l'.current.expected_size ≡ l.current.expected_size
  pub older : l'.closed ≡ l.closed

module _ (c : Config) (real : c.null_device ≡ false) where
  settle_cases :
      (b : Bool) (ws : List Submission) (l : TlsLog)
      → l.flushing ≡ b
      → l.ring ≡ ws
      → OneWrite b ws
      → IsValid l
      → HasRange l
      → (l' : TlsLog) × (settle c l ≡ ok l')
        × Same l l'
        × (l'.flushing ≡ false)
        × (l'.ring ≡ [])
        × (l'.durable_lsn + l'.logbuf_offset ≡ l'.current_lsn)
  unfolding settle complete
  settle_cases true (w ∷ []) l f r o v h = (
    record (complete c w [] l) { flushing = false },
    ground arith,
    ground arith,
    refl,
    refl,
    ground arith,
  )
  settle_cases false [] l f r o v h = (l, ground arith, ground arith, f, r, ground arith)
  settle_cases true [] l f r o v h = absurd o
  settle_cases true (w ∷ w' ∷ ws) l f r o v h = absurd o
  settle_cases false (w ∷ ws) l f r o v h = absurd o

  pub settle_lem :
      (l : TlsLog)
      → IsValid l
      → HasRange l
      → (l' : TlsLog) × (settle c l ≡ ok l')
        × Same l l'
        × (l'.flushing ≡ false)
        × (l'.ring ≡ [])
        × (l'.durable_lsn + l'.logbuf_offset ≡ l'.current_lsn)
  settle_lem l v = settle_cases l.flushing l.ring l refl refl v.one v

  flush_fails :
      (l : TlsLog) → align_up_flush_size c l l.logbuf_offset ≡ fatal → flush_active c l ≡ fatal
  unfolding flush_active
  flush_fails l over = rw over refl

  pub run_flush :
      (l s : TlsLog) (a : ℕ)
      → align_up_flush_size c l l.logbuf_offset ≡ ok a
      → settle c (padded a l) ≡ ok s
      → flush_active c l ≡ ok (submit (a % u32_mod) s)
  unfolding flush_active issue_flush
  run_flush l s a aligned settled =
      rw (aligned, ◌>>=◌)
        (rw (if_real (settle c (padded a l) >>= λ l'. ok (submit (a % u32_mod) l')) _)
          (rw settled refl))
    where
      if_real : (x y : Result TlsLog) → (if c.null_device then y else x) ≡ x
      if_real x y = rw real refl

  -- The page is a power of two, as PAGE_SIZE is.
  module _ (k m : ℕ) (page : c.page_size ≡ 2 ^ k) (whole : m + k ≡ 64) (k_small : k < 32) where
    pub page_small : c.page_size ≤ 2 ^ 31
    page_small = rw page (pow-le-pow_right {n = 2} (omega arith) {i = k} {j = 31} (omega arith))

    align_cases :
        (l : TlsLog) (size : ℕ)
        → size ≤ l.logbuf_size
        → l.logbuf_size < 2 ^ 31
        → (align_up_flush_size c l size ≡ fatal)
          ⊎ ((a : ℕ) × (align_up_flush_size c l size ≡ ok a) × (size ≤ a) × (a ≤ l.logbuf_size))
    unfolding align_up_flush_size
    align_cases l size fits small = elim (Bool-cases c.direct_io) [
      | inl direct ↦ elim (Bool-cases (ltb l.logbuf_size (align_up size c.page_size))) [
        | inl over ↦ inl (ground arith)
        | inr room ↦ inr (align_up size c.page_size, ground arith, at_least_size, ground arith)
      ]
      | inr plain ↦ inr (size, ground arith, omega arith, fits)
    ]
      where
        at_least_size : size ≤ align_up size c.page_size
        at_least_size =
            rw page ((align_up_bounds m k whole size (omega (arith, page_small, page))).0)

    pub record Flushed (l l' : TlsLog) : Type 0 where
      pub write : Submission
      pub busy : l'.flushing ≡ true
      pub alone : l'.ring ≡ write ∷ []
      pub submitted : l'.durable_lsn + write.size ≡ l'.current_lsn
      pub placed : l'.current.start_offset + l'.current.expected_size ≡ l'.current_lsn
      pub later : l.current_lsn ≤ l'.current_lsn
      pub padding : l'.current_lsn ≤ l.current_lsn + 2 ^ 31
      pub buffer : l'.logbuf_size ≡ l.logbuf_size
      pub limit : l'.segment_size ≡ l.segment_size
      pub older : l'.closed ≡ l.closed

    padded-IsValid :
        (l : TlsLog) (a : ℕ)
        → IsValid l
        → l.current_lsn + 2 ^ 33 + 2 ^ 31 ≤ 2 ^ 64
        → l.logbuf_offset ≤ a
        → a ≤ l.logbuf_size
        → IsValid (padded a l) × HasRange (padded a l)
    unfolding padded
    padded-IsValid l a v h le fits = (
      record {
        one = v.one;
        small = v.small;
        fits = omega (arith, v.small);
        accounted = omega (arith, v.small, v.accounted);
        placed = omega (arith, v.small, v.placed);
      },
      omega (arith, v.small),
    )

    submit-Flushed :
        (l s : TlsLog) (a : ℕ)
        → l.current_lsn + 2 ^ 33 + 2 ^ 31 ≤ 2 ^ 64
        → l.logbuf_offset ≤ a
        → a ≤ l.logbuf_size
        → l.logbuf_size < 2 ^ 31
        → Same (padded a l) s
        → s.ring ≡ []
        → s.durable_lsn + s.logbuf_offset ≡ s.current_lsn
        → s.current.start_offset + s.current.expected_size + s.logbuf_offset ≡ s.current_lsn
        → Flushed l (submit (a % u32_mod) s)
    unfolding padded submit
    submit-Flushed l s a h le fits small same none_left durable placed = record {
      write = record { segnum = length s.closed; offset = s.current.size; size = a % u32_mod };
      busy = refl;
      alone = rw none_left;
      submitted = omega (arith, same);
      placed = omega (arith, same);
      later = omega (arith, same);
      padding = omega (arith, same);
      buffer = same.buffer;
      limit = same.limit;
      older = same.older;
    }

    pub flush_cases :
        (l : TlsLog)
        → IsValid l
        → l.current_lsn + 2 ^ 33 + 2 ^ 31 ≤ 2 ^ 64
        → (flush_active c l ≡ fatal) ⊎ ((l' : TlsLog) × (flush_active c l ≡ ok l') × Flushed l l')
    flush_cases l v h = elim (align_cases l l.logbuf_offset v.fits v.small) [
      | inl over ↦ inl (flush_fails l over)
      | inr (a, aligned, le, fits) ↦
          let (valid, range) = padded-IsValid l a v h le fits in
          let (s, settled, same, idle, none_left, durable) = settle_lem (padded a l) valid range in
          inr (
            submit (a % u32_mod) s,
            run_flush l s a aligned settled,
            submit-Flushed l s a h le fits v.small same none_left durable
                (omega (arith, same, valid.placed)),
          )
    ]
