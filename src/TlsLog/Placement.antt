-- ===== src/TlsLog/Placement.antt =====
-- At which file offset a flush is written, and what the thread's durable CSN says meanwhile.
use preemptdb.Prelude.{
  ℕ, suc, ◌+◌, ◌^◌, ◌≤◌, ◌<◌, ◌≡◌, refl, List, [], ◌∷◌, Bool, true, false, length, arith,
}
use preemptdb.TlsLog.{
  Config, TlsLog, Submission, ok, settle, issue_flush, create_segment, complete, submit,
}
use preemptdb.TlsLog.Position.{pending, OneWrite}

-- The open segment's size and the write under way make up its expected size.
pub record IsSynced (l : TlsLog) : Type 0 where
  pub one : OneWrite l.flushing l.ring
  pub sum : l.current.size + pending l.ring ≡ l.current.expected_size
  pub range : l.current.expected_size + 2 ^ 32 ≤ 2 ^ 64

-- What `issue_flush` does to a synced segment
pub record Issued (l l' : TlsLog) (size : ℕ) : Type 0 where
  pub write :
      l'.ring
      ≡ record { segnum = length l.closed; offset = l.current.expected_size; size = size } ∷ []
  pub grown : l'.current.expected_size ≡ l.current.expected_size + size
  pub sum : l'.current.size + size ≡ l'.current.expected_size

module _ (c : Config) (real : c.null_device ≡ false) (size : ℕ) (short : size ≤ 2 ^ 31) where
  issue_cases :
      (b : Bool) (ws : List Submission) (l : TlsLog)
      → l.flushing ≡ b
      → l.ring ≡ ws
      → OneWrite b ws
      → IsSynced l
      → (l' : TlsLog) × (issue_flush c size l ≡ ok l') × Issued l l' size
  unfolding issue_flush settle
  issue_cases true (w ∷ []) l f r o v =
      (submit size (record (complete c w [] l) { flushing = false }), ground arith, ground arith)
  issue_cases false [] l f r o v = (submit size l, ground arith, ground arith)
  issue_cases true [] l f r o v = absurd o
  issue_cases true (w ∷ w' ∷ ws) l f r o v = absurd o
  issue_cases false (w ∷ ws) l f r o v = absurd o

  -- On a real device, while the open segment is synced, `issue_flush` of at most 2 ^ 31 bytes submits
  -- one write, in that segment, at the offset where the segment's earlier flushes end, and adds its
  -- bytes to the segment's expected size, which the segment's size and that write make up.
  pub issue_flush_place :
      (l : TlsLog) → IsSynced l → (l' : TlsLog) × (issue_flush c size l ≡ ok l') × Issued l l' size
  issue_flush_place l v = issue_cases l.flushing l.ring l refl refl v.one v

  -- On a real device, when a segment is opened while a write of the old one is under way, the first
  -- flush of the new segment, of at most 2 ^ 31 bytes, is submitted at the size of that
  -- write, and not at the segment's beginning.
  pub issue_flush_misplaced :
      (l : TlsLog) (w : Submission)
      → l.flushing ≡ true
      → l.ring ≡ w ∷ []
      → w.size < 2 ^ 64
      → (l' : TlsLog) × (issue_flush c size (create_segment l) ≡ ok l')
        × (l'.ring ≡ record { segnum = suc (length l.closed); offset = w.size; size = size } ∷ [])
  unfolding issue_flush settle create_segment
  issue_flush_misplaced l w f r h = (
    submit size (record (complete c w [] (create_segment l)) { flushing = false }),
    ground arith,
    ground arith,
  )
