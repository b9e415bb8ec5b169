-- ===== src/TlsLog/Flush.antt =====
-- `enqueue_flush` and `last_flush`: what is durable after them.
use preemptdb.Prelude.{
  ℕ, ◌+◌, ◌^◌, ◌≤◌, ◌<◌, ◌≡◌, refl, ◌∙◌, ◌⊎◌, inl, inr, [], true, false, arith, Bool-cases,
}
use preemptdb.TlsLog.{
  Config, TlsLog, ok, fatal, ◌>>=◌, poll_flush, settle, flush_active, is_empty, switch_log_buffers,
  last_flush,
}
use preemptdb.TlsLog.Position.{IsValid, Same, settle_lem, Flushed, flush_cases}

-- Once nothing is under way the log is still well formed.
pub settled-IsValid :
    (l s : TlsLog)
    → IsValid l
    → Same l s
    → s.flushing ≡ false
    → s.ring ≡ []
    → s.durable_lsn + s.logbuf_offset ≡ s.current_lsn
    → IsValid s
settled-IsValid l s v same idle none_left durable = record {
  one = ground arith;
  small = omega (arith, v.small, same);
  fits = omega (arith, v.fits, same);
  accounted = ground arith;
  placed = omega (arith, v.placed, same);
}

-- `last_flush` polls as `settle` does.
poll_is_settle :
    (c : Config) (l : TlsLog)
    → l.flushing ≡ true
    → (poll_flush c l >>= λ l'. ok (record l' { flushing = false })) ≡ settle c l
unfolding settle
poll_is_settle c l busy = ground arith

module _ (c : Config) (l s : TlsLog) (settled : settle c l ≡ ok s) where
  last_flush_empty : is_empty s ≡ true → last_flush c l ≡ ok s
  unfolding last_flush
  last_flush_empty e = rw (settled, ◌>>=◌) (rw e refl)

  last_flush_fails : is_empty s ≡ false → flush_active c s ≡ fatal → last_flush c l ≡ fatal
  unfolding last_flush
  last_flush_fails e over = rw (settled, ◌>>=◌) (rw (e, over) refl)

  last_flush_writes :
      (f : TlsLog)
      → is_empty s ≡ false
      → flush_active c s ≡ ok f
      → (switch_log_buffers f).flushing ≡ true
      → last_flush c l ≡ settle c (switch_log_buffers f)
  unfolding last_flush
  last_flush_writes f e flushed busy =
      rw (settled, ◌>>=◌) (rw (e, flushed) (poll_is_settle c (switch_log_buffers f) busy))

-- The switched log starts an empty buffer at the same LSN.
pub switched-offset : (f : TlsLog) → (switch_log_buffers f).logbuf_offset ≡ 0
unfolding switch_log_buffers
switched-offset f = refl

pub switched-lsn : (f : TlsLog) → (switch_log_buffers f).current_lsn ≡ f.current_lsn
unfolding switch_log_buffers
switched-lsn f = refl

pub switched-size : (f : TlsLog) → (switch_log_buffers f).logbuf_size ≡ f.logbuf_size
unfolding switch_log_buffers
switched-size f = refl

switched-flushing : (f : TlsLog) → (switch_log_buffers f).flushing ≡ f.flushing
unfolding switch_log_buffers
switched-flushing f = refl

module _ (c : Config) (real : c.null_device ≡ false) (k m : ℕ) (page : c.page_size ≡ 2 ^ k)
    (whole : m + k ≡ 64) (k_small : k < 32) where
  pub switched-IsValid :
      (l f : TlsLog)
      → Flushed c real k m page whole k_small l f
      → l.logbuf_size < 2 ^ 31
      → IsValid (switch_log_buffers f)
  unfolding switch_log_buffers
  switched-IsValid l f fl small = record {
    one = ground arith;
    small = omega (arith, fl.buffer);
    fits = omega arith;
    accounted = ground arith;
    placed = omega (arith, fl.placed);
  }

  written :
      (l s f : TlsLog)
      → IsValid s
      → s.current_lsn ≡ l.current_lsn
      → l.current_lsn + 2 ^ 34 ≤ 2 ^ 64
      → settle c l ≡ ok s
      → is_empty s ≡ false
      → flush_active c s ≡ ok f
      → Flushed c real k m page whole k_small s f
      → (l' : TlsLog) × (last_flush c l ≡ ok l')
        × (l'.durable_lsn ≡ l'.current_lsn)
        × (l'.logbuf_offset ≡ 0)
        × (l'.flushing ≡ false)
        × IsValid l'
  written l s f w lsn h settled e flushed fl =
      let sw = switch_log_buffers f in
      let busy = switched-flushing f ∙ fl.busy in
      let valid = switched-IsValid s f fl w.small in
      let (l', done, same, idle, none_left, durable) =
        settle_lem c real sw valid (omega (arith, switched-lsn f, fl.padding)) in
      let none_buffered : l'.logbuf_offset ≡ 0 = same.offset ∙ switched-offset f in
      (
        l',
        last_flush_writes c l s settled f e flushed busy ∙ done,
        omega arith,
        none_buffered,
        idle,
        settled-IsValid sw l' valid same idle none_left durable,
      )

  -- On a real device with pages of a power of two below 2 ^ 32 bytes, in a well-formed log with
  -- 2 ^ 34 bytes left in its LSNs, `last_flush` ends the process, or returns with every byte of the
  -- log durable, an empty buffer and no write under way, well formed; it never waits for a write that was not submitted.
  pub last_flush_durable :
      (l : TlsLog)
      → IsValid l
      → l.current_lsn + 2 ^ 34 ≤ 2 ^ 64
      → (last_flush c l ≡ fatal)
        ⊎ ((l' : TlsLog) × (last_flush c l ≡ ok l')
            × (l'.durable_lsn ≡ l'.current_lsn)
            × (l'.logbuf_offset ≡ 0)
            × (l'.flushing ≡ false)
            × IsValid l')
  last_flush_durable l v h =
      let (s, settled, same, idle, none_left, durable) = settle_lem c real l v (omega arith) in
      let w = settled-IsValid l s v same idle none_left durable in
      elim (Bool-cases (is_empty s)) [
        | inl e ↦
            let none_buffered : s.logbuf_offset ≡ 0 = ground arith in
            inr (s, last_flush_empty c l s settled e, omega arith, none_buffered, idle, w)
        | inr e ↦ elim (flush_cases c real k m page whole k_small s w (omega (arith, same))) [
          | inl over ↦ inl (last_flush_fails c l s settled e over)
          | inr (f, flushed, fl) ↦ inr (written l s f w same.lsn h settled e flushed fl)
        ]
      ]
