-- ===== src/Log/Overwrite.antt =====
-- Theorems on entries of the delta log of log.go whose bytes were overwritten.
use capacitor.Prelude.{ℕ, ◌+◌, ◌<◌, ◌≤◌, ◌≡◌, ◌^◌, arith, some, length, ◌∙◌, sym, ap}
use capacitor.Log.{DeltaLog, stamp, append, start_of, info_at, slice, earliest}
use capacitor.Log.Entry.{LogEntry, Codec, IsCodec}
use capacitor.Log.Append.{
  IsValid, start_lem, append-slice, info-append, old_info, head-append, capacity-append,
}

module _ {F : Type 0} (codec : Codec F) (law : IsCodec codec) (l : DeltaLog) (v : IsValid l)
    (e : LogEntry F) where
  open codec use {marshal, msgsize}

  -- An append, to a valid log, of an entry that fits the buffer but not behind the write offset, where
  -- the sequence numbers stay below 2^64: an older entry that the index keeps, at the start of the
  -- buffer and as long as the new one, is still not before the earliest readable entry, but its bytes
  -- are now those of the new entry.
  pub append-overwrites :
      msgsize (stamp l e) ≤ l.buf_cap
      → l.buf_cap < l.buf_head + msgsize (stamp l e)
      → l.head + 1 < 2 ^ 64
      → (seq : ℕ) → 0 < seq
      → seq < l.head
      → l.head < seq + l.capacity
      → info_at l seq ≡ record { offset = 0; size = length (marshal (stamp l e)) }
      → let l' = (append codec l e).0 in
        (earliest l' ≤ seq) × (slice l' (info_at l' seq) ≡ some (marshal (stamp l e)))
  unfolding earliest
  append-overwrites fits wraps more seq pos older kept first = (
    rw (head-append codec law l v e fits more, capacity-append codec law l v e fits more)
        (ground arith),
    ap (slice (append codec l e).0) same ∙ append-slice codec law l v e fits more,
  )
    where
      restarts : start_of codec l (stamp l e) ≡ 0
      restarts = ground (arith, start_lem codec law l v e fits)

      same : info_at (append codec l e).0 seq ≡ info_at (append codec l e).0 l.head
      same =
          old_info codec law l v e fits more seq older kept
          ∙ first
          ∙ ap (λ (start : ℕ). record { offset = start; size = length (marshal (stamp l e)) })
              (sym restarts)
          ∙ sym (info-append codec law l v e fits more)
