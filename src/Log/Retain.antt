-- ===== src/Log/Retain.antt =====
-- Which entries of the delta log of log.go can be read after an append.
use capacitor.Prelude.{
  ℕ, ◌+◌, ◌-◌, ◌^◌, ◌≤◌, ◌<◌, ◌≡◌, false, arith, List, length-replicate, max, ltb, ◌==◌,
  if◌then◌else◌, Bool-cases, inl, inr, ==_iff,
}
use capacitor.Log.{DeltaLog, stamp, append, new_delta_log, buffer_size, no_entry}
use capacitor.Log.Entry.{LogEntry, Codec, IsCodec}
use capacitor.Log.Append.{
  IsValid, Holds, append-Holds, append-Holds_old, head-append, capacity-append,
}

-- The entries from sequence number `lo` on can be read, and their bytes are those that `h` gives.
pub record IsIntact (l : DeltaLog) (lo : ℕ) (h : ℕ → List ℕ) : Type 0 where
  pub lo_pos : 0 < lo
  pub lo_le : lo ≤ l.head
  pub in_index : l.head ≤ lo + l.capacity
  pub held : (seq : ℕ) → lo ≤ seq → seq < l.head → Holds l seq (h seq)

-- The history with one more entry.
abbrev pub extend : (ℕ → List ℕ) → ℕ → List ℕ → ℕ → List ℕ
extend h seq bytes i = if i == seq then bytes else h i

module _ {F : Type 0} (codec : Codec F) (l : DeltaLog) (e : LogEntry F) where
  open codec use {msgsize}

  -- The first sequence number that is still readable after the append.
  unfoldable pub next_lo : ℕ → ℕ
  next_lo lo =
      if ltb l.buf_cap (l.buf_head + msgsize (stamp l e))
      then l.head
      else max lo (l.head + 1 - l.capacity)

module _ {F : Type 0} (codec : Codec F) (law : IsCodec codec) (l : DeltaLog) (v : IsValid l)
    (e : LogEntry F) where
  open codec use {marshal, msgsize}

  -- After an append, to a valid log, of an entry that fits the buffer, where the sequence numbers
  -- stay below 2^64: the history is extended by the entry's bytes, and can be read from the new
  -- entry on if the ring of bytes started again from 0, and otherwise from `lo` on as far as the
  -- index goes back.
  pub append-IsIntact :
      (lo : ℕ) (h : ℕ → List ℕ)
      → IsIntact l lo h
      → msgsize (stamp l e) ≤ l.buf_cap
      → l.head + 1 < 2 ^ 64
      → IsIntact (append codec l e).0 (next_lo codec l e lo) (extend h l.head (marshal (stamp l e)))
  append-IsIntact lo h w fits more = record {
    lo_pos = unfold next_lo in let a = w.lo_pos in let b = v.head_pos in ground arith;
    lo_le =
        rw (head-append codec law l v e fits more)
          (unfold next_lo in let a = w.lo_le in let b = v.capacity_pos in ground arith);
    in_index =
        rw (head-append codec law l v e fits more, capacity-append codec law l v e fits more)
          (unfold next_lo in let a = v.capacity_pos in ground arith);
    held = λ seq ge lt. elim (Bool-cases (seq == l.head)) [
      | inl new ↦ rw (new, (==_iff seq l.head).0 new) (append-Holds codec law l v e fits more)
      | inr old ↦ rw old (earlier seq ge (rw (head-append codec law l v e fits more) at lt) old)
    ];
  }
    where
      earlier :
          (seq : ℕ)
          → next_lo codec l e lo ≤ seq
          → seq < l.head + 1
          → (seq == l.head) ≡ false
          → Holds (append codec l e).0 seq (h seq)
      earlier seq ge lt ne =
          append-Holds_old codec law l v e fits more seq older (unfold next_lo in ground arith)
            (h seq) (unfold next_lo in ground arith)
            (w.held seq (unfold next_lo in ground arith) older)
        where
          older : seq < l.head
          older = ground arith

-- A new log of at least one entry is valid and empty, whatever history it is compared with.
pub new-IsValid :
    (capacity : ℕ) (h : ℕ → List ℕ)
    → 0 < capacity
    → IsValid (new_delta_log capacity) × IsIntact (new_delta_log capacity) 1 h
unfolding new_delta_log
new-IsValid capacity h some_room = (
  record {
    capacity_pos = some_room;
    index_full = length-replicate capacity no_entry;
    bytes_full = length-replicate (buffer_size capacity) 0;
    small = unfold buffer_size in ground arith;
    buf_head_in = omega arith;
    head_pos = omega arith;
  },
  record {
    lo_pos = omega arith;
    lo_le = omega arith;
    in_index = omega arith;
    held = λ seq ge lt. absurd (omega arith);
  },
)
