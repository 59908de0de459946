-- ===== src/Log/Append.antt =====
-- `Append` of log.go: reading back the new entry and older ones.
use native.Mathlib.Decide.{dec_lt}
use native.Mathlib.Nat.{mod-lt, mod-add-mod, mod-eq_of_lt, mod-eq-sub-mod}
use capacitor.Prelude.{
  false, ℕ, zero, suc, ◌+◌, ◌-◌, ◌%◌, ◌^◌, ◌≤◌, ◌<◌, ◌≡◌, ◌≢◌, refl, some, arith, List, [], ◌∷◌,
  ◌++◌, length, drop, take, set, length-set, get_or-set_self, get_or-set_ne, length-append, ltb,
  if◌then◌else◌, ap, ◌∙◌,
}
use capacitor.Log.{
  append_panics, DeltaLog, EntryInfo, no_entry, u32, u64, overwrite, start_of, write_bytes, stamp,
  append, info_at, slice,
}
use capacitor.Log.Entry.{LogEntry, Codec, IsCodec}

-- The tables have their sizes, and no sum of offsets passes `uint32`.
pub record IsValid (l : DeltaLog) : Type 0 where
  pub capacity_pos : 0 < l.capacity
  pub index_full : length l.index ≡ l.capacity
  pub bytes_full : length l.bytes ≡ l.buf_cap
  pub small : l.buf_cap + l.buf_cap < 2 ^ 32
  pub buf_head_in : l.buf_head ≤ l.buf_cap
  pub head_pos : 0 < l.head

take-append : (out rest : List ℕ) → take (length out) (out ++ rest) ≡ out
take-append [] rest = refl
take-append (x ∷ out) rest = ap (λ t. x ∷ t) (take-append out rest)

take-drop-overwrite :
    (start : ℕ) (out bytes : List ℕ)
    → start ≤ length bytes
    → take (length out) (drop start (overwrite start out bytes)) ≡ out
unfolding overwrite
take-drop-overwrite zero out bytes h = take-append out (drop (length out) bytes)
take-drop-overwrite (suc s) out [] h = absurd (omega arith)
take-drop-overwrite (suc s) out (b ∷ bytes) h = take-drop-overwrite s out bytes (omega arith)

take-drop-overwrite_below :
    (start : ℕ) (out bytes : List ℕ) (m n : ℕ)
    → m + n ≤ start
    → take n (drop m (overwrite start out bytes)) ≡ take n (drop m bytes)
unfolding overwrite
take-drop-overwrite_below s out bytes m zero h = refl
take-drop-overwrite_below zero out bytes m (suc n) h = absurd (omega arith)
take-drop-overwrite_below (suc s) out [] m (suc n) h = refl
take-drop-overwrite_below (suc s) out (b ∷ bytes) zero (suc n) h =
    ap (λ t. b ∷ t) (take-drop-overwrite_below s out bytes zero n (omega arith))
take-drop-overwrite_below (suc s) out (b ∷ bytes) (suc m) (suc n) h =
    take-drop-overwrite_below s out bytes m (suc n) (omega arith)

length-drop : (n : ℕ) (xs : List ℕ) → n ≤ length xs → length (drop n xs) + n ≡ length xs
length-drop zero xs h = omega arith
length-drop (suc n) [] h = absurd (omega arith)
length-drop (suc n) (x ∷ xs) h = omega (arith, length-drop n xs (omega arith))

length-overwrite :
    (start : ℕ) (out bytes : List ℕ)
    → start + length out ≤ length bytes
    → length (overwrite start out bytes) ≡ length bytes
unfolding overwrite
length-overwrite zero out bytes h = omega (
  arith,
  length-append out (drop (length out) bytes),
  length-drop (length out) bytes (omega arith),
)
length-overwrite (suc s) out [] h = refl
length-overwrite (suc s) out (b ∷ bytes) h = ap suc (length-overwrite s out bytes (omega arith))

-- The log has the bytes of the sequence number `seq`, before its write offset.
abbrev pub Holds : DeltaLog → ℕ → List ℕ → Type 0
Holds l seq bytes =
    (slice l (info_at l seq) ≡ some bytes)
    × ((info_at l seq).size ≡ length bytes)
    × ((info_at l seq).offset + (info_at l seq).size ≤ l.buf_head)

-- Sequence numbers less than the capacity apart have different places in the index.
add-mod-ne : (c r d : ℕ) → r < c → 0 < d → d < c → (r + d) % c ≢ r
add-mod-ne c r d hr hd hc = elim (dec_lt (r + d) c) [
  | yes p ↦ omega (arith, mod-eq_of_lt p)
  | no p ↦ omega (
    arith,
    mod-eq-sub-mod {n = r + d} {m = c} (omega arith),
    mod-eq_of_lt {n = r + d - c} {m = c} (omega arith),
  )
]

pub mod-ne : (c seq head : ℕ) → seq < head → head < seq + c → head % c ≢ seq % c
mod-ne c seq head lo hi e =
    add-mod-ne c (seq % c) (head - seq) (mod-lt seq (omega arith)) (omega arith) (omega arith)
      (mod-add-mod seq c (head - seq) ∙ ap (λ k. k % c) (omega arith) ∙ e)

module _ {F : Type 0} (codec : Codec F) (law : IsCodec codec) (l : DeltaLog) (v : IsValid l)
    (e : LogEntry F) where
  open codec use {marshal, msgsize}

  -- The entry fits the buffer.
  abbrev pub Fits : Type 0
  Fits = msgsize (stamp l e) ≤ l.buf_cap

  -- There is no room left behind the write offset.
  abbrev pub Wraps : Type 0
  Wraps = l.buf_cap < l.buf_head + msgsize (stamp l e)

  -- On a valid log no entry, however long, makes `Append` panic.
  pub append_panics_lem : append_panics codec l e ≡ false
  unfolding append_panics start_of
  append_panics_lem = let b = v.buf_head_in in let c = v.capacity_pos in ground arith

  pub start_lem :
      Fits
      → (start_of codec l (stamp l e)
          ≡ (if ltb l.buf_cap (l.buf_head + msgsize (stamp l e)) then 0 else l.buf_head))
        × (start_of codec l (stamp l e) + msgsize (stamp l e) ≤ l.buf_cap)
  unfolding start_of
  start_lem fits = let w = v.small in let b = v.buf_head_in in ground arith

  bytes_lem :
      Fits
      → write_bytes codec l (stamp l e)
        ≡ overwrite (start_of codec l (stamp l e)) (marshal (stamp l e)) l.bytes
  unfolding write_bytes
  bytes_lem fits = ground (arith, start_lem fits)

  u32_small : (n : ℕ) → n < 2 ^ 32 → u32 n ≡ n
  u32_small n h = omega arith

  u64_small : (n : ℕ) → n < 2 ^ 64 → u64 n ≡ n
  u64_small n h = omega arith

  start : ℕ
  start = start_of codec l (stamp l e)

  out : List ℕ
  out = marshal (stamp l e)

  module _ (fits : Fits) (more : l.head + 1 < 2 ^ 64) where
    end_in : start + length out ≤ l.buf_cap
    unfolding start out
    end_in = let w = law.within (stamp l e) in let b = (start_lem fits).1 in omega arith

    -- What `append` does, with no sum wrapping round.
    append-eq : (append codec l e).0 ≡ record l {
      index = set l.index (l.head % l.capacity) (record { offset = start; size = length out });
      bytes = overwrite start out l.bytes;
      head = l.head + 1;
      buf_head = start + length out;
    }
    unfolding append start out
    append-eq = rw (bytes_lem fits, small_out, small_end, u64_small (l.head + 1) more)
      where
        small_out : u32 (length out) ≡ length out
        small_out = let b = end_in in let w = v.small in omega arith

        small_end : u32 (start + length out) ≡ start + length out
        small_end = let b = end_in in let w = v.small in omega arith

    -- An append of an entry that fits the buffer keeps the log valid, where the sequence numbers
    -- stay below 2^64.
    pub append-IsValid : IsValid (append codec l e).0
    append-IsValid = rw append-eq (record {
      capacity_pos = v.capacity_pos;
      index_full =
          length-set l.index (l.head % l.capacity) (record { offset = start; size = length out })
          ∙ v.index_full;
      bytes_full = length-overwrite start out l.bytes (rw v.bytes_full end_in) ∙ v.bytes_full;
      small = v.small;
      buf_head_in = end_in;
      head_pos = omega arith;
    })

    new_info : info_at (append codec l e).0 l.head ≡ record { offset = start; size = length out }
    unfolding info_at
    new_info = rw append-eq (
        get_or-set_self l.index (l.head % l.capacity) (record { offset = start; size = length out })
          no_entry (rw v.index_full (mod-lt l.head v.capacity_pos)))

    -- The new entry's bytes can be read back at its sequence number.
    pub append-slice :
        slice (append codec l e).0 (info_at (append codec l e).0 l.head)
        ≡ some (marshal (stamp l e))
    unfolding slice
    append-slice =
        rw (new_info, append-eq)
          (unfold out in
            ground (
              arith,
              take-drop-overwrite start out l.bytes,
              length-overwrite start out l.bytes,
              end_in,
              v.bytes_full,
              v.small,
            ))

    module _ (seq : ℕ) (older : seq < l.head) (kept : l.head < seq + l.capacity) where
      pub old_info : info_at (append codec l e).0 seq ≡ info_at l seq
      unfolding info_at
      old_info = rw append-eq (
          get_or-set_ne l.index (l.head % l.capacity) (seq % l.capacity)
            (record { offset = start; size = length out }) no_entry
            (mod-ne l.capacity seq l.head older kept))

      -- An older entry that the index keeps, and whose bytes lie before those of the new one, reads as
      -- before.
      pub append-slice_old :
          (info_at l seq).offset + (info_at l seq).size ≤ start_of codec l (stamp l e)
          → slice (append codec l e).0 (info_at (append codec l e).0 seq) ≡ slice l (info_at l seq)
      append-slice_old below = rw old_info (same (info_at l seq) below)
        where
          same :
              (info : EntryInfo)
              → info.offset + info.size ≤ start_of codec l (stamp l e)
              → slice (append codec l e).0 info ≡ slice l info
          same info b = rw append-eq (
              unfold slice start in
              ground (
                arith,
                take-drop-overwrite_below start out l.bytes info.offset info.size b,
                length-overwrite start out l.bytes,
                end_in,
                v.bytes_full,
              ))

      -- An older entry that the index keeps is still held, unless the ring of bytes starts again.
      pub append-Holds_old :
          (bytes : List ℕ)
          → l.buf_head + msgsize (stamp l e) ≤ l.buf_cap
          → Holds l seq bytes
          → Holds (append codec l e).0 seq bytes
      append-Holds_old bytes room (read, size, below) = rw old_info (
        rw (← old_info) (append-slice_old (rw at_end below) ∙ read),
        size,
        rw append-eq (unfold start in rw at_end (omega arith)),
      )
        where
          at_end : start_of codec l (stamp l e) ≡ l.buf_head
          at_end = ground (arith, start_lem fits)

    -- The new entry is held.
    pub append-Holds : Holds (append codec l e).0 l.head (marshal (stamp l e))
    append-Holds =
        (append-slice, rw new_info (unfold out in refl), rw (new_info, append-eq) (omega arith))

    pub info-append :
        info_at (append codec l e).0 l.head
        ≡ record { offset = start_of codec l (stamp l e); size = length (marshal (stamp l e)) }
    unfolding start out
    info-append = new_info

    pub head-append : (append codec l e).0.head ≡ l.head + 1
    head-append = rw append-eq refl

    pub capacity-append : (append codec l e).0.capacity ≡ l.capacity
    capacity-append = rw append-eq refl
