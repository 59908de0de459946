-- ===== src/Log.antt =====
-- log.go: the delta log, a ring of entry positions over a ring of bytes. The encoding of an entry is
-- generated code and the msgp library, a parameter here. The mutex makes each method one step; the
-- broadcast on the condition variable has no effect on the state.
pub mod Entry
pub mod Append
pub mod Retain
pub mod Batch
pub mod Overwrite
use capacitor.Prelude.{
  ℕ, zero, suc, ◌+◌, ◌-◌, ◌*◌, ◌%◌, ◌^◌, Bool, true, false, Option, none, some, List, [], ◌∷◌, ◌++◌,
  Text, ltb, leb, if◌then◌else◌, length, drop, take, replicate, set, get_or, ℤ, ◌&&◌, ◌||◌, ◌==◌,
  not,
}
use capacitor.Log.Entry.{LogEntry, Codec}

-- `entryInfo`
pub record EntryInfo : Type 0 where
  pub offset : ℕ
  pub size : ℕ

abbrev pub no_entry : EntryInfo
no_entry = record { offset = 0; size = 0 }

pub record DeltaLog : Type 0 where
  pub index : List EntryInfo
  pub bytes : List ℕ
  pub head : ℕ
  pub buf_head : ℕ
  pub capacity : ℕ
  pub buf_cap : ℕ

abbrev pub u32 : ℕ → ℕ
u32 n = n % 2 ^ 32

abbrev pub u64 : ℕ → ℕ
u64 n = n % 2 ^ 64

-- 256 MB, or 256 bytes for each entry of a small log.
unfoldable pub buffer_size : ℕ → ℕ
buffer_size capacity =
    if ltb capacity 100000 then u32 (u64 (capacity * 256)) else u32 (256 * 1024 * 1024)

unfoldable pub new_delta_log : ℕ → DeltaLog
new_delta_log capacity = record {
  index = replicate capacity no_entry;
  bytes = replicate (buffer_size capacity) 0;
  head = 1;
  buf_head = 0;
  capacity = capacity;
  buf_cap = buffer_size capacity;
}

-- The bytes from `start` on replaced by those of `out`.
unfoldable pub overwrite : ℕ → List ℕ → List ℕ → List ℕ
overwrite zero out bytes = out ++ drop (length out) bytes
overwrite (suc start) out [] = []
overwrite (suc start) out (b ∷ bytes) = b ∷ overwrite start out bytes

-- The entry with the next sequence number.
unfoldable pub stamp : {F : Type 0} → DeltaLog → LogEntry F → LogEntry F
stamp l entry = record entry { seq = l.head }

module _ {F : Type 0} (codec : Codec F) where
  open codec use {marshal, msgsize}

  -- Where the next entry's bytes start: at the write offset, or at 0 if they might not fit behind it.
  unfoldable pub start_of : DeltaLog → LogEntry F → ℕ
  start_of l entry =
      if ltb l.buf_cap (u32 (l.buf_head + u32 (msgsize entry))) then 0 else l.buf_head

  -- `MarshalMsg` appends to `data[start:start:bufCap]`: in place if `Msgsize` bytes fit there; if not,
  -- it allocates elsewhere, and the buffer stays as it is.
  unfoldable pub write_bytes : DeltaLog → LogEntry F → List ℕ
  unfolding start_of overwrite
  write_bytes l entry =
      if leb (start_of l entry + msgsize entry) l.buf_cap
      then overwrite (start_of l entry) (marshal entry) l.bytes
      else l.bytes

  -- Where `Append` panics: the slice expression beyond the buffer, and the modulo by a capacity of 0.
  unfoldable pub append_panics : DeltaLog → LogEntry F → Bool
  unfolding start_of stamp
  append_panics l entry = ltb l.buf_cap (start_of l (stamp l entry)) || l.capacity == 0

  -- The new log, and the sequence number of the entry, where `Append` does not panic.
  unfoldable pub append : DeltaLog → LogEntry F → DeltaLog × ℕ
  unfolding write_bytes stamp
  append l given =
      let entry = stamp l given in
      let start = start_of l entry in
      let actual_len = u32 (length (marshal entry)) in
      (
        record l {
          index = set l.index (l.head % l.capacity) (record { offset = start; size = actual_len });
          bytes = write_bytes l entry;
          head = u64 (l.head + 1);
          buf_head = u32 (start + actual_len);
        },
        l.head,
      )

unfoldable pub info_at : DeltaLog → ℕ → EntryInfo
info_at l seq = get_or l.index (seq % l.capacity) no_entry

-- The copy of the entry's bytes; `none` where the slice expression is out of range and panics.
unfoldable pub slice : DeltaLog → EntryInfo → Option (List ℕ)
slice l info =
    let end = u32 (info.offset + info.size) in
    if leb info.offset end && leb end (length l.bytes)
    then some (take info.size (drop info.offset l.bytes))
    else none

-- The oldest sequence number whose index entry is not overwritten.
unfoldable pub earliest : DeltaLog → ℕ
earliest l = if ltb l.capacity l.head then l.head - l.capacity else 1

abbrev pub prepend : Option (List ℕ) → Option (List (List ℕ)) → Option (List (List ℕ))
prepend none rest = none
prepend (some entry) none = none
prepend (some entry) (some rest) = some (entry ∷ rest)

-- The loop: `count` entries from `seq` on; it stops before the entry that would pass `max_bytes`,
-- unless that is the first. `none` is a panic.
unfoldable pub collect : DeltaLog → ℕ → ℕ → Bool → ℕ → ℕ → Option (List (List ℕ))
unfolding slice info_at
collect l max_bytes zero first seq current = some []
collect l max_bytes (suc count) first seq current =
    let info = info_at l seq in
    let rest = collect l max_bytes count false (suc seq) (current + info.size) in
    if not first && ltb max_bytes (current + info.size)
    then some []
    else prepend (slice l info) rest

-- Where reading starts: not before what is still in the index.
unfoldable pub start_seq_of : DeltaLog → ℕ → ℕ
unfolding earliest
start_seq_of l start_seq = if ltb start_seq (earliest l) then earliest l else start_seq

-- `limit` and `maxBytes` are not negative.
unfoldable pub get_entries_raw : DeltaLog → ℕ → ℕ → ℕ → Option (List (List ℕ))
unfolding collect start_seq_of
get_entries_raw l start_seq limit max_bytes =
    if leb l.head start_seq
    then some []
    else (let start = start_seq_of l start_seq in
        let count = if ltb limit (l.head - start) then limit else l.head - start in
        collect l max_bytes count true start 0)

-- `Head`: the last sequence number given out.
unfoldable pub head_seq : DeltaLog → ℕ
head_seq l = l.head - 1
