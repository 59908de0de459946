-- ===== src/Tests/Overwritten.antt =====
-- An example for log.go: a log with a buffer of five bytes, of which the first three are in use.
use capacitor.Prelude.{◌≤◌, ◌≡◌, refl, arith, some, [], ◌∷◌}
use capacitor.Log.{DeltaLog, no_entry, append, stamp, info_at, slice, earliest}
use capacitor.Log.Append.{IsValid}
use capacitor.Log.Overwrite.{append-overwrites}
use capacitor.Tests.Fixtures.{plain_codec, plain_codec-IsCodec, entry_of}

abbrev tight : DeltaLog
tight = record {
  index = no_entry ∷ record { offset = 0; size = 3 } ∷ no_entry ∷ no_entry ∷ [];
  bytes = 1 ∷ 4 ∷ 4 ∷ 0 ∷ 0 ∷ [];
  head = 2;
  buf_head = 3;
  capacity = 4;
  buf_cap = 5;
}

tight-IsValid : IsValid tight
tight-IsValid = record {
  capacity_pos = omega arith;
  index_full = refl;
  bytes_full = refl;
  small = omega arith;
  buf_head_in = omega arith;
  head_pos = omega arith;
}

append-overwrites_example :
    (earliest (append plain_codec tight (entry_of 0 (7 ∷ 8 ∷ []))).0 ≤ 1)
    × (slice
          (append plain_codec tight (entry_of 0 (7 ∷ 8 ∷ []))).0
          (info_at (append plain_codec tight (entry_of 0 (7 ∷ 8 ∷ []))).0 1)
        ≡ some (plain_codec.marshal (stamp tight (entry_of 0 (7 ∷ 8 ∷ [])))))
append-overwrites_example =
    append-overwrites plain_codec plain_codec-IsCodec tight tight-IsValid (entry_of 0 (7 ∷ 8 ∷ []))
      (unfold stamp in omega arith) (unfold stamp in omega arith) (omega arith) 1 (omega arith)
      (omega arith) (omega arith) (unfold info_at stamp in refl)
