-- ===== src/Wire.antt =====
-- The binary encodings of log entries, timestamps and batches (log_gen.go, hlc_gen.go, types_gen.go,
-- transport_gen.go), which are code generated on top of the msgp library. msgp is an interface.
pub mod Fields
pub mod Timestamp
pub mod Entry
pub mod Handshake
pub mod Batch
use capacitor.Prelude.{
  ℕ, zero, suc, ◌^◌, ◌≤◌, ◌<◌, ◌+◌, ◌-◌, ◌%◌, ◌==◌, if◌then◌else◌, ◌≡◌, Bool, true, false, Option,
  none, some, List, [], ◌∷◌, ◌++◌, length, Text, ℤ, InInt64, InInt32,
}
use Prim.Native.Nat.{bit_or}

-- What msgp reads: the value and the bytes behind it, or an error.
abbrev pub Read : Type 0 → Type 0
Read X = Option (X × List ℕ)

-- `msgp.Append…` (the bytes that are appended), `msgp.Read…Bytes` and the methods of `msgp.Reader`, and
-- the size constants. `F` is the type of `float64` values.
pub record Msgp (F : Type 0) : Type 0 where
  pub append_uint64 : ℕ → List ℕ
  pub append_int64 : ℤ → List ℕ
  pub append_int32 : ℤ → List ℕ
  pub append_byte : ℕ → List ℕ
  pub append_string : Text → List ℕ
  pub append_bytes : List ℕ → List ℕ
  pub append_float64 : F → List ℕ
  pub append_array_header : ℕ → List ℕ
  pub append_nil : List ℕ
  pub read_map_header : List ℕ → Read ℕ
  pub read_map_key : List ℕ → Read Text
  pub read_uint64 : List ℕ → Read ℕ
  pub read_int64 : List ℕ → Read ℤ
  pub read_int32 : List ℕ → Read ℤ
  pub read_byte : List ℕ → Read ℕ
  pub read_string : List ℕ → Read Text
  pub read_bytes : List ℕ → Read (List ℕ)
  pub read_float64 : List ℕ → Read F
  pub read_array_header : List ℕ → Read ℕ
  -- the bytes behind a nil
  pub read_nil : List ℕ → Option (List ℕ)
  pub is_nil : List ℕ → Bool
  -- the bytes behind the next object
  pub skip : List ℕ → Option (List ℕ)
  pub uint64_size : ℕ
  pub int64_size : ℕ
  pub int32_size : ℕ
  pub byte_size : ℕ
  pub string_prefix_size : ℕ
  pub bytes_prefix_size : ℕ
  pub float64_size : ℕ
  pub array_header_size : ℕ
  pub nil_size : ℕ

-- Reading finds `x` in front of whatever follows the bytes.
abbrev pub Reads : {X : Type 0} → (List ℕ → Read X) → List ℕ → X → Type 0
Reads read bytes x = (rest : List ℕ) → read (bytes ++ rest) ≡ some (x, rest)

-- What msgp documents: reading undoes appending, for values in the range of their type and for strings
-- that the format can hold; a map of fewer than 16 fields has the one-byte header 0x80 | n, a key of
-- fewer than 32 bytes the prefix 0xa0 | n; there is no map header at the end of the input; the size
-- constants are upper bounds.
pub record IsMsgp {F : Type 0} (m : Msgp F) : Type 0 where
  pub uint64_reads : (n : ℕ) → n < 2 ^ 64 → Reads m.read_uint64 (m.append_uint64 n) n
  pub int64_reads : (z : ℤ) → InInt64 z → Reads m.read_int64 (m.append_int64 z) z
  pub int32_reads : (z : ℤ) → InInt32 z → Reads m.read_int32 (m.append_int32 z) z
  pub byte_reads : (n : ℕ) → n < 256 → Reads m.read_byte (m.append_byte n) n
  pub string_reads : (s : Text) → length s < 2 ^ 32 → Reads m.read_string (m.append_string s) s
  pub bytes_reads : (b : List ℕ) → length b < 2 ^ 32 → Reads m.read_bytes (m.append_bytes b) b
  pub float64_reads : (x : F) → Reads m.read_float64 (m.append_float64 x) x
  pub array_header_reads :
      (n : ℕ) → n < 2 ^ 32 → Reads m.read_array_header (m.append_array_header n) n
  pub map_header_reads :
      (n : ℕ) (rest : List ℕ) → n < 16 → m.read_map_header (bit_or 0x80 n ∷ rest) ≡ some (n, rest)
  pub map_key_reads :
      (key : Text) (rest : List ℕ)
      → length key < 32
      → m.read_map_key (bit_or 0xa0 (length key) ∷ key ++ rest) ≡ some (key, rest)
  pub map_header_end : m.read_map_header [] ≡ none
  pub is_nil_map : (n : ℕ) (rest : List ℕ) → n < 16 → m.is_nil (bit_or 0x80 n ∷ rest) ≡ false
  pub uint64_within : (n : ℕ) → length (m.append_uint64 n) ≤ m.uint64_size
  pub int64_within : (z : ℤ) → length (m.append_int64 z) ≤ m.int64_size
  pub int32_within : (z : ℤ) → length (m.append_int32 z) ≤ m.int32_size
  pub byte_within : (n : ℕ) → length (m.append_byte n) ≤ m.byte_size
  pub string_within : (s : Text) → length (m.append_string s) ≤ m.string_prefix_size + length s
  pub bytes_within : (b : List ℕ) → length (m.append_bytes b) ≤ m.bytes_prefix_size + length b
  pub float64_within : (x : F) → length (m.append_float64 x) ≤ m.float64_size
  pub array_header_within : (n : ℕ) → length (m.append_array_header n) ≤ m.array_header_size

-- A value that was read, put into the struct.
abbrev pub put : {X S : Type 0} → Read X → (X → S) → Read S
put none f = none
put (some (x, bts)) f = some (f x, bts)

-- A field without a name in the struct is skipped.
abbrev pub skipped : {S : Type 0} → Option (List ℕ) → S → Read S
skipped none z = none
skipped (some bts) z = some (z, bts)

-- The generated `for zb0001 > 0` loop over the fields of a map; `field` is its switch on the key.
module _ {F S : Type 0} (m : Msgp F) (field : Text → S → List ℕ → Read S) where
  unfoldable pub read_fields : ℕ → S → List ℕ → Read S
  read_fields zero z bts = some (z, bts)
  read_fields (suc n) z bts = elim (m.read_map_key bts) [
    | none ↦ none
    | some (key, at_value) ↦ elim (field key z at_value) [
      | none ↦ none
      | some (z', behind) ↦ read_fields n z' behind
    ]
  ]

  unfoldable pub read_struct : S → List ℕ → Read S
  unfolding read_fields
  read_struct z bts = elim (m.read_map_header bts) [
    | none ↦ none
    | some (n, fields) ↦ read_fields n z fields
  ]

-- A field that is left out takes one off the length of the map.
abbrev pub omit : Bool → ℕ → ℕ
omit true n = n - 1
omit false n = n

-- s == "", and b == nil for a slice whose only empty value is nil.
abbrev pub is_empty : List ℕ → Bool
is_empty [] = true
is_empty (x ∷ xs) = false

-- The variable map header, and the fields unless there are none.
unfoldable pub write_struct : ℕ → List ℕ → List ℕ
write_struct len fields = bit_or 0x80 (len % 256) ∷ (if len == 0 then [] else fields)
