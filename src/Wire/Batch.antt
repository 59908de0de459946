-- ===== src/Wire/Batch.antt =====
-- The encoding of a batch in transport_gen.go.
pub mod RoundTrip
use capacitor.Prelude.{
  ◌+◌, ◌%◌, ◌^◌, ℕ, zero, suc, Bool, true, false, Option, none, some, List, [], ◌∷◌, ◌++◌, length,
  Text, text_eq, codes, if◌then◌else◌,
}
use capacitor.Node.Remote.{Batch, Handshake}
use capacitor.Wire.{Msgp, Read, put, skipped, read_struct, omit, write_struct}
use capacitor.Wire.Handshake

abbrev is_none : Option Handshake → Bool
is_none none = true
is_none (some h) = false

-- `var batch Batch`
abbrev pub blank_batch : Batch
blank_batch = record { from_node = []; entries = []; handshake = none }

-- The handshake that `DecodeMsg` decodes into: the one that is there, or a new one.
abbrev pub or_new : Option Handshake → Handshake
or_new none = Handshake.blank
or_new (some h) = h

module _ {F : Type 0} (m : Msgp F) where
  unfoldable pub append_entries : List (List ℕ) → List ℕ
  append_entries [] = []
  append_entries (e ∷ es) = m.append_bytes e ++ append_entries es

  unfoldable pub handshake_field : Option Handshake → List ℕ
  handshake_field none = []
  handshake_field (some h) = 0xa1 ∷ 0x68 ∷ Handshake.marshal m h

  -- `MarshalMsg`
  unfoldable pub marshal : Batch → List ℕ
  unfolding append_entries handshake_field
  marshal z = write_struct (omit (is_none z.handshake) 3) (
      (0xa1 ∷ 0x66 ∷ m.append_string z.from_node)
      ++ (0xa1 ∷ 0x65 ∷ m.append_array_header (length z.entries % 2 ^ 32)
          ++ append_entries z.entries)
      ++ handshake_field z.handshake)

  -- The loop over the elements of the array.
  unfoldable pub read_entries : ℕ → List ℕ → Read (List (List ℕ))
  read_entries zero bts = some ([], bts)
  read_entries (suc n) bts = elim (m.read_bytes bts) [
    | none ↦ none
    | some (e, behind) ↦ put (read_entries n behind) (λ es. e ∷ es)
  ]

  unfoldable pub read_array : List ℕ → Read (List (List ℕ))
  unfolding read_entries
  read_array bts = elim (m.read_array_header bts) [
    | none ↦ none
    | some (n, elements) ↦ read_entries n elements
  ]

  unfoldable pub read_handshake : Batch → List ℕ → Read Batch
  read_handshake z bts =
      if m.is_nil bts
      then elim (m.read_nil bts) [
        | none ↦ none
        | some behind ↦ some (record z { handshake = none }, behind)
      ]
      else put (Handshake.unmarshal m (or_new z.handshake) bts)
          (λ h. record z { handshake = some h })

  -- The switch on the key in `DecodeMsg` (and `UnmarshalMsg`).
  unfoldable pub read_field : Text → Batch → List ℕ → Read Batch
  unfolding read_array read_handshake
  read_field key z bts =
      if text_eq key (codes "f")
      then put (m.read_string bts) (λ x. record z { from_node = x })
      else if text_eq key (codes "e")
      then put (read_array bts) (λ x. record z { entries = x })
      else if text_eq key (codes "h")
      then read_handshake z bts
      else skipped (m.skip bts) z

  -- `DecodeMsg` (and `UnmarshalMsg`) into a batch.
  unfoldable pub decode : Batch → List ℕ → Read Batch
  decode z bts = read_struct m read_field z bts

  -- The part of `Msgsize` for the elements of the array, and that for the handshake.
  entries_size : List (List ℕ) → ℕ
  entries_size [] = 0
  entries_size (e ∷ es) = m.bytes_prefix_size + length e + entries_size es

  handshake_size : Option Handshake → ℕ
  handshake_size none = m.nil_size
  handshake_size (some h) = Handshake.msgsize m h

  -- `Msgsize`
  unfoldable pub msgsize : Batch → ℕ
  unfolding entries_size handshake_size
  msgsize z =
      1
      + 2
      + m.string_prefix_size
      + length z.from_node
      + 2
      + m.array_header_size
      + entries_size z.entries
      + 2
      + handshake_size z.handshake
