-- ===== src/Wire/Batch/RoundTrip.antt =====
-- The encoding of a batch in transport_gen.go: decoding what was encoded, and the length.
use native.Mathlib.Nat.{mod-eq_of_lt}
use Prim.Native.Nat.{bit_or}
use mathlib.Core.List.{append_assoc}
use capacitor.Prelude.{
  ◌≤◌, ◌<◌, ◌+◌, ◌%◌, ◌^◌, ℕ, suc, ◌≡◌, refl, ap, ◌∙◌, false, Option, none, some, List, [], ◌∷◌,
  ◌++◌, length, length-append, codes, text_eq, arith,
}
use capacitor.Node.Remote.{Batch, Handshake}
use capacitor.Wire.{Msgp, IsMsgp, Reads, read_fields, omit}
use capacitor.Wire.Fields.{
  field_bytes, ◌+++◌, counted, read_struct-header, read_fields-next, read_fields-done,
  write_struct_some,
}
use capacitor.Wire.Handshake
use capacitor.Wire.Batch.{
  is_none, blank_batch, append_entries, handshake_field, marshal, read_entries, read_array,
  read_handshake, read_field, decode, msgsize, entries_size, handshake_size,
}

-- Every one of the byte strings can be encoded.
abbrev pub AllShort : List (List ℕ) → Type 0
AllShort [] = Unit
AllShort (e ∷ es) = (length e < 2 ^ 32) × AllShort es

abbrev pub HandshakeEncodable : Option Handshake → Type 0
HandshakeEncodable none = Unit
HandshakeEncodable (some h) = Handshake.IsEncodable h

-- The fields are in the range of their types.
pub record IsEncodable (z : Batch) : Type 0 where
  pub from_in : length z.from_node < 2 ^ 32
  pub count_in : length z.entries < 2 ^ 32
  pub entries_in : AllShort z.entries
  pub handshake_in : HandshakeEncodable z.handshake

module _ {F : Type 0} (m : Msgp F) (law : IsMsgp m) where
  read_entries-append :
      (es : List (List ℕ))
      → AllShort es
      → Reads (read_entries m (length es)) (append_entries m es) es
  unfolding read_entries append_entries
  read_entries-append [] short rest = refl
  read_entries-append (e ∷ es) (here, later) rest =
      rw
        (
          append_assoc (m.append_bytes e) (append_entries m es) rest,
          law.bytes_reads e here (append_entries m es ++ rest),
          read_entries-append es later rest,
        )
        refl

  abbrev array_bytes : List (List ℕ) → List ℕ
  array_bytes es = m.append_array_header (length es % 2 ^ 32) ++ append_entries m es

  read_array-bytes :
      (es : List (List ℕ))
      → length es < 2 ^ 32
      → AllShort es
      → Reads (read_array m) (array_bytes es) es
  unfolding read_array
  read_array-bytes es few short rest =
      rw
        (
          read_array,
          mod-eq_of_lt few,
          append_assoc (m.append_array_header (length es)) (append_entries m es) rest,
          law.array_header_reads (length es) few (append_entries m es ++ rest),
          read_entries-append es short rest,
        )
        refl

  not_nil : (h : Handshake) (rest : List ℕ) → m.is_nil (Handshake.marshal m h ++ rest) ≡ false
  not_nil h rest =
      rw (Handshake.fields_lem m law h rest)
        (law.is_nil_map (Handshake.field_count m h) _ (Handshake.count_bounds m law h).1)

  read_handshake-marshal :
      (z : Batch) (h : Handshake)
      → z.handshake ≡ none
      → Handshake.IsEncodable h
      → (rest : List ℕ)
      → read_handshake m z (Handshake.marshal m h ++ rest)
        ≡ some (record z { handshake = some h }, rest)
  unfolding read_handshake
  read_handshake-marshal z h fresh c rest =
      rw (read_handshake, not_nil h rest, fresh, Handshake.unmarshal-marshal m law h c rest) refl

  -- The last field, where there is one.
  read_last :
      (z : Batch) (h : Option Handshake)
      → z.handshake ≡ none
      → HandshakeEncodable h
      → (rest : List ℕ)
      → read_fields m (read_field m) (counted (is_none h) 0) z (handshake_field m h ++ rest)
        ≡ some (record z { handshake = h }, rest)
  unfolding handshake_field read_field text_eq
  read_last z none fresh c rest =
      read_fields-done m law (read_field m) z rest
      ∙ ap (λ h. some (record z { handshake = h }, rest)) fresh
  read_last z (some h) fresh c rest =
      read_fields-next m law (read_field m) (codes "h") (Handshake.marshal m h) rest 0 z
        (record z { handshake = some h }) (omega arith) (read_handshake-marshal z h fresh c rest)
      ∙ read_fields-done m law (read_field m) (record z { handshake = some h }) rest

  count_lem : (h : Option Handshake) → omit (is_none h) 3 ≡ suc (suc (counted (is_none h) 0))
  count_lem none = refl
  count_lem (some h) = refl

  count_bounds : (h : Option Handshake) → (0 < omit (is_none h) 3) × (omit (is_none h) 3 < 16)
  count_bounds none = (omega arith, omega arith)
  count_bounds (some h) = (omega arith, omega arith)

  module _ (z : Batch) where
    abbrev all_fields : List ℕ → List ℕ
    all_fields rest =
        field_bytes (codes "f") (m.append_string z.from_node)
        +++ field_bytes (codes "e") (array_bytes z.entries)
        +++ handshake_field m z.handshake
        +++ rest

    fields_lem :
        (rest : List ℕ)
        → marshal m z ++ rest ≡ bit_or 0x80 (omit (is_none z.handshake) 3) ∷ all_fields rest
    unfolding marshal
    fields_lem rest =
        rw
          (write_struct_some (omit (is_none z.handshake) 3) _ (count_bounds z.handshake).0
            (count_bounds z.handshake).1)
          (simp append_assoc refl)

    -- A batch is read back from a stream, whatever follows it, where its fields are in range: with a
    -- handshake or without, with a token or without.
    pub decode-marshal : IsEncodable z → Reads (decode m blank_batch) (marshal m z) z
    unfolding decode read_field text_eq
    decode-marshal c rest = rw (fields_lem rest) (
        read_struct-header m law (read_field m) (omit (is_none z.handshake) 3) blank_batch
          (all_fields rest) (count_bounds z.handshake).1
        ∙ ap (λ n. read_fields m (read_field m) n blank_batch (all_fields rest))
            (count_lem z.handshake)
        ∙ read_fields-next m law (read_field m) (codes "f") (m.append_string z.from_node) _ _
            blank_batch (record blank_batch { from_node = z.from_node }) (omega arith)
            (rw (law.string_reads z.from_node c.from_in _) refl)
        ∙ read_fields-next m law (read_field m) (codes "e") (array_bytes z.entries) _ _
            (record blank_batch { from_node = z.from_node }) (record z { handshake = none })
            (omega arith) (rw (read_array-bytes z.entries c.count_in c.entries_in _) refl)
        ∙ read_last (record z { handshake = none }) z.handshake refl c.handshake_in rest)

  length-append_entries : (es : List (List ℕ)) → length (append_entries m es) ≤ entries_size m es
  unfolding append_entries entries_size
  length-append_entries [] = omega arith
  length-append_entries (e ∷ es) =
      simp length-append (omega (arith, law.bytes_within e, length-append_entries es))

  length-handshake_field :
      (h : Option Handshake) → length (handshake_field m h) ≤ 2 + handshake_size m h
  unfolding handshake_field handshake_size
  length-handshake_field none = omega arith
  length-handshake_field (some h) = omega (arith, Handshake.length-marshal m law h)

  pub length-marshal : (z : Batch) → length (marshal m z) ≤ msgsize m z
  unfolding marshal msgsize
  length-marshal z =
      rw
        (write_struct_some (omit (is_none z.handshake) 3) _ (count_bounds z.handshake).0
          (count_bounds z.handshake).1)
        (simp length-append (
          omega (
            arith,
            law.string_within z.from_node,
            law.array_header_within (length z.entries % 2 ^ 32),
            length-append_entries z.entries,
            length-handshake_field z.handshake,
          )))
