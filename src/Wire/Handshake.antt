-- ===== src/Wire/Handshake.antt =====
-- The encoding of a handshake in transport_gen.go; that of a batch has the same code inlined.
use capacitor.Prelude.{
  ◌≤◌, ◌<◌, ◌+◌, ◌^◌, ℕ, suc, ◌≡◌, refl, ◌∙◌, ap, Bool, true, false, List, [], ◌∷◌, ◌++◌, length,
  length-append, Text, text_eq, codes, if◌then◌else◌, arith,
}
use Prim.Native.Nat.{bit_or}
use mathlib.Core.List.{append_assoc}
use capacitor.Node.Remote.{Handshake}
use capacitor.Wire.{
  Msgp, IsMsgp, Read, Reads, put, skipped, read_fields, read_struct, omit, is_empty, write_struct,
}
use capacitor.Wire.Fields.{
  ◌+++◌, counted, unless, field_bytes, is_empty_eq, unless_within, read_struct-header,
  read_fields-next, read_fields-unless, read_fields-done, write_struct_some,
}

abbrev pub blank : Handshake
blank = record { last_seen_seq = 0; auth_token = [] }

-- The fields are in the range of their types.
abbrev pub IsEncodable : Handshake → Type 0
IsEncodable h = (h.last_seen_seq < 2 ^ 64) × (length h.auth_token < 2 ^ 32)

module _ {F : Type 0} (m : Msgp F) where
  unfoldable pub field_count : Handshake → ℕ
  field_count h = omit (is_empty h.auth_token) 2

  -- `MarshalMsg`
  unfoldable pub marshal : Handshake → List ℕ
  marshal h = write_struct (field_count h) (
      (0xa2 ∷ 0x6c ∷ 0x73 ∷ m.append_uint64 h.last_seen_seq)
      ++ (if is_empty h.auth_token then [] else 0xa2 ∷ 0x61 ∷ 0x74 ∷ m.append_string h.auth_token))

  -- The switch on the key in `UnmarshalMsg` and `DecodeMsg`.
  unfoldable pub read_field : Text → Handshake → List ℕ → Read Handshake
  read_field key z bts =
      if text_eq key (codes "ls")
      then put (m.read_uint64 bts) (λ x. record z { last_seen_seq = x })
      else if text_eq key (codes "at")
      then put (m.read_string bts) (λ x. record z { auth_token = x })
      else skipped (m.skip bts) z

  -- `UnmarshalMsg` and `DecodeMsg` into a handshake.
  unfoldable pub unmarshal : Handshake → List ℕ → Read Handshake
  unmarshal z bts = read_struct m read_field z bts

  -- `Msgsize`
  unfoldable pub msgsize : Handshake → ℕ
  msgsize h = 1 + 3 + m.uint64_size + 3 + m.string_prefix_size + length h.auth_token

  count_lem : (a : Bool) → omit a 2 ≡ suc (counted a 0)
  count_lem true = refl
  count_lem false = refl

  module _ (law : IsMsgp m) (h : Handshake) where
    pub count_bounds : (0 < field_count h) × (field_count h < 16)
    unfolding field_count
    count_bounds = ground arith

    abbrev all_fields : List ℕ → List ℕ
    all_fields rest =
        field_bytes (codes "ls") (m.append_uint64 h.last_seen_seq)
        +++ unless (is_empty h.auth_token) (field_bytes (codes "at") (m.append_string h.auth_token))
        +++ rest

    -- The bytes open with a map header.
    pub fields_lem :
        (rest : List ℕ) → marshal h ++ rest ≡ bit_or 0x80 (field_count h) ∷ all_fields rest
    unfolding marshal
    fields_lem rest =
        rw (write_struct_some (field_count h) _ count_bounds.0 count_bounds.1)
          (simp append_assoc refl)

    pub unmarshal-marshal : IsEncodable h → Reads (unmarshal blank) (marshal h) h
    unfolding unmarshal field_count read_field text_eq
    unmarshal-marshal (seq_in, token_in) rest = rw (fields_lem rest) (
        read_struct-header m law read_field (field_count h) blank (all_fields rest) count_bounds.1
        ∙ ap (λ n. read_fields m read_field n blank (all_fields rest))
            (count_lem (is_empty h.auth_token))
        ∙ read_fields-next m law read_field (codes "ls") (m.append_uint64 h.last_seen_seq) _ _ blank
            (record blank { last_seen_seq = h.last_seen_seq }) (omega arith)
            (rw (law.uint64_reads h.last_seen_seq seq_in _) refl)
        ∙ read_fields-unless m law read_field (is_empty h.auth_token) (codes "at")
            (m.append_string h.auth_token) rest 0 (record blank { last_seen_seq = h.last_seen_seq })
            h (omega arith)
            (λ e. ap (λ s. record h { auth_token = s }) (is_empty_eq h.auth_token e))
            (λ e. rw (law.string_reads h.auth_token token_in _) refl)
        ∙ read_fields-done m law read_field h rest)

    pub length-marshal : length (marshal h) ≤ msgsize h
    unfolding marshal msgsize
    length-marshal = rw (write_struct_some (field_count h) _ count_bounds.0 count_bounds.1) (
        simp length-append (
          omega (
            arith,
            law.uint64_within h.last_seen_seq,
            unless_within (is_empty h.auth_token)
                (field_bytes (codes "at") (m.append_string h.auth_token)),
            law.string_within h.auth_token,
          )))
