-- ===== src/Wire/Entry/RoundTrip.antt =====
-- The encoding of a log entry in log_gen.go: decoding what was encoded, and the length.
use capacitor.Prelude.{
  ◌≤◌, ◌<◌, ◌^◌, ℕ, suc, ◌≡◌, refl, ap, ◌∙◌, Bool, true, false, some, List, ◌∷◌, ◌++◌, length,
  length-append, codes, text_eq, InInt64, InInt32, ℤ, pos, eqb_ℤ, eq_of_parts, arith,
}
use Prim.Native.Nat.{bit_or}
use mathlib.Core.List.{append_assoc}
use capacitor.Float.{Float64}
use capacitor.Log.Entry.{
  LogEntry, MsgType, IsCodec, msg_set, msg_incr, msg_metric, msg_window, msg_delete, msg_unknown,
}
use capacitor.Wire.{Msgp, IsMsgp, Reads, omit, is_empty, read_fields}
use capacitor.Wire.Fields.{
  field_bytes, ◌+++◌, counted, unless, is_empty_eq, unless_within, read_struct-header,
  read_fields-next, read_fields-unless, read_fields-done, write_struct_some,
}
use capacitor.Wire.Timestamp
use capacitor.Wire.Entry.{
  to_byte, from_byte, blank_entry, field_count, marshal, unmarshal, read_field, msgsize, codec,
  decode_entry,
}

-- The byte of the operation is one, and has no other name.
abbrev pub IsType : MsgType → Type 0
IsType (msg_unknown b) = (5 ≤ b) × (b < 256)
IsType op = Unit

to_byte_small : (op : MsgType) → IsType op → to_byte op < 256
unfolding to_byte
to_byte_small msg_set h = omega arith
to_byte_small msg_incr h = omega arith
to_byte_small msg_metric h = omega arith
to_byte_small msg_window h = omega arith
to_byte_small msg_delete h = omega arith
to_byte_small (msg_unknown b) h = h.1

from_byte-to_byte : (op : MsgType) → IsType op → from_byte (to_byte op) ≡ op
unfolding to_byte from_byte
from_byte-to_byte msg_set h = refl
from_byte-to_byte msg_incr h = refl
from_byte-to_byte msg_metric h = refl
from_byte-to_byte msg_window h = refl
from_byte-to_byte msg_delete h = refl
from_byte-to_byte (msg_unknown b) h = ground arith

-- The lengths of the map, with none to four fields left out.
count_lem :
    (a b c d : Bool)
    → omit d (omit c (omit b (omit a 9)))
      ≡ suc (suc (suc (suc (suc (counted a (counted b (counted c (counted d 0))))))))
count_lem true true true true = refl
count_lem true true true false = refl
count_lem true true false true = refl
count_lem true true false false = refl
count_lem true false true true = refl
count_lem true false true false = refl
count_lem true false false true = refl
count_lem true false false false = refl
count_lem false true true true = refl
count_lem false true true false = refl
count_lem false true false true = refl
count_lem false true false false = refl
count_lem false false true true = refl
count_lem false false true false = refl
count_lem false false false true = refl
count_lem false false false false = refl

omit_bounds :
    (a b c d : Bool)
    → (0 < omit d (omit c (omit b (omit a 9)))) × (omit d (omit c (omit b (omit a 9))) < 16)
omit_bounds a b c d = ground arith

zero_eq : (z : ℤ) → eqb_ℤ z (pos 0) ≡ true → pos 0 ≡ z
zero_eq z h = eq_of_parts (pos 0) z (ground arith)

module _ (fl : Float64) where
  open fl use {Carrier, zero_f, is_zero}

  -- The fields are in the range of their types, and a delta that counts as zero is the zero value
  -- (negative zero, which the encoding leaves out, is not).
  pub record IsEncodable (e : LogEntry Carrier) : Type 0 where
    pub seq_in : e.seq < 2 ^ 64
    pub ts_in : InInt64 e.ts.physical × InInt32 e.ts.logical
    pub born_in : InInt64 e.born_at
    pub op_in : IsType e.op
    pub key_in : length e.key < 2 ^ 32
    pub node_in : length e.node_id < 2 ^ 32
    pub value_in : length e.value < 2 ^ 32
    pub delta_in : is_zero e.delta ≡ true → zero_f ≡ e.delta
    pub ttl_in : InInt64 e.ttl

  module _ (m : Msgp Carrier) (law : IsMsgp m) (e : LogEntry Carrier) where
    -- The entry with the fields up to one decoded.
    abbrev to_ts : LogEntry Carrier
    to_ts = record (blank_entry fl m) { seq = e.seq; ts = e.ts }

    abbrev to_op : LogEntry Carrier
    to_op = record to_ts { born_at = e.born_at; op = e.op }

    abbrev to_node : LogEntry Carrier
    to_node = record to_op { key = e.key; node_id = e.node_id }

    abbrev to_delta : LogEntry Carrier
    to_delta = record to_node { value = e.value; delta = e.delta }

    -- The fields that are always written.
    required_fields :
        (c : IsEncodable e) (n : ℕ) (rest : List ℕ)
        → read_fields m (read_field fl m) (suc (suc (suc (suc (suc n))))) (blank_entry fl m) (
            field_bytes (codes "s") (m.append_uint64 e.seq)
            +++ field_bytes (codes "t") (Timestamp.marshal m e.ts)
            +++ field_bytes (codes "ba") (m.append_int64 e.born_at)
            +++ field_bytes (codes "o") (m.append_byte (to_byte e.op))
            +++ field_bytes (codes "k") (m.append_string e.key)
            +++ rest)
          ≡ read_fields m (read_field fl m) n (record to_op { key = e.key }) rest
    unfolding read_field text_eq
    required_fields c n rest =
        read_fields-next m law (read_field fl m) (codes "s") (m.append_uint64 e.seq) _ _
          (blank_entry fl m) (record (blank_entry fl m) { seq = e.seq }) (omega arith)
          (rw (law.uint64_reads e.seq c.seq_in _) refl)
        ∙ read_fields-next m law (read_field fl m) (codes "t") (Timestamp.marshal m e.ts) _ _
            (record (blank_entry fl m) { seq = e.seq }) to_ts (omega arith)
            (rw (Timestamp.unmarshal-marshal m law e.ts _ c.ts_in _) refl)
        ∙ read_fields-next m law (read_field fl m) (codes "ba") (m.append_int64 e.born_at) _ _ to_ts
            (record to_ts { born_at = e.born_at }) (omega arith)
            (rw (law.int64_reads e.born_at c.born_in _) refl)
        ∙ read_fields-next m law (read_field fl m) (codes "o") (m.append_byte (to_byte e.op)) _ _
            (record to_ts { born_at = e.born_at }) to_op (omega arith)
            (rw
              (
                law.byte_reads (to_byte e.op) (to_byte_small e.op c.op_in) _,
                from_byte-to_byte e.op c.op_in,
              )
              refl)
        ∙ read_fields-next m law (read_field fl m) (codes "k") (m.append_string e.key) rest n to_op
            (record to_op { key = e.key }) (omega arith)
            (rw (law.string_reads e.key c.key_in _) refl)

    -- The fields that may be left out.
    optional_fields :
        (c : IsEncodable e) (rest : List ℕ)
        → read_fields m
            (read_field fl m)
            (counted (is_empty e.node_id) (
              counted
                (is_empty e.value)
                (counted (is_zero e.delta) (counted (eqb_ℤ e.ttl (pos 0)) 0))))
            (record to_op { key = e.key })
            (unless (is_empty e.node_id) (field_bytes (codes "n") (m.append_string e.node_id))
              +++ unless (is_empty e.value) (field_bytes (codes "v") (m.append_bytes e.value))
              +++ unless (is_zero e.delta) (field_bytes (codes "d") (m.append_float64 e.delta))
              +++ unless (eqb_ℤ e.ttl (pos 0)) (field_bytes (codes "ttl") (m.append_int64 e.ttl))
              +++ rest)
          ≡ some (e, rest)
    unfolding read_field text_eq
    optional_fields c rest =
        read_fields-unless m law (read_field fl m) (is_empty e.node_id) (codes "n")
          (m.append_string e.node_id) _ _ (record to_op { key = e.key }) to_node (omega arith)
          (λ h. ap (λ s. record to_node { node_id = s }) (is_empty_eq e.node_id h))
          (λ h. rw (law.string_reads e.node_id c.node_in _) refl)
        ∙ read_fields-unless m law (read_field fl m) (is_empty e.value) (codes "v")
            (m.append_bytes e.value) _ _ to_node (record to_node { value = e.value }) (omega arith)
            (λ h. ap (λ s. record to_node { value = s }) (is_empty_eq e.value h))
            (λ h. rw (law.bytes_reads e.value c.value_in _) refl)
        ∙ read_fields-unless m law (read_field fl m) (is_zero e.delta) (codes "d")
            (m.append_float64 e.delta) _ _ (record to_node { value = e.value }) to_delta
            (omega arith) (λ h. ap (λ s. record to_delta { delta = s }) (c.delta_in h))
            (λ h. rw (law.float64_reads e.delta _) refl)
        ∙ read_fields-unless m law (read_field fl m) (eqb_ℤ e.ttl (pos 0)) (codes "ttl")
            (m.append_int64 e.ttl) rest 0 to_delta e (omega arith)
            (λ h. ap (λ s. record to_delta { ttl = s }) (zero_eq e.ttl h))
            (λ h. rw (law.int64_reads e.ttl c.ttl_in _) refl)
        ∙ read_fields-done m law (read_field fl m) e rest

    -- All the fields, with other bytes behind them.
    abbrev all_fields : List ℕ → List ℕ
    all_fields rest =
        field_bytes (codes "s") (m.append_uint64 e.seq)
        +++ field_bytes (codes "t") (Timestamp.marshal m e.ts)
        +++ field_bytes (codes "ba") (m.append_int64 e.born_at)
        +++ field_bytes (codes "o") (m.append_byte (to_byte e.op))
        +++ field_bytes (codes "k") (m.append_string e.key)
        +++ unless (is_empty e.node_id) (field_bytes (codes "n") (m.append_string e.node_id))
        +++ unless (is_empty e.value) (field_bytes (codes "v") (m.append_bytes e.value))
        +++ unless (is_zero e.delta) (field_bytes (codes "d") (m.append_float64 e.delta))
        +++ unless (eqb_ℤ e.ttl (pos 0)) (field_bytes (codes "ttl") (m.append_int64 e.ttl))
        +++ rest

    count_bounds : (0 < field_count fl m e) × (field_count fl m e < 16)
    unfolding field_count
    count_bounds =
        omit_bounds (is_empty e.node_id) (is_empty e.value) (is_zero e.delta) (eqb_ℤ e.ttl (pos 0))

    fields_lem :
        (rest : List ℕ)
        → marshal fl m e ++ rest ≡ bit_or 0x80 (field_count fl m e) ∷ all_fields rest
    unfolding marshal
    fields_lem rest =
        rw (write_struct_some (field_count fl m e) _ count_bounds.0 count_bounds.1)
          (simp append_assoc refl)

    pub unmarshal-marshal :
        IsEncodable e → Reads (unmarshal fl m (blank_entry fl m)) (marshal fl m e) e
    unfolding unmarshal field_count
    unmarshal-marshal c rest = rw (fields_lem rest) (
        read_struct-header m law (read_field fl m) (field_count fl m e) (blank_entry fl m)
          (all_fields rest) count_bounds.1
        ∙ ap (λ n. read_fields m (read_field fl m) n (blank_entry fl m) (all_fields rest))
            (count_lem (is_empty e.node_id) (is_empty e.value) (is_zero e.delta)
              (eqb_ℤ e.ttl (pos 0)))
        ∙ required_fields c _ _
        ∙ optional_fields c rest)

    length-marshal : length (marshal fl m e) ≤ msgsize fl m e
    unfolding marshal msgsize
    length-marshal = rw (write_struct_some (field_count fl m e) _ count_bounds.0 count_bounds.1) (
        simp length-append (
          omega (
            arith,
            law.uint64_within e.seq,
            Timestamp.length-marshal m law e.ts,
            law.int64_within e.born_at,
            law.byte_within (to_byte e.op),
            law.string_within e.key,
            unless_within (is_empty e.node_id)
                (field_bytes (codes "n") (m.append_string e.node_id)),
            law.string_within e.node_id,
            unless_within (is_empty e.value) (field_bytes (codes "v") (m.append_bytes e.value)),
            law.bytes_within e.value,
            unless_within (is_zero e.delta) (field_bytes (codes "d") (m.append_float64 e.delta)),
            law.float64_within e.delta,
            unless_within (eqb_ℤ e.ttl (pos 0)) (field_bytes (codes "ttl") (m.append_int64 e.ttl)),
            law.int64_within e.ttl,
          )))

  module _ (m : Msgp Carrier) (law : IsMsgp m) where
    -- The bytes of every entry, in range or not, are no more than its `Msgsize`, by which `Append` makes
    -- room for them.
    pub codec-IsCodec : IsCodec (codec fl m)
    codec-IsCodec = record { within = λ e. length-marshal m law e }

    -- The receiver decodes the bytes of an entry, whatever follows them, to that entry, where its fields are
    -- in range and its delta is not negative zero: with any of the node, the value, the delta and
    -- the TTL left out or not.
    pub decode_entry-marshal :
        (e : LogEntry Carrier) (rest : List ℕ)
        → IsEncodable e
        → decode_entry fl m (marshal fl m e ++ rest) ≡ some e
    unfolding decode_entry
    decode_entry-marshal e rest c = rw (decode_entry, unmarshal-marshal m law e c rest) refl
