-- ===== src/Wire/Entry.antt =====
-- The encoding of a log entry in log_gen.go, with the operation's in types_gen.go.
pub mod RoundTrip
use capacitor.Prelude.{
  ◌≤◌, ◌<◌, ◌+◌, ◌^◌, ℕ, suc, ◌≡◌, Bool, true, false, Option, none, some, List, [], ◌∷◌, ◌++◌,
  length, Text, text_eq, codes, ◌==◌, if◌then◌else◌, pos, eqb_ℤ,
}
use capacitor.Float.{Float64}
use capacitor.Hlc.{Timestamp}
use capacitor.Log.Entry.{
  LogEntry, MsgType, Codec, msg_set, msg_incr, msg_metric, msg_window, msg_delete, msg_unknown,
}
use capacitor.Wire.{Msgp, Read, put, skipped, read_struct, omit, is_empty, write_struct}
use capacitor.Wire.Timestamp

-- `byte(z)` and `MsgType(b)`
unfoldable pub to_byte : MsgType → ℕ
to_byte msg_set = 0
to_byte msg_incr = 1
to_byte msg_metric = 2
to_byte msg_window = 3
to_byte msg_delete = 4
to_byte (msg_unknown b) = b

unfoldable pub from_byte : ℕ → MsgType
from_byte b =
    if b == 0
    then msg_set
    else if b == 1
    then msg_incr
    else if b == 2
    then msg_metric
    else if b == 3
    then msg_window
    else if b == 4
    then msg_delete
    else msg_unknown b

module _ (fl : Float64) (m : Msgp fl.Carrier) where
  open fl use {Carrier, zero_f, is_zero}

  -- `var entry LogEntry`
  abbrev pub blank_entry : LogEntry Carrier
  blank_entry = record {
    seq = 0;
    ts = record { physical = pos 0; logical = pos 0 };
    born_at = pos 0;
    op = msg_set;
    key = [];
    node_id = [];
    value = [];
    delta = zero_f;
    ttl = pos 0;
  }

  -- The number of fields that are written.
  unfoldable pub field_count : LogEntry Carrier → ℕ
  field_count e =
      omit (eqb_ℤ e.ttl (pos 0))
        (omit (is_zero e.delta) (omit (is_empty e.value) (omit (is_empty e.node_id) 9)))

  -- `MarshalMsg`
  unfoldable pub marshal : LogEntry Carrier → List ℕ
  unfolding field_count
  marshal e = write_struct (field_count e) (
      (0xa1 ∷ 0x73 ∷ m.append_uint64 e.seq)
      ++ (0xa1 ∷ 0x74 ∷ Timestamp.marshal m e.ts)
      ++ (0xa2 ∷ 0x62 ∷ 0x61 ∷ m.append_int64 e.born_at)
      ++ (0xa1 ∷ 0x6f ∷ m.append_byte (to_byte e.op))
      ++ (0xa1 ∷ 0x6b ∷ m.append_string e.key)
      ++ (if is_empty e.node_id then [] else 0xa1 ∷ 0x6e ∷ m.append_string e.node_id)
      ++ (if is_empty e.value then [] else 0xa1 ∷ 0x76 ∷ m.append_bytes e.value)
      ++ (if is_zero e.delta then [] else 0xa1 ∷ 0x64 ∷ m.append_float64 e.delta)
      ++ (if eqb_ℤ e.ttl (pos 0) then [] else 0xa3 ∷ 0x74 ∷ 0x74 ∷ 0x6c ∷ m.append_int64 e.ttl))

  -- The switch on the key in `UnmarshalMsg`.
  unfoldable pub read_field : Text → LogEntry Carrier → List ℕ → Read (LogEntry Carrier)
  read_field key z bts =
      if text_eq key (codes "s")
      then put (m.read_uint64 bts) (λ x. record z { seq = x })
      else if text_eq key (codes "t")
      then put (Timestamp.unmarshal m z.ts bts) (λ x. record z { ts = x })
      else if text_eq key (codes "ba")
      then put (m.read_int64 bts) (λ x. record z { born_at = x })
      else if text_eq key (codes "o")
      then put (m.read_byte bts) (λ x. record z { op = from_byte x })
      else if text_eq key (codes "k")
      then put (m.read_string bts) (λ x. record z { key = x })
      else if text_eq key (codes "n")
      then put (m.read_string bts) (λ x. record z { node_id = x })
      else if text_eq key (codes "v")
      then put (m.read_bytes bts) (λ x. record z { value = x })
      else if text_eq key (codes "d")
      then put (m.read_float64 bts) (λ x. record z { delta = x })
      else if text_eq key (codes "ttl")
      then put (m.read_int64 bts) (λ x. record z { ttl = x })
      else skipped (m.skip bts) z

  -- `UnmarshalMsg` into an entry, with the bytes that it leaves.
  unfoldable pub unmarshal : LogEntry Carrier → List ℕ → Read (LogEntry Carrier)
  unmarshal z bts = read_struct m read_field z bts

  -- `Msgsize`
  unfoldable pub msgsize : LogEntry Carrier → ℕ
  msgsize e =
      1
      + 2
      + m.uint64_size
      + 2
      + Timestamp.msgsize m
      + 3
      + m.int64_size
      + 2
      + m.byte_size
      + 2
      + m.string_prefix_size
      + length e.key
      + 2
      + m.string_prefix_size
      + length e.node_id
      + 2
      + m.bytes_prefix_size
      + length e.value
      + 2
      + m.float64_size
      + 4
      + m.int64_size

  -- The receiver decodes into a blank entry and drops the bytes behind it.
  unfoldable pub decode_entry : List ℕ → Option (LogEntry Carrier)
  unfolding unmarshal
  decode_entry raw = elim (unmarshal blank_entry raw) [ none ↦ none | some (e, rest) ↦ some e ]

  -- The encoding as the log and the receiver use it.
  abbrev pub codec : Codec Carrier
  codec = record { marshal = marshal; unmarshal = decode_entry; msgsize = msgsize }
