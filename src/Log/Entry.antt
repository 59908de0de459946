-- ===== src/Log/Entry.antt =====
-- log.go and types.go: the log entry, and its binary encoding, which is generated code (log_gen.go) on
-- top of the msgp library, as an interface. `F` is the type of `float64` values.
use capacitor.Prelude.{ℕ, ◌≤◌, List, Text, ℤ, Option, length}
use capacitor.Hlc.{Timestamp}

-- `MsgType`: a byte. The constructors are the constants of the source with their prefix, 0 to 4; a byte
-- from 5 on, which has no name there, is `msg_unknown`.
pub data MsgType : Type 0 where
  msg_set msg_incr msg_metric msg_window msg_delete : MsgType
  msg_unknown : ℕ → MsgType

pub record LogEntry (F : Type 0) : Type 0 where
  pub seq : ℕ
  pub ts : Timestamp
  pub born_at : ℤ
  pub op : MsgType
  pub key : Text
  pub node_id : Text
  pub value : List ℕ
  pub delta : F
  pub ttl : ℤ

-- `MarshalMsg`, `UnmarshalMsg` and `Msgsize`.
pub record Codec (F : Type 0) : Type 0 where
  pub marshal : LogEntry F → List ℕ
  pub unmarshal : List ℕ → Option (LogEntry F)
  pub msgsize : LogEntry F → ℕ

-- What msgp documents: `Msgsize` is an upper bound. (That decoding undoes encoding is a hypothesis
-- on the entry in question, where a theorem needs it.)
pub record IsCodec {F : Type 0} (codec : Codec F) : Type 0 where
  pub within : (e : LogEntry F) → length (codec.marshal e) ≤ codec.msgsize e
