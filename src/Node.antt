-- ===== src/Node.antt =====
-- capacitor.go: the node. It binds the store, the clock, the delta log, the latency statistics and the
-- replication positions; each API call and each remote entry is one function on the state. What a call
-- reads from outside (wall clock readings) is an argument; msgpack is an interface.
pub mod Api
pub mod Remote
pub mod Replicate
use capacitor.Prelude.{
  ℕ, suc, ◌+◌, ◌/◌, Bool, true, false, Option, none, some, List, [], ◌∷◌, Text, ℤ, pos, negsuc,
  ◌-ℤ◌, ltb_ℤ, wrap64, if◌then◌else◌, sub_ℕ,
}
use capacitor.Dict.{Dict}
use capacitor.Float.{Float64}
use capacitor.Hlc.{Hlc, Timestamp}
use capacitor.Log.{DeltaLog}
use capacitor.Log.Entry.{LogEntry, Codec}
use capacitor.Metrics.{Tracker, Stat}
use capacitor.Store.Shard.{Store, Value}

-- msgpack.Marshal and msgpack.Unmarshal on dynamic values. A failed decoding leaves `nil`.
pub record Msgpack : Type 0 where
  pub marshal_value : Value → Option (List ℕ)
  pub unmarshal_value : List ℕ → Value

-- What the node is built on.
pub record Platform : Type 1 where
  pub float : Float64
  pub codec : Codec float.Carrier
  pub msgpack : Msgpack

-- `Capacitor`. `peer_seqs` and `peer_stops` are the sync.Maps; a stop channel is represented by its
-- presence. The server, client and gossip handles have no state here.
pub record Node (p : Platform) : Type 0 where
  pub node_id : Text
  pub store : Store p.float.Carrier
  pub hlc : Hlc
  pub log : DeltaLog
  pub metrics : Tracker
  pub auth_token : Text
  pub peer_seqs : Dict ℕ
  pub peer_stops : Dict Bool
  pub disable_metrics : Bool

-- The clock readings of one call: at its start, by the hybrid clock, for `BornAt`, and at its end.
pub record Readings : Type 0 where
  pub start : ℤ
  pub wall : ℤ
  pub born : ℤ
  pub finish : ℤ

-- time.Since(start), as nanoseconds
abbrev pub since : ℤ → ℤ → ℤ
since start finish = wrap64 (finish -ℤ start)

-- The `error` result of a call.
pub data Status : Type 0 where
  ok failed : Status
