-- ===== src/Node/Remote.antt =====
-- capacitor.go and transport.go: what arrives from peers, `applyRemoteEntry` and the loop of
-- `handleConn` over the batches of one connection. Reading and decoding the stream is I/O: a
-- connection is the list of the batches that it delivers.
pub mod Auth
pub mod Laws
pub mod Deliver
use capacitor.Prelude.{
  ℕ, ◌*◌, Bool, true, false, not, ◌&&◌, Option, none, some, List, [], ◌∷◌, Text, text_eq, ℤ, pos,
  negsuc, ltb_ℤ, wrap64, if◌then◌else◌, sub_ℕ, suc,
}
use capacitor.Dict
use capacitor.Hlc.{Timestamp, Reply, stamped, clock_smash, update}
use capacitor.Log.Entry.{
  LogEntry, MsgType, msg_set, msg_incr, msg_metric, msg_window, msg_delete, msg_unknown,
}
use capacitor.Metrics.{observe}
use capacitor.Node.{Platform, Node, since}
use capacitor.Store.Cache
use capacitor.Store.Counter
use capacitor.Store.Window
use capacitor.Store.PeerSeq
use capacitor.Store.Shard.{Store}

-- time.Duration(e.TTL) * time.Millisecond
abbrev pub times_ℤ : ℤ → ℕ → ℤ
times_ℤ (pos n) m = pos (n * m)
times_ℤ (negsuc n) m = sub_ℕ 0 (suc n * m)

abbrev pub from_milliseconds : ℤ → ℤ
from_milliseconds ttl = wrap64 (times_ℤ ttl 1_000_000)

-- `Handshake`
pub record Handshake : Type 0 where
  pub last_seen_seq : ℕ
  pub auth_token : Text

-- `Batch`
pub record Batch : Type 0 where
  pub from_node : Text
  pub entries : List (List ℕ)
  pub handshake : Option Handshake

module _ (p : Platform) where
  open p use {float, codec, msgpack}
  open float use {Carrier}

  -- The dispatch on the operation.
  unfoldable pub apply_op : Store Carrier → LogEntry Carrier → MsgType → Store Carrier
  apply_op s e msg_set =
      Cache.set s e.key (msgpack.unmarshal_value e.value) e.ts (from_milliseconds e.ttl)
  apply_op s e msg_incr = Counter.set_node_count float s e.key e.node_id e.delta
  apply_op s e msg_metric = (Counter.increment_metric float s e.key e.node_id e.delta).0
  apply_op s e msg_window = Window.add_window_timestamp s e.key e.ts.physical
  apply_op s e msg_delete = Cache.delete s e.key e.ts
  apply_op s e (msg_unknown b) = s

  time_replication : ℤ → Node p → LogEntry Carrier → Node p
  time_replication seen n e =
      if ltb_ℤ (pos 0) e.born_at
      then record n {
        metrics = record n.metrics {
          replicate_lat = observe n.metrics.replicate_lat (since e.born_at seen);
        };
      }
      else n

  -- `seen` is the clock reading for the latency, `wall` that of the hybrid clock. The latency counts
  -- also for an entry that is then dropped.
  unfoldable pub apply_remote_entry : ℤ → ℤ → Node p → LogEntry Carrier → Node p
  unfolding time_replication apply_op
  apply_remote_entry seen wall n e =
      let timed = time_replication seen n e in
      let (hlc, reply) = update wall timed.hlc e.ts in
      elim reply [
        | clock_smash ↦ record timed { hlc = hlc }
        | stamped t ↦ record timed {
          hlc = hlc;
          store = PeerSeq.update_peer_seq (apply_op timed.store e e.op) e.node_id e.seq;
        }
      ]

  -- The loop over a batch's entries, from the `i`th on, with the two clock readings for each; one that
  -- does not decode is passed over.
  unfoldable pub apply_entries : (ℕ → ℤ × ℤ) → ℕ → Node p → List (List ℕ) → Node p
  unfolding apply_remote_entry
  apply_entries clock i n [] = n
  apply_entries clock i n (raw ∷ rest) =
      apply_entries clock (suc i)
        (elim (codec.unmarshal raw) [
          | none ↦ n
          | some e ↦ apply_remote_entry (clock i).0 (clock i).1 n e
        ])
        rest

  -- What the loop makes of a batch's handshake: `none` closes the connection.
  unfoldable pub admit : Node p → Bool → Batch → Option (Node p)
  admit n first_batch batch = elim batch.handshake [
    | some h ↦
        (if not (text_eq n.auth_token []) && not (text_eq h.auth_token n.auth_token)
          then none
          else some (record n { peer_seqs = Dict.put n.peer_seqs batch.from_node h.last_seen_seq }))
    | none ↦ (if first_batch && not (text_eq n.auth_token []) then none else some n)
  ]

  -- The loop over the batches of one connection, each with its clock readings.
  unfoldable pub handle_conn : Node p → Bool → List ((ℕ → ℤ × ℤ) × Batch) → Node p
  unfolding admit apply_entries
  handle_conn n first_batch [] = n
  handle_conn n first_batch ((clock, batch) ∷ rest) = elim (admit n first_batch batch) [
    | none ↦ n
    | some n' ↦ handle_conn (apply_entries clock 0 n' batch.entries) false rest
  ]
