-- ===== src/Node/Replicate.antt =====
-- capacitor.go: sending the delta log to peers. The network is an argument: whether `SendBatch`
-- succeeds. The goroutine of a peer is its presence in `peerStops`.
pub mod Laws
pub mod Skips
pub mod Rounds
use capacitor.Prelude.{
  ℕ, ◌+◌, ◌*◌, ◌%◌, ◌^◌, Bool, true, false, Option, none, some, List, [], ◌∷◌, Text, text_eq, ltb,
  if◌then◌else◌, length,
}
use capacitor.Dict
use capacitor.Dict.{Dict}
use capacitor.Log.{get_entries_raw, u64}
use capacitor.Node.{Platform, Node}
use capacitor.Node.Remote.{Batch}
use capacitor.Store.PeerSeq.{get_peer_seq}

abbrev pub batch_limit : ℕ
batch_limit = 1000

abbrev pub batch_bytes : ℕ
batch_bytes = 8 * 1024 * 1024

module _ {p : Platform} where
  -- `startPeerReplicator`: the flag says whether a goroutine is started.
  unfoldable pub start_peer_replicator : Node p → Text → Text → Node p × Bool
  start_peer_replicator n node addr =
      if text_eq addr [] then (n, false) else elim (Dict.get n.peer_stops node) [
        | some running ↦ (n, false)
        | none ↦ (record n { peer_stops = Dict.put n.peer_stops node true }, true)
      ]

  -- `stopPeerReplicator`: the flag says whether a stop channel is closed.
  unfoldable pub stop_peer_replicator : Node p → Text → Node p × Bool
  stop_peer_replicator n node = (
    record n {
      peer_stops = Dict.remove n.peer_stops node;
      peer_seqs = Dict.remove n.peer_seqs node;
    },
    elim (Dict.get n.peer_stops node) [ none ↦ false | some running ↦ true ],
  )

  -- `NotifyJoin` and `NotifyLeave`: a node does not replicate to itself.
  unfoldable pub notify_join : Node p → Text → Text → Node p × Bool
  unfolding start_peer_replicator
  notify_join n node addr =
      if text_eq node n.node_id then (n, false) else start_peer_replicator n node addr

  -- The position of a peer in this node's log.
  unfoldable pub last_seq : Node p → Text → ℕ
  last_seq n node = elim (Dict.get n.peer_seqs node) [
    | some seq ↦ seq
    | none ↦ get_peer_seq n.store node
  ]

  -- The test on which `peerReplicatorLoop` stops waiting.
  unfoldable pub has_news : Node p → Text → Bool
  unfolding last_seq
  has_news n node = ltb (u64 (last_seq n node + 1)) n.log.head

  -- `replicateToPeer` up to the sending: the state after LoadOrStore, and the batch if there is one.
  -- `none` where reading the log panics.
  unfoldable pub next_batch : Node p → Text → Option (Node p × Option Batch)
  unfolding last_seq
  next_batch n node =
      let seq = last_seq n node in
      let n' = record n { peer_seqs = Dict.put n.peer_seqs node seq } in
      elim (get_entries_raw n.log (u64 (seq + 1)) batch_limit batch_bytes) [
        | none ↦ none
        | some [] ↦ some (n', none)
        | some (e ∷ es) ↦
            some (n', some (record { from_node = n.node_id; entries = e ∷ es; handshake = none }))
      ]

  -- `replicateToPeer`: the position advances by the number of entries, if they were sent.
  unfoldable pub replicate_to_peer : Node p → Text → Bool → Option (Node p)
  unfolding next_batch
  replicate_to_peer n node sent = elim (next_batch n node) [
    | none ↦ none
    | some (n', none) ↦ some n'
    | some (n', some batch) ↦ some (
        if sent
        then record n' {
          peer_seqs = Dict.put n'.peer_seqs node (u64 (last_seq n node + length batch.entries));
        }
        else n')
  ]
