-- ===== src/Client/Sync.antt =====
-- `replicateToPeer` of capacitor.go with the `SendBatch` of transport.go: turns of the replicator of a
-- peer, and what they write to the connection.
pub mod Laws
pub mod Delivered
use capacitor.Prelude.{
  ℕ, zero, suc, ◌+◌, Bool, true, Option, none, some, List, Text, ℤ, length, if◌then◌else◌,
}
use capacitor.Client.{StreamClient, send_batch}
use capacitor.Dict
use capacitor.Log.{u64}
use capacitor.Node.{Platform, Node}
use capacitor.Node.Replicate.{last_seq, has_news, next_batch}
use capacitor.Store.PeerSeq.{get_peer_seq}
use capacitor.Wire.{Msgp}

module _ {p : Platform} (m : Msgp p.float.Carrier) where
  -- `replicateToPeer`: the position advances if `SendBatch` has no error.
  unfoldable pub replicate_over :
      ℤ → Bool → Bool → Node p → StreamClient → Text → Option (Node p × StreamClient)
  replicate_over now dials writes n c node = elim (next_batch n node) [
    | none ↦ none
    | some (n', none) ↦ some (n', c)
    | some (n', some batch) ↦
        let (c', sent) = send_batch m now dials writes c node batch (get_peer_seq n.store node) in
        some (
          (if sent
              then record n' {
                peer_seqs =
                    Dict.put n'.peer_seqs node (u64 (last_seq n node + length batch.entries));
              }
              else n'),
          c',
        )
  ]

  -- At most `k` turns of `peerReplicatorLoop`, in which dialing and writing succeed; the loop waits once
  -- there is no news.
  unfoldable pub sync : ℕ → (ℕ → ℤ) → Node p → StreamClient → Text → Option (Node p × StreamClient)
  unfolding replicate_over
  sync zero times n c node = some (n, c)
  sync (suc k) times n c node =
      if has_news n node
      then elim (replicate_over (times k) true true n c node) [
        | none ↦ none
        | some (n', c') ↦ sync k times n' c' node
      ]
      else some (n, c)
