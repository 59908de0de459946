-- ===== src/Store/PeerSeq.antt =====
-- store.go: the last sequence number seen from each peer, `updatePeerSeq` and `getPeerSeq`.
pub mod Laws
use capacitor.Prelude.{ℕ, Text, ◌++◌, ltb, if◌then◌else◌}
use capacitor.Dict
use capacitor.Store.Placement.{seq_prefix}
use capacitor.Store.Shard.{StoreShard, Store, get_shard, with_shard, mark}

-- "meta:seq:" + nodeID
abbrev pub seq_key : Text → Text
seq_key node = seq_prefix ++ node

module _ {F : Type 0} where
  -- `shard.peerSeqs[nodeID]`, 0 for a missing node
  unfoldable pub seq_in : StoreShard F → Text → ℕ
  seq_in sh node = Dict.get_or sh.peer_seqs node 0

  -- The entry goes under the node's name, the mark under the whole key.
  unfoldable pub raise_seq : Text → ℕ → StoreShard F → StoreShard F
  unfolding seq_in mark
  raise_seq node seq sh =
      if ltb (seq_in sh node) seq
      then mark (record sh { peer_seqs = Dict.put sh.peer_seqs node seq }) (seq_key node)
      else sh

  unfoldable pub update_peer_seq : Store F → Text → ℕ → Store F
  unfolding raise_seq
  update_peer_seq s node seq = with_shard s (seq_key node) (raise_seq node seq)

  unfoldable pub get_peer_seq : Store F → Text → ℕ
  unfolding seq_in
  get_peer_seq s node = seq_in (get_shard s (seq_key node)) node
