-- ===== src/Store/Persist/PeerSeqs.antt =====
-- Peer sequence numbers of store.go in a flush.
use capacitor.Prelude.{
  ℕ, ◌<◌, ◌≡◌, true, false, arith, none, some, [], ◌∷◌, Text, text_eq, text_eq_iff, ℤ, length,
  length-append, ap,
}
use capacitor.Dict
use capacitor.Dict.{get-put}
use capacitor.Float.{Float64}
use capacitor.Store.Shard.{StoreShard, mark}
use capacitor.Store.PeerSeq.{seq_key, seq_in, raise_seq}
use capacitor.Store.Persist.{EntryCodec, del, snapshot, write_item, no_item}

longer : (node : Text) → text_eq node (seq_key node) ≡ false
longer node = ground (
  arith,
  text_eq_iff node (seq_key node),
  ap length {x = node} {y = seq_key node},
  length-append (seq_key []) node,
)

module _ (fl : Float64) (codec : EntryCodec) (now : ℤ) (node : Text) (seq : ℕ)
    (sh : StoreShard fl.Carrier) where
  -- After `updatePeerSeq` has recorded a higher number for a node, where the key "meta:seq:" + node is
  -- in use for nothing else, that key is dirty, and what the flush writes for it is a deletion: the number
  -- is not persisted.
  pub peer_seq-lost :
      seq_in sh node < seq
      → Dict.get sh.cache (seq_key node) ≡ none
      → Dict.get sh.counts (seq_key node) ≡ none
      → Dict.get sh.windows (seq_key node) ≡ none
      → Dict.get sh.peer_seqs (seq_key node) ≡ none
      → let sh' = raise_seq node seq sh in
        (seq_in sh' node ≡ seq)
        × (Dict.get sh'.dirty (seq_key node) ≡ some true)
        × (write_item fl codec now (snapshot fl codec sh' (seq_key node)) ≡ del (seq_key node) ∷ [])
  unfolding raise_seq mark
  peer_seq-lost more cache counts windows seqs = (
    unfold seq_in Dict.get_or in
        ground (arith, get-put sh.peer_seqs node node seq, text_eq_iff node node),
    ground (
      arith,
      get-put sh.dirty (seq_key node) (seq_key node) true,
      text_eq_iff (seq_key node) (seq_key node),
    ),
    unfold snapshot write_item no_item in
        ground (
          arith,
          cache,
          counts,
          windows,
          seqs,
          get-put sh.peer_seqs node (seq_key node) seq,
          longer node,
        ),
  )
