-- ===== src/Store/PeerSeq/Laws.antt =====
-- Theorems on the peer sequence numbers of store.go.
use capacitor.Prelude.{
  ℕ, ◌≡◌, arith, Text, text_eq, text_eq_iff, max, if◌then◌else◌, ap, refl, Bool-cases, inl, inr,
  ◌==◌,
}
use capacitor.Dict
use capacitor.Dict.{get-put}
use capacitor.Float.{Float64}
use capacitor.Store.Counter.{set_node_count, raise_to, count_kind}
use capacitor.Store.Placement.{shard_index, node_key}
use capacitor.Store.Shard.{Store, StoreShard, with_shard, get_shard, get_shard-with_shard, mark}
use capacitor.Store.PeerSeq.{seq_key, seq_in, raise_seq, update_peer_seq, get_peer_seq}

-- An update raises the node's number to the given one, if that is greater, and keeps those of all
-- other nodes.
pub get-update_peer_seq :
    {F : Type 0} (s : Store F) (node : Text) (seq : ℕ) (j : Text)
    → get_peer_seq (update_peer_seq s node seq) j
      ≡ (if text_eq node j then max (get_peer_seq s j) seq else get_peer_seq s j)
unfolding get_peer_seq update_peer_seq raise_seq mark seq_in Dict.get_or
get-update_peer_seq s node seq j = ground (
  arith,
  get_shard-with_shard s (seq_key node) (seq_key j) (raise_seq node seq),
  get-put (get_shard s (seq_key j)).peer_seqs node j seq,
  text_eq_iff node j,
  ap (λ n. shard_index (seq_key n)) {x = node} {y = j},
)

-- An update of a shard that keeps the seen numbers.
get-with_shard :
    {F : Type 0} (s : Store F) (key : Text) (f : StoreShard F → StoreShard F) (j : Text)
    → ((sh : StoreShard F) → (f sh).peer_seqs ≡ sh.peer_seqs)
    → get_peer_seq (with_shard s key f) j ≡ get_peer_seq s j
unfolding get_peer_seq seq_in
get-with_shard s key f j keeps = elim (Bool-cases (shard_index (seq_key j) == shard_index key)) [
  | inl e ↦
      rw (get_shard-with_shard s key (seq_key j) f, e)
        (ap (λ d. Dict.get_or d j 0) (keeps (get_shard s (seq_key j))))
  | inr e ↦ rw (get_shard-with_shard s key (seq_key j) f, e) refl
]

-- A counter's number from another node leaves the seen numbers as they are.
pub get-set_node_count :
    (fl : Float64) (s : Store fl.Carrier) (key node : Text) (val : fl.Carrier) (j : Text)
    → get_peer_seq (set_node_count fl s key node val) j ≡ get_peer_seq s j
unfolding set_node_count
get-set_node_count fl s key node val j =
    get-with_shard s key (raise_to fl (node_key count_kind key node) key val) j
      (λ sh. unfold raise_to mark in ground arith)
