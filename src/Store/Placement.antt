-- ===== src/Store/Placement.antt =====
-- store.go: which of the 256 shards holds a key.
pub mod Laws
use Prim.Native.Nat.{bit_xor}
use capacitor.Prelude.{ℕ, ◌+◌, ◌*◌, ◌%◌, ◌^◌, none, some, [], ◌∷◌, ◌++◌, Text, codes, drop, take}
use capacitor.Strings.{colon, index_of}

abbrev pub num_shards : ℕ
num_shards = 256

-- What stands between the first two colons; behind the only one; or the whole key.
unfoldable pub get_shard_key : Text → Text
get_shard_key key = elim (index_of colon key) [
  | none ↦ key
  | some first ↦
      let rest = drop (first + 1) key in
      elim (index_of colon rest) [ none ↦ rest | some second ↦ take second rest ]
]

-- FNV-1a over the bytes, on `uint32`.
hash_from : ℕ → Text → ℕ
hash_from h [] = h
hash_from h (c ∷ s) = hash_from (bit_xor h c * 16777619 % 2 ^ 32) s

unfoldable pub hash : Text → ℕ
unfolding hash_from
hash s = hash_from 2166136261 s

-- The index that `getShard` reads.
unfoldable pub shard_index : Text → ℕ
unfolding get_shard_key hash
shard_index key = hash (get_shard_key key) % num_shards

-- fmt.Sprintf("c:%s:%s", key, nodeID), and so for `mc`, `ms` and `sw`.
unfoldable pub node_key : Text → Text → Text → Text
node_key kind key node = kind ++ (colon ∷ (key ++ (colon ∷ node)))

abbrev pub seq_prefix : Text
seq_prefix = codes "meta:seq:"
