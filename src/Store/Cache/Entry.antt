-- ===== src/Store/Cache/Entry.antt =====
-- The effect of `set` and `delete` of store.go on the entries of all keys.
use capacitor.Prelude.{◌≡◌, arith, Option, some, Text, text_eq, text_eq_iff, ℤ, if◌then◌else◌, ap}
use capacitor.Dict.{get-put}
use capacitor.Hlc.{Timestamp}
use capacitor.Store.Placement.{shard_index}
use capacitor.Store.Shard.{
  Value, ValWithTs, Store, get_shard, with_shard, get_shard-with_shard, mark,
}
use capacitor.Store.Cache.{is_stale, live_value, tombstone, write_shard, set, delete, entry}

-- The register after a write arrives: the old entry if it is at least as late, else the new one.
unfoldable pub join : Option ValWithTs → ValWithTs → Option ValWithTs
join old v = if is_stale old v.timestamp then old else some v

module _ {F : Type 0} where
  entry-write :
      (s : Store F) (key : Text) (v : ValWithTs) (j : Text)
      → entry (with_shard s key (write_shard key v)) j
        ≡ (if text_eq key j then join (entry s j) v else entry s j)
  unfolding entry write_shard mark join
  entry-write s key v j = ground (
    arith,
    get_shard-with_shard s key j (write_shard key v),
    get-put (get_shard s j).cache key j v,
    text_eq_iff key j,
    ap shard_index {x = key} {y = j},
  )

  pub entry-set :
      (s : Store F) (key : Text) (value : Value) (ts : Timestamp) (ttl : ℤ) (j : Text)
      → entry (set s key value ts ttl) j
        ≡ (if text_eq key j then join (entry s j) (live_value value ts ttl) else entry s j)
  unfolding set
  entry-set s key value ts ttl j = entry-write s key (live_value value ts ttl) j

  pub entry-delete :
      (s : Store F) (key : Text) (ts : Timestamp) (j : Text)
      → entry (delete s key ts) j
        ≡ (if text_eq key j then join (entry s j) (tombstone ts) else entry s j)
  unfolding delete
  entry-delete s key ts j = entry-write s key (tombstone ts) j
