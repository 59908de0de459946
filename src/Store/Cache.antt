-- ===== src/Store/Cache.antt =====
-- store.go: registers with last-write-wins, `set`, `get`, `exists`, `delete`, `pruneExpiredKeys` and
-- `CacheSize`. The methods' `error` result is always nil and is left out.
pub mod Entry
pub mod Reads
pub mod Converge
pub mod Prune
use capacitor.Prelude.{
  ℕ, zero, suc, ◌+◌, Bool, true, false, not, ◌&&◌, Option, none, some, List, [], ◌∷◌, Text, ℤ, pos,
  ◌+ℤ◌, ltb, ltb_ℤ, wrap64, if◌then◌else◌,
}
use capacitor.Dict
use capacitor.Hlc.{Timestamp, greater_or_equal}
use capacitor.Store.Placement.{num_shards}
use capacitor.Store.Shard.{Value, nil, ValWithTs, StoreShard, Store, get_shard, with_shard, mark}

-- One hour in nanoseconds: the life of a tombstone.
abbrev pub gc_grace : ℤ
gc_grace = pos 3_600_000_000_000

-- `ok && existing.Timestamp.GreaterOrEqual(ts)`: the write is dropped.
unfoldable pub is_stale : Option ValWithTs → Timestamp → Bool
is_stale none ts = false
is_stale (some existing) ts = greater_or_equal existing.timestamp ts

-- `vTS.ExpiresAt > 0 && now > vTS.ExpiresAt`
unfoldable pub is_expired : ℤ → ValWithTs → Bool
is_expired now v = ltb_ℤ (pos 0) v.expires_at && ltb_ℤ v.expires_at now

-- What `set` and `delete` put into the cache.
unfoldable pub live_value : Value → Timestamp → ℤ → ValWithTs
live_value value ts ttl = record {
  value = value;
  timestamp = ts;
  expires_at = if ltb_ℤ (pos 0) ttl then wrap64 (ts.physical +ℤ ttl) else pos 0;
  deleted = false;
}

unfoldable pub tombstone : Timestamp → ValWithTs
tombstone ts = record {
  value = nil;
  timestamp = ts;
  expires_at = wrap64 (ts.physical +ℤ gc_grace);
  deleted = true;
}

-- What `get` and `exists` make of an entry.
read : ℤ → Option ValWithTs → Value
unfolding is_expired
read now none = nil
read now (some v) = if v.deleted then nil else if is_expired now v then nil else v.value

present : ℤ → Option ValWithTs → Bool
unfolding is_expired
present now none = false
present now (some v) = if v.deleted then false else if is_expired now v then false else true

module _ {F : Type 0} where
  write_shard : Text → ValWithTs → StoreShard F → StoreShard F
  unfolding is_stale mark
  write_shard key v sh =
      if is_stale (Dict.get sh.cache key) v.timestamp
      then sh
      else mark (record sh { cache = Dict.put sh.cache key v }) key

  unfoldable pub set : Store F → Text → Value → Timestamp → ℤ → Store F
  unfolding write_shard
  set s key value ts ttl = with_shard s key (write_shard key (live_value value ts ttl))

  unfoldable pub delete : Store F → Text → Timestamp → Store F
  unfolding write_shard
  delete s key ts = with_shard s key (write_shard key (tombstone ts))

  -- The entry of a key, present or not.
  unfoldable pub entry : Store F → Text → Option ValWithTs
  entry s key = Dict.get (get_shard s key).cache key

  unfoldable pub get : ℤ → Store F → Text → Value
  unfolding read entry
  get now s key = read now (entry s key)

  unfoldable pub exists : ℤ → Store F → Text → Bool
  unfolding present entry
  exists now s key = present now (entry s key)

  -- The loop over one shard's cache: expired entries are deleted, and their keys are dirty.
  prune_entries : ℤ → List (Text × ValWithTs) → StoreShard F → StoreShard F
  unfolding is_expired mark
  prune_entries now [] sh = sh
  prune_entries now ((key, v) ∷ rest) sh =
      prune_entries now rest
        (if is_expired now v then mark (record sh { cache = Dict.remove sh.cache key }) key else sh)

  prune_shard : ℤ → StoreShard F → StoreShard F
  unfolding prune_entries
  prune_shard now sh = prune_entries now sh.cache.entries sh

  -- The shards are independent, so the loop over them is pointwise.
  unfoldable pub prune_expired_keys : ℤ → Store F → Store F
  unfolding prune_shard
  prune_expired_keys now s = record {
    shards = λ i. if ltb i num_shards then prune_shard now (s.shards i) else s.shards i;
  }

  size_below : ℕ → Store F → ℕ
  size_below zero s = 0
  size_below (suc n) s = size_below n s + Dict.size (s.shards n).cache

  unfoldable pub cache_size : Store F → ℕ
  unfolding size_below
  cache_size s = size_below num_shards s
