-- ===== src/Store/Cache/Prune.antt =====
-- Theorems on `pruneExpiredKeys` of store.go.
use capacitor.Prelude.{
  ℕ, ◌≡◌, refl, true, arith, none, some, Text, ℤ, List, [], ◌∷◌, if◌then◌else◌, ◌≤ℤ◌, ltb, inl, inr,
  Bool-cases, false, pos, ◌+ℤ◌, ◌<ℤ◌, InInt64, wrap64_exact, +ℤ_parts, ◌∙◌,
}
use capacitor.Dict
use capacitor.Dict.{
  Dict, IsMap, get-remove, get-put, has_entry, has_entry-get, put-IsMap, remove-IsMap,
}
use capacitor.Hlc.{Timestamp, after}
use capacitor.Store.Cache.Entry.{join}
use capacitor.Store.Cache.Reads.{get-delete, get-set_forever, entry-delete_self}
use capacitor.Store.Placement.{num_shards, shard_index}
use capacitor.Store.Placement.Laws.{shard_index_bound}
use capacitor.Store.Shard.{
  Value, nil, ValWithTs, StoreShard, Store, get_shard, with_shard_keeps, mark,
}
use capacitor.Store.Cache.{
  gc_grace, is_expired, is_stale, live_value, tombstone, write_shard, set, delete, entry, get,
  exists, prune_entries, prune_shard, prune_expired_keys,
}

module _ {F : Type 0} where
  -- Every cache is a proper map.
  abbrev pub HasMaps : Store F → Type 0
  HasMaps s = (i : ℕ) → IsMap (s.shards i).cache

  write-IsMap :
      (key : Text) (v : ValWithTs) (sh : StoreShard F)
      → IsMap sh.cache
      → IsMap (write_shard key v sh).cache
  unfolding write_shard mark
  write-IsMap key v sh u = elim (Bool-cases (is_stale (Dict.get sh.cache key) v.timestamp)) [
    | inl e ↦ rw e u
    | inr e ↦ rw e (put-IsMap sh.cache key v u)
  ]

  -- `set` and `delete` keep the caches proper maps.
  pub set-HasMaps :
      (s : Store F) (key : Text) (value : Value) (ts : Timestamp) (ttl : ℤ)
      → HasMaps s
      → HasMaps (set s key value ts ttl)
  unfolding set
  set-HasMaps s key value ts ttl h =
      let v = live_value value ts ttl in
      with_shard_keeps {P = λ sh. IsMap sh.cache} s key (write_shard key v) (write-IsMap key v) h

  pub delete-HasMaps :
      (s : Store F) (key : Text) (ts : Timestamp) → HasMaps s → HasMaps (delete s key ts)
  unfolding delete
  delete-HasMaps s key ts h =
      let v = tombstone ts in
      with_shard_keeps {P = λ sh. IsMap sh.cache} s key (write_shard key v) (write-IsMap key v) h

  module _ (now : ℤ) where
    prune_entries-IsMap :
        (l : List (Text × ValWithTs)) (sh : StoreShard F)
        → IsMap sh.cache
        → IsMap (prune_entries now l sh).cache
    unfolding prune_entries
    prune_entries-IsMap [] sh u = u
    prune_entries-IsMap ((k, v) ∷ l) sh u =
        prune_entries-IsMap l
          (if is_expired now v then mark (record sh { cache = Dict.remove sh.cache k }) k else sh)
          (elim (Bool-cases (is_expired now v)) [
            | inl e ↦ rw e (unfold mark in remove-IsMap sh.cache k u)
            | inr e ↦ rw e u
          ])

    cache-prune_entries :
        (l : List (Text × ValWithTs)) (sh : StoreShard F) (j : Text)
        → Dict.get (prune_entries now l sh).cache j
          ≡ (if has_entry (is_expired now) j l then none else Dict.get sh.cache j)
    unfolding prune_entries has_entry mark
    cache-prune_entries [] sh j = refl
    cache-prune_entries ((k, v) ∷ l) sh j = ground (
      arith,
      get-remove sh.cache k j,
      cache-prune_entries l sh j,
      cache-prune_entries l (mark (record sh { cache = Dict.remove sh.cache k }) k) j,
    )

    dirty-prune_entries :
        (l : List (Text × ValWithTs)) (sh : StoreShard F) (j : Text)
        → Dict.get (prune_entries now l sh).dirty j
          ≡ (if has_entry (is_expired now) j l then some true else Dict.get sh.dirty j)
    unfolding prune_entries has_entry mark
    dirty-prune_entries [] sh j = refl
    dirty-prune_entries ((k, v) ∷ l) sh j = ground (
      arith,
      get-put sh.dirty k j true,
      dirty-prune_entries l sh j,
      dirty-prune_entries l (mark (record sh { cache = Dict.remove sh.cache k }) k) j,
    )

    pub prune-HasMaps : (s : Store F) → HasMaps s → HasMaps (prune_expired_keys now s)
    unfolding prune_expired_keys
    prune-HasMaps s h i = elim (Bool-cases (ltb i num_shards)) [
      | inl e ↦ rw e (prune_entries-IsMap (s.shards i).cache.entries (s.shards i) (h i))
      | inr e ↦ rw e (h i)
    ]

    get_shard-prune :
        (s : Store F) (key : Text)
        → get_shard (prune_expired_keys now s) key ≡ prune_shard now (get_shard s key)
    unfolding prune_expired_keys get_shard
    get_shard-prune s key = ground (arith, shard_index_bound key)

    -- Where the caches are proper maps: pruning deletes the entry of a key exactly if it has
    -- expired, and marks the key as dirty exactly then.
    pub entry-prune :
        (s : Store F) (key : Text)
        → HasMaps s
        → (entry (prune_expired_keys now s) key ≡ elim (entry s key) [
          | none ↦ none
          | some v ↦ (if is_expired now v then none else some v)
        ])
          × (Dict.get (get_shard (prune_expired_keys now s) key).dirty key ≡ elim (entry s key) [
            | none ↦ Dict.get (get_shard s key).dirty key
            | some v ↦
                (if is_expired now v then some true else Dict.get (get_shard s key).dirty key)
          ])
    unfolding entry get_shard
    entry-prune s key h = rw (get_shard-prune s key) (
      unfold prune_shard in
          ground (
            arith,
            cache-prune_entries sh.cache.entries sh key,
            has_entry-get (is_expired now) sh.cache key u,
          ),
      unfold prune_shard in
          ground (
            arith,
            dirty-prune_entries sh.cache.entries sh key,
            has_entry-get (is_expired now) sh.cache key u,
          ),
    )
      where
        sh : StoreShard F
        sh = get_shard s key

        u : IsMap sh.cache
        u = h (shard_index key)

  -- Where the caches are proper maps: after the expired keys were pruned, a reader at that time or
  -- later gets the same answers as without it.
  pub get-prune :
      (now later : ℤ) (s : Store F) (key : Text)
      → HasMaps s
      → now ≤ℤ later
      → (get later (prune_expired_keys now s) key ≡ get later s key)
        × (exists later (prune_expired_keys now s) key ≡ exists later s key)
  unfolding get exists is_expired
  get-prune now later s key h le = ground (arith, entry-prune now s key h)

  -- Where the caches are proper maps: after a delete that is not stale, whose timestamp is not negative
  -- and whose tombstone's expiry fits an int64, a `set` without a TTL that is not after the delete is
  -- dropped; but if the tombstone's hour is over and expired keys were pruned in between, its value
  -- is read.
  pub delete-revived :
      (now later : ℤ) (s : Store F) (key : Text) (ts ts' : Timestamp) (value : Value) (ttl : ℤ)
      → HasMaps s
      → is_stale (entry s key) ts ≡ false
      → after ts' ts ≡ false
      → pos 0 ≤ℤ ts.physical
      → InInt64 (ts.physical +ℤ gc_grace)
      → ts.physical +ℤ gc_grace <ℤ now
      → ttl ≤ℤ pos 0
      → (get later (set (delete s key ts) key value ts' ttl) key ≡ nil)
        × (get later (set (prune_expired_keys now (delete s key ts)) key value ts' ttl) key ≡ value)
  delete-revived now later s key ts ts' value ttl maps fresh older early fits over forever = (
    (get-delete s key ts later value ts' ttl fresh older).2,
    (get-set_forever (prune_expired_keys now (delete s key ts)) key value ts' ttl later missing
        forever).0,
  )
    where
      buried : entry (delete s key ts) key ≡ some (tombstone ts)
      buried =
          entry-delete_self s key ts ∙ (unfold join is_stale tombstone in ground (arith, fresh))

      expired : is_expired now (tombstone ts) ≡ true
      expired =
          unfold is_expired tombstone in
          ground (arith, wrap64_exact (ts.physical +ℤ gc_grace) fits, +ℤ_parts ts.physical gc_grace)

      gone : entry (prune_expired_keys now (delete s key ts)) key ≡ none
      gone =
          (entry-prune now (delete s key ts) key (delete-HasMaps s key ts maps)).0
          ∙ rw (buried, expired) refl

      missing : is_stale (entry (prune_expired_keys now (delete s key ts)) key) ts' ≡ false
      missing = rw gone (unfold is_stale in refl)
