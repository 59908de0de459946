-- ===== src/Store/Persist.antt =====
-- store.go: persistence, `flush` into a badger write batch and `load` from the database. Badger is not
-- modelled: a flush yields the list of the batch's operations, and a load goes over the entries that the
-- iterator gives. The encoding of a `valWithTS` by msgpack is an interface.
pub mod Counters
pub mod PeerSeqs
pub mod Windows
pub mod Registers
pub mod Load
pub mod Flush
use capacitor.Prelude.{
  ℕ, zero, suc, ◌+◌, Bool, true, false, Option, none, some, List, [], ◌∷◌, ◌++◌, map, Text, codes,
  ℤ, pos, ◌-ℤ◌, ltb_ℤ, wrap64, if◌then◌else◌, drop,
}
use capacitor.Dict
use capacitor.Float.{Float64}
use capacitor.Strings.{colon, has_prefix, split, decimal, parse_int, to_be64, from_be64}
use capacitor.Store.Placement.{num_shards, seq_prefix, node_key}
use capacitor.Store.Shard.{ValWithTs, StoreShard, Store, with_shard}
use capacitor.Store.Cache.{is_expired}
use capacitor.Store.Counter.{metric_count_key, metric_sum_key, aggregate_at}
use capacitor.Store.Window.{window_in}

-- An operation of the write batch: a value with an optional time to live, or a deletion.
pub data WriteOp : Type 0 where
  put : Text → List ℕ → Option ℤ → WriteOp
  del : Text → WriteOp

-- msgpack.Marshal of an entry (no bytes on an error) and msgpack.Unmarshal.
pub record EntryCodec : Type 0 where
  pub marshal_entry : ValWithTs → List ℕ
  pub unmarshal_entry : List ℕ → Option ValWithTs

abbrev pub window_kind : Text
window_kind = codes "sw"

module _ (fl : Float64) (codec : EntryCodec) where
  open fl use {Carrier, zero_f, add, of_uint, to_uint, bits, from_bits}
  open codec use {marshal_entry, unmarshal_entry}

  unfoldable pub float_to_bytes : Carrier → List ℕ
  float_to_bytes f = to_be64 (bits f)

  unfoldable pub float_from_bytes : List ℕ → Carrier
  float_from_bytes b = elim (from_be64 b) [ none ↦ zero_f | some n ↦ from_bits n ]

  -- `snapshotItem`. An empty window is Go's nil slice.
  pub record Item : Type 0 where
    pub key : Text
    pub val : Option ValWithTs
    pub count : Carrier
    pub win : List ℤ
    pub deleted : Bool

  no_item : Text → Item
  no_item k = record { key = k; val = none; count = zero_f; win = []; deleted = false }

  -- The first of the four maps that has the key gives the item.
  unfoldable pub snapshot : StoreShard Carrier → Text → Item
  unfolding no_item
  snapshot sh k = elim (Dict.get sh.cache k) [
    | some v ↦ record (no_item k) { val = some v }
    | none ↦ elim (Dict.get sh.counts k) [
      | some c ↦ record (no_item k) { count = c }
      | none ↦ elim (Dict.get sh.windows k) [
        | some w ↦ record (no_item k) { win = w }
        | none ↦ elim (Dict.get sh.peer_seqs k) [
          | some seq ↦ record (no_item k) { count = of_uint seq }
          | none ↦ record (no_item k) { deleted = true }
        ]
      ]
    ]
  ]

  write_val : ℤ → Text → ValWithTs → WriteOp
  write_val now k v =
      if ltb_ℤ (pos 0) v.expires_at
      then (let remaining = wrap64 (v.expires_at -ℤ now) in
          if ltb_ℤ (pos 0) remaining then put k (marshal_entry v) (some remaining) else del k)
      else put k (marshal_entry v) none

  -- What is neither an entry nor a window with events must be a counter.
  write_rest : Text → Carrier → List ℤ → List WriteOp
  write_rest k c [] = put k (float_to_bytes c) none ∷ []
  write_rest k c (t ∷ ts) = map (λ u. put (node_key window_kind k (decimal u)) [] none) (t ∷ ts)

  unfoldable pub write_item : ℤ → Item → List WriteOp
  unfolding write_val write_rest float_to_bytes
  write_item now item =
      if item.deleted
      then del item.key ∷ []
      else if has_prefix item.key seq_prefix
      then put item.key (to_be64 (to_uint item.count)) none ∷ []
      else elim item.val [
        | some v ↦ write_val now item.key v ∷ []
        | none ↦ write_rest item.key item.count item.win
      ]

  -- The operations for the dirty keys, with the clock reading for each key.
  write_keys : (Text → ℤ) → StoreShard Carrier → List (Text × Bool) → List WriteOp
  unfolding snapshot write_item
  write_keys clock sh [] = []
  write_keys clock sh ((k, b) ∷ keys) =
      write_item (clock k) (snapshot sh k) ++ write_keys clock sh keys

  -- The shard with no dirty key, and the operations.
  unfoldable pub flush_shard : (Text → ℤ) → StoreShard Carrier → StoreShard Carrier × List WriteOp
  unfolding write_keys
  flush_shard clock sh = (record sh { dirty = Dict.empty }, write_keys clock sh sh.dirty.entries)

  write_shards : (Text → ℤ) → ℕ → Store Carrier → List WriteOp
  unfolding flush_shard
  write_shards clock zero s = []
  write_shards clock (suc i) s = write_shards clock i s ++ (flush_shard clock (s.shards i)).1

  unfoldable pub flush : (Text → ℤ) → Store Carrier → Store Carrier × List WriteOp
  unfolding write_shards
  flush clock s =
      (record { shards = λ i. (flush_shard clock (s.shards i)).0 }, write_shards clock num_shards s)

  add_aggregate : Text → Carrier → StoreShard Carrier → StoreShard Carrier
  add_aggregate k v sh = record sh {
    aggregate_counts = Dict.put sh.aggregate_counts k (add (aggregate_at fl sh k) v);
  }

  -- The count of the whole key, and its share in the aggregate under `name` of the second part.
  load_count : (Text → Text) → Text → List Text → Carrier → StoreShard Carrier → StoreShard Carrier
  unfolding add_aggregate
  load_count name key (kind ∷ k ∷ node ∷ rest) v sh =
      add_aggregate (name k) v (record sh { counts = Dict.put sh.counts key v })
  load_count name key parts v sh = record sh { counts = Dict.put sh.counts key v }

  load_window : List Text → StoreShard Carrier → StoreShard Carrier
  load_window (kind ∷ k ∷ t ∷ rest) sh = record sh {
    windows = Dict.put sh.windows k (window_in sh k ++ (parse_int t ∷ []));
  }
  load_window parts sh = sh

  -- One entry of the database. `none` is a panic, on a short sequence number.
  unfoldable pub load_entry : ℤ → Store Carrier → Text → List ℕ → Option (Store Carrier)
  unfolding load_count load_window float_from_bytes
  load_entry now s key val =
      if has_prefix key seq_prefix
      then elim (from_be64 val) [
        | none ↦ none
        | some seq ↦ some (
            with_shard s key
              (λ sh. record sh { peer_seqs = Dict.put sh.peer_seqs (drop 9 key) seq }))
      ]
      else if has_prefix key (codes "c:")
      then some
          (with_shard s key (load_count (λ k. k) key (split colon key) (float_from_bytes val)))
      else if has_prefix key (codes "mc:")
      then some (
          with_shard s key
            (load_count metric_count_key key (split colon key) (float_from_bytes val)))
      else if has_prefix key (codes "ms:")
      then some (
          with_shard s key (load_count metric_sum_key key (split colon key) (float_from_bytes val)))
      else if has_prefix key (codes "sw:")
      then some (with_shard s key (load_window (split colon key)))
      else elim (unmarshal_entry val) [
        | none ↦ some s
        | some v ↦ some (
            if is_expired now v
            then s
            else with_shard s key (λ sh. record sh { cache = Dict.put sh.cache key v }))
      ]

  -- The loop over the database, with the clock reading for each key. A database gives each key
  -- once; the loop does not depend on that.
  unfoldable pub load : (Text → ℤ) → Store Carrier → List (Text × List ℕ) → Option (Store Carrier)
  unfolding load_entry
  load clock s [] = some s
  load clock s ((key, val) ∷ items) = elim (load_entry (clock key) s key val) [
    | none ↦ none
    | some s' ↦ load clock s' items
  ]
