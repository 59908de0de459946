-- ===== src/Store/Persist/Registers.antt =====
-- Registers of store.go through a flush and a load.
use capacitor.Prelude.{
  ℕ, List, refl, ◌≡◌, false, arith, none, some, [], ◌∷◌, Text, text_eq_iff, ℤ, pos, ◌-ℤ◌, ltb_ℤ,
  InInt64, wrap64_exact, -ℤ_parts, codes, if◌then◌else◌,
}
use capacitor.Dict
use capacitor.Dict.{get-put}
use capacitor.Float.{Float64}
use capacitor.Strings.{has_prefix}
use capacitor.Store.Placement.{seq_prefix}
use capacitor.Store.Shard.{
  ValWithTs, StoreShard, Store, get_shard, with_shard, get_shard-with_shard_self,
}
use capacitor.Store.Cache.{is_expired, entry}
use capacitor.Store.Persist.{
  EntryCodec, put, del, snapshot, write_item, no_item, write_val, load_entry,
}

-- A key that the load does not take for another kind of data.
pub record IsPlain (key : Text) : Type 0 where
  pub not_seq : has_prefix key seq_prefix ≡ false
  pub not_count : has_prefix key (codes "c:") ≡ false
  pub not_metric_count : has_prefix key (codes "mc:") ≡ false
  pub not_metric_sum : has_prefix key (codes "ms:") ≡ false
  pub not_window : has_prefix key (codes "sw:") ≡ false

module _ (fl : Float64) (codec : EntryCodec) (key : Text) (plain : IsPlain key) where
  open fl use {Carrier}
  open codec use {unmarshal_entry}

  -- What a load makes of an entry under a plain key.
  pub load_entry-plain :
      (later : ℤ) (s : Store Carrier) (val : List ℕ)
      → load_entry fl codec later s key val ≡ elim (unmarshal_entry val) [
        | none ↦ some s
        | some u ↦ some (
            if is_expired later u
            then s
            else with_shard s key (λ sh. record sh { cache = Dict.put sh.cache key u }))
      ]
  unfolding load_entry
  load_entry-plain later s val =
      rw
        (
          plain.not_seq, plain.not_count, plain.not_metric_count, plain.not_metric_sum,
          plain.not_window,
        )
        refl

module _ (fl : Float64) (codec : EntryCodec) (key : Text) (plain : IsPlain key)
    (v : ValWithTs) where
  open fl use {Carrier}
  open codec use {marshal_entry, unmarshal_entry}

  -- What a flush writes for an entry: the entry, for as long as it has to live, if it has an expiry; and
  -- a deletion if it has expired.
  pub write-entry :
      (now : ℤ) (sh : StoreShard Carrier)
      → Dict.get sh.cache key ≡ some v
      → InInt64 (v.expires_at -ℤ now)
      → write_item fl codec now (snapshot fl codec sh key)
        ≡ (if ltb_ℤ (pos 0) v.expires_at
            then (if ltb_ℤ now v.expires_at
                then put key (marshal_entry v) (some (v.expires_at -ℤ now))
                else del key)
            else put key (marshal_entry v) none)
          ∷ []
  unfolding snapshot write_item no_item write_val
  write-entry now sh e fits =
      ground (
        arith,
        e,
        plain.not_seq,
        wrap64_exact (v.expires_at -ℤ now) fits,
        -ℤ_parts v.expires_at now,
      )

  -- An entry under a plain key, if msgpack decodes what it encoded, and the entry has not expired at
  -- the time of the load: the load of the encoded entry puts that very entry under the key.
  pub entry-restored :
      (later : ℤ) (s : Store Carrier)
      → unmarshal_entry (marshal_entry v) ≡ some v
      → is_expired later v ≡ false
      → (s' : Store Carrier) × (load_entry fl codec later s key (marshal_entry v) ≡ some s')
        × (entry s' key ≡ some v)
  entry-restored later s decoded live = (
    with_shard s key load_it,
    rw (load_entry-plain fl codec key plain later s (marshal_entry v), decoded, live) refl,
    unfold entry in
        rw (get_shard-with_shard_self s key load_it)
          (ground (arith, get-put (get_shard s key).cache key key v, text_eq_iff key key)),
  )
    where
      load_it : StoreShard Carrier → StoreShard Carrier
      load_it sh = record sh { cache = Dict.put sh.cache key v }
