-- ===== src/Store/Persist/Flush.antt =====
-- `flush` of store.go on a whole store, and a restart of a node with a register.
use capacitor.Prelude.{
  ℕ, zero, suc, ◌<◌, ◌≡◌, true, false, arith, none, some, List, [], ◌∷◌, ◌++◌, Text, text_eq,
  text_eq_iff, ℤ, pos, inl, inr, Bool, Bool-cases, In, if◌then◌else◌, ltb_ℤ, ◌==◌, ◌-ℤ◌, ◌<ℤ◌,
  InInt64, sym,
}
use mathlib.Core.Path.{subst}
use capacitor.Dict
use capacitor.Float.{Float64}
use capacitor.Store.Placement.{shard_index, num_shards}
use capacitor.Store.Placement.Laws.{shard_index_bound}
use capacitor.Store.Shard.{ValWithTs, StoreShard, Store, get_shard}
use capacitor.Store.Cache.{is_expired, entry}
use capacitor.Store.Persist.{
  EntryCodec, WriteOp, put, del, snapshot, write_item, write_keys, write_shards, flush_shard, flush,
  load,
}
use capacitor.Store.Persist.Load.{AllReadable, NoneUnder, entry-load}
use capacitor.Store.Persist.Registers.{IsPlain, write-entry}

module _ {A : Type 0} (a : A) where
  In-left : (xs ys : List A) → In a xs → In a (xs ++ ys)
  In-left [] ys i = absurd i
  In-left (x ∷ xs) ys (inl same) = inl same
  In-left (x ∷ xs) ys (inr i) = inr (In-left xs ys i)

  In-right : (xs ys : List A) → In a ys → In a (xs ++ ys)
  In-right [] ys i = i
  In-right (x ∷ xs) ys i = inr (In-right xs ys i)

module _ (fl : Float64) (codec : EntryCodec) (clock : Text → ℤ) where
  open fl use {Carrier}
  open codec use {marshal_entry, unmarshal_entry}

  In-write_keys :
      (sh : StoreShard Carrier) (key : Text) (op : WriteOp) (keys : List (Text × Bool)) (b : Bool)
      → Dict.get (record { entries = keys }) key ≡ some b
      → In op (write_item fl codec (clock key) (snapshot fl codec sh key))
      → In op (write_keys fl codec clock sh keys)
  unfolding write_keys Dict.get
  In-write_keys sh key op [] b e i = absurd (ground (arith, e))
  In-write_keys sh key op ((k, c) ∷ keys) b e i = elim (Bool-cases (text_eq k key)) [
    | inl same ↦
        In-left op (write_item fl codec (clock k) (snapshot fl codec sh k))
          (write_keys fl codec clock sh keys)
          (subst (λ j. In op (write_item fl codec (clock j) (snapshot fl codec sh j)))
            (sym ((text_eq_iff k key).0 same)) i)
    | inr other ↦
        In-right op (write_item fl codec (clock k) (snapshot fl codec sh k))
          (write_keys fl codec clock sh keys) (In-write_keys sh key op keys b (rest other) i)
  ]
    where
      rest : text_eq k key ≡ false → Dict.get (record { entries = keys }) key ≡ some b
      rest other = ground (arith, e, other)

  In-write_shards :
      (s : Store Carrier) (op : WriteOp) (i n : ℕ)
      → i < n
      → In op (flush_shard fl codec clock (s.shards i)).1
      → In op (write_shards fl codec clock n s)
  unfolding write_shards
  In-write_shards s op i zero h found = absurd (omega arith)
  In-write_shards s op i (suc n) h found = elim (Bool-cases (i == n)) [
    | inl same ↦
        In-right op (write_shards fl codec clock n s) (flush_shard fl codec clock (s.shards n)).1 (
          subst (λ j. In op (flush_shard fl codec clock (s.shards j)).1) (ground (arith, same))
            found)
    | inr other ↦
        In-left op (write_shards fl codec clock n s) (flush_shard fl codec clock (s.shards n)).1
          (In-write_shards s op i n (ground (arith, other)) found)
  ]

  -- What a flush has to write for a dirty key is in the batch.
  pub In-flush :
      (s : Store Carrier) (key : Text) (op : WriteOp) (b : Bool)
      → Dict.get (get_shard s key).dirty key ≡ some b
      → In op (write_item fl codec (clock key) (snapshot fl codec (get_shard s key) key))
      → In op (flush fl codec clock s).1
  unfolding flush flush_shard get_shard
  In-flush s key op b dirty i =
      In-write_shards s op (shard_index key) num_shards (shard_index_bound key) (
        In-write_keys (s.shards (shard_index key)) key op (s.shards (shard_index key)).dirty.entries
          b dirty i)

  -- Where the key of a register is plain and dirty, msgpack decodes what it encoded, and the entry has
  -- not expired at the flush nor at the load (with its remaining time in the range of an int64): the
  -- flush writes the encoded entry, for the time that remains if it expires; and the load of any
  -- readable database with these bytes under the key, and no later item under it, does not panic and puts
  -- that very entry under the key.
  pub register-restored :
      (clock' : Text → ℤ) (s fresh : Store Carrier) (key : Text) (v : ValWithTs) (b : Bool)
      (before later : List (Text × List ℕ))
      → IsPlain key
      → Dict.get (get_shard s key).dirty key ≡ some b
      → entry s key ≡ some v
      → (ltb_ℤ (pos 0) v.expires_at ≡ true → clock key <ℤ v.expires_at)
      → InInt64 (v.expires_at -ℤ clock key)
      → unmarshal_entry (marshal_entry v) ≡ some v
      → is_expired (clock' key) v ≡ false
      → AllReadable before
      → AllReadable later
      → NoneUnder key later
      → In
          (put key
            (marshal_entry v)
            (if ltb_ℤ (pos 0) v.expires_at then some (v.expires_at -ℤ clock key) else none))
          (flush fl codec clock s).1
        × ((s' : Store Carrier) × (load fl codec clock' fresh
                (before ++ ((key, marshal_entry v) ∷ later))
              ≡ some s')
            × (entry s' key ≡ some v))
  unfolding entry
  register-restored clock' s fresh key v b before later plain dirty holds alive fits decoded live ok
        ok' alone =
      (
        In-flush s key op b dirty (
            rw (write-entry fl codec key plain v (clock key) (get_shard s key) holds fits)
              (inl written)),
        entry-load fl codec clock' fresh before later key v plain ok ok' alone decoded live,
      )
    where
      op : WriteOp
      op =
          put key (marshal_entry v)
            (if ltb_ℤ (pos 0) v.expires_at then some (v.expires_at -ℤ clock key) else none)

      written :
          (if ltb_ℤ (pos 0) v.expires_at
            then (if ltb_ℤ (clock key) v.expires_at
                then put key (marshal_entry v) (some (v.expires_at -ℤ clock key))
                else del key)
            else put key (marshal_entry v) none)
          ≡ op
      written = ground (arith, alive)
