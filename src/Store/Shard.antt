-- ===== src/Store/Shard.antt =====
-- store.go: the data of a shard and of the store. `getShard` picks one of the shards; each operation
-- holds that shard's lock, so it is one step.
use capacitor.Prelude.{
  ℕ, ◌==◌, ◌≡◌, refl, arith, if◌then◌else◌, Bool, Bool-cases, inl, inr, ap, fun_ext, ==_iff, List,
  Text, ℤ,
}
use capacitor.Dict
use capacitor.Dict.{Dict}
use capacitor.Hlc.{Timestamp}
use capacitor.Store.Placement.{shard_index}

-- A Go value of type `any`, as the code tells them apart: nil, a string, a byte slice, or a value of
-- any other type, which is only passed to msgpack and is known by a number.
pub data Value : Type 0 where
  nil : Value
  text : Text → Value
  blob : List ℕ → Value
  other : ℕ → Value

-- `valWithTS`
pub record ValWithTs : Type 0 where
  pub value : Value
  pub timestamp : Timestamp
  pub expires_at : ℤ
  pub deleted : Bool

-- `F` is the type of `float64` values.
pub record StoreShard (F : Type 0) : Type 0 where
  pub cache : Dict ValWithTs
  pub counts : Dict F
  pub aggregate_counts : Dict F
  pub windows : Dict (List ℤ)
  pub dirty : Dict Bool
  pub peer_seqs : Dict ℕ

-- The shards by their index below `num_shards`. The database and the stop channel stand apart.
pub record Store (F : Type 0) : Type 0 where
  pub shards : ℕ → StoreShard F

unfoldable pub new_store_shard : (F : Type 0) → StoreShard F
new_store_shard F = record {
  cache = Dict.empty;
  counts = Dict.empty;
  aggregate_counts = Dict.empty;
  windows = Dict.empty;
  dirty = Dict.empty;
  peer_seqs = Dict.empty;
}

abbrev pub empty_store : (F : Type 0) → Store F
empty_store F = record { shards = λ i. new_store_shard F }

module _ {F : Type 0} where
  unfoldable pub get_shard : Store F → Text → StoreShard F
  get_shard s key = s.shards (shard_index key)

  -- Runs an update of the shard that `getShard(key)` returns.
  unfoldable pub with_shard : Store F → Text → (StoreShard F → StoreShard F) → Store F
  with_shard s key f = record {
    shards = λ i. if i == shard_index key then f (s.shards i) else s.shards i;
  }

  pub get_shard-with_shard :
      (s : Store F) (key j : Text) (f : StoreShard F → StoreShard F)
      → get_shard (with_shard s key f) j
        ≡ (if shard_index j == shard_index key then f (get_shard s j) else get_shard s j)
  unfolding get_shard with_shard
  get_shard-with_shard s key j f = refl

  pub get_shard-with_shard_self :
      (s : Store F) (key : Text) (f : StoreShard F → StoreShard F)
      → get_shard (with_shard s key f) key ≡ f (get_shard s key)
  unfolding get_shard with_shard
  get_shard-with_shard_self s key f = ground arith

  -- What every update of a shard keeps, an update of one shard keeps for all.
  pub with_shard_keeps :
      {P : StoreShard F → Type 0} (s : Store F) (key : Text) (f : StoreShard F → StoreShard F)
      → ((sh : StoreShard F) → P sh → P (f sh))
      → ((i : ℕ) → P (s.shards i))
      → (i : ℕ) → P ((with_shard s key f).shards i)
  unfolding with_shard
  with_shard_keeps s key f step all i = elim (Bool-cases (i == shard_index key)) [
    | inl e ↦ rw e (step (s.shards i) (all i))
    | inr e ↦ rw e (all i)
  ]

  -- `dirty[key] = true`
  unfoldable pub mark : StoreShard F → Text → StoreShard F
  mark sh key = record sh { dirty = Dict.put sh.dirty key Bool.true }

  -- An update that leaves its shard as it is leaves the store as it is.
  pub with_shard_id :
      (s : Store F) (key : Text) (f : StoreShard F → StoreShard F)
      → f (get_shard s key) ≡ get_shard s key
      → with_shard s key f ≡ s
  unfolding with_shard get_shard
  with_shard_id s key f h = ap (λ (t : ℕ → StoreShard F). record { shards = t }) (fun_ext same)
    where
      same : (i : ℕ) → (if i == shard_index key then f (s.shards i) else s.shards i) ≡ s.shards i
      same i = elim (Bool-cases (i == shard_index key)) [
        | inl e ↦ rw (e, (==_iff i (shard_index key)).0 e) h
        | inr e ↦ rw e
      ]
