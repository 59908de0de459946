-- ===== src/Store/Persist/Load.antt =====
-- `load` of store.go on a whole database.
use capacitor.Prelude.{
  ℕ, ◌≡◌, ◌≢◌, ◌⊎◌, refl, false, arith, some, List, [], ◌∷◌, ◌++◌, Text, text_eq_iff, ℤ, inl, inr,
  Bool-cases, Option-cases, drop, ap, ◌∙◌, codes, ◌==◌,
}
use capacitor.Dict
use capacitor.Dict.{get-put}
use capacitor.Float.{Float64}
use capacitor.Strings.{colon, split, has_prefix, from_be64}
use capacitor.Store.Placement.{seq_prefix, shard_index}
use capacitor.Store.Shard.{
  ValWithTs, StoreShard, Store, get_shard, with_shard, get_shard-with_shard,
}
use capacitor.Store.Counter.{metric_count_key, metric_sum_key}
use capacitor.Store.Cache.{is_expired, entry}
use capacitor.Store.Persist.{
  EntryCodec, load_entry, load_count, add_aggregate, load_window, float_from_bytes, load,
}
use capacitor.Store.Persist.Registers.{IsPlain, load_entry-plain, entry-restored}

-- A sequence number has its eight bytes. Other entries are read whatever their bytes are.
abbrev pub Readable : Text → List ℕ → Type 0
Readable k val = (has_prefix k seq_prefix ≡ false) ⊎ ((n : ℕ) × (from_be64 val ≡ some n))

abbrev pub AllReadable : List (Text × List ℕ) → Type 0
AllReadable [] = Unit
AllReadable ((k, val) ∷ items) = Readable k val × AllReadable items

-- No item is under the key.
abbrev pub NoneUnder : Text → List (Text × List ℕ) → Type 0
NoneUnder key [] = Unit
NoneUnder key ((k, val) ∷ items) = (k ≢ key) × NoneUnder key items

module _ {F : Type 0} (s : Store F) (k : Text) where
  -- Two updates of a shard that leave the register of `key` alone.
  entry-same_cache :
      (f : StoreShard F → StoreShard F) (key : Text)
      → ((sh : StoreShard F) → (f sh).cache ≡ sh.cache)
      → entry (with_shard s k f) key ≡ entry s key
  unfolding entry
  entry-same_cache f key same = elim (Bool-cases (shard_index key == shard_index k)) [
    | inl e ↦
        rw (get_shard-with_shard s k key f, e) (ap (λ c. Dict.get c key) (same (get_shard s key)))
    | inr e ↦ rw (get_shard-with_shard s k key f, e) refl
  ]

  entry-put_cache :
      (v : ValWithTs) (key : Text)
      → k ≢ key
      → entry (with_shard s k (λ sh. record sh { cache = Dict.put sh.cache k v })) key ≡ entry s key
  unfolding entry
  entry-put_cache v key ne = elim (Bool-cases (shard_index key == shard_index k)) [
    | inl e ↦
        rw (get_shard-with_shard s k key (λ sh. record sh { cache = Dict.put sh.cache k v }), e)
          (ground (arith, get-put (get_shard s key).cache k key v, text_eq_iff k key))
    | inr e ↦
        rw (get_shard-with_shard s k key (λ sh. record sh { cache = Dict.put sh.cache k v }), e)
          refl
  ]

module _ (fl : Float64) (codec : EntryCodec) where
  open fl use {Carrier}
  open codec use {marshal_entry, unmarshal_entry}

  cache-load_count :
      (name : Text → Text) (k : Text) (parts : List Text) (v : Carrier) (sh : StoreShard Carrier)
      → (load_count fl codec name k parts v sh).cache ≡ sh.cache
  unfolding load_count add_aggregate
  cache-load_count name k [] v sh = refl
  cache-load_count name k (a ∷ []) v sh = refl
  cache-load_count name k (a ∷ b ∷ []) v sh = refl
  cache-load_count name k (a ∷ b ∷ c ∷ rest) v sh = refl

  cache-load_window :
      (parts : List Text) (sh : StoreShard Carrier)
      → (load_window fl codec parts sh).cache ≡ sh.cache
  unfolding load_window
  cache-load_window [] sh = refl
  cache-load_window (a ∷ []) sh = refl
  cache-load_window (a ∷ b ∷ []) sh = refl
  cache-load_window (a ∷ b ∷ c ∷ rest) sh = refl

  -- The entry is loaded, and the registers of other keys stay as they are.
  abbrev Loads : ℤ → Store Carrier → Text → List ℕ → Type 0
  Loads now s k val =
      (s' : Store Carrier) × (load_entry fl codec now s k val ≡ some s')
      × ((key : Text) → k ≢ key → entry s' key ≡ entry s key)

  load_register :
      (now : ℤ) (s : Store Carrier) (k : Text) (val : List ℕ) → IsPlain k → Loads now s k val
  load_register now s k val plain = elim (Option-cases (unmarshal_entry val)) [
    | inl bad ↦ (s, rw (load_entry-plain fl codec k plain now s val, bad) refl, λ key ne. refl)
    | inr (v, decoded) ↦ elim (Bool-cases (is_expired now v)) [
      | inl e ↦
          (s, rw (load_entry-plain fl codec k plain now s val, decoded, e) refl, λ key ne. refl)
      | inr e ↦ (
        with_shard s k (λ sh. record sh { cache = Dict.put sh.cache k v }),
        rw (load_entry-plain fl codec k plain now s val, decoded, e) refl,
        λ key ne. entry-put_cache s k v key ne,
      )
    ]
  ]

  load_other :
      (now : ℤ) (s : Store Carrier) (k : Text) (val : List ℕ)
      → has_prefix k seq_prefix ≡ false
      → Loads now s k val
  load_other now s k val e₁ = elim (Bool-cases (has_prefix k (codes "c:"))) [
    | inl e ↦ counted (λ a. a) (unfold load_entry in rw (e₁, e) refl)
    | inr e₂ ↦ elim (Bool-cases (has_prefix k (codes "mc:"))) [
      | inl e ↦ counted metric_count_key (unfold load_entry in rw (e₁, e₂, e) refl)
      | inr e₃ ↦ elim (Bool-cases (has_prefix k (codes "ms:"))) [
        | inl e ↦ counted metric_sum_key (unfold load_entry in rw (e₁, e₂, e₃, e) refl)
        | inr e₄ ↦ elim (Bool-cases (has_prefix k (codes "sw:"))) [
          | inl e ↦ (
            with_shard s k (load_window fl codec (split colon k)),
            unfold load_entry in rw (e₁, e₂, e₃, e₄, e) refl,
            λ key ne.
                entry-same_cache s k (load_window fl codec (split colon k)) key
                  (cache-load_window (split colon k)),
          )
          | inr e₅ ↦ load_register now s k val (record {
            not_seq = e₁;
            not_count = e₂;
            not_metric_count = e₃;
            not_metric_sum = e₄;
            not_window = e₅;
          })
        ]
      ]
    ]
  ]
    where
      counted :
          (name : Text → Text)
          → load_entry fl codec now s k val
            ≡ some (
                with_shard s k
                  (load_count fl codec name k (split colon k) (float_from_bytes fl codec val)))
          → Loads now s k val
      counted name loaded = (
        _,
        loaded,
        λ key ne.
            entry-same_cache s k _ key
              (cache-load_count name k (split colon k) (float_from_bytes fl codec val)),
      )

  load_entry_lem :
      (now : ℤ) (s : Store Carrier) (k : Text) (val : List ℕ) → Readable k val → Loads now s k val
  load_entry_lem now s k val (inl plain) = load_other now s k val plain
  load_entry_lem now s k val (inr (n, bytes)) = elim (Bool-cases (has_prefix k seq_prefix)) [
    | inl e ↦ (
      with_shard s k (λ sh. record sh { peer_seqs = Dict.put sh.peer_seqs (drop 9 k) n }),
      unfold load_entry in rw (e, bytes) refl,
      λ key ne. entry-same_cache s k _ key (λ sh. refl),
    )
    | inr e ↦ load_other now s k val e
  ]

  load-cons :
      (clock : Text → ℤ) (s s₁ : Store Carrier) (k : Text) (val : List ℕ)
      (items : List (Text × List ℕ))
      → load_entry fl codec (clock k) s k val ≡ some s₁
      → load fl codec clock s ((k, val) ∷ items) ≡ load fl codec clock s₁ items
  unfolding load
  load-cons clock s s₁ k val items first = rw (load, first) refl

  -- The whole of a database that is readable is loaded, and the registers of keys that are not in it stay.
  load_items :
      (clock : Text → ℤ) (s : Store Carrier) (items : List (Text × List ℕ))
      → AllReadable items
      → (s' : Store Carrier) × (load fl codec clock s items ≡ some s')
        × ((key : Text) → NoneUnder key items → entry s' key ≡ entry s key)
  unfolding load
  load_items clock s [] ok = (s, refl, λ key none_under. refl)
  load_items clock s ((k, val) ∷ items) (readable, ok) =
      let (s₁, first, keeps₁) = load_entry_lem (clock k) s k val readable in
      let (s', rest, keeps) = load_items clock s₁ items ok in
      (
        s',
        load-cons clock s s₁ k val items first ∙ rest,
        λ key (ne, later). keeps key later ∙ keeps₁ key ne,
      )

  -- A database whose sequence numbers have eight bytes, with an entry under a plain key, of which
  -- there is no later item: if msgpack decodes what it encoded, and the entry has not expired, the load
  -- does not panic, and that very entry is under the key, whatever the other items are.
  pub entry-load :
      (clock : Text → ℤ) (s : Store Carrier) (before later : List (Text × List ℕ)) (key : Text)
      (v : ValWithTs)
      → IsPlain key
      → AllReadable before
      → AllReadable later
      → NoneUnder key later
      → unmarshal_entry (marshal_entry v) ≡ some v
      → is_expired (clock key) v ≡ false
      → (s' : Store Carrier) × (load fl codec clock s (before ++ ((key, marshal_entry v) ∷ later))
          ≡ some s')
        × (entry s' key ≡ some v)
  entry-load clock s [] later key v plain ok_before ok_later alone decoded live =
      let (s₁, first, holds) = entry-restored fl codec key plain v (clock key) s decoded live in
      let (s', rest, keeps) = load_items clock s₁ later ok_later in
      (s', load-cons clock s s₁ key (marshal_entry v) later first ∙ rest, keeps key alone ∙ holds)
  entry-load clock s ((k, val) ∷ before) later key v plain (readable, ok) ok_later alone decoded
        live =
      let (s₁, first, keeps) = load_entry_lem (clock k) s k val readable in
      let (s', rest, holds) =
        entry-load clock s₁ before later key v plain ok ok_later alone decoded live in
      (
        s',
        load-cons clock s s₁ k val (before ++ ((key, marshal_entry v) ∷ later)) first ∙ rest,
        holds,
      )
