-- ===== src/Store/Persist/Counters.antt =====
-- Counters of store.go through a flush and a load.
use capacitor.Prelude.{
  ℕ, ◌<◌, ◌^◌, ◌≡◌, refl, false, arith, none, some, List, [], ◌∷◌, ◌++◌, Text, text_eq, text_eq_iff,
  ℤ, length, length-append, ap, ◌∙◌, sym, fun_ext, if◌then◌else◌, In, inl, Bool,
}
use mathlib.Core.Path.{subst}
use capacitor.Dict
use capacitor.Dict.{get-put}
use capacitor.Float.{Float64}
use capacitor.Strings.{colon, Lacks, has_prefix, split, split-append, to_be64, from_be64-to_be64}
use capacitor.Store.Placement.{node_key, seq_prefix}
use capacitor.Store.Placement.Laws.{shard_index-node_key}
use capacitor.Store.Shard.{StoreShard, Store, get_shard, with_shard, get_shard-with_shard}
use capacitor.Store.Counter.{
  count_kind, count_at, aggregate_at, get_node_count, get_aggregate_count,
}
use capacitor.Store.Persist.Flush.{In-flush}
use capacitor.Store.Persist.{
  flush, EntryCodec, put, snapshot, write_item, no_item, write_rest, float_to_bytes,
  float_from_bytes, load_entry, load_count, add_aggregate,
}

split-count_key :
    (key node : Text)
    → Lacks colon key
    → split colon (node_key count_kind key node) ≡ count_kind ∷ (key ∷ split colon node)
unfolding node_key
split-count_key key node h = rw (
  split-append colon count_kind (key ++ (colon ∷ node)) (omega arith, tt),
  split-append colon key node h,
)

module _ (fl : Float64) (codec : EntryCodec) where
  open fl use {Carrier, add, bits, from_bits}

  -- `c` survives the conversion to eight bytes and back.
  abbrev pub IsStorable : Carrier → Type 0
  IsStorable c = (bits c < 2 ^ 64) × (from_bits (bits c) ≡ c)

  float_from_bytes-float_to_bytes :
      (c : Carrier) → IsStorable c → float_from_bytes fl codec (float_to_bytes fl codec c) ≡ c
  unfolding float_from_bytes float_to_bytes
  float_from_bytes-float_to_bytes c h = ground (arith, from_be64-to_be64 (bits c) h.0, h)

  module _ (sh : StoreShard Carrier) (key node : Text) (c : Carrier) where
    write-count :
        (now : ℤ)
        → Dict.get sh.cache (node_key count_kind key node) ≡ none
        → Dict.get sh.counts (node_key count_kind key node) ≡ some c
        → write_item fl codec now (snapshot fl codec sh (node_key count_kind key node))
          ≡ put (node_key count_kind key node) (float_to_bytes fl codec c) none ∷ []
    unfolding snapshot write_item no_item write_rest
    write-count now e e' = ground (arith, e, e', unprefixed)
      where
        unprefixed : has_prefix (node_key count_kind key node) seq_prefix ≡ false
        unprefixed = unfold has_prefix node_key in refl

  -- The shard with a count, and with the aggregate under `name` raised by it.
  reloaded : Text → Text → Carrier → StoreShard Carrier → StoreShard Carrier
  reloaded nk name c sh = record sh {
    counts = Dict.put sh.counts nk c;
    aggregate_counts = Dict.put sh.aggregate_counts name (add (aggregate_at fl sh name) c);
  }

  count-reloaded :
      (nk name j : Text) (c : Carrier) (sh : StoreShard Carrier)
      → count_at fl (reloaded nk name c sh) j ≡ (if text_eq nk j then c else count_at fl sh j)
  unfolding count_at reloaded Dict.get_or
  count-reloaded nk name j c sh = ground (arith, get-put sh.counts nk j c)

  aggregate-reloaded :
      (nk name j : Text) (c : Carrier) (sh : StoreShard Carrier)
      → aggregate_at fl (reloaded nk name c sh) j
        ≡ (if text_eq name j then add (aggregate_at fl sh name) c else aggregate_at fl sh j)
  unfolding aggregate_at reloaded Dict.get_or
  aggregate-reloaded nk name j c sh =
      ground (arith, get-put sh.aggregate_counts name j (add (aggregate_at fl sh name) c))

  load-count :
      (now : ℤ) (s : Store Carrier) (key node : Text) (c : Carrier)
      → Lacks colon key
      → IsStorable c
      → load_entry fl codec now s (node_key count_kind key node) (float_to_bytes fl codec c)
        ≡ some (
            with_shard s
              (node_key count_kind key node)
              (reloaded (node_key count_kind key node) key c))
  load-count now s key node c h ok = dispatch ∙ ap (λ f. some (with_shard s nk f)) (fun_ext same)
    where
      nk : Text
      nk = node_key count_kind key node

      dispatch :
          load_entry fl codec now s (node_key count_kind key node) (float_to_bytes fl codec c)
          ≡ some (
              with_shard s nk (
                load_count fl codec
                  (λ k. k)
                  nk
                  (split colon nk)
                  (float_from_bytes fl codec (float_to_bytes fl codec c))))
      dispatch = unfold load_entry has_prefix node_key in refl

      same :
          (sh : StoreShard Carrier)
          → load_count fl codec
              (λ k. k)
              nk
              (split colon nk)
              (float_from_bytes fl codec (float_to_bytes fl codec c))
              sh
            ≡ reloaded nk key c sh
      same sh =
          ap
            (λ parts.
              load_count fl codec (λ k. k) nk parts
                (float_from_bytes fl codec (float_to_bytes fl codec c)) sh)
            (split-count_key key node h)
          ∙ ap (λ v. load_count fl codec (λ k. k) nk (count_kind ∷ (key ∷ split colon node)) v sh)
              (float_from_bytes-float_to_bytes c ok)
          ∙ (unfold load_count split reloaded add_aggregate aggregate_at in refl)

  -- A count of a node, under a key without a colon, that has eight bytes in `float64`, whose composite
  -- key is dirty and is not the key of a register too: a flush of the whole store writes eight
  -- bytes under the composite key; and the load of this item, into any store, does not panic, restores
  -- the node's count and adds it to the key's aggregate.
  pub count-restored :
      (clock : Text → ℤ) (later : ℤ) (s fresh : Store Carrier) (key node : Text) (c : Carrier)
      (b : Bool)
      → let nk = node_key count_kind key node in
        Dict.get (get_shard s nk).dirty nk ≡ some b
        → Dict.get (get_shard s nk).cache nk ≡ none
        → Dict.get (get_shard s nk).counts nk ≡ some c
        → Lacks colon key
        → IsStorable c
        → (bytes : List ℕ) × (length bytes ≡ 8)
          × In (put nk bytes none) (flush fl codec clock s).1
          × ((s' : Store Carrier) × (load_entry fl codec later fresh nk bytes ≡ some s')
              × (get_node_count fl s' key node ≡ c)
              × (get_aggregate_count fl s' key ≡ add (get_aggregate_count fl fresh key) c))
  count-restored clock later s fresh key node c b dirty no_register counted h ok = (
    float_to_bytes fl codec c,
    (unfold float_to_bytes to_be64 in refl),
    In-flush fl codec clock s nk (put nk (float_to_bytes fl codec c) none) b dirty
        (rw (write-count (get_shard s nk) key node c (clock nk) no_register counted) (inl refl)),
    (
      with_shard fresh nk (reloaded nk key c),
      load-count later fresh key node c h ok,
      unfold get_node_count in
          rw (placed, count-reloaded nk key nk c (get_shard fresh key))
            (ground (arith, text_eq_iff nk nk)),
      unfold get_aggregate_count in
          rw (placed, aggregate-reloaded nk key key c (get_shard fresh key))
            (ground (arith, text_eq_iff key key)),
    ),
  )
    where
      nk : Text
      nk = node_key count_kind key node

      placed :
          get_shard (with_shard fresh nk (reloaded nk key c)) key
          ≡ reloaded nk key c (get_shard fresh key)
      placed =
          get_shard-with_shard fresh nk key (reloaded nk key c)
          ∙ ground (arith, shard_index-node_key count_kind key node (omega arith, tt) h)

  append-ne : (a b : Text) → text_eq a (a ++ (colon ∷ b)) ≡ false
  append-ne a b = ground (
    arith,
    text_eq_iff a (a ++ (colon ∷ b)),
    ap length {x = a} {y = a ++ (colon ∷ b)},
    length-append a (colon ∷ b),
  )

  -- For a key `a:b` with a colon, of which `a` has none: the load of a stored count of the key adds the
  -- count to the aggregate of `a`, and leaves the aggregate of the key itself as it is.
  pub count-misplaced :
      (now : ℤ) (s : Store Carrier) (a b node : Text) (c : Carrier)
      → Lacks colon a
      → IsStorable c
      → let key = a ++ (colon ∷ b) in
        (s' : Store Carrier) × (load_entry fl codec now s
            (node_key count_kind key node)
            (float_to_bytes fl codec c)
          ≡ some s')
        × (get_aggregate_count fl s' a ≡ add (get_aggregate_count fl s a) c)
        × (get_aggregate_count fl s' key ≡ get_aggregate_count fl s key)
  count-misplaced now s a b node c h ok = (
    with_shard s nk (reloaded nk a c),
    subst
        (λ k.
          load_entry fl codec now s k (float_to_bytes fl codec c)
          ≡ some (with_shard s k (reloaded k a c)))
        (sym regroup) (load-count now s a (b ++ (colon ∷ node)) c h ok),
    unfold get_aggregate_count in
        rw (placed, aggregate-reloaded nk a a c (get_shard s a)) (ground (arith, text_eq_iff a a)),
    unfold get_aggregate_count in elsewhere,
  )
    where
      key : Text
      key = a ++ (colon ∷ b)

      nk : Text
      nk = node_key count_kind key node

      append_assoc : (x y z : Text) → (x ++ y) ++ z ≡ x ++ (y ++ z)
      append_assoc [] y z = refl
      append_assoc (u ∷ x) y z = ap (λ r. u ∷ r) (append_assoc x y z)

      regroup : nk ≡ node_key count_kind a (b ++ (colon ∷ node))
      regroup =
          unfold node_key in ap (λ r. 99 ∷ (colon ∷ r)) (append_assoc a (colon ∷ b) (colon ∷ node))

      placed : get_shard (with_shard s nk (reloaded nk a c)) a ≡ reloaded nk a c (get_shard s a)
      placed =
          get_shard-with_shard s nk a (reloaded nk a c)
          ∙ ground (
            arith,
            regroup,
            shard_index-node_key count_kind a (b ++ (colon ∷ node)) (omega arith, tt) h,
          )

      elsewhere :
          aggregate_at fl (get_shard (with_shard s nk (reloaded nk a c)) key) key
          ≡ aggregate_at fl (get_shard s key) key
      elsewhere = ground (
        arith,
        get_shard-with_shard s nk key (reloaded nk a c),
        aggregate-reloaded nk a key c (get_shard s key),
        append-ne a b,
      )
