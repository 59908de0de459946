-- ===== src/Store/Persist/Windows.antt =====
-- Sliding windows of store.go through a flush and a load.
use capacitor.Prelude.{
  ℕ, ◌≡◌, refl, false, arith, none, some, List, [], ◌∷◌, ◌++◌, map, Text, text_eq_iff, ℤ, InInt64,
  ap, ◌∙◌, sym, fun_ext, codes, In, inl, inr, Bool,
}
use mathlib.Core.List.{append_assoc, append-nil}
use capacitor.Dict
use capacitor.Dict.{get-put}
use capacitor.Float.{Float64}
use capacitor.Strings.{
  colon, Lacks, has_prefix, split, split-append, split-Lacks, decimal, parse_int,
}
use capacitor.Strings.Decimal.{parse_int-decimal, Lacks-decimal}
use capacitor.Store.Placement.{node_key}
use capacitor.Store.Placement.Laws.{shard_index-node_key}
use capacitor.Store.Shard.{StoreShard, Store, get_shard, with_shard, get_shard-with_shard}
use capacitor.Store.Window.{window_in, window_at}
use capacitor.Store.Persist.Flush.{In-flush}
use capacitor.Store.Persist.Load.{NoneUnder}
use capacitor.Store.Window.Remote.{AllAfter, IsStrict}
use capacitor.Store.Persist.{
  flush, EntryCodec, WriteOp, put, window_kind, snapshot, write_item, no_item, write_rest,
  load_entry, load_window, load,
}

-- The key of an event in the database.
abbrev pub event_key : Text → ℤ → Text
event_key key u = node_key window_kind key (decimal u)

-- The operations that store events, and the entries that the iterator then gives. (Badger gives keys in
-- the order of their bytes, which is that of the events where all times have as many digits.)
pub stored : Text → List ℤ → List WriteOp
stored key w = map (λ u. put (event_key key u) [] none) w

pub items : Text → List ℤ → List (Text × List ℕ)
items key w = map (λ u. (event_key key u, [])) w

abbrev pub AllInt64 : List ℤ → Type 0
AllInt64 [] = Unit
AllInt64 (u ∷ w) = InInt64 u × AllInt64 w

-- No two items are under one key, as in a database.
abbrev pub Distinct : List (Text × List ℕ) → Type 0
Distinct [] = Unit
Distinct ((k, val) ∷ rest) = NoneUnder k rest × Distinct rest

has_prefix-Lacks : (c : ℕ) (s p q : Text) → Lacks c s → has_prefix s (p ++ c ∷ q) ≡ false
unfolding has_prefix
has_prefix-Lacks c [] [] q h = refl
has_prefix-Lacks c [] (y ∷ p) q h = refl
has_prefix-Lacks c (x ∷ s) [] q h = ground (arith, h)
has_prefix-Lacks c (x ∷ s) (y ∷ p) q h = ground (arith, has_prefix-Lacks c s p q h.1)

split-event_key :
    (key : Text) (u : ℤ)
    → Lacks colon key
    → split colon (event_key key u) ≡ window_kind ∷ (key ∷ (decimal u ∷ []))
unfolding node_key
split-event_key key u h = rw (
  split-append colon window_kind (key ++ (colon ∷ decimal u)) (omega arith, (omega arith, tt)),
  split-append colon key (decimal u) h,
  split-Lacks colon (decimal u) (Lacks-decimal u),
)

module _ (fl : Float64) (codec : EntryCodec) where
  open fl use {Carrier}

  write-window :
      (now : ℤ) (sh : StoreShard Carrier) (key : Text) (t : ℤ) (ts : List ℤ)
      → Lacks colon key
      → Dict.get sh.cache key ≡ none
      → Dict.get sh.counts key ≡ none
      → Dict.get sh.windows key ≡ some (t ∷ ts)
      → write_item fl codec now (snapshot fl codec sh key) ≡ stored key (t ∷ ts)
  unfolding snapshot write_item no_item write_rest stored
  write-window now sh key t ts h e e' e'' =
      ground (arith, e, e', e'', has_prefix-Lacks colon key (codes "meta") (codes "seq:") h)

  -- The shard with one more event.
  with_event : Text → ℤ → StoreShard Carrier → StoreShard Carrier
  with_event key u sh = record sh {
    windows = Dict.put sh.windows key (window_in sh key ++ (u ∷ []));
  }

  load-event :
      (now : ℤ) (s : Store Carrier) (key : Text) (u : ℤ)
      → Lacks colon key
      → InInt64 u
      → load_entry fl codec now s (event_key key u) []
        ≡ some (with_shard s (event_key key u) (with_event key u))
  load-event now s key u h ok =
      dispatch ∙ ap (λ f. some (with_shard s (event_key key u) f)) (fun_ext same)
    where
      dispatch :
          load_entry fl codec now s (event_key key u) []
          ≡ some (
              with_shard s (event_key key u) (load_window fl codec (split colon (event_key key u))))
      dispatch = unfold load_entry has_prefix node_key in refl

      same :
          (sh : StoreShard Carrier)
          → load_window fl codec (split colon (event_key key u)) sh ≡ with_event key u sh
      same sh =
          ap (λ parts. load_window fl codec parts sh) (split-event_key key u h)
          ∙ (unfold load_window with_event in
              ap
                (λ z. record sh {
                  windows = Dict.put sh.windows key (window_in sh key ++ (z ∷ []));
                })
                (parse_int-decimal u ok))

  window-with_event :
      (s : Store Carrier) (key : Text) (u : ℤ)
      → Lacks colon key
      → window_at (with_shard s (event_key key u) (with_event key u)) key
        ≡ window_at s key ++ (u ∷ [])
  unfolding window_at
  window-with_event s key u h =
      ap (λ sh. window_in sh key) placed
      ∙ (unfold window_in with_event Dict.get_or in
          ground (
            arith,
            get-put (get_shard s key).windows key key (window_in (get_shard s key) key ++ (u ∷ [])),
            text_eq_iff key key,
          ))
    where
      placed :
          get_shard (with_shard s (event_key key u) (with_event key u)) key
          ≡ with_event key u (get_shard s key)
      placed =
          get_shard-with_shard s (event_key key u) key (with_event key u)
          ∙ ground (
            arith,
            shard_index-node_key window_kind key (decimal u) (omega arith, (omega arith, tt)) h,
          )

  load-window :
      (clock : Text → ℤ) (s : Store Carrier) (key : Text) (w : List ℤ)
      → Lacks colon key
      → AllInt64 w
      → (s' : Store Carrier) × (load fl codec clock s (items key w) ≡ some s')
        × (window_at s' key ≡ window_at s key ++ w)
  unfolding load items
  load-window clock s key [] h ok = (s, refl, sym (append-nil (window_at s key)))
  load-window clock s key (u ∷ w) h (here, later) =
      let s₁ = with_shard s (event_key key u) (with_event key u) in
      let (s', loaded, holds) = load-window clock s₁ key w h later in
      (
        s',
        rw (load, load-event (clock (event_key key u)) s key u h here) loaded,
        holds
            ∙ ap (λ v. v ++ w) (window-with_event s key u h)
            ∙ append_assoc (window_at s key) (u ∷ []) w,
      )

  -- What a flush writes for each event.
  In-stored :
      (key : Text) (w : List ℤ) (u : ℤ) → In u w → In (put (event_key key u) [] none) (stored key w)
  unfolding stored
  In-stored key [] u i = absurd i
  In-stored key (t ∷ w) u (inl same) = inl (ap (λ v. put (event_key key v) [] none) same)
  In-stored key (t ∷ w) u (inr i) = inr (In-stored key w u i)

  -- Different events have different keys.
  event_key-injective :
      (key : Text) (u v : ℤ)
      → Lacks colon key
      → InInt64 u
      → InInt64 v
      → event_key key u ≡ event_key key v
      → u ≡ v
  event_key-injective key u v h in_u in_v e =
      sym (parse_int-decimal u in_u) ∙ ap parse_int decimals ∙ parse_int-decimal v in_v
    where
      parts : window_kind ∷ (key ∷ (decimal u ∷ [])) ≡ window_kind ∷ (key ∷ (decimal v ∷ []))
      parts = sym (split-event_key key u h) ∙ ap (split colon) e ∙ split-event_key key v h

      decimals : decimal u ≡ decimal v
      decimals = cc parts

  NoneUnder-items :
      (key : Text) (t : ℤ) (w : List ℤ)
      → Lacks colon key
      → InInt64 t
      → AllInt64 w
      → AllAfter t w
      → NoneUnder (event_key key t) (items key w)
  unfolding items
  NoneUnder-items key t [] h ok oks late = tt
  NoneUnder-items key t (u ∷ w) h ok (ok', oks) (lt, late) = (
    λ e. let same = event_key-injective key u t h ok' ok e in ground (arith, same, lt),
    NoneUnder-items key t w h ok oks late,
  )

  items-Distinct :
      (key : Text) (w : List ℤ) → Lacks colon key → AllInt64 w → IsStrict w → Distinct (items key w)
  unfolding items
  items-Distinct key [] h oks strict = tt
  items-Distinct key (t ∷ w) h (ok, oks) (late, strict) =
      (NoneUnder-items key t w h ok oks late, items-Distinct key w h oks strict)

  -- A window of events in int64, oldest first and without repeated times, under a dirty key without a
  -- colon that is not the key of a register or a count too: a flush of the whole store writes every
  -- event under a key of its own, no two of which are equal; and a load of these keys, in the order
  -- of the events, into any store does not panic and puts exactly the same events behind those
  -- that the store has.
  pub window-restored :
      (clock clock' : Text → ℤ) (s fresh : Store Carrier) (key : Text) (t : ℤ) (ts : List ℤ)
      (b : Bool)
      → Lacks colon key
      → Dict.get (get_shard s key).dirty key ≡ some b
      → Dict.get (get_shard s key).cache key ≡ none
      → Dict.get (get_shard s key).counts key ≡ none
      → Dict.get (get_shard s key).windows key ≡ some (t ∷ ts)
      → AllInt64 (t ∷ ts)
      → IsStrict (t ∷ ts)
      → ((u : ℤ) → In u (t ∷ ts) → In (put (event_key key u) [] none) (flush fl codec clock s).1)
        × Distinct (items key (t ∷ ts))
        × ((s' : Store Carrier) × (load fl codec clock' fresh (items key (t ∷ ts)) ≡ some s')
            × (window_at s' key ≡ window_at fresh key ++ (t ∷ ts)))
  window-restored clock clock' s fresh key t ts b h dirty e e' e'' ok strict = (
    λ u i. In-flush fl codec clock s key (put (event_key key u) [] none) b dirty (
        rw (write-window (clock key) (get_shard s key) key t ts h e e' e'')
          (In-stored key (t ∷ ts) u i)),
    items-Distinct key (t ∷ ts) h ok strict,
    load-window clock' fresh key (t ∷ ts) h ok,
  )
