-- ===== src/Store/Window.antt =====
-- store.go: sliding windows, `incrementSlidingWindow`, `addWindowTimestamp` and `pruneStaleWindows`. A
-- window is the list of its events' times. The methods' `error` result is always nil and is left out.
pub mod Sorted
pub mod Local
pub mod Remote
pub mod Prune
use capacitor.Prelude.{
  ℕ, zero, suc, ◌+◌, Bool, true, false, not, List, [], ◌∷◌, ◌++◌, Text, ℤ, pos, ◌-ℤ◌, ltb, leb_ℤ,
  ltb_ℤ, eqb_ℤ, wrap64, if◌then◌else◌, ◌==◌, length, drop, take, Option, none, some,
}
use capacitor.Dict
use capacitor.Dict.{Dict}
use capacitor.Store.Placement.{num_shards}
use capacitor.Store.Shard.{StoreShard, Store, get_shard, with_shard, mark}

-- One hour in nanoseconds.
abbrev pub stale_threshold : ℤ
stale_threshold = pos 3_600_000_000_000

-- The loop that counts the events at or after the horizon.
unfoldable pub count_recent : ℤ → List ℤ → ℕ
count_recent horizon [] = 0
count_recent horizon (t ∷ ts) =
    let rest = count_recent horizon ts in if leb_ℤ horizon t then suc rest else rest

-- The same loop's count of the others.
unfoldable pub count_old : ℤ → List ℤ → ℕ
count_old horizon [] = 0
count_old horizon (t ∷ ts) =
    let rest = count_old horizon ts in if leb_ℤ horizon t then rest else suc rest

-- win[i:], if i > 0
unfoldable pub cut : ℤ → List ℤ → List ℤ
unfolding count_old
cut horizon win = let i = count_old horizon win in if ltb 0 i then drop i win else win

-- Where `addWindowTimestamp` puts an event: nowhere, if it is there, or at an index.
pub data Place : Type 0 where
  duplicate : Place
  at : ℕ → Place

unfoldable pub find_place : ℤ → ℕ → List ℤ → Place
find_place ts i [] = at i
find_place ts i (t ∷ win) =
    let later = find_place ts (suc i) win in
    if eqb_ℤ t ts then duplicate else if ltb_ℤ ts t then at i else later

-- append, and copy(win[idx+1:], win[idx:]); win[idx] = ts
unfoldable pub insert_at : ℕ → ℤ → List ℤ → List ℤ
insert_at idx ts win =
    if idx == length win then win ++ (ts ∷ []) else take idx win ++ (ts ∷ drop idx win)

unfoldable pub is_stale : ℤ → List ℤ → Bool
is_stale now [] = true
is_stale now (t ∷ []) = ltb_ℤ stale_threshold (wrap64 (now -ℤ t))
is_stale now (t ∷ u ∷ win) = is_stale now (u ∷ win)

-- windows[key] = win; if it is empty, delete(windows, key)
store_window : Text → List ℤ → Dict (List ℤ) → Dict (List ℤ)
store_window key [] windows = Dict.remove windows key
store_window key (t ∷ win) windows = Dict.put windows key (t ∷ win)

module _ {F : Type 0} where
  -- `shard.windows[key]`, the nil slice for a missing key
  unfoldable pub window_in : StoreShard F → Text → List ℤ
  window_in sh key = Dict.get_or sh.windows key []

  unfoldable pub window_at : Store F → Text → List ℤ
  unfolding window_in
  window_at s key = window_in (get_shard s key) key

  record_event : Text → ℤ → ℤ → StoreShard F → StoreShard F
  unfolding window_in mark cut store_window
  record_event key ts horizon sh =
      mark
        (record sh {
          windows = store_window key (cut horizon (window_in sh key ++ (ts ∷ []))) sh.windows;
        })
        key

  unfoldable pub increment_sliding_window : ℤ → Store F → Text → ℤ → ℤ → Store F × ℕ
  unfolding record_event count_recent
  increment_sliding_window now s key ts window =
      let horizon = wrap64 (now -ℤ window) in
      let win = window_at s key ++ (ts ∷ []) in
      (with_shard s key (record_event key ts horizon), count_recent horizon win)

  insert_event : Text → ℤ → StoreShard F → StoreShard F
  unfolding window_in mark find_place insert_at
  insert_event key ts sh = elim (find_place ts 0 (window_in sh key)) [
    | duplicate ↦ sh
    | at idx ↦
        mark (record sh { windows = Dict.put sh.windows key (insert_at idx ts (window_in sh key)) })
          key
  ]

  unfoldable pub add_window_timestamp : Store F → Text → ℤ → Store F
  unfolding insert_event
  add_window_timestamp s key ts = with_shard s key (insert_event key ts)

  unfoldable pub prune_stale_windows : ℤ → Store F → Store F
  unfolding is_stale
  prune_stale_windows now s = record {
    shards = λ i.
        let sh = s.shards i in
        if ltb i num_shards
        then record sh { windows = Dict.keep (λ key win. not (is_stale now win)) sh.windows }
        else sh;
  }
