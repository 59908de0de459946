-- ===== src/Tests/Windows.antt =====
-- Examples for the sliding windows of store.go.
use capacitor.Prelude.{
  ◌≡◌, refl, arith, [], ◌∷◌, ◌++◌, Text, codes, ℤ, pos, ◌-ℤ◌, wrap64, length, SameElements, text_eq,
}
use capacitor.Dict
use capacitor.Store.Shard.{Store, empty_store, new_store_shard, get_shard}
use capacitor.Store.Window.{
  window_at, window_in, increment_sliding_window, add_window_timestamp, prune_stale_windows,
}
use capacitor.Store.Window.Prune.{HasWindowMaps, increment-prune, long_window_lost}
use capacitor.Store.Window.Sorted.{IsSorted, recent}
use capacitor.Store.Window.Local.{increment_sliding_window_lem}
use capacitor.Store.Window.Remote.{insert, IsStrict, add_all, window-add, windows_converge}
use capacitor.Tests.Fixtures.{window-empty_store, two_SameElements}

abbrev key : Text
key = codes "logins"

abbrev fresh : Store ℤ
fresh = empty_store ℤ

windows_converge_example :
    (window_at (add_all fresh key (pos 7 ∷ pos 5 ∷ [])) key
      ≡ window_at (add_all fresh key (pos 5 ∷ pos 7 ∷ pos 5 ∷ [])) key)
    × IsStrict (window_at (add_all fresh key (pos 7 ∷ pos 5 ∷ [])) key)
    × SameElements (window_at (add_all fresh key (pos 7 ∷ pos 5 ∷ [])) key) (pos 7 ∷ pos 5 ∷ [])
windows_converge_example =
    windows_converge fresh fresh key (pos 7 ∷ pos 5 ∷ []) (pos 5 ∷ pos 7 ∷ pos 5 ∷ [])
      (window-empty_store key) (window-empty_store key) (two_SameElements (pos 7) (pos 5))

-- A window with one event.
abbrev one_event : Store ℤ
one_event = add_window_timestamp fresh key (pos 5)

one_event_lem : window_at one_event key ≡ pos 5 ∷ []
one_event_lem = rw (window-add fresh key (pos 5), window-empty_store key) (unfold insert in refl)

increment_sliding_window_lem_example :
    (window_at (increment_sliding_window (pos 12) one_event key (pos 11) (pos 3)).0 key
      ≡ recent (wrap64 (pos 12 -ℤ pos 3)) (window_at one_event key ++ (pos 11 ∷ [])))
    × IsSorted (window_at (increment_sliding_window (pos 12) one_event key (pos 11) (pos 3)).0 key)
    × ((increment_sliding_window (pos 12) one_event key (pos 11) (pos 3)).1
        ≡ length
            (window_at (increment_sliding_window (pos 12) one_event key (pos 11) (pos 3)).0 key))
increment_sliding_window_lem_example =
    increment_sliding_window_lem (pos 12) one_event key (pos 11) (pos 3) (rw one_event_lem (tt, tt))
      (rw one_event_lem (omega arith, tt))

-- A store with one window of one event.
abbrev one_window : Store ℤ
one_window = record {
  shards = λ i. record (new_store_shard ℤ) { windows = Dict.put Dict.empty key (pos 5 ∷ []) };
}

one_window-IsMap : HasWindowMaps one_window
one_window-IsMap i = Dict.put-IsMap Dict.empty key (pos 5 ∷ []) Dict.empty-IsMap

one_window_lem : window_at one_window key ≡ pos 5 ∷ []
unfolding window_at window_in Dict.get_or Dict.get Dict.put Dict.empty get_shard text_eq
one_window_lem = refl

-- More than an hour after the event.
abbrev late : ℤ
late = pos 4_000_000_000_000

increment-prune_example :
    ((increment_sliding_window late (prune_stale_windows late one_window) key late (pos 60)).1
      ≡ (increment_sliding_window late one_window key late (pos 60)).1)
    × (window_at
          (increment_sliding_window late (prune_stale_windows late one_window) key late (pos 60)).0
          key
        ≡ window_at (increment_sliding_window late one_window key late (pos 60)).0 key)
increment-prune_example =
    increment-prune late late one_window key late (pos 60) one_window-IsMap
      (rw one_window_lem (tt, tt)) (rw one_window_lem (unfold ◌-ℤ◌ in omega arith, tt))
      (omega arith) (omega arith) (unfold ◌-ℤ◌ in omega arith)

long_window_lost_example :
    ((increment_sliding_window late one_window key late (pos 4_000_000_000_000)).1 ≡ 2)
    × ((increment_sliding_window late
          (prune_stale_windows late one_window)
          key
          late
          (pos 4_000_000_000_000)).1
        ≡ 1)
long_window_lost_example =
    long_window_lost late late one_window key (pos 5) late (pos 4_000_000_000_000) one_window-IsMap
      one_window_lem (unfold ◌-ℤ◌ in omega arith) (unfold ◌-ℤ◌ in omega arith)
      (unfold wrap64 ◌-ℤ◌ in omega arith) (omega arith)
