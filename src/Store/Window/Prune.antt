-- ===== src/Store/Window/Prune.antt =====
-- Theorems on `pruneStaleWindows` of store.go.
use capacitor.Prelude.{
  ℕ, ◌≡◌, refl, true, false, not, arith, List, [], ◌∷◌, ◌++◌, Text, ℤ, ◌-ℤ◌, wrap64, wrap64_exact,
  -ℤ_parts, InInt64, ◌∙◌, ap, sym, ◌≤ℤ◌, ◌<ℤ◌, ◌+ℤ◌, +ℤ_parts, Bool-cases, inl, inr, if◌then◌else◌,
  drop,
}
use capacitor.Dict
use capacitor.Dict.{Dict, IsMap, get-keep}
use capacitor.Store.Placement.{shard_index}
use capacitor.Store.Placement.Laws.{shard_index_bound}
use capacitor.Store.Shard.{Store, get_shard}
use capacitor.Store.Window.{
  stale_threshold, cut, count_old, count_recent, is_stale, window_in, window_at,
  increment_sliding_window, prune_stale_windows,
}
use capacitor.Store.Window.Local.{count-increment, window-increment}
use capacitor.Store.Window.Sorted.{IsSorted}

-- Every event of the list is before `h`.
abbrev AllBefore : ℤ → List ℤ → Type 0
AllBefore h [] = Unit
AllBefore h (u ∷ us) = (u <ℤ h) × AllBefore h us

-- The time since every event of the list is in the range of an int64.
abbrev pub AllInReach : ℤ → List ℤ → Type 0
AllInReach now [] = Unit
AllInReach now (u ∷ us) = InInt64 (now -ℤ u) × AllInReach now us

stale-AllBefore :
    (now h : ℤ) (win : List ℤ)
    → is_stale now win ≡ true
    → IsSorted win
    → AllInReach now win
    → now ≤ℤ h +ℤ stale_threshold
    → AllBefore h win
unfolding is_stale
stale-AllBefore now h [] old sorted reach le = tt
stale-AllBefore now h (t ∷ []) old sorted reach le = (
  ground (arith, old, wrap64_exact (now -ℤ t) reach.0, -ℤ_parts now t, +ℤ_parts h stale_threshold),
  tt,
)
stale-AllBefore now h (t ∷ u ∷ win) old sorted reach le =
    let later = stale-AllBefore now h (u ∷ win) old sorted.1 reach.1 le in
    (ground (arith, later.0, sorted.0.0), later)

module _ (h : ℤ) (xs : List ℤ) where
  count_recent-old :
      (win : List ℤ) → AllBefore h win → count_recent h (win ++ xs) ≡ count_recent h xs
  unfolding count_recent
  count_recent-old [] b = refl
  count_recent-old (t ∷ ts) b = ground (arith, count_recent-old ts b.1)

  drop_old :
      (win : List ℤ)
      → AllBefore h win
      → drop (count_old h (win ++ xs)) (win ++ xs) ≡ drop (count_old h xs) xs
  unfolding count_old
  drop_old [] b = refl
  drop_old (t ∷ ts) b = ground (arith, drop_old ts b.1)

  cut-old : (win : List ℤ) → AllBefore h win → cut h (win ++ xs) ≡ cut h xs
  unfolding cut
  cut-old win b = by_drop (win ++ xs) ∙ drop_old win b ∙ sym (by_drop xs)
    where
      by_drop : (l : List ℤ) → cut h l ≡ drop (count_old h l) l
      by_drop l = ground arith

module _ {F : Type 0} where
  -- The windows are proper maps.
  abbrev pub HasWindowMaps : Store F → Type 0
  HasWindowMaps s = (i : ℕ) → IsMap (s.shards i).windows

  window-prune :
      (now : ℤ) (s : Store F) (key : Text)
      → HasWindowMaps s
      → window_at (prune_stale_windows now s) key
        ≡ (if is_stale now (window_at s key) then [] else window_at s key)
  unfolding window_at window_in Dict.get_or get_shard prune_stale_windows is_stale
  window-prune now s key maps = ground (
    arith,
    shard_index_bound key,
    get-keep (λ k win. not (is_stale now win)) (get_shard s key).windows key
        (maps (shard_index key)),
  )

  agree :
      (later : ℤ) (s s' : Store F) (key : Text) (ts window : ℤ)
      → let h = wrap64 (later -ℤ window) in
        count_recent h (window_at s key ++ (ts ∷ []))
          ≡ count_recent h (window_at s' key ++ (ts ∷ []))
        → cut h (window_at s key ++ (ts ∷ [])) ≡ cut h (window_at s' key ++ (ts ∷ []))
        → ((increment_sliding_window later s key ts window).1
            ≡ (increment_sliding_window later s' key ts window).1)
          × (window_at (increment_sliding_window later s key ts window).0 key
              ≡ window_at (increment_sliding_window later s' key ts window).0 key)
  agree later s s' key ts window counts windows = (
    count-increment later s key ts window ∙ counts ∙ sym (count-increment later s' key ts window),
    window-increment later s key ts window
        ∙ windows
        ∙ sym (window-increment later s' key ts window),
  )

  -- For windows of up to one hour: a stale window that is pruned would not have counted. Where the
  -- windows are proper maps, the window of the key is sorted, the times since its events are in the
  -- range of an int64, and so is the horizon: an event at the time of the pruning or later gets the same
  -- count, and leaves the same window, as without it.
  pub increment-prune :
      (now later : ℤ) (s : Store F) (key : Text) (ts window : ℤ)
      → HasWindowMaps s
      → IsSorted (window_at s key)
      → AllInReach now (window_at s key)
      → now ≤ℤ later
      → window ≤ℤ stale_threshold
      → InInt64 (later -ℤ window)
      → ((increment_sliding_window later (prune_stale_windows now s) key ts window).1
          ≡ (increment_sliding_window later s key ts window).1)
        × (window_at
              (increment_sliding_window later (prune_stale_windows now s) key ts window).0
              key
            ≡ window_at (increment_sliding_window later s key ts window).0 key)
  increment-prune now later s key ts window maps sorted reach le short fits =
      elim (Bool-cases (is_stale now (window_at s key))) [
        | inl old ↦
            let before = stale-AllBefore now h (window_at s key) old sorted reach in_time in
            agree later (prune_stale_windows now s) s key ts window
              (ap (λ w. count_recent h (w ++ (ts ∷ []))) (pruned old)
                ∙ sym (count_recent-old h (ts ∷ []) (window_at s key) before))
              (ap (λ w. cut h (w ++ (ts ∷ []))) (pruned old)
                ∙ sym (cut-old h (ts ∷ []) (window_at s key) before))
        | inr young ↦
            agree later (prune_stale_windows now s) s key ts window
              (ap (λ w. count_recent h (w ++ (ts ∷ []))) (kept young))
              (ap (λ w. cut h (w ++ (ts ∷ []))) (kept young))
      ]
    where
      h : ℤ
      h = wrap64 (later -ℤ window)

      in_time : now ≤ℤ h +ℤ stale_threshold
      in_time = ground (
        arith,
        wrap64_exact (later -ℤ window) fits,
        -ℤ_parts later window,
        +ℤ_parts h stale_threshold,
      )

      pruned :
          is_stale now (window_at s key) ≡ true → window_at (prune_stale_windows now s) key ≡ []
      pruned old = window-prune now s key maps ∙ ground (arith, old)

      kept :
          is_stale now (window_at s key) ≡ false
          → window_at (prune_stale_windows now s) key ≡ window_at s key
      kept young = window-prune now s key maps ∙ ground (arith, young)

  -- A window of the caller that reaches back behind the one event that a key has, which is more than one
  -- hour old: without the pruning the next event's count is 2, after it 1. (The windows are proper
  -- maps, the event's age and the horizon are in the range of an int64, and the new event is not
  -- before the horizon.)
  pub long_window_lost :
      (now later : ℤ) (s : Store F) (key : Text) (t ts window : ℤ)
      → HasWindowMaps s
      → window_at s key ≡ t ∷ []
      → stale_threshold <ℤ now -ℤ t
      → InInt64 (now -ℤ t)
      → wrap64 (later -ℤ window) ≤ℤ t
      → t ≤ℤ ts
      → ((increment_sliding_window later s key ts window).1 ≡ 2)
        × ((increment_sliding_window later (prune_stale_windows now s) key ts window).1 ≡ 1)
  long_window_lost now later s key t ts window maps single old reach long order = (
    count-increment later s key ts window
        ∙ ap (λ w. count_recent (wrap64 (later -ℤ window)) (w ++ (ts ∷ []))) single
        ∙ (unfold count_recent in ground arith),
    count-increment later (prune_stale_windows now s) key ts window
        ∙ ap (λ w. count_recent (wrap64 (later -ℤ window)) (w ++ (ts ∷ []))) pruned
        ∙ (unfold count_recent in ground arith),
  )
    where
      pruned : window_at (prune_stale_windows now s) key ≡ []
      pruned =
          window-prune now s key maps
          ∙ ap (λ w. if is_stale now w then [] else w) single
          ∙ (unfold is_stale in ground (arith, wrap64_exact (now -ℤ t) reach))
