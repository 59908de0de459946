-- ===== src/Store/Window/Local.antt =====
-- Theorems on `incrementSlidingWindow` of store.go.
use capacitor.Prelude.{
  ◌≡◌, refl, arith, List, [], ◌∷◌, ◌++◌, Text, text_eq_iff, ℤ, ◌-ℤ◌, wrap64, length, ◌∙◌, ap, sym,
  ◌≤ℤ◌,
}
use mathlib.Core.Path.{subst}
use capacitor.Dict
use capacitor.Dict.{Dict, get-put, get-remove}
use capacitor.Store.Shard.{StoreShard, Store, get_shard, get_shard-with_shard_self, mark}
use capacitor.Store.Window.{
  cut, count_recent, window_in, window_at, store_window, record_event, increment_sliding_window,
  add_window_timestamp,
}
use capacitor.Store.Window.Remote.{insert, window-add}
use capacitor.Store.Window.Sorted.{
  IsSorted, AllUpTo, recent, cut_lem, IsSorted-append, recent-IsSorted,
}

get-store_window :
    (key : Text) (win : List ℤ) (d : Dict (List ℤ))
    → Dict.get_or (store_window key win d) key [] ≡ win
unfolding store_window Dict.get_or
get-store_window key [] d = ground (arith, get-remove d key key, text_eq_iff key key)
get-store_window key (t ∷ win) d = ground (arith, get-put d key key (t ∷ win), text_eq_iff key key)

module _ {F : Type 0} (now : ℤ) (s : Store F) (key : Text) (ts window : ℤ) where
  pub count-increment :
      (increment_sliding_window now s key ts window).1
      ≡ count_recent (wrap64 (now -ℤ window)) (window_at s key ++ (ts ∷ []))
  unfolding increment_sliding_window
  count-increment = refl

  pub window-increment :
      window_at (increment_sliding_window now s key ts window).0 key
      ≡ cut (wrap64 (now -ℤ window)) (window_at s key ++ (ts ∷ []))
  unfolding window_at increment_sliding_window
  window-increment =
      rw (get_shard-with_shard_self s key (record_event key ts (wrap64 (now -ℤ window))))
        (recorded (get_shard s key))
    where
      recorded :
          (sh : StoreShard F)
          → window_in (record_event key ts (wrap64 (now -ℤ window)) sh) key
            ≡ cut (wrap64 (now -ℤ window)) (window_in sh key ++ (ts ∷ []))
      recorded sh =
          unfold record_event mark window_in in
          get-store_window key
            (cut (wrap64 (now -ℤ window)) (Dict.get_or sh.windows key [] ++ (ts ∷ []))) sh.windows

  -- From a sorted window, and for an event that is not before its newest: the window afterwards holds
  -- exactly the events, the new one included, that are at or after `now - window`, it is sorted, and the
  -- returned count is its length.
  pub increment_sliding_window_lem :
      IsSorted (window_at s key)
      → AllUpTo ts (window_at s key)
      → let (s', count) = increment_sliding_window now s key ts window in
        (window_at s' key ≡ recent (wrap64 (now -ℤ window)) (window_at s key ++ (ts ∷ [])))
        × IsSorted (window_at s' key)
        × (count ≡ length (window_at s' key))
  unfolding increment_sliding_window
  increment_sliding_window_lem sorted newest = (
    kept,
    subst IsSorted (sym kept) (recent-IsSorted h win both),
    sym (ap length window-increment ∙ (cut_lem h win both).1),
  )
    where
      h : ℤ
      h = wrap64 (now -ℤ window)

      win : List ℤ
      win = window_at s key ++ (ts ∷ [])

      both : IsSorted win
      both = IsSorted-append ts (window_at s key) sorted newest

      kept : window_at (increment_sliding_window now s key ts window).0 key ≡ recent h win
      kept = window-increment ∙ (cut_lem h win both).0

-- Two local events with one time, inside the window, on a key with none so far: the node counts both, while a
-- node that receives the two keeps one. (A clock that does not advance hands out one physical time for
-- both.)
pub window_repeats :
    {F : Type 0} (now : ℤ) (s s' : Store F) (key : Text) (ts window : ℤ)
    → window_at s key ≡ []
    → window_at s' key ≡ []
    → wrap64 (now -ℤ window) ≤ℤ ts
    → let s₁ = (increment_sliding_window now s key ts window).0 in
      ((increment_sliding_window now s₁ key ts window).1 ≡ 2)
      × (window_at (add_window_timestamp (add_window_timestamp s' key ts) key ts) key ≡ ts ∷ [])
window_repeats now s s' key ts window e e' le = (
  counted,
  window-add (add_window_timestamp s' key ts) key ts
      ∙ ap (insert ts) (window-add s' key ts ∙ ap (insert ts) e')
      ∙ (unfold insert in ground arith),
)
  where
    h : ℤ
    h = wrap64 (now -ℤ window)

    first : window_at (increment_sliding_window now s key ts window).0 key ≡ ts ∷ []
    first =
        window-increment now s key ts window
        ∙ ap (λ w. cut h (w ++ (ts ∷ []))) e
        ∙ (unfold cut in ground arith)

    counted :
        (increment_sliding_window now
          (increment_sliding_window now s key ts window).0
          key
          ts
          window).1
        ≡ 2
    counted =
        count-increment now (increment_sliding_window now s key ts window).0 key ts window
        ∙ ap (λ w. count_recent h (w ++ (ts ∷ []))) first
        ∙ (unfold count_recent in ground arith)
