-- ===== src/Store/Counter/Metrics.antt =====
-- Theorems on `incrementMetric` of store.go.
use capacitor.Prelude.{
  ℕ, ◌+◌, ◌≤◌, ◌^◌, length, ◌≡◌, refl, false, true, arith, List, [], ◌∷◌, Text, text_eq,
  text_eq_iff, pos, ◌+ℤ◌, ap, ◌∙◌,
}
use capacitor.Float.{Float64, IsIeee}
use capacitor.Store.Placement.{node_key}
use capacitor.Store.Shard.{StoreShard, Store, get_shard, get_shard-with_shard_self}
use capacitor.Store.Counter.{
  metric_count_kind, metric_sum_kind, metric_count_key, metric_sum_key, aggregate_at, add_to,
  increment_metric, get_aggregate_metric,
}
use capacitor.Store.Counter.Refine.{aggregate-add_to}

text_eq_refl : (k : Text) → text_eq k k ≡ true
text_eq_refl k = (text_eq_iff k k).1 refl

module _ (fl : Float64) where
  open fl use {Carrier, add, of_int, to_int}

  unfoldable pub metric_count : Store Carrier → Text → Carrier
  metric_count s key = aggregate_at fl (get_shard s key) (metric_count_key key)

  unfoldable pub metric_sum : Store Carrier → Text → Carrier
  metric_sum s key = aggregate_at fl (get_shard s key) (metric_sum_key key)

  module _ (s : Store Carrier) (key node : Text) (delta : Carrier) where
    one : StoreShard Carrier → StoreShard Carrier
    one = add_to fl (node_key metric_count_kind key node) (metric_count_key key) (of_int (pos 1))

    both : StoreShard Carrier → StoreShard Carrier
    both sh = add_to fl (node_key metric_sum_kind key node) (metric_sum_key key) delta (one sh)

    differ : text_eq (metric_sum_key key) (metric_count_key key) ≡ false
    unfolding text_eq
    differ = refl

    differ' : text_eq (metric_count_key key) (metric_sum_key key) ≡ false
    unfolding text_eq
    differ' = refl

    -- Every call, also one that repeats a delivery, adds one to the count and `delta` to the sum.
    pub increment_metric_adds :
        let s' = (increment_metric fl s key node delta).0 in
        (metric_count s' key ≡ add (metric_count s key) (of_int (pos 1)))
        × (metric_sum s' key ≡ add (metric_sum s key) delta)
    unfolding metric_count metric_sum increment_metric both one
    increment_metric_adds = (
      ap (λ sh. aggregate_at fl sh (metric_count_key key)) (get_shard-with_shard_self s key both)
          ∙ counted (get_shard s key),
      ap (λ sh. aggregate_at fl sh (metric_sum_key key)) (get_shard-with_shard_self s key both)
          ∙ summed (get_shard s key),
    )
      where
        counted :
            (sh : StoreShard Carrier)
            → aggregate_at fl (both sh) (metric_count_key key)
              ≡ add (aggregate_at fl sh (metric_count_key key)) (of_int (pos 1))
        counted sh = rw (
          aggregate-add_to fl (one sh) (node_key metric_sum_kind key node) (metric_sum_key key)
              (metric_count_key key) delta,
          differ,
          aggregate-add_to fl sh (node_key metric_count_kind key node) (metric_count_key key)
              (metric_count_key key) (of_int (pos 1)),
          text_eq_refl (metric_count_key key),
        )

        summed :
            (sh : StoreShard Carrier)
            → aggregate_at fl (both sh) (metric_sum_key key)
              ≡ add (aggregate_at fl sh (metric_sum_key key)) delta
        summed sh = rw (
          aggregate-add_to fl (one sh) (node_key metric_sum_kind key node) (metric_sum_key key)
              (metric_sum_key key) delta,
          text_eq_refl (metric_sum_key key),
          aggregate-add_to fl sh (node_key metric_count_kind key node) (metric_count_key key)
              (metric_sum_key key) (of_int (pos 1)),
          differ',
        )

  -- The store after the calls, of which the first in the list came last.
  pub deliver_all : Store Carrier → Text → List (Text × Carrier) → Store Carrier
  deliver_all s key [] = s
  deliver_all s key ((node, delta) ∷ ds) =
      (increment_metric fl (deliver_all s key ds) key node delta).0

  module _ (ieee : IsIeee fl) where
    open ieee use {add_exact, to_int_exact}

    count-deliver_all :
        (s : Store Carrier) (key : Text) (ds : List (Text × Carrier)) (n : ℕ)
        → metric_count s key ≡ of_int (pos n)
        → length ds + n ≤ 2 ^ 53
        → metric_count (deliver_all s key ds) key ≡ of_int (pos (length ds + n))
    unfolding deliver_all
    count-deliver_all s key [] n h fits = h ∙ ap (λ (k : ℕ). of_int (pos k)) (omega arith)
    count-deliver_all s key ((node, delta) ∷ ds) n h fits =
        rw
          (
            (increment_metric_adds (deliver_all s key ds) key node delta).0,
            count-deliver_all s key ds n h (omega arith),
          )
          (add_exact (pos k) (pos 1) (omega arith) (omega arith) (unfold ◌+ℤ◌ in ground arith)
            ∙ ap of_int (unfold ◌+ℤ◌ in ground arith))
      where
        k : ℕ
        k = length ds + n

    -- After any number of calls of `incrementMetric` for a key whose count is `n`, up to a total of
    -- 2^53, the metric's count is `n` plus the number of calls: a repeated delivery counts again.
    pub deliver_all-count :
        (s : Store Carrier) (key : Text) (ds : List (Text × Carrier)) (n : ℕ)
        → metric_count s key ≡ of_int (pos n)
        → length ds + n ≤ 2 ^ 53
        → (get_aggregate_metric fl (deliver_all s key ds) key).count ≡ pos (length ds + n)
    unfolding get_aggregate_metric
    deliver_all-count s key ds n h fits =
        let counted : aggregate_at fl (get_shard (deliver_all s key ds) key) (metric_count_key key)
            ≡ of_int (pos (length ds + n)) =
          unfold metric_count in count-deliver_all s key ds n h fits in
        ap to_int counted ∙ to_int_exact (pos (length ds + n)) (omega arith)
