-- ===== src/Store/Counter.antt =====
-- store.go: distributed counters, `increment`, `getNodeCount`, `setNodeCount`, `getAggregateCount`, and
-- the metrics `incrementMetric`, `getAggregateMetric`. `counts` holds one number per key and node, and
-- `aggregateCounts` their sum per key. The methods' `error` result is always nil and is left out.
pub mod Spec
pub mod Refine
pub mod Reports
pub mod Merge
pub mod Metrics
use capacitor.Prelude.{ℕ, Bool, true, List, [], ◌∷◌, ◌++◌, Text, codes, ℤ, pos, if◌then◌else◌}
use capacitor.Dict
use capacitor.Float.{Float64}
use capacitor.Store.Placement.{node_key}
use capacitor.Store.Shard.{StoreShard, Store, get_shard, with_shard, mark}

abbrev pub count_kind : Text
count_kind = codes "c"

abbrev pub metric_count_kind : Text
metric_count_kind = codes "mc"

abbrev pub metric_sum_kind : Text
metric_sum_kind = codes "ms"

-- `Metric` of types.go.
pub record Metric (F : Type 0) : Type 0 where
  pub count : ℤ
  pub sum : F

-- "m:c:" + key, "m:s:" + key
abbrev pub metric_count_key : Text → Text
metric_count_key key = codes "m:c:" ++ key

abbrev pub metric_sum_key : Text → Text
metric_sum_key key = codes "m:s:" ++ key

module _ (fl : Float64) where
  open fl use {Carrier, zero_f, add, sub, greater, of_int, to_int}

  -- `shard.counts[k]`, `shard.aggregateCounts[k]`: 0 for a missing key.
  unfoldable pub count_at : StoreShard Carrier → Text → Carrier
  count_at sh k = Dict.get_or sh.counts k zero_f

  unfoldable pub aggregate_at : StoreShard Carrier → Text → Carrier
  aggregate_at sh k = Dict.get_or sh.aggregate_counts k zero_f

  -- counts[node_key] += delta; aggregateCounts[key] += delta; dirty[node_key] = true
  unfoldable pub add_to : Text → Text → Carrier → StoreShard Carrier → StoreShard Carrier
  unfolding count_at aggregate_at mark
  add_to nk key delta sh =
      mark
        (record sh {
          counts = Dict.put sh.counts nk (add (count_at sh nk) delta);
          aggregate_counts = Dict.put sh.aggregate_counts key (add (aggregate_at sh key) delta);
        })
        nk

  unfoldable pub increment : Store Carrier → Text → Text → Carrier → Store Carrier × Carrier
  unfolding add_to
  increment s key node delta =
      let s' = with_shard s key (add_to (node_key count_kind key node) key delta) in
      (s', aggregate_at (get_shard s' key) key)

  unfoldable pub get_node_count : Store Carrier → Text → Text → Carrier
  unfolding count_at
  get_node_count s key node = count_at (get_shard s key) (node_key count_kind key node)

  unfoldable pub raise_to : Text → Text → Carrier → StoreShard Carrier → StoreShard Carrier
  unfolding count_at aggregate_at mark
  raise_to nk key val sh =
      if greater val (count_at sh nk)
      then mark
          (record sh {
            counts = Dict.put sh.counts nk val;
            aggregate_counts =
                Dict.put sh.aggregate_counts key
                  (add (aggregate_at sh key) (sub val (count_at sh nk)));
          })
          nk
      else sh

  unfoldable pub set_node_count : Store Carrier → Text → Text → Carrier → Store Carrier
  unfolding raise_to
  set_node_count s key node val = with_shard s key (raise_to (node_key count_kind key node) key val)

  unfoldable pub get_aggregate_count : Store Carrier → Text → Carrier
  unfolding aggregate_at
  get_aggregate_count s key = aggregate_at (get_shard s key) key

  unfoldable pub get_aggregate_metric : Store Carrier → Text → Metric Carrier
  unfolding aggregate_at
  get_aggregate_metric s key =
      let sh = get_shard s key in
      record {
        count = to_int (aggregate_at sh (metric_count_key key));
        sum = aggregate_at sh (metric_sum_key key);
      }

  unfoldable pub increment_metric :
      Store Carrier → Text → Text → Carrier → Store Carrier × Metric Carrier
  unfolding add_to get_aggregate_metric
  increment_metric s key node delta =
      let s' = with_shard s key (λ sh.
        add_to (node_key metric_sum_kind key node) (metric_sum_key key) delta (
          add_to (node_key metric_count_kind key node) (metric_count_key key) (of_int (pos 1))
            sh)) in
      (s', get_aggregate_metric s' key)
