-- ===== src/Tests/Counters.antt =====
-- Examples for the counters and metrics of store.go.
use capacitor.Prelude.{
  ◌≡◌, ◌≢◌, refl, arith, [], ◌∷◌, Text, text_eq, codes, ℤ, pos, negsuc, ◌+ℤ◌, ◌-ℤ◌,
}
use capacitor.Dict
use capacitor.Store.Shard.{Store, empty_store, get_shard, new_store_shard}
use capacitor.Store.Counter.{
  count_at, aggregate_at, increment, set_node_count, get_node_count, get_aggregate_count,
  get_aggregate_metric,
}
use capacitor.Store.Counter.Spec.{slot, total, write, raise}
use capacitor.Store.Counter.Refine.{IsExactStep, Represents, set_node_count_refines}
use capacitor.Store.Counter.Merge.{receive_all, counters_converge, decrement_lost}
use capacitor.Store.Counter.Reports.{Report, raise_all, AllExact}
use capacitor.Store.Counter.Metrics.{metric_count, deliver_all, deliver_all-count}
use capacitor.Tests.Fixtures.{int_float, int_float-IsIeee, two_SameElements}

abbrev fresh : Store ℤ
fresh = empty_store ℤ

abbrev key : Text
key = codes "hits"

fresh-Represents : Represents int_float fresh key []
unfolding get_node_count get_aggregate_count count_at aggregate_at get_shard new_store_shard
    Dict.get_or Dict.get Dict.empty slot total
fresh-Represents = record { node_counts = λ node. refl; aggregate = refl }

abbrev report_a : Report
report_a = (codes "A", pos 3)

abbrev report_b : Report
report_b = (codes "B", pos 5)

one-IsExactStep : (c : ℤ) → c ≡ pos 3 → IsExactStep [] (codes "A") c
unfolding slot total write ◌-ℤ◌ ◌+ℤ◌
one-IsExactStep c e = record {
  old_exact = ground arith;
  new_exact = ground arith;
  diff_exact = ground arith;
  total_exact = ground arith;
  new_total_exact = ground arith;
}

ab-AllExact : AllExact (report_a ∷ report_b ∷ [])
unfolding slot total write raise raise_all ◌-ℤ◌ ◌+ℤ◌ text_eq
ab-AllExact = (
  record {
    old_exact = omega arith;
    new_exact = omega arith;
    diff_exact = omega arith;
    total_exact = omega arith;
    new_total_exact = omega arith;
  },
  (
    record {
      old_exact = omega arith;
      new_exact = omega arith;
      diff_exact = omega arith;
      total_exact = omega arith;
      new_total_exact = omega arith;
    },
    tt,
  ),
)

bab-AllExact : AllExact (report_b ∷ report_a ∷ report_b ∷ [])
unfolding slot total write raise raise_all ◌-ℤ◌ ◌+ℤ◌ text_eq
bab-AllExact = (
  record {
    old_exact = omega arith;
    new_exact = omega arith;
    diff_exact = omega arith;
    total_exact = omega arith;
    new_total_exact = omega arith;
  },
  ab-AllExact,
)

counters_converge_example :
    (get_aggregate_count int_float (receive_all int_float fresh key (report_a ∷ report_b ∷ [])) key
      ≡ get_aggregate_count int_float
          (receive_all int_float fresh key (report_b ∷ report_a ∷ report_b ∷ []))
          key)
    × ((n : Text)
        → get_node_count int_float
            (receive_all int_float fresh key (report_a ∷ report_b ∷ []))
            key
            n
          ≡ get_node_count int_float
              (receive_all int_float fresh key (report_b ∷ report_a ∷ report_b ∷ []))
              key
              n)
counters_converge_example =
    counters_converge int_float int_float-IsIeee fresh fresh key (report_a ∷ report_b ∷ [])
      (report_b ∷ report_a ∷ report_b ∷ []) fresh-Represents fresh-Represents ab-AllExact
      bab-AllExact (two_SameElements report_a report_b)

set_node_count_refines_example :
    Represents int_float
      (set_node_count int_float fresh key (codes "A") (pos 3))
      key
      (raise (codes "A") (pos 3) [])
set_node_count_refines_example =
    set_node_count_refines int_float int_float-IsIeee fresh key (codes "A") [] fresh-Represents
      (pos 3) (one-IsExactStep (pos 3) refl)

minus_one-IsExactStep : IsExactStep [] (codes "A") (slot (codes "A") [] +ℤ negsuc 0)
unfolding slot total write ◌-ℤ◌ ◌+ℤ◌
minus_one-IsExactStep = record {
  old_exact = omega arith;
  new_exact = omega arith;
  diff_exact = omega arith;
  total_exact = omega arith;
  new_total_exact = omega arith;
}

decrement_lost_example :
    (set_node_count int_float fresh key (codes "A") (
        get_node_count int_float
          (increment int_float fresh key (codes "A") (negsuc 0)).0
          key
          (codes "A"))
      ≡ fresh)
    × (get_aggregate_count int_float (increment int_float fresh key (codes "A") (negsuc 0)).0 key
        ≢ get_aggregate_count int_float fresh key)
decrement_lost_example =
    decrement_lost int_float int_float-IsIeee fresh fresh key (codes "A") [] (negsuc 0)
      fresh-Represents fresh-Represents (omega arith) (omega arith) minus_one-IsExactStep

abbrev delivery : Text × ℤ
delivery = (codes "A", pos 9)

no_metric : metric_count int_float fresh key ≡ pos 0
unfolding metric_count aggregate_at get_shard new_store_shard Dict.get_or Dict.get Dict.empty
no_metric = refl

deliver_all-count_example :
    (get_aggregate_metric int_float
      (deliver_all int_float fresh key (delivery ∷ delivery ∷ []))
      key).count
    ≡ pos 2
deliver_all-count_example =
    deliver_all-count int_float int_float-IsIeee fresh key (delivery ∷ delivery ∷ []) 0 no_metric
      (omega arith)
