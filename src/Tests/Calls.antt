-- ===== src/Tests/Calls.antt =====
-- Examples for the calls of capacitor.go.
use capacitor.Prelude.{
  ℕ, List, ◌≡◌, ◌⊎◌, refl, arith, none, some, [], Text, codes, pos, ◌+ℤ◌, ◌-ℤ◌, text_eq, ◌&&◌, not,
  ltb_ℤ, wrap64, if◌then◌else◌, false,
}
use capacitor.Dict
use capacitor.Hlc.{now}
use capacitor.Log.{append}
use capacitor.Log.Entry.{msg_set, msg_incr}
use capacitor.Metrics.{div_ℤ}
use capacitor.Node.{Node, Readings, Status, ok, failed}
use capacitor.Node.Api.{set, increment_by, get_count}
use capacitor.Node.Api.Counts.{increment_by_refines}
use capacitor.Node.Api.Writes.{set_lem}
use capacitor.Store.Cache.{entry, is_stale}
use capacitor.Store.Counter.{count_at, aggregate_at, get_node_count, get_aggregate_count}
use capacitor.Store.Counter.Spec.{slot, total, write}
use capacitor.Store.Counter.Refine.{IsExactStep, Represents}
use capacitor.Store.Shard.{text, get_shard, new_store_shard}
use capacitor.Tests.Fixtures.{plain, plain_codec, int_float, int_float-IsIeee, new_node}
use capacitor.Tests.Logs.{one_log}

abbrev node : Node plain
node = new_node one_log

abbrev readings : Readings
readings = record { start = pos 104; wall = pos 105; born = pos 106; finish = pos 107 }

abbrev key : Text
key = codes "hits"

-- A value with a TTL of five milliseconds.
abbrev one_set : Node plain × Status
one_set = set plain readings node key (text (codes "x")) (pos 5_000_000)

set_lem_example :
    (one_set.0.hlc ≡ (now (pos 105) node.hlc).0)
    × ((j : Text)
        → entry one_set.0.store j ≡ (
            if text_eq key j && not (is_stale (entry node.store j) (now (pos 105) node.hlc).1)
            then some (record {
              value = text (codes "x");
              timestamp = (now (pos 105) node.hlc).1;
              expires_at =
                  if ltb_ℤ (pos 0) (pos 5_000_000)
                  then wrap64 ((now (pos 105) node.hlc).1.physical +ℤ pos 5_000_000)
                  else pos 0;
              deleted = false;
            })
            else entry node.store j))
    × ((plain.msgpack.marshal_value (text (codes "x")) ≡ none)
          × (one_set.1 ≡ failed)
          × (one_set.0.log ≡ node.log)
        ⊎ (bin : List ℕ) × (plain.msgpack.marshal_value (text (codes "x")) ≡ some bin)
          × (one_set.1 ≡ ok)
          × (one_set.0.log
              ≡ (append plain_codec node.log (record {
                seq = 0;
                ts = (now (pos 105) node.hlc).1;
                born_at = pos 106;
                op = msg_set;
                key = key;
                node_id = [];
                value = bin;
                delta = pos 0;
                ttl = div_ℤ (pos 5_000_000) 1_000_000;
              })).0))
set_lem_example = set_lem plain readings node key (text (codes "x")) (pos 5_000_000)

node-Represents : Represents int_float node.store key []
unfolding get_node_count get_aggregate_count count_at aggregate_at get_shard new_store_shard
    Dict.get_or Dict.get Dict.empty slot total
node-Represents = record { node_counts = λ other_node. refl; aggregate = refl }

three-IsExactStep : IsExactStep [] node.node_id (slot node.node_id [] +ℤ pos 3)
unfolding slot total write ◌-ℤ◌ ◌+ℤ◌
three-IsExactStep = record {
  old_exact = omega arith;
  new_exact = omega arith;
  diff_exact = omega arith;
  total_exact = omega arith;
  new_total_exact = omega arith;
}

increment_by_refines_example :
    ((increment_by plain readings node key (pos 3)).1
      ≡ total (write node.node_id (slot node.node_id [] +ℤ pos 3) []))
    × (get_count plain (increment_by plain readings node key (pos 3)).0 key
        ≡ total (write node.node_id (slot node.node_id [] +ℤ pos 3) []))
    × Represents int_float
        (increment_by plain readings node key (pos 3)).0.store
        key
        (write node.node_id (slot node.node_id [] +ℤ pos 3) [])
    × ((increment_by plain readings node key (pos 3)).0.log
        ≡ (append plain_codec node.log (record {
          seq = 0;
          ts = (now (pos 105) node.hlc).1;
          born_at = pos 106;
          op = msg_incr;
          key = key;
          node_id = node.node_id;
          value = [];
          delta = slot node.node_id [] +ℤ pos 3;
          ttl = pos 0;
        })).0)
increment_by_refines_example =
    increment_by_refines plain int_float-IsIeee readings node key [] node-Represents (pos 3)
      (omega arith) three-IsExactStep
