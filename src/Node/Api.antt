-- ===== src/Node/Api.antt =====
-- capacitor.go: the calls that a client makes.
pub mod Writes
pub mod Scan
pub mod Counts
use capacitor.Prelude.{
  ℕ, suc, ◌+◌, ◌/◌, Bool, true, false, Option, none, some, List, [], ◌∷◌, Text, ℤ, pos, negsuc,
  if◌then◌else◌, sub_ℕ,
}
use capacitor.Dict
use capacitor.Dict.{Dict}
use capacitor.Hlc.{Timestamp, now}
use capacitor.Log.{append}
use capacitor.Log.Entry.{LogEntry, MsgType, msg_set, msg_incr, msg_metric, msg_window, msg_delete}
use capacitor.Metrics.{Stat, Tracker, observe, div_ℤ}
use capacitor.Node.{Platform, Node, Readings, since, Status, ok, failed}
use capacitor.Store.Cache
use capacitor.Store.Counter
use capacitor.Store.Counter.{Metric}
use capacitor.Store.Window
use capacitor.Store.Shard.{Value, nil, text, blob, other}

-- int64(ttl.Milliseconds())
abbrev pub milliseconds : ℤ → ℤ
milliseconds ttl = div_ℤ ttl 1_000_000

module _ (p : Platform) where
  open p use {float, codec, msgpack}
  open float use {Carrier, zero_f, of_int, to_int}
  open msgpack use {marshal_value}

  -- Fills the fields of an entry that the call leaves at their zero values.
  blank : Timestamp → MsgType → Text → LogEntry Carrier
  blank ts op key = record {
    seq = 0;
    ts = ts;
    born_at = pos 0;
    op = op;
    key = key;
    node_id = [];
    value = [];
    delta = zero_f;
    ttl = pos 0;
  }

  log_append : Node p → LogEntry Carrier → Node p
  log_append n e = record n { log = (append codec n.log e).0 }

  time_set : Node p → Readings → Node p
  time_set n r = if n.disable_metrics then n else record n {
    metrics = record n.metrics { set_lat = observe n.metrics.set_lat (since r.start r.finish) };
  }

  time_get : Node p → Readings → Node p
  time_get n r = if n.disable_metrics then n else record n {
    metrics = record n.metrics { get_lat = observe n.metrics.get_lat (since r.start r.finish) };
  }

  time_incr : Node p → Readings → Node p
  time_incr n r = if n.disable_metrics then n else record n {
    metrics = record n.metrics { incr_lat = observe n.metrics.incr_lat (since r.start r.finish) };
  }

  -- The entry that `Set` logs.
  unfoldable pub set_entry : Readings → Timestamp → Text → List ℕ → ℤ → LogEntry Carrier
  unfolding blank
  set_entry r ts key bin_val ttl = record (blank ts msg_set key) {
    born_at = r.born;
    value = bin_val;
    ttl = milliseconds ttl;
  }

  -- The local write stands also where the value cannot be serialized, and nothing is logged then.
  unfoldable pub set : Readings → Node p → Text → Value → ℤ → Node p × Status
  unfolding set_entry log_append time_set
  set r n key value ttl =
      let (hlc, ts) = now r.wall n.hlc in
      let written = record n { hlc = hlc; store = Cache.set n.store key value ts ttl } in
      elim (marshal_value value) [
        | none ↦ (written, failed)
        | some bin_val ↦ (time_set (log_append written (set_entry r ts key bin_val ttl)) r, ok)
      ]

  unfoldable pub delete_entry : Readings → Timestamp → Text → LogEntry Carrier
  unfolding blank
  delete_entry r ts key = record (blank ts msg_delete key) { born_at = r.born }

  unfoldable pub delete : Readings → Node p → Text → Node p
  unfolding delete_entry log_append time_set
  delete r n key =
      let (hlc, ts) = now r.wall n.hlc in
      let written = record n { hlc = hlc; store = Cache.delete n.store key ts } in
      time_set (log_append written (delete_entry r ts key)) r

  -- The bytes of a value, as `getInternal` returns them: nothing for nil, and for a value that cannot
  -- be serialized.
  unfoldable pub to_text : Value → Text
  to_text nil = []
  to_text (text s) = s
  to_text (blob b) = b
  to_text (other x) = elim (marshal_value (other x)) [ none ↦ [] | some b ↦ b ]

  -- `Get` and `getInternal`.
  unfoldable pub get : Readings → Node p → Text → Node p × Text
  unfolding to_text time_get
  get r n key = (time_get n r, to_text (Cache.get r.wall n.store key))

  unfoldable pub exists : Readings → Node p → Text → Node p × Bool
  unfolding time_get
  exists r n key = (time_get n r, Cache.exists r.wall n.store key)

  unfoldable pub incr_entry : Readings → Node p → Timestamp → Text → Carrier → LogEntry Carrier
  unfolding blank
  incr_entry r n ts key node_val = record (blank ts msg_incr key) {
    born_at = r.born;
    delta = node_val;
    node_id = n.node_id;
  }

  -- The clock is read after the store has been changed.
  unfoldable pub increment_by : Readings → Node p → Text → ℤ → Node p × ℤ
  unfolding incr_entry log_append time_incr
  increment_by r n key delta =
      let (store, val) = Counter.increment float n.store key n.node_id (of_int delta) in
      let node_val = Counter.get_node_count float store key n.node_id in
      let (hlc, ts) = now r.wall n.hlc in
      let written = record n { store = store; hlc = hlc } in
      (time_incr (log_append written (incr_entry r n ts key node_val)) r, to_int val)

  unfoldable pub increment : Readings → Node p → Text → Node p × ℤ
  unfolding increment_by
  increment r n key = increment_by r n key (pos 1)

  unfoldable pub get_count : Node p → Text → ℤ
  get_count n key = to_int (Counter.get_aggregate_count float n.store key)

  -- The loop of `IncrementParallel`: one call after the other, each with its readings.
  unfoldable pub increment_parallel : Node p → List (Readings × Text) → Dict ℤ → Node p × Dict ℤ
  unfolding increment
  increment_parallel n [] res = (n, res)
  increment_parallel n ((r, key) ∷ keys) res =
      let (n', val) = increment r n key in increment_parallel n' keys (Dict.put res key val)

  unfoldable pub metric_entry : Node p → Timestamp → Text → Carrier → LogEntry Carrier
  unfolding blank
  metric_entry n ts key delta = record (blank ts msg_metric key) {
    delta = delta;
    node_id = n.node_id;
  }

  unfoldable pub increment_metric : Readings → Node p → Text → Carrier → Node p × Metric Carrier
  unfolding metric_entry log_append
  increment_metric r n key delta =
      let (store, m) = Counter.increment_metric float n.store key n.node_id delta in
      let (hlc, ts) = now r.wall n.hlc in
      (log_append (record n { store = store; hlc = hlc }) (metric_entry n ts key delta), m)

  unfoldable pub get_metric : Node p → Text → Metric Carrier
  get_metric n key = Counter.get_aggregate_metric float n.store key

  -- The loop of `IncrementMetricParallel`.
  unfoldable pub increment_metric_parallel :
      Node p
      → List (Readings × Text × Carrier)
      → Dict (Metric Carrier)
      → Node p × Dict (Metric Carrier)
  unfolding increment_metric
  increment_metric_parallel n [] res = (n, res)
  increment_metric_parallel n ((r, key, delta) ∷ keys) res =
      let (n', m) = increment_metric r n key delta in
      increment_metric_parallel n' keys (Dict.put res key m)

  unfoldable pub window_entry : Node p → Timestamp → Text → LogEntry Carrier
  unfolding blank
  window_entry n ts key = record (blank ts msg_window key) { node_id = n.node_id }

  -- `r.finish` is the reading of the store's own clock call.
  unfoldable pub increment_sliding_window : Readings → Node p → Text → ℤ → Node p × ℕ
  unfolding window_entry log_append
  increment_sliding_window r n key window =
      let (hlc, ts) = now r.wall n.hlc in
      let (store, count) =
        Window.increment_sliding_window r.finish n.store key ts.physical window in
      (log_append (record n { hlc = hlc; store = store }) (window_entry n ts key), count)
