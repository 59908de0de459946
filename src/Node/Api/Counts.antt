-- ===== src/Node/Api/Counts.antt =====
-- The counter calls of capacitor.go as operations on a tally of whole numbers, and what they log.
use capacitor.Prelude.{◌≡◌, arith, [], pos, Text, text_eq_iff, ℤ, ◌+ℤ◌, ap, ◌∙◌, sym}
use mathlib.Core.Path.{subst}
use capacitor.Float.{IsIeee, IsExact}
use capacitor.Hlc.{now}
use capacitor.Log.{append}
use capacitor.Log.Entry.{msg_incr}
use capacitor.Node.{Platform, Node, Readings}
use capacitor.Node.Api.{increment_by, incr_entry, get_count, log_append, time_incr}
use capacitor.Store.Counter.{increment, get_node_count, get_aggregate_count}
use capacitor.Store.Counter.Spec.{Tally, slot, total, write, slot-write}
use capacitor.Store.Counter.Refine.{Represents, IsExactStep, increment_refines}

module _ (p : Platform) (ieee : IsIeee p.float) (r : Readings) (n : Node p) (key : Text) (t : Tally)
    (holds : Represents p.float n.store key t) where
  -- Where the store holds a tally for the key, and the numbers involved are exact in `float64`:
  -- `IncrementBy` adds the whole number to this node's own number; it returns the new sum over all
  -- nodes, which `GetCount` then returns too; and it appends one entry to the log, a counter's, for the
  -- key, under the clock's new timestamp and this node's name, whose delta is the node's own new number.
  pub increment_by_refines :
      (delta : ℤ)
      → IsExact delta
      → IsExactStep t n.node_id (slot n.node_id t +ℤ delta)
      → let own = slot n.node_id t +ℤ delta in
        let t' = write n.node_id own t in
        let (n', val) = increment_by p r n key delta in
        (val ≡ total t')
        × (get_count p n' key ≡ total t')
        × Represents p.float n'.store key t'
        × (n'.log
            ≡ (append p.codec n.log (record {
              seq = 0;
              ts = (now r.wall n.hlc).1;
              born_at = r.born;
              op = msg_incr;
              key = key;
              node_id = n.node_id;
              value = [];
              delta = p.float.of_int own;
              ttl = pos 0;
            })).0)
  increment_by_refines delta e x = (
    returned,
    unfold get_count in
        ap (λ s. p.float.to_int (get_aggregate_count p.float s key)) stored
        ∙ ap p.float.to_int after_it.aggregate
        ∙ exact,
    subst (λ s. Represents p.float s key (write n.node_id own t)) (sym stored) after_it,
    unfold increment_by log_append time_incr incr_entry in ground (arith, own_lem),
  )
    where
      own : ℤ
      own = slot n.node_id t +ℤ delta

      after_it :
          Represents p.float
            (increment p.float n.store key n.node_id (p.float.of_int delta)).0
            key
            (write n.node_id own t)
      after_it = (increment_refines p.float ieee n.store key n.node_id t holds delta e x).1

      exact :
          p.float.to_int (p.float.of_int (total (write n.node_id own t)))
          ≡ total (write n.node_id own t)
      exact = ieee.to_int_exact (total (write n.node_id own t)) x.new_total_exact

      stored :
          (increment_by p r n key delta).0.store
          ≡ (increment p.float n.store key n.node_id (p.float.of_int delta)).0
      stored = unfold increment_by log_append time_incr in ground arith

      returned : (increment_by p r n key delta).1 ≡ total (write n.node_id own t)
      returned =
          unfold increment_by in
          ap p.float.to_int
            (increment_refines p.float ieee n.store key n.node_id t holds delta e x).0
          ∙ exact

      own_lem :
          get_node_count p.float
            (increment p.float n.store key n.node_id (p.float.of_int delta)).0
            key
            n.node_id
          ≡ p.float.of_int own
      own_lem =
          after_it.node_counts n.node_id
          ∙ ap p.float.of_int (
              slot-write n.node_id n.node_id own t
              ∙ ground (arith, text_eq_iff n.node_id n.node_id))
