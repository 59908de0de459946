-- ===== src/Store/Counter/Merge.antt =====
-- Theorems on the counters of store.go under `setNodeCount`, the reports of other nodes.
use capacitor.Prelude.{
  SameElements, ◌≡◌, ◌≢◌, refl, false, arith, List, [], ◌∷◌, Text, text_eq_iff, ℤ, pos, ◌+ℤ◌, ◌-ℤ◌,
  ◌<ℤ◌, ltb_ℤ, int_laws, +ℤ_parts, pos_part, neg_part, ap, ◌∙◌, sym,
}
use capacitor.Float.{Float64, IsIeee, IsExact}
use capacitor.Store.Placement.{node_key}
use capacitor.Store.Shard.{
  StoreShard, Store, get_shard, with_shard, with_shard_id, get_shard-with_shard_self,
}
use capacitor.Store.Counter.{
  count_kind, count_at, raise_to, increment, get_node_count, set_node_count, get_aggregate_count,
}
use capacitor.Store.Counter.Spec.{
  Tally, slot, total, write, slot-write, total-write, total_of_slots,
}
use capacitor.Store.Counter.Refine.{
  Represents, IsExactStep, set_node_count_refines, increment_refines, count-raise_to,
}
use capacitor.Store.Counter.Reports.{
  Report, raise_all, AllExact, slot-raise_all, raise_all-IsUnique,
}

module _ (fl : Float64) where
  open fl use {Carrier, of_int}

  -- The store after the reports of a counter, of which the first in the list came last.
  pub receive_all : Store Carrier → Text → List Report → Store Carrier
  receive_all s key [] = s
  receive_all s key ((n, c) ∷ rs) = set_node_count fl (receive_all s key rs) key n (of_int c)

module _ (fl : Float64) (ieee : IsIeee fl) where
  open fl use {Carrier, greater, of_int}

  receive_all_refines :
      (s : Store Carrier) (key : Text) (rs : List Report)
      → Represents fl s key []
      → AllExact rs
      → Represents fl (receive_all fl s key rs) key (raise_all [] rs)
  unfolding receive_all raise_all
  receive_all_refines s key [] r x = r
  receive_all_refines s key ((n, c) ∷ rs) r x =
      set_node_count_refines fl ieee (receive_all fl s key rs) key n (raise_all [] rs)
        (receive_all_refines s key rs r x.1) c x.0

  -- Two stores in which the counter is 0, and that received the same reports of the nodes' numbers
  -- in any order and any number of times, agree on every node's number and on the counter, where
  -- all numbers and sums that the reports lead to are exact in `float64`.
  pub counters_converge :
      (s s' : Store Carrier) (key : Text) (rs rs' : List Report)
      → Represents fl s key []
      → Represents fl s' key []
      → AllExact rs
      → AllExact rs'
      → SameElements rs rs'
      → (get_aggregate_count fl (receive_all fl s key rs) key
          ≡ get_aggregate_count fl (receive_all fl s' key rs') key)
        × ((n : Text)
            → get_node_count fl (receive_all fl s key rs) key n
              ≡ get_node_count fl (receive_all fl s' key rs') key n)
  counters_converge s s' key rs rs' r r' x x' same =
      let a = receive_all_refines s key rs r x in
      let b = receive_all_refines s' key rs' r' x' in
      (
        a.aggregate
            ∙ ap of_int (
                total_of_slots (raise_all [] rs) (raise_all [] rs') (raise_all-IsUnique rs)
                  (raise_all-IsUnique rs') (λ n. slot-raise_all rs rs' n same))
            ∙ sym b.aggregate,
        λ n. a.node_counts n ∙ ap of_int (slot-raise_all rs rs' n same) ∙ sym (b.node_counts n),
      )

  -- For all floats, where `>` is irreflexive: a report of a node's number is idempotent, the second
  -- one changes nothing at all.
  pub set_node_count_idem :
      (s : Store Carrier) (key node : Text) (v : Carrier)
      → set_node_count fl (set_node_count fl s key node v) key node v
        ≡ set_node_count fl s key node v
  unfolding set_node_count
  set_node_count_idem s key node v =
      with_shard_id (with_shard s key (raise_to fl nk key v)) key (raise_to fl nk key v)
        (rw (get_shard-with_shard_self s key (raise_to fl nk key v)) (settled (get_shard s key)))
    where
      nk : Text
      nk = node_key count_kind key node

      below :
          (sh : StoreShard Carrier) → greater v (count_at fl (raise_to fl nk key v sh) nk) ≡ false
      below sh =
          ground
            (arith, count-raise_to fl sh nk key nk v, text_eq_iff nk nk, ieee.greater_irreflexive v)

      settled :
          (sh : StoreShard Carrier)
          → raise_to fl nk key v (raise_to fl nk key v sh) ≡ raise_to fl nk key v sh
      settled sh = stays (raise_to fl nk key v sh) (below sh)
        where
          stays :
              (sh : StoreShard Carrier)
              → greater v (count_at fl sh nk) ≡ false
              → raise_to fl nk key v sh ≡ sh
          stays sh h = unfold raise_to in rw h

  not_raised :
      (s : Store Carrier) (key node : Text) (v : Carrier)
      → greater v (get_node_count fl s key node) ≡ false
      → set_node_count fl s key node v ≡ s
  unfolding set_node_count get_node_count
  not_raised s key node v h =
      with_shard_id s key (raise_to fl (node_key count_kind key node) key v)
        (unfold raise_to in rw h)

  -- Two nodes agree on a counter, and one decrements it, in exact arithmetic: its report of its own
  -- number leaves the store of the other as it is, so the two then disagree on the counter.
  pub decrement_lost :
      (s s' : Store Carrier) (key node : Text) (t : Tally) (d : ℤ)
      → Represents fl s key t
      → Represents fl s' key t
      → d <ℤ pos 0
      → IsExact d
      → IsExactStep t node (slot node t +ℤ d)
      → let s₁ = (increment fl s key node (of_int d)).0 in
        (set_node_count fl s' key node (get_node_count fl s₁ key node) ≡ s')
        × (get_aggregate_count fl s₁ key ≢ get_aggregate_count fl s' key)
  decrement_lost s s' key node t d r r' neg e x = (
    rw (own, not_raised s' key node (of_int c) lower) refl,
    λ same. differ (ap fl.to_int (sym after_it.aggregate ∙ same ∙ r'.aggregate)),
  )
    where
      c : ℤ
      c = slot node t +ℤ d

      after_it : Represents fl (increment fl s key node (of_int d)).0 key (write node c t)
      after_it = (increment_refines fl ieee s key node t r d e x).1

      own : get_node_count fl (increment fl s key node (of_int d)).0 key node ≡ of_int c
      own = rw (after_it.node_counts node, slot-write node node c t, (text_eq_iff node node).1 refl)

      smaller : ltb_ℤ (slot node t) c ≡ false
      smaller = ground (arith, +ℤ_parts (slot node t) d)

      lower : greater (of_int c) (get_node_count fl s' key node) ≡ false
      lower =
          rw (r'.node_counts node, ieee.greater_exact c (slot node t) x.new_exact x.old_exact)
            smaller

      changed : total (write node c t) ≡ total t → ⊥
      changed p = moved (sym (total-write node c t) ∙ p)
        where
          moved : total t +ℤ (c -ℤ slot node t) ≡ total t → ⊥
          moved q = omega (int_laws, ap pos_part q, ap neg_part q)

      differ : fl.to_int (of_int (total (write node c t))) ≡ fl.to_int (of_int (total t)) → ⊥
      differ p = changed (
          sym (ieee.to_int_exact (total (write node c t)) x.new_total_exact)
          ∙ p
          ∙ ieee.to_int_exact (total t) x.total_exact)
