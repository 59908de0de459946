-- ===== src/Store/Counter/Refine.antt =====
-- The counters of store.go and the tallies that they represent.
use capacitor.Prelude.{
  ◌≡◌, refl, arith, Text, text_eq, text_eq_iff, ℤ, if◌then◌else◌, ◌+ℤ◌, ◌-ℤ◌, ltb_ℤ, int_laws, ap,
  ◌∙◌,
}
use capacitor.Dict
use capacitor.Dict.{get-put}
use capacitor.Float.{Float64, IsIeee, IsExact}
use capacitor.Store.Placement.{node_key}
use capacitor.Store.Placement.Laws.{text_eq-node_key}
use capacitor.Store.Shard.{StoreShard, Store, get_shard, get_shard-with_shard_self, mark}
use capacitor.Store.Counter.{
  count_kind, count_at, aggregate_at, add_to, increment, get_node_count, raise_to, set_node_count,
  get_aggregate_count,
}
use capacitor.Store.Counter.Spec.{Tally, slot, total, write, raise, slot-write, total-write}

-- `c` can become the node's number in exact arithmetic.
pub record IsExactStep (t : Tally) (node : Text) (c : ℤ) : Type 0 where
  pub old_exact : IsExact (slot node t)
  pub new_exact : IsExact c
  pub diff_exact : IsExact (c -ℤ slot node t)
  pub total_exact : IsExact (total t)
  pub new_total_exact : IsExact (total (write node c t))

module _ (fl : Float64) where
  open fl use {Carrier, zero_f, add, sub, greater, of_int, to_int}

  -- The store holds the tally `t` for the counter `key`: every node's number, and the sum.
  pub record Represents (s : Store Carrier) (key : Text) (t : Tally) : Type 0 where
    pub node_counts : (node : Text) → get_node_count fl s key node ≡ of_int (slot node t)
    pub aggregate : get_aggregate_count fl s key ≡ of_int (total t)

  module _ (sh : StoreShard Carrier) (nk key : Text) where
    pub count-add_to :
        (j : Text) (delta : Carrier)
        → count_at fl (add_to fl nk key delta sh) j
          ≡ (if text_eq nk j then add (count_at fl sh nk) delta else count_at fl sh j)
    unfolding count_at add_to mark Dict.get_or
    count-add_to j delta = ground (arith, get-put sh.counts nk j (add (count_at fl sh nk) delta))

    pub aggregate-add_to :
        (j : Text) (delta : Carrier)
        → aggregate_at fl (add_to fl nk key delta sh) j
          ≡ (if text_eq key j then add (aggregate_at fl sh key) delta else aggregate_at fl sh j)
    unfolding aggregate_at add_to mark Dict.get_or
    aggregate-add_to j delta =
        ground (arith, get-put sh.aggregate_counts key j (add (aggregate_at fl sh key) delta))

    pub count-raise_to :
        (j : Text) (v : Carrier)
        → count_at fl (raise_to fl nk key v sh) j ≡ (
            if greater v (count_at fl sh nk)
            then (if text_eq nk j then v else count_at fl sh j)
            else count_at fl sh j)
    unfolding count_at raise_to mark Dict.get_or
    count-raise_to j v = ground (arith, get-put sh.counts nk j v)

    pub aggregate-raise_to :
        (j : Text) (v : Carrier)
        → aggregate_at fl (raise_to fl nk key v sh) j ≡ (
            if greater v (count_at fl sh nk)
            then (if text_eq key j
                then add (aggregate_at fl sh key) (sub v (count_at fl sh nk))
                else aggregate_at fl sh j)
            else aggregate_at fl sh j)
    unfolding aggregate_at raise_to mark Dict.get_or
    aggregate-raise_to j v = ground (
      arith,
      get-put sh.aggregate_counts key j (add (aggregate_at fl sh key) (sub v (count_at fl sh nk))),
    )

  module _ (s : Store Carrier) (key node : Text) where
    pub node_count-increment :
        (x : Carrier) (j : Text)
        → get_node_count fl (increment fl s key node x).0 key j ≡ (
            if text_eq node j
            then add (get_node_count fl s key node) x
            else get_node_count fl s key j)
    unfolding get_node_count increment
    node_count-increment x j = rw (
      get_shard-with_shard_self s key (add_to fl nk key x),
      count-add_to (get_shard s key) nk key (node_key count_kind key j) x,
      text_eq-node_key count_kind key node j,
    )
      where
        nk : Text
        nk = node_key count_kind key node

    pub aggregate-increment :
        (x : Carrier)
        → get_aggregate_count fl (increment fl s key node x).0 key
          ≡ add (get_aggregate_count fl s key) x
    unfolding get_aggregate_count increment
    aggregate-increment x = rw (
      get_shard-with_shard_self s key (add_to fl nk key x),
      aggregate-add_to (get_shard s key) nk key key x,
      (text_eq_iff key key).1 refl,
    )
      where
        nk : Text
        nk = node_key count_kind key node

    pub node_count-set :
        (v : Carrier) (j : Text)
        → get_node_count fl (set_node_count fl s key node v) key j ≡ (
            if greater v (get_node_count fl s key node)
            then (if text_eq node j then v else get_node_count fl s key j)
            else get_node_count fl s key j)
    unfolding get_node_count set_node_count
    node_count-set v j = rw (
      get_shard-with_shard_self s key (raise_to fl nk key v),
      count-raise_to (get_shard s key) nk key (node_key count_kind key j) v,
      text_eq-node_key count_kind key node j,
    )
      where
        nk : Text
        nk = node_key count_kind key node

    pub aggregate-set :
        (v : Carrier)
        → get_aggregate_count fl (set_node_count fl s key node v) key ≡ (
            if greater v (get_node_count fl s key node)
            then add (get_aggregate_count fl s key) (sub v (get_node_count fl s key node))
            else get_aggregate_count fl s key)
    unfolding get_node_count get_aggregate_count set_node_count
    aggregate-set v = rw (
      get_shard-with_shard_self s key (raise_to fl nk key v),
      aggregate-raise_to (get_shard s key) nk key key v,
      (text_eq_iff key key).1 refl,
    )
      where
        nk : Text
        nk = node_key count_kind key node

  module _ (ieee : IsIeee fl) (s : Store Carrier) (key node : Text) (t : Tally)
      (r : Represents s key t) where
    open ieee use {add_exact, sub_exact, greater_exact}
    open r use {node_counts, aggregate}

    -- Where the store holds a tally for the counter, and the numbers and sums involved are exact in
    -- `float64`: `increment` by the whole number `d` adds `d` to the node's number, and returns the
    -- new sum.
    pub increment_refines :
        (d : ℤ)
        → IsExact d
        → IsExactStep t node (slot node t +ℤ d)
        → let t' = write node (slot node t +ℤ d) t in
          let (s', agg) = increment fl s key node (of_int d) in
          (agg ≡ of_int (total t')) × Represents s' key t'
    unfolding increment get_aggregate_count
    increment_refines d e x = (new_sum, record { node_counts = new_counts; aggregate = new_sum })
      where
        c : ℤ
        c = slot node t +ℤ d

        total_lem : total (write node c t) ≡ total t +ℤ d
        total_lem = total-write node c t ∙ ap (λ (z : ℤ). total t +ℤ z) (omega int_laws)

        new_sum :
            get_aggregate_count fl (increment fl s key node (of_int d)).0 key
            ≡ of_int (total (write node c t))
        new_sum =
            rw (aggregate-increment s key node (of_int d), aggregate, total_lem)
              (add_exact (total t) d x.total_exact e (rw total_lem at x.new_total_exact))

        new_counts :
            (j : Text)
            → get_node_count fl (increment fl s key node (of_int d)).0 key j
              ≡ of_int (slot j (write node c t))
        new_counts j = ground (
          arith,
          node_count-increment s key node (of_int d) j,
          node_counts node,
          node_counts j,
          slot-write node j c t,
          add_exact (slot node t) d x.old_exact e x.new_exact,
        )

    -- Where the store holds a tally for the counter, and the numbers and sums involved are exact in
    -- `float64`: `setNodeCount` of the whole number `c` raises the node's number to `c`, if `c` is
    -- greater, and leaves the tally as it is, if not.
    pub set_node_count_refines :
        (c : ℤ)
        → IsExactStep t node c
        → Represents (set_node_count fl s key node (of_int c)) key (raise node c t)
    set_node_count_refines c x = record { node_counts = new_counts; aggregate = new_sum }
      where
        test : greater (of_int c) (get_node_count fl s key node) ≡ ltb_ℤ (slot node t) c
        test = rw (node_counts node) (greater_exact c (slot node t) x.new_exact x.old_exact)

        diff : sub (of_int c) (get_node_count fl s key node) ≡ of_int (c -ℤ slot node t)
        diff =
            rw (node_counts node) (sub_exact c (slot node t) x.new_exact x.old_exact x.diff_exact)

        sum_lem :
            add (get_aggregate_count fl s key) (of_int (c -ℤ slot node t))
            ≡ of_int (total (write node c t))
        sum_lem =
            rw (aggregate, total-write node c t)
              (add_exact (total t) (c -ℤ slot node t) x.total_exact x.diff_exact
                (rw (total-write node c t) at x.new_total_exact))

        new_sum :
            get_aggregate_count fl (set_node_count fl s key node (of_int c)) key
            ≡ of_int (total (raise node c t))
        new_sum =
            rw (aggregate-set s key node (of_int c), test, diff, sum_lem, aggregate)
              (unfold raise in ground arith)

        new_counts :
            (j : Text)
            → get_node_count fl (set_node_count fl s key node (of_int c)) key j
              ≡ of_int (slot j (raise node c t))
        new_counts j =
            rw (node_count-set s key node (of_int c) j, test, node_counts j)
              (unfold raise in ground (arith, slot-write node j c t))
