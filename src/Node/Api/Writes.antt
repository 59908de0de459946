-- ===== src/Node/Api/Writes.antt =====
-- `Set`, `Delete` and `Get` of capacitor.go: what they do to the store and the log, on every branch.
use capacitor.Prelude.{
  ◌≡◌, ◌⊎◌, arith, none, some, List, Text, ℤ, pos, ◌≤ℤ◌, false, ap, ◌∙◌, inl, inr, Option-cases, ℕ,
  [], text_eq, ◌&&◌, not, ltb_ℤ, wrap64, ◌+ℤ◌, if◌then◌else◌,
}
use capacitor.Hlc.{now}
use capacitor.Log.{append}
use capacitor.Node.{Platform, Node, Readings, ok, failed}
use capacitor.Node.Api.{set, set_entry, get, to_text, delete, delete_entry, log_append, time_set}
use capacitor.Store.Cache
use capacitor.Store.Cache.{entry, is_stale, live_value}
use capacitor.Store.Cache.Entry.{join, entry-set}
use capacitor.Log.Entry.{msg_set}
use capacitor.Metrics.{div_ℤ}
use capacitor.Store.Cache.Reads.{get-set_forever}
use capacitor.Store.Shard.{Value}

module _ (p : Platform) (r : Readings) (n : Node p) (key : Text) where
  module _ (value : Value) (ttl : ℤ) where
    set-failed :
        p.msgpack.marshal_value value ≡ none
        → let (n', status) = set p r n key value ttl in
          (status ≡ failed)
          × (n'.log ≡ n.log)
          × (n'.hlc ≡ (now r.wall n.hlc).0)
          × (n'.store ≡ Cache.set n.store key value (now r.wall n.hlc).1 ttl)
    unfolding set
    set-failed e = ground (arith, e)

    pub set-ok :
        (bin : List ℕ)
        → p.msgpack.marshal_value value ≡ some bin
        → let (n', status) = set p r n key value ttl in
          let ts = (now r.wall n.hlc).1 in
          (status ≡ ok)
          × (n'.hlc ≡ (now r.wall n.hlc).0)
          × (n'.log ≡ (append p.codec n.log (set_entry p r ts key bin ttl)).0)
          × (n'.store ≡ Cache.set n.store key value ts ttl)
    unfolding set log_append time_set
    set-ok bin e = ground (arith, e)

    store-set :
        (set p r n key value ttl).0.store ≡ Cache.set n.store key value (now r.wall n.hlc).1 ttl
    store-set = elim (Option-cases (p.msgpack.marshal_value value)) [
      | inl e ↦ (set-failed e).3
      | inr (bin, e) ↦ (set-ok bin e).3
    ]

    entry-set_lem :
        (j : Text)
        → entry (Cache.set n.store key value (now r.wall n.hlc).1 ttl) j ≡ (
            if text_eq key j && not (is_stale (entry n.store j) (now r.wall n.hlc).1)
            then some (record {
              value = value;
              timestamp = (now r.wall n.hlc).1;
              expires_at =
                  if ltb_ℤ (pos 0) ttl
                  then wrap64 ((now r.wall n.hlc).1.physical +ℤ ttl)
                  else pos 0;
              deleted = false;
            })
            else entry n.store j)
    unfolding join live_value is_stale
    entry-set_lem j = ground (arith, entry-set n.store key value (now r.wall n.hlc).1 ttl j)

    -- `Set`, whether msgpack can encode the value or not, takes a new timestamp and puts the value under
    -- the key with that timestamp, and with an expiry that much later than it if the TTL is positive,
    -- unless the key holds an entry from that time or later; the entries of all other keys stay. If
    -- msgpack cannot encode the value, it reports a failure and the log is as before, so that the
    -- write stays on this node. If it can, it reports success, and has appended one entry to the log, a
    -- set, for the key, with that timestamp, the encoded value and the TTL in whole milliseconds.
    pub set_lem :
        let (n', status) = set p r n key value ttl in
        let ts = (now r.wall n.hlc).1 in
        (n'.hlc ≡ (now r.wall n.hlc).0)
        × ((j : Text)
            → entry n'.store j ≡ (
                if text_eq key j && not (is_stale (entry n.store j) ts)
                then some (record {
                  value = value;
                  timestamp = ts;
                  expires_at = if ltb_ℤ (pos 0) ttl then wrap64 (ts.physical +ℤ ttl) else pos 0;
                  deleted = false;
                })
                else entry n.store j))
        × ((p.msgpack.marshal_value value ≡ none) × (status ≡ failed) × (n'.log ≡ n.log)
            ⊎ (bin : List ℕ) × (p.msgpack.marshal_value value ≡ some bin)
              × (status ≡ ok)
              × (n'.log
                  ≡ (append p.codec n.log (record {
                    seq = 0;
                    ts = ts;
                    born_at = r.born;
                    op = msg_set;
                    key = key;
                    node_id = [];
                    value = bin;
                    delta = p.float.zero_f;
                    ttl = div_ℤ ttl 1_000_000;
                  })).0))
    unfolding set_entry
    set_lem = elim (Option-cases (p.msgpack.marshal_value value)) [
      | inl e ↦
          let (status, log, hlc, store) = set-failed e in
          (hlc, (λ j. ap (λ s. entry s j) store ∙ entry-set_lem j), inl (e, status, log))
      | inr (bin, e) ↦
          let (status, hlc, log, store) = set-ok bin e in
          (hlc, (λ j. ap (λ s. entry s j) store ∙ entry-set_lem j), inr (bin, e, status, log))
    ]

    -- A value that is set without a TTL, while the key holds no entry from the clock's future, is what
    -- a later `Get` returns, as bytes, whatever time it is.
    pub get-set :
        (later : Readings)
        → is_stale (entry n.store key) (now r.wall n.hlc).1 ≡ false
        → ttl ≤ℤ pos 0
        → (get p later (set p r n key value ttl).0 key).1 ≡ to_text p value
    unfolding get
    get-set later fresh short =
        ap (λ s. to_text p (Cache.get later.wall s key)) store-set
        ∙ ap (to_text p)
            (get-set_forever n.store key value (now r.wall n.hlc).1 ttl later.wall fresh short).0

  -- `Delete` deletes the key in the store under the clock's new timestamp, and appends the one entry
  -- that carries that timestamp.
  pub delete-logs :
      let n' = delete p r n key in
      let ts = (now r.wall n.hlc).1 in
      (n'.hlc ≡ (now r.wall n.hlc).0)
      × (n'.log ≡ (append p.codec n.log (delete_entry p r ts key)).0)
      × (n'.store ≡ Cache.delete n.store key ts)
  unfolding delete log_append time_set
  delete-logs = ground arith
