-- ===== src/Node/Remote/Laws.antt =====
-- What `applyRemoteEntry` of capacitor.go makes of the entries that `Set` of another node logs.
use capacitor.Prelude.{
  ℕ, ◌*◌, ◌/◌, ◌<◌, ◌^◌, ◌≡◌, ◌≢◌, Option, List, [], Text, text_eq_iff, ℤ, pos, ◌+ℤ◌, ◌<ℤ◌, arith,
  ap, ◌∙◌, wrap64_exact,
}
use capacitor.Hlc.{Timestamp, update, clock_smash}
use capacitor.Hlc.Valid.{NoOverflow, update_smash_iff}
use capacitor.Log.Entry.{LogEntry, msg_set}
use capacitor.Node.{Platform, Node, Readings}
use capacitor.Node.Api.{set_entry, milliseconds}
use capacitor.Node.Remote.{apply_remote_entry, apply_op, from_milliseconds}
use capacitor.Store.Shard.{Value, ValWithTs, Store, get_shard-with_shard, mark}
use capacitor.Store.Cache.{entry, live_value}
use capacitor.Store.Cache.Entry.{join, entry-set}
use capacitor.Store.PeerSeq.{update_peer_seq, raise_seq, seq_key}

entry-update_peer_seq :
    {F : Type 0} (s : Store F) (node : Text) (seq : ℕ) (key : Text)
    → entry (update_peer_seq s node seq) key ≡ entry s key
unfolding entry update_peer_seq raise_seq mark
entry-update_peer_seq s node seq key =
    ground (arith, get_shard-with_shard s (seq_key node) key (raise_seq node seq))

module _ (p : Platform) (seen wall : ℤ) (n : Node p) where
  -- An entry from too far in the future, where the bound fits an `int64`, changes neither the store, nor the clock, nor the log, nor the
  -- replication positions.
  pub apply_remote_entry_smash :
      (e : LogEntry p.float.Carrier)
      → NoOverflow wall n.hlc
      → wall +ℤ n.hlc.max_offset <ℤ e.ts.physical
      → let n' = apply_remote_entry p seen wall n e in
        (n'.store ≡ n.store) × (n'.hlc ≡ n.hlc) × (n'.log ≡ n.log) × (n'.peer_seqs ≡ n.peer_seqs)
  unfolding apply_remote_entry
  apply_remote_entry_smash e fits late =
      ground (arith, (update_smash_iff wall n.hlc e.ts fits).1 late)

  pub store-accepted :
      (e : LogEntry p.float.Carrier)
      → (update wall n.hlc e.ts).1 ≢ clock_smash
      → (apply_remote_entry p seen wall n e).store
        ≡ update_peer_seq (apply_op p n.store e e.op) e.node_id e.seq
  unfolding apply_remote_entry
  store-accepted e accepted = ground (arith, accepted)

  module _ (r : Readings) (ts : Timestamp) (key : Text) (bin : List ℕ) where
    -- The entry of the key after the node has received what `Set` logs, under a sequence number.
    abbrev pub received : ℕ → ℤ → Option ValWithTs
    received seq ttl =
        entry
          (apply_remote_entry p seen wall n
            (record (set_entry p r ts key bin ttl) { seq = seq })).store
          key

  module _ (r : Readings) (ts : Timestamp) (key : Text) (value : Value) (bin : List ℕ)
      (accepted : (update wall n.hlc ts).1 ≢ clock_smash)
      (decoded : p.msgpack.unmarshal_value bin ≡ value) where
    received_lem :
        (seq : ℕ) (ttl : ℤ)
        → received r ts key bin seq ttl
          ≡ join (entry n.store key) (live_value value ts (from_milliseconds (milliseconds ttl)))
    unfolding set_entry apply_op
    received_lem seq ttl =
        let e = record (set_entry p r ts key bin ttl) { seq = seq } in
        ap (λ s. entry s key) (store-accepted e accepted)
        ∙ entry-update_peer_seq (apply_op p n.store e msg_set) [] seq key
        ∙ entry-set n.store key (p.msgpack.unmarshal_value bin) ts
            (from_milliseconds (milliseconds ttl)) key
        ∙ ground (arith, decoded, text_eq_iff key key)

    -- An entry that `Set` logs, under any sequence number, with a TTL of a whole number of
    -- milliseconds below 2^63 nanoseconds, whose timestamp is accepted and whose bytes decode to
    -- the value that was written: the receiving node merges the very entry that the writing node
    -- stored.
    pub set_replicates :
        (seq k : ℕ)
        → k * 1_000_000 < 2 ^ 63
        → received r ts key bin seq (pos (k * 1_000_000))
          ≡ join (entry n.store key) (live_value value ts (pos (k * 1_000_000)))
    set_replicates seq k fits =
        received_lem seq (pos (k * 1_000_000))
        ∙ ap (λ t. join (entry n.store key) (live_value value ts t)) whole
      where
        whole : from_milliseconds (milliseconds (pos (k * 1_000_000))) ≡ pos (k * 1_000_000)
        whole = rw (back) (wrap64_exact (pos (k * 1_000_000)) (omega arith))
          where
            back : k * 1_000_000 / 1_000_000 ≡ k
            back = omega arith
