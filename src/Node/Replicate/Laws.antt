-- ===== src/Node/Replicate/Laws.antt =====
-- Theorems on one sending attempt of capacitor.go and the position of the peer.
use capacitor.Prelude.{
  ℕ, ◌+◌, ◌^◌, ◌≤◌, ◌<◌, ◌≡◌, Bool, true, false, none, some, List, [], ◌∷◌, Text, text_eq_iff,
  arith, if◌then◌else◌, length,
}
use capacitor.Dict
use capacitor.Dict.{get-put}
use capacitor.Log.{get_entries_raw, u64}
use capacitor.Log.Batch.{IsRun, get_entries_raw_lem}
use capacitor.Log.Retain.{IsIntact}
use capacitor.Node.{Platform, Node}
use capacitor.Node.Remote.{Batch}
use capacitor.Node.Replicate.{last_seq, next_batch, replicate_to_peer, batch_limit, batch_bytes}

module _ {p : Platform} (n : Node p) (node : Text) (lo : ℕ) (h : ℕ → List ℕ)
    (w : IsIntact n.log lo h) where
  -- The state after LoadOrStore.
  abbrev loaded : Node p
  loaded = record n { peer_seqs = Dict.put n.peer_seqs node (last_seq n node) }

  -- The state after a sending attempt with `k` entries.
  abbrev after_send : Bool → ℕ → Node p
  after_send sent k =
      if sent
      then record n { peer_seqs = Dict.put loaded.peer_seqs node (last_seq n node + k) }
      else loaded

  last_seq-after_send :
      (sent : Bool) (k : ℕ)
      → last_seq (after_send sent k) node ≡ (if sent then last_seq n node + k else last_seq n node)
  last_seq-after_send true k =
      unfold last_seq in
      ground
        (arith, get-put loaded.peer_seqs node node (last_seq n node + k), text_eq_iff node node)
  last_seq-after_send false k = known (last_seq n node)
    where
      known :
          (seq : ℕ) → last_seq (record n { peer_seqs = Dict.put n.peer_seqs node seq }) node ≡ seq
      known seq =
          unfold last_seq in
          ground (arith, get-put n.peer_seqs node node seq, text_eq_iff node node)

  -- While the log is ahead of a peer's position, holds what follows the position, and its head is
  -- more than 1000 below 2^64: a sending attempt finds a batch of the entries that follow the
  -- position, in order, at least one and at most 1000, none past the last of the log. The position
  -- moves past exactly those if they are sent, and stays if not.
  pub replicate_to_peer_lem :
      (sent : Bool)
      → lo ≤ last_seq n node + 1
      → last_seq n node + 1 < n.log.head
      → n.log.head + batch_limit < 2 ^ 64
      → (batch : Batch) × (n' : Node p) × (next_batch n node
          ≡ some (record n { peer_seqs = Dict.put n.peer_seqs node (last_seq n node) }, some batch))
        × (replicate_to_peer n node sent ≡ some n')
        × IsRun h (last_seq n node + 1) batch.entries
        × (0 < length batch.entries)
        × (length batch.entries ≤ batch_limit)
        × (last_seq n node + length batch.entries < n.log.head)
        × (last_seq n' node
            ≡ (if sent then last_seq n node + length batch.entries else last_seq n node))
  replicate_to_peer_lem sent due behind small =
      let (entries, reads, run, some_entry, few, bytes, full) =
        get_entries_raw_lem h batch_bytes n.log lo w (last_seq n node + 1) batch_limit due behind
          (omega arith) in
      (
        record { from_node = n.node_id; entries = entries; handshake = none },
        after_send sent (length entries),
        found entries reads some_entry,
        moved entries reads some_entry (omega (arith, few)),
        run,
        some_entry,
        omega (arith, few),
        omega (arith, few),
        last_seq-after_send sent (length entries),
      )
    where
      next : u64 (last_seq n node + 1) ≡ last_seq n node + 1
      next = omega arith

      found :
          (entries : List (List ℕ))
          → get_entries_raw n.log (last_seq n node + 1) batch_limit batch_bytes ≡ some entries
          → 0 < length entries
          → next_batch n node
            ≡ some (
              loaded,
              some (record { from_node = n.node_id; entries = entries; handshake = none }),
            )
      found [] reads pos = absurd (omega arith)
      found (e ∷ es) reads pos = unfold next_batch in ground (arith, next, reads)

      moved :
          (entries : List (List ℕ))
          → get_entries_raw n.log (last_seq n node + 1) batch_limit batch_bytes ≡ some entries
          → 0 < length entries
          → length entries ≤ batch_limit
          → replicate_to_peer n node sent ≡ some (after_send sent (length entries))
      moved entries reads pos few =
          unfold replicate_to_peer in ground (arith, found entries reads pos, fits)
        where
          fits : u64 (last_seq n node + length entries) ≡ last_seq n node + length entries
          fits = omega arith
