-- ===== src/Node/Replicate/Skips.antt =====
-- Where capacitor.go starts to send to a peer that it has heard from.
use capacitor.Prelude.{
  ℕ, suc, ◌+◌, ◌^◌, ◌≤◌, ◌<◌, ◌≡◌, ◌≢◌, sym, ap, ◌∙◌, true, none, some, List, [], ◌∷◌, text_eq_iff,
  ℤ, arith, length, In, inl, inr,
}
use mathlib.Core.Path.{subst}
use capacitor.Dict
use capacitor.Hlc.{update, clock_smash}
use capacitor.Log.Batch.{IsRun}
use capacitor.Log.Entry.{LogEntry, msg_incr}
use capacitor.Log.Retain.{IsIntact}
use capacitor.Node.{Platform, Node}
use capacitor.Node.Remote.{Batch, apply_op, apply_remote_entry}
use capacitor.Node.Remote.Laws.{store-accepted}
use capacitor.Node.Replicate.{last_seq, next_batch, replicate_to_peer, batch_limit}
use capacitor.Node.Replicate.Laws.{replicate_to_peer_lem}
use capacitor.Store.PeerSeq.{get_peer_seq}
use capacitor.Store.PeerSeq.Laws.{get-update_peer_seq, get-set_node_count}

-- Entries whose bytes differ wherever their numbers do, none of which is before the run.
run_excludes :
    (h : ℕ → List ℕ)
    → ((i j : ℕ) → h i ≡ h j → i ≡ j)
    → (seq : ℕ) (es : List (List ℕ)) → IsRun h seq es
    → (i : ℕ) → i < seq
    → In (h i) es
    → ⊥
run_excludes h different seq [] r i lt there = absurd there
run_excludes h different seq (e ∷ es) (same, r) i lt (inl here) =
    let number : seq ≡ i = different seq i (sym same ∙ here) in omega arith
run_excludes h different seq (e ∷ es) (same, r) i lt (inr later) =
    run_excludes h different (suc seq) es r i (omega arith) later

module _ {p : Platform} (n : Node p) (seen wall : ℤ) (e : LogEntry p.float.Carrier) where
  -- The node after it has received the entry.
  abbrev pub heard : Node p
  heard = apply_remote_entry p seen wall n e

  log-heard : heard.log ≡ n.log
  unfolding apply_remote_entry
  log-heard = ground arith

  peer_seqs-heard : heard.peer_seqs ≡ n.peer_seqs
  unfolding apply_remote_entry
  peer_seqs-heard = ground arith

  seen-heard :
      (update wall n.hlc e.ts).1 ≢ clock_smash
      → e.op ≡ msg_incr
      → get_peer_seq n.store e.node_id ≤ e.seq
      → get_peer_seq heard.store e.node_id ≡ e.seq
  seen-heard accepted counter newer =
      ap (λ s. get_peer_seq s e.node_id) (store-accepted p seen wall n e accepted)
      ∙ get-update_peer_seq (apply_op p n.store e e.op) e.node_id e.seq e.node_id
      ∙ ground (arith, text_eq_iff e.node_id e.node_id, kept, newer)
    where
      kept : get_peer_seq (apply_op p n.store e e.op) e.node_id ≡ get_peer_seq n.store e.node_id
      kept =
          ap (λ op. get_peer_seq (apply_op p n.store e op) e.node_id) counter
          ∙ (unfold apply_op in
              get-set_node_count p.float n.store e.key e.node_id e.delta e.node_id)

  -- A node receives an entry of a peer's counter, with a number no less than it has seen from the peer
  -- and a timestamp that it accepts. It has sent nothing to the peer yet and knows no position of it. Its
  -- own log holds what follows that number, and its head is more than 1000 below 2^64. Then the first
  -- batch for the peer is a run of the node's own entries behind that number, at least one, and the
  -- position moves past them if they are sent. If entries of different numbers have different
  -- bytes, none of the node's own entries up to that number is in the batch.
  pub first_batch_skips :
      (lo : ℕ) (h : ℕ → List ℕ)
      → IsIntact n.log lo h
      → (update wall n.hlc e.ts).1 ≢ clock_smash
      → e.op ≡ msg_incr
      → get_peer_seq n.store e.node_id ≤ e.seq
      → Dict.get n.peer_seqs e.node_id ≡ none
      → lo ≤ e.seq + 1
      → e.seq + 1 < n.log.head
      → n.log.head + batch_limit < 2 ^ 64
      → ((i j : ℕ) → h i ≡ h j → i ≡ j)
      → (batch : Batch) × (n' : Node p) × (next_batch heard e.node_id
          ≡ some
              (record heard { peer_seqs = Dict.put heard.peer_seqs e.node_id e.seq }, some batch))
        × (replicate_to_peer heard e.node_id true ≡ some n')
        × IsRun h (e.seq + 1) batch.entries
        × (0 < length batch.entries)
        × (last_seq n' e.node_id ≡ e.seq + length batch.entries)
        × ((i : ℕ) → i ≤ e.seq → In (h i) batch.entries → ⊥)
  first_batch_skips lo h intact accepted counter newer unknown due behind small different =
      let (batch, n', found, moved, run, pos, few, below, after_it) =
        replicate_to_peer_lem heard e.node_id lo h
          (subst (λ l. IsIntact l lo h) (sym log-heard) intact) true (rw position due)
          (rw (position, log-heard) behind) (rw log-heard small) in
      let run' : IsRun h (e.seq + 1) batch.entries = rw position at run in
      (
        batch,
        n',
        rw position at found,
        moved,
        run',
        pos,
        rw position at after_it,
        λ i le there. run_excludes h different (e.seq + 1) batch.entries run' i (omega arith) there,
      )
    where
      position : last_seq heard e.node_id ≡ e.seq
      position =
          unfold last_seq in
          ground (arith, unknown, peer_seqs-heard, seen-heard accepted counter newer)
