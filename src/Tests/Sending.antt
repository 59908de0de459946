-- ===== src/Tests/Sending.antt =====
-- Examples for the replication positions of capacitor.go.
use capacitor.Prelude.{
  ℕ, zero, suc, List, [], ◌∷◌, ℤ, pos, In, ◌≢◌, wrap64, ◌+ℤ◌, ◌+◌, ◌<◌, ◌≤◌, ◌≡◌, refl, true, arith,
  none, some, length, Text, codes, if◌then◌else◌,
}
use capacitor.Dict
use capacitor.Log.Batch.{IsRun}
use capacitor.Node.{Node}
use capacitor.Node.Remote.{Batch}
use capacitor.Node.Replicate.{last_seq, next_batch, replicate_to_peer, batch_limit}
use capacitor.Node.Replicate.Laws.{replicate_to_peer_lem}
use capacitor.Node.Replicate.Skips.{heard, first_batch_skips}
use capacitor.Log.{DeltaLog, no_entry, slice, info_at}
use capacitor.Log.Append.{Holds}
use capacitor.Log.Retain.{IsIntact}
use capacitor.Log.Entry.{LogEntry, msg_incr}
use capacitor.Hlc.{update, clock_smash}
use capacitor.Store.PeerSeq.{get_peer_seq, seq_in}
use capacitor.Store.Shard.{get_shard, new_store_shard}
use capacitor.Tests.Fixtures.{plain, new_node, entry_of}
use capacitor.Tests.Logs.{one_log, one_entry, one_log-IsIntact, head-one_log}

abbrev node : Node plain
node = new_node one_log

abbrev peer : Text
peer = codes "B"

no_position : Dict.get node.peer_seqs peer ≡ none
unfolding Dict.get Dict.empty
no_position = refl

no_seen : get_peer_seq node.store peer ≡ 0
unfolding get_peer_seq seq_in get_shard new_store_shard Dict.get_or Dict.get Dict.empty
no_seen = refl

start_position : last_seq node peer ≡ 0
unfolding last_seq get_peer_seq seq_in get_shard new_store_shard Dict.get_or Dict.get Dict.empty
start_position = refl

replicate_to_peer_lem_example :
    (batch : Batch) × (n' : Node plain) × (next_batch node peer
      ≡ some (
        record node { peer_seqs = Dict.put node.peer_seqs peer (last_seq node peer) },
        some batch,
      ))
    × (replicate_to_peer node peer true ≡ some n')
    × IsRun one_entry (last_seq node peer + 1) batch.entries
    × (0 < length batch.entries)
    × (length batch.entries ≤ batch_limit)
    × (last_seq node peer + length batch.entries < one_log.head)
    × (last_seq n' peer
        ≡ (if true then last_seq node peer + length batch.entries else last_seq node peer))
replicate_to_peer_lem_example =
    replicate_to_peer_lem node peer 1 one_entry one_log-IsIntact true
      (rw start_position (omega arith)) (rw (start_position, head-one_log) (omega arith))
      (rw head-one_log (omega arith))

-- A log of two entries, of one byte each.
abbrev two_log : DeltaLog
two_log = record {
  index =
      no_entry ∷ record { offset = 0; size = 1 } ∷ record { offset = 1; size = 1 } ∷ no_entry ∷ [];
  bytes = 1 ∷ 2 ∷ [];
  head = 3;
  buf_head = 2;
  capacity = 4;
  buf_cap = 2;
}

abbrev own_number : ℕ → List ℕ
own_number i = i ∷ []

held : (seq : ℕ) → 1 ≤ seq → seq < 3 → Holds two_log seq (own_number seq)
unfolding slice info_at
held zero ge lt = absurd (omega arith)
held (suc zero) ge lt = (refl, refl, omega arith)
held (suc (suc zero)) ge lt = (refl, refl, omega arith)
held (suc (suc (suc n))) ge lt = absurd (omega arith)

two_log-IsIntact : IsIntact two_log 1 own_number
two_log-IsIntact = record {
  lo_pos = omega arith;
  lo_le = omega arith;
  in_index = omega arith;
  held = held;
}

own_number-different : (i j : ℕ) → own_number i ≡ own_number j → i ≡ j
own_number-different i j e = cc e

abbrev sender : Node plain
sender = new_node two_log

-- The first entry of the peer's own log.
abbrev hit : LogEntry ℤ
hit = record (entry_of 1 []) { op = msg_incr; node_id = peer; delta = pos 1 }

hit_accepted : (update (pos 91) sender.hlc hit.ts).1 ≢ clock_smash
unfolding update wrap64 ◌+ℤ◌
hit_accepted e = ground (arith, e)

first_batch_skips_example :
    (batch : Batch) × (n' : Node plain) × (next_batch (heard sender (pos 100) (pos 91) hit) peer
      ≡ some (
        record (heard sender (pos 100) (pos 91) hit) {
          peer_seqs = Dict.put (heard sender (pos 100) (pos 91) hit).peer_seqs peer 1;
        },
        some batch,
      ))
    × (replicate_to_peer (heard sender (pos 100) (pos 91) hit) peer true ≡ some n')
    × IsRun own_number 2 batch.entries
    × (0 < length batch.entries)
    × (last_seq n' peer ≡ 1 + length batch.entries)
    × ((i : ℕ) → i ≤ 1 → In (own_number i) batch.entries → ⊥)
first_batch_skips_example =
    first_batch_skips sender (pos 100) (pos 91) hit 1 own_number two_log-IsIntact hit_accepted refl
      (rw no_seen (omega arith)) no_position (omega arith) (omega arith) (omega arith)
      own_number-different
