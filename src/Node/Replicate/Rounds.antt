-- ===== src/Node/Replicate/Rounds.antt =====
-- Turns of `peerReplicatorLoop` of capacitor.go against a fixed log.
use capacitor.Prelude.{
  ℕ, zero, suc, ◌+◌, ◌<◌, ◌≤◌, ◌^◌, ◌≡◌, inl, inr, refl, true, false, Bool, Bool-cases, Option,
  none, some, List, Text, arith, ap, ◌∙◌, sym, ltb, if◌then◌else◌,
}
use mathlib.Core.Path.{subst}
use capacitor.Log.{DeltaLog}
use capacitor.Log.Retain.{IsIntact}
use capacitor.Node.{Platform, Node}
use capacitor.Node.Replicate.{last_seq, has_news, next_batch, replicate_to_peer, batch_limit}
use capacitor.Node.Replicate.Laws.{replicate_to_peer_lem}

module _ {p : Platform} where
  -- At most `k` turns of the loop, each of which sends its batch; it waits once there is no news.
  pub rounds : ℕ → Node p → Text → Option (Node p)
  rounds zero n node = some n
  rounds (suc k) n node =
      if has_news n node
      then elim (replicate_to_peer n node true) [ none ↦ none | some n' ↦ rounds k n' node ]
      else some n

  pub log-replicate_to_peer :
      (n n' : Node p) (node : Text) (sent : Bool)
      → replicate_to_peer n node sent ≡ some n'
      → n'.log ≡ n.log
  unfolding replicate_to_peer next_batch
  log-replicate_to_peer n n' node sent e = ground (arith, e)

  rounds-turn :
      (k : ℕ) (n n' : Node p) (node : Text)
      → has_news n node ≡ true
      → replicate_to_peer n node true ≡ some n'
      → rounds (suc k) n node ≡ rounds k n' node
  unfolding rounds
  rounds-turn k n n' node news e = ground (arith, news, e)

  rounds-wait :
      (k : ℕ) (n : Node p) (node : Text) → has_news n node ≡ false → rounds k n node ≡ some n
  unfolding rounds
  rounds-wait zero n node quiet = refl
  rounds-wait (suc k) n node quiet = ground (arith, quiet)

  -- The turns end with the position at the last entry of the log and nothing more to send, and leave
  -- the log as it is.
  abbrev pub CaughtUp : ℕ → Node p → Text → Type 0
  CaughtUp k n node =
      (n' : Node p) × (rounds k n node ≡ some n')
      × (last_seq n' node + 1 ≡ n.log.head)
      × (has_news n' node ≡ false)
      × (n'.log ≡ n.log)

  pub quiet_at_end :
      (n : Node p) (node : Text)
      → last_seq n node + 1 ≡ n.log.head
      → n.log.head < 2 ^ 64
      → has_news n node ≡ false
  unfolding has_news
  quiet_at_end n node done small = ground arith

  CaughtUp-wait :
      (k : ℕ) (n : Node p) (node : Text)
      → last_seq n node + 1 ≡ n.log.head
      → n.log.head < 2 ^ 64
      → CaughtUp k n node
  CaughtUp-wait k n node done small =
      let quiet = quiet_at_end n node done small in
      (n, rounds-wait k n node quiet, done, quiet, refl)

  CaughtUp-turn :
      (k : ℕ) (n n' : Node p) (node : Text)
      → has_news n node ≡ true
      → replicate_to_peer n node true ≡ some n'
      → CaughtUp k n' node
      → CaughtUp (suc k) n node
  CaughtUp-turn k n n' node news moved (n₂, ends, last, quiet, kept) =
      let same = log-replicate_to_peer n n' node true moved in
      (
        n₂,
        rounds-turn k n n' node news moved ∙ ends,
        last ∙ ap (λ (l : DeltaLog). l.head) same,
        quiet,
        kept ∙ same,
      )

  -- Where this node's log holds all that follows a peer's position, and its head is more than 1000
  -- below 2^64: as many turns of the replicator as entries are due, each with its batch sent, end with
  -- the position at the last entry of the log and nothing more to send; the log is as before.
  pub rounds-catch_up :
      (k : ℕ) (n : Node p) (node : Text) (lo : ℕ) (h : ℕ → List ℕ)
      → IsIntact n.log lo h
      → lo ≤ last_seq n node + 1
      → last_seq n node < n.log.head
      → n.log.head ≤ last_seq n node + 1 + k
      → n.log.head + batch_limit < 2 ^ 64
      → CaughtUp k n node
  rounds-catch_up zero n node lo h w due below enough small =
      CaughtUp-wait zero n node (omega arith) (omega arith)
  rounds-catch_up (suc k) n node lo h w due below enough small =
      elim (Bool-cases (ltb (last_seq n node + 1) n.log.head)) [
        | inr done ↦ CaughtUp-wait (suc k) n node (ground (arith, done)) (omega arith)
        | inl behind ↦
            let (batch, n', found, moved, run, some_entry, few, within, position) =
              replicate_to_peer_lem n node lo h w true due (ground (arith, behind)) small in
            let same = log-replicate_to_peer n n' node true moved in
            CaughtUp-turn k n n' node (unfold has_news in ground (arith, behind)) moved (
              rounds-catch_up k n' node lo h (subst (λ l. IsIntact l lo h) (sym same) w)
                (omega arith) (rw same (omega arith)) (rw same (omega arith)) (rw same small))
      ]
