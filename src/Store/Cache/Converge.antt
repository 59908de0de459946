-- ===== src/Store/Cache/Converge.antt =====
-- Theorems on the registers of store.go under writes in different orders.
use capacitor.Prelude.{
  In, SameElements, ◌≡◌, ◌≢◌, refl, true, false, arith, Option, none, some, Text, text_eq,
  text_eq_iff, ℤ, List, [], ◌∷◌, if◌then◌else◌, inl, inr, sym, ap, ◌∙◌, Bool-cases,
}
use mathlib.Core.Path.{subst}
use capacitor.Hlc.{Timestamp, after, greater_or_equal}
use capacitor.Hlc.Order.{
  greater_or_equal-eq-not-after, not_after_of_ge, not_after_of_not_ge, eq_of_not_after,
  after_irreflexive,
}
use capacitor.Store.Shard.{Value, ValWithTs, Store}
use capacitor.Store.Cache.{is_stale, live_value, tombstone, set, delete, entry}
use capacitor.Store.Cache.Entry.{join, entry-set, entry-delete}

-- A write that `applyRemoteEntry` hands to the store.
pub data Write : Type 0 where
  put : Text → Value → Timestamp → ℤ → Write
  del : Text → Timestamp → Write

abbrev pub key_of : Write → Text
key_of (put k v ts ttl) = k
key_of (del k ts) = k

-- The entry that the write puts into the cache, if it wins.
abbrev pub entry_of : Write → ValWithTs
entry_of (put k v ts ttl) = live_value v ts ttl
entry_of (del k ts) = tombstone ts

abbrev pub time_of : Write → Timestamp
time_of (put k v ts ttl) = ts
time_of (del k ts) = ts

-- Both lists have the same writes, in any order and any number of times.
abbrev pub SameWrites : List Write → List Write → Type 0
SameWrites = SameElements

-- No two different writes of one key have one timestamp.
abbrev pub NoTies : List Write → Type 0
NoTies ws = (v w : Write) → In v ws → In w ws → key_of v ≡ key_of w → time_of v ≡ time_of w → v ≡ w

module _ {F : Type 0} where
  pub apply : Store F → Write → Store F
  apply s (put k v ts ttl) = set s k v ts ttl
  apply s (del k ts) = delete s k ts

  -- The store after the writes, of which the first in the list came last.
  pub replay : Store F → List Write → Store F
  unfolding apply
  replay s [] = s
  replay s (w ∷ ws) = apply (replay s ws) w

  entry-apply :
      (s : Store F) (w : Write) (j : Text)
      → entry (apply s w) j
        ≡ (if text_eq (key_of w) j then join (entry s j) (entry_of w) else entry s j)
  unfolding apply
  entry-apply s (put k v ts ttl) j = entry-set s k v ts ttl j
  entry-apply s (del k ts) j = entry-delete s k ts j

time_of-entry_of : (w : Write) → (entry_of w).timestamp ≡ time_of w
unfolding live_value tombstone
time_of-entry_of (put k v ts ttl) = refl
time_of-entry_of (del k ts) = refl

-- The latest of the writes of `k`, as an entry; `none` if there is no write of `k`.
abbrev Latest : Text → List Write → Option ValWithTs → Type 0
Latest k ws none = (w : Write) → In w ws → key_of w ≢ k
Latest k ws (some e) =
    ((w : Write) × In w ws × (key_of w ≡ k) × (entry_of w ≡ e))
    × ((w : Write) → In w ws → key_of w ≡ k → after (time_of w) e.timestamp ≡ false)

module _ (k : Text) where
  -- A write of another key.
  Latest-skip :
      (w : Write) (ws : List Write) (o : Option ValWithTs)
      → key_of w ≢ k
      → Latest k ws o
      → Latest k (w ∷ ws) o
  Latest-skip w ws none ne l = λ v i. elim i [ inl e ↦ λ p. ne (ap key_of e ∙ p) | inr j ↦ l v j ]
  Latest-skip w ws (some e) ne ((v, i, p, q), late) = (
    (v, inr i, p, q),
    λ u j. elim j [ inl e' ↦ λ r. absurd (ne (ap key_of e' ∙ r)) | inr j' ↦ late u j' ],
  )

  not-after_self : (w v : Write) → w ≡ v → after (time_of v) (entry_of w).timestamp ≡ false
  not-after_self w v e = rw (← e, time_of-entry_of w) (after_irreflexive (time_of w))

  not-after_stale :
      (w : Write) (e : ValWithTs)
      → greater_or_equal e.timestamp (entry_of w).timestamp ≡ true
      → after (time_of w) e.timestamp ≡ false
  not-after_stale w e h =
      rw (← time_of-entry_of w) (not_after_of_ge e.timestamp (entry_of w).timestamp h)

  Latest-join :
      (w : Write) (ws : List Write) (o : Option ValWithTs)
      → key_of w ≡ k
      → Latest k ws o
      → Latest k (w ∷ ws) (join o (entry_of w))
  unfolding join is_stale
  Latest-join w ws none same l = (
    (w, inl refl, same, refl),
    λ v i. elim i [ inl e ↦ λ p. not-after_self w v e | inr j ↦ λ p. absurd (l v j p) ],
  )
  Latest-join w ws (some e) same ((v, i, p, q), late) =
      elim (Bool-cases (greater_or_equal e.timestamp (entry_of w).timestamp)) [
        | inl stale ↦ rw stale (
          (v, inr i, p, q),
          λ u j. elim j [
            | inl e' ↦ λ r.
                subst (λ x. after (time_of x) e.timestamp ≡ false) e' (not-after_stale w e stale)
            | inr j' ↦ late u j'
          ],
        )
        | inr newer ↦ rw newer (
          (w, inl refl, same, refl),
          λ u j. elim j [
            | inl e' ↦ λ r. not-after_self w u e'
            | inr j' ↦ λ r.
                not_after_of_not_ge e.timestamp (entry_of w).timestamp (time_of u) newer
                  (late u j' r)
          ],
        )
      ]

  replay-Latest :
      {F : Type 0} (s : Store F) (ws : List Write)
      → entry s k ≡ none
      → Latest k ws (entry (replay s ws) k)
  unfolding replay
  replay-Latest s [] e = rw e (λ w i. absurd i)
  replay-Latest s (w ∷ ws) e =
      let ih = replay-Latest s ws e in
      elim (Bool-cases (text_eq (key_of w) k)) [
        | inl t ↦
            subst (Latest k (w ∷ ws))
              (sym (
                entry-apply (replay s ws) w k
                ∙ ap
                    (λ b.
                      if b
                      then join (entry (replay s ws) k) (entry_of w)
                      else entry (replay s ws) k)
                    t))
              (Latest-join w ws (entry (replay s ws) k) ((text_eq_iff (key_of w) k).0 t) ih)
        | inr t ↦
            subst (Latest k (w ∷ ws))
              (sym (
                entry-apply (replay s ws) w k
                ∙ ap
                    (λ b.
                      if b
                      then join (entry (replay s ws) k) (entry_of w)
                      else entry (replay s ws) k)
                    t))
              (Latest-skip w ws (entry (replay s ws) k)
                (λ q. ground (arith, text_eq_iff (key_of w) k)) ih)
      ]

  Latest-unique :
      (ws ws' : List Write) (o o' : Option ValWithTs)
      → NoTies ws
      → SameWrites ws ws'
      → Latest k ws o
      → Latest k ws' o'
      → o ≡ o'
  Latest-unique ws ws' none none nt same l l' = refl
  Latest-unique ws ws' none (some e) nt same l ((w, i, p, q), late) = absurd (l w (same.1 w i) p)
  Latest-unique ws ws' (some e) none nt same ((w, i, p, q), late) l' = absurd (l' w (same.0 w i) p)
  Latest-unique ws ws' (some e) (some e') nt same ((w, i, p, q), late) ((w', i', p', q'), late') =
      let tw : time_of w ≡ e.timestamp = sym (time_of-entry_of w) ∙ ap (λ v. v.timestamp) q in
      let tw' : time_of w' ≡ e'.timestamp = sym (time_of-entry_of w') ∙ ap (λ v. v.timestamp) q' in
      let a = late' w (same.0 w i) p in
      let b = late w' (same.1 w' i') p' in
      let t : time_of w ≡ time_of w' =
        eq_of_not_after (time_of w) (time_of w') (rw tw b) (rw tw' a) in
      ap some (sym q ∙ ap entry_of (nt w w' i (same.1 w' i') (p ∙ sym p') t) ∙ q')

-- Two stores without an entry for `k`, that received the same writes in any order and any number of
-- times, hold the same entry for `k`, where no two different writes of a key have one timestamp.
pub replay_converges :
    {F : Type 0} (s s' : Store F) (ws ws' : List Write) (k : Text)
    → entry s k ≡ none
    → entry s' k ≡ none
    → NoTies ws
    → SameWrites ws ws'
    → entry (replay s ws) k ≡ entry (replay s' ws') k
replay_converges s s' ws ws' k e e' nt same =
    Latest-unique k ws ws' (entry (replay s ws) k) (entry (replay s' ws') k) nt same
      (replay-Latest k s ws e) (replay-Latest k s' ws' e')

first_wins :
    {F : Type 0} (s : Store F) (k : Text) (a b : Value) (ts : Timestamp) (ttl ttl' : ℤ)
    → entry s k ≡ none
    → entry (set (set s k a ts ttl) k b ts ttl') k ≡ some (live_value a ts ttl)
first_wins s k a b ts ttl ttl' e =
    rw (entry-set (set s k a ts ttl) k b ts ttl' k, entry-set s k a ts ttl k, e)
      (unfold join is_stale live_value in
        ground (arith, text_eq_iff k k, greater_or_equal-eq-not-after ts ts, after_irreflexive ts))

-- Two writes of one key, which has no entry yet, with one timestamp and different values, each with a TTL
-- of its own: stores that receive them in different orders end in different entries.
pub tie_diverges :
    {F : Type 0} (s : Store F) (k : Text) (a b : Value) (ts : Timestamp) (ttl ttl' : ℤ)
    → entry s k ≡ none
    → a ≢ b
    → entry (set (set s k a ts ttl) k b ts ttl') k ≢ entry (set (set s k b ts ttl') k a ts ttl) k
tie_diverges s k a b ts ttl ttl' e ne same = ne (
    unfold live_value in
    cc (same, first_wins s k a b ts ttl ttl' e, first_wins s k b a ts ttl' ttl e))
