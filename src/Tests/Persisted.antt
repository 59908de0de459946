-- ===== src/Tests/Persisted.antt =====
-- Examples for the persistence of store.go.
use capacitor.Prelude.{
  ◌≡◌, refl, true, false, arith, none, some, List, [], ◌∷◌, ◌++◌, ℕ, Text, text_eq, codes, ℤ, pos,
  ◌+ℤ◌, In, length,
}
use capacitor.Dict
use capacitor.Strings.{colon}
use capacitor.Store.Placement.{node_key}
use capacitor.Store.PeerSeq.{seq_key, seq_in, raise_seq}
use capacitor.Store.Counter.{count_kind, get_node_count, get_aggregate_count}
use capacitor.Store.Persist.{
  EntryCodec, put, del, snapshot, write_item, load_entry, load, flush, float_to_bytes,
}
use capacitor.Store.Persist.Counters.{count-restored, count-misplaced}
use capacitor.Store.Persist.PeerSeqs.{peer_seq-lost}
use capacitor.Store.Persist.Windows.{items, event_key, Distinct, window-restored}
use capacitor.Store.Window.{window_at}
use capacitor.Store.Shard.{
  ValWithTs, StoreShard, Store, text, empty_store, new_store_shard, get_shard,
}
use capacitor.Tests.Fixtures.{int_float, at_time}

abbrev stored : ValWithTs
stored = record {
  value = text (codes "x");
  timestamp = at_time 100 0;
  expires_at = pos 0;
  deleted = false;
}

-- One entry has an encoding.
abbrev one_codec : EntryCodec
one_codec = record { marshal_entry = λ v. 1 ∷ []; unmarshal_entry = λ b. some stored }

abbrev fresh : Store ℤ
fresh = empty_store ℤ

abbrev shard : StoreShard ℤ
shard = new_store_shard ℤ

abbrev count_key : Text
count_key = node_key count_kind (codes "hits") (codes "A")

-- A count that has changed since the last flush.
abbrev counted : StoreShard ℤ
counted = record shard {
  counts = record { entries = (count_key, pos 3) ∷ [] };
  dirty = record { entries = (count_key, true) ∷ [] };
}

abbrev counting : Store ℤ
counting = record { shards = λ i. counted }

count-restored_example :
    (bytes : List ℕ) × (length bytes ≡ 8)
    × In (put count_key bytes none) (flush int_float one_codec (λ k. pos 5) counting).1
    × ((s' : Store ℤ) × (load_entry int_float one_codec (pos 6) fresh count_key bytes ≡ some s')
        × (get_node_count int_float s' (codes "hits") (codes "A") ≡ pos 3)
        × (get_aggregate_count int_float s' (codes "hits")
            ≡ get_aggregate_count int_float fresh (codes "hits") +ℤ pos 3))
count-restored_example =
    count-restored int_float one_codec (λ k. pos 5) (pos 6) counting fresh (codes "hits")
      (codes "A") (pos 3) true (unfold get_shard node_key Dict.get text_eq in refl)
      (unfold get_shard new_store_shard Dict.get Dict.empty in refl)
      (unfold get_shard node_key Dict.get text_eq in refl) (ground arith) (omega arith, refl)

count-misplaced_example :
    (s' : Store ℤ) × (load_entry int_float one_codec
        (pos 6)
        fresh
        (node_key count_kind (codes "a" ++ (colon ∷ codes "b")) (codes "A"))
        (float_to_bytes int_float one_codec (pos 3))
      ≡ some s')
    × (get_aggregate_count int_float s' (codes "a")
        ≡ get_aggregate_count int_float fresh (codes "a") +ℤ pos 3)
    × (get_aggregate_count int_float s' (codes "a" ++ (colon ∷ codes "b"))
        ≡ get_aggregate_count int_float fresh (codes "a" ++ (colon ∷ codes "b")))
count-misplaced_example =
    count-misplaced int_float one_codec (pos 6) fresh (codes "a") (codes "b") (codes "A") (pos 3)
      (ground arith) (omega arith, refl)

peer_seq-lost_example :
    (seq_in (raise_seq (codes "B") 7 shard) (codes "B") ≡ 7)
    × (Dict.get (raise_seq (codes "B") 7 shard).dirty (seq_key (codes "B")) ≡ some true)
    × (write_item int_float one_codec
          (pos 5)
          (snapshot int_float one_codec (raise_seq (codes "B") 7 shard) (seq_key (codes "B")))
        ≡ del (seq_key (codes "B")) ∷ [])
peer_seq-lost_example =
    peer_seq-lost int_float one_codec (pos 5) (codes "B") 7 shard
      (unfold seq_in new_store_shard Dict.get_or Dict.get Dict.empty in omega arith)
      (unfold new_store_shard Dict.get Dict.empty in refl)
      (unfold new_store_shard Dict.get Dict.empty in refl)
      (unfold new_store_shard Dict.get Dict.empty in refl)
      (unfold new_store_shard Dict.get Dict.empty in refl)

abbrev two_events : List ℤ
two_events = pos 10 ∷ pos 20 ∷ []

-- A window that has changed since the last flush.
abbrev windowed : StoreShard ℤ
windowed = record shard {
  windows = record { entries = (codes "w", two_events) ∷ [] };
  dirty = record { entries = (codes "w", true) ∷ [] };
}

abbrev windows_store : Store ℤ
windows_store = record { shards = λ i. windowed }

window-restored_example :
    ((u : ℤ)
      → In u two_events
      → In
          (put (event_key (codes "w") u) [] none)
          (flush int_float one_codec (λ k. pos 5) windows_store).1)
    × Distinct (items (codes "w") two_events)
    × ((s' : Store ℤ) × (load int_float one_codec (λ k. pos 6) fresh (items (codes "w") two_events)
          ≡ some s')
        × (window_at s' (codes "w") ≡ window_at fresh (codes "w") ++ two_events))
window-restored_example =
    window-restored int_float one_codec (λ k. pos 5) (λ k. pos 6) windows_store fresh (codes "w")
      (pos 10) (pos 20 ∷ []) true (omega arith, tt) (unfold get_shard Dict.get text_eq in refl)
      (unfold get_shard new_store_shard Dict.get Dict.empty in refl)
      (unfold get_shard new_store_shard Dict.get Dict.empty in refl)
      (unfold get_shard Dict.get text_eq in refl)
      ((omega arith, omega arith), ((omega arith, omega arith), tt)) ((omega arith, tt), (tt, tt))
