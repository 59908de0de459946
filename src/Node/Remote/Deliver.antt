-- ===== src/Node/Remote/Deliver.antt =====
-- From the log of one node through a connection of transport.go into the store of another.
use capacitor.Prelude.{
  ℕ, ◌*◌, ◌<◌, ◌^◌, ◌≡◌, ◌≢◌, true, arith, some, List, [], ◌∷◌, Text, text_eq_iff, ℤ, pos, ap, ◌∙◌,
}
use capacitor.Dict
use capacitor.Hlc.{Timestamp, update, clock_smash}
use capacitor.Log.Entry.{LogEntry}
use capacitor.Node.{Platform, Node, Readings}
use capacitor.Node.Api.{set_entry}
use capacitor.Node.Remote.{Batch, Handshake, admit, apply_remote_entry, apply_entries, handle_conn}
use capacitor.Node.Remote.Laws.{set_replicates}
use capacitor.Store.Cache.{entry, live_value}
use capacitor.Store.Cache.Entry.{join}
use capacitor.Store.Shard.{Value}

-- A batch of one encoded entry, with a handshake.
abbrev pub first_batch : Text → Handshake → List ℕ → Batch
first_batch from h raw = record { from_node = from; entries = raw ∷ []; handshake = some h }

-- The node after the handshake.
abbrev greeted : {p : Platform} → Node p → Text → Handshake → Node p
greeted n from h = record n { peer_seqs = Dict.put n.peer_seqs from h.last_seen_seq }

module _ (p : Platform) (n : Node p) (clock : ℕ → ℤ × ℤ) (from : Text) (h : Handshake)
    (token : h.auth_token ≡ n.auth_token) where
  handle_conn-first :
      (raw : List ℕ) (e : LogEntry p.float.Carrier)
      → p.codec.unmarshal raw ≡ some e
      → handle_conn p n true ((clock, first_batch from h raw) ∷ [])
        ≡ apply_remote_entry p (clock 0).0 (clock 0).1 (greeted n from h) e
  unfolding handle_conn apply_entries admit
  handle_conn-first raw e decodes =
      ground (arith, token, text_eq_iff h.auth_token n.auth_token, decodes)

  -- A node receives, over a connection that opens with the node's token, the encoding of an entry that
  -- `Set` logged under any sequence number, with a TTL of a whole number of milliseconds below 2^63
  -- nanoseconds, where the encodings of the entry and of its value decode to what was encoded, and the
  -- timestamp is accepted: the node merges the very entry that the writing node stored.
  pub set-delivered :
      (r : Readings) (ts : Timestamp) (key : Text) (value : Value) (bin raw : List ℕ) (seq k : ℕ)
      → (update (clock 0).1 n.hlc ts).1 ≢ clock_smash
      → p.msgpack.unmarshal_value bin ≡ value
      → p.codec.unmarshal raw
        ≡ some (record (set_entry p r ts key bin (pos (k * 1_000_000))) { seq = seq })
      → k * 1_000_000 < 2 ^ 63
      → entry (handle_conn p n true ((clock, first_batch from h raw) ∷ [])).store key
        ≡ join (entry n.store key) (live_value value ts (pos (k * 1_000_000)))
  set-delivered r ts key value bin raw seq k accepted decoded decodes fits =
      ap (λ (m : Node p). entry m.store key)
        (handle_conn-first raw
          (record (set_entry p r ts key bin (pos (k * 1_000_000))) { seq = seq }) decodes)
      ∙ set_replicates p (clock 0).0 (clock 0).1 (greeted n from h) r ts key value bin accepted
          decoded seq k fits
