-- ===== src/Client/SetServed.antt =====
-- capacitor.go, transport.go and the generated encodings together: a value that one node sets, at
-- another node behind a new connection.
use mathlib.Core.List.{append-nil}
use capacitor.Prelude.{
  ℕ, ◌+◌, ◌*◌, ◌<◌, ◌^◌, ◌≤◌, ◌≡◌, ◌≢◌, refl, sym, ap, ◌∙◌, true, text_eq_iff, some, none, List, [],
  ◌∷◌, Text, ℤ, pos, length, arith,
}
use capacitor.Client.{StreamClient, ClientConn, send_batch, dial, write_batch, attach, fresh}
use capacitor.Dict
use capacitor.Dict.{get-put}
use capacitor.Float.{Float64}
use capacitor.Hlc.{Timestamp, now, update, clock_smash}
use capacitor.Log.Entry.{LogEntry}
use capacitor.Node.{Node, Msgpack, Readings, ok}
use capacitor.Node.Api.Writes.{set-ok}
use capacitor.Log.{slice, info_at, stamp}
use capacitor.Log.Append.{IsValid, append-slice}
use capacitor.Node.Api.{set, set_entry}
use capacitor.Node.Remote.{Batch, Handshake, handle_conn}
use capacitor.Node.Remote.Deliver.{first_batch, set-delivered}
use capacitor.Server.{Clocks, max_stream, platform, serve}
use capacitor.Server.Stream.{encode_all, serve-encode_all}
use capacitor.Store.Cache.{entry, live_value}
use capacitor.Store.Cache.Entry.{join, entry-set}
use capacitor.Store.Shard.{Value}
use capacitor.Wire.{Msgp, IsMsgp}
use capacitor.Wire.Batch
use capacitor.Wire.Batch.RoundTrip.{IsEncodable}
use capacitor.Wire.Entry
use capacitor.Wire.Entry.RoundTrip.{decode_entry-marshal, codec-IsCodec}
use capacitor.Wire.Entry.RoundTrip

-- The handshake that the client puts on a new connection.
abbrev pub greeting : ℕ → StreamClient → Handshake
greeting last_seen c = record { last_seen_seq = last_seen; auth_token = c.auth_token }

module _ (fl : Float64) (m : Msgp fl.Carrier) (law : IsMsgp m) (mp : Msgpack) where
  -- What `Set` logs, under a sequence number.
  abbrev pub logged : Readings → Timestamp → Text → List ℕ → ℕ → ℕ → LogEntry fl.Carrier
  logged r ts key bin k seq =
      record (set_entry (platform fl m mp) r ts key bin (pos (k * 1_000_000))) { seq = seq }

  -- The batch that carries the entry.
  abbrev pub batch_of : Text → LogEntry fl.Carrier → Batch
  batch_of from e = record {
    from_node = from;
    entries = Entry.marshal fl m e ∷ [];
    handshake = none;
  }

  -- The connection after the first batch on it.
  abbrev pub opened_with : ℤ → Batch → ClientConn
  opened_with at b = record { written = Batch.marshal m b; last_used = at; handshake_done = true }

  send_first :
      (at : ℤ) (c : StreamClient) (node from : Text) (raw : List ℕ) (last_seen : ℕ)
      → Dict.get c.conns node ≡ none
      → let h = greeting last_seen c in
        let conn = opened_with at (first_batch from h raw) in
        send_batch m at true true c node
          (record { from_node = from; entries = raw ∷ []; handshake = none })
          last_seen
        ≡ (record c { conns = Dict.put (Dict.put c.conns node (fresh at)) node conn }, true)
  unfolding send_batch dial write_batch attach
  send_first at c node from raw last_seen lone = rw (send_batch, dial, lone) refl

  serve_one :
      (clocks : Clocks) (b : Node (platform fl m mp)) (batch : Batch)
      → IsEncodable batch
      → length (Batch.marshal m batch) ≤ max_stream
      → serve {mp = mp} m clocks b (Batch.marshal m batch)
        ≡ handle_conn (platform fl m mp) b true ((clocks 0, batch) ∷ [])
  serve_one clocks b batch sound small =
      ap (λ bytes. serve {mp = mp} m clocks b bytes) (sym single)
      ∙ (serve-encode_all fl m law mp clocks b (batch ∷ []) (sound, tt) (rw single small)).1
    where
      single : encode_all m (batch ∷ []) ≡ Batch.marshal m batch
      single = unfold encode_all in append-nil (Batch.marshal m batch)

  -- What is sent of an entry with these bytes arrives: the receiving node merges the entry that the
  -- setting node stored.
  delivered :
      (r : Readings) (ts : Timestamp) (key : Text) (value : Value) (bin : List ℕ) (seq k : ℕ)
      (at : ℤ) (c : StreamClient) (node from : Text) (last_seen : ℕ) (clocks : Clocks)
      (b : Node (platform fl m mp))
      → let e = logged r ts key bin k seq in
        let h = greeting last_seen c in
        RoundTrip.IsEncodable fl e
        → IsEncodable (first_batch from h (Entry.marshal fl m e))
        → length (Batch.marshal m (first_batch from h (Entry.marshal fl m e))) ≤ max_stream
        → Dict.get c.conns node ≡ none
        → c.auth_token ≡ b.auth_token
        → (update (clocks 0 0).1 b.hlc ts).1 ≢ clock_smash
        → mp.unmarshal_value bin ≡ value
        → k * 1_000_000 < 2 ^ 63
        → (c' : StreamClient) × (conn : ClientConn) × (send_batch m at true true c node
              (batch_of from e)
              last_seen
            ≡ (c', true))
          × (Dict.get c'.conns node ≡ some conn)
          × (entry (serve {mp = mp} m clocks b conn.written).store key
              ≡ join (entry b.store key) (live_value value ts (pos (k * 1_000_000))))
  delivered r ts key value bin seq k at c node from last_seen clocks b sound fits small lone token
        accepted decoded short =
      let e = logged r ts key bin k seq in
      let raw = Entry.marshal fl m e in
      let h = greeting last_seen c in
      let conn = opened_with at (first_batch from h raw) in
      let before = Dict.put c.conns node (fresh at) in
      (
        record c { conns = Dict.put before node conn },
        conn,
        send_first at c node from raw last_seen lone,
        ground (arith, get-put before node node conn, text_eq_iff node node),
        ap (λ (n : Node (platform fl m mp)). entry n.store key)
              (serve_one clocks b (first_batch from h raw) fits small)
            ∙ set-delivered (platform fl m mp) b (clocks 0) from h token r ts key value bin raw seq
                k accepted decoded
                (rw (← append-nil raw) (decode_entry-marshal fl m law e [] sound)) short,
      )

  module _ (r : Readings) (a : Node (platform fl m mp)) (key : Text) (value : Value) (bin : List ℕ)
      (k : ℕ) where
    -- The timestamp of the call, and the entry as it is in the log.
    abbrev pub taken : Timestamp
    taken = (now r.wall a.hlc).1

    abbrev pub written : LogEntry fl.Carrier
    written = logged r taken key bin k a.log.head

    -- `Set` of a value, with a TTL of a whole number of milliseconds below 2^63 nanoseconds, on node `a`,
    -- where msgpack encodes the value and decodes to it what it encoded (which it does not for every
    -- Go value), `a`'s log is valid and its next head below 2^64, and the entry fits its buffer: the call
    -- succeeds, merges an entry with the clock's timestamp into `a`'s store, and the log gives bytes
    -- under the next sequence number. If these bytes are sent in a batch of their own, as the first
    -- on a new connection, by a client with the token of node `b`, where dialing and writing
    -- succeed, the entry's fields and the batch's are in range, the encoded batch is no longer than
    -- the 100 MB that `b` reads, and `b`'s clock accepts the timestamp: then `b` merges the very
    -- entry that `a` did, through both encodings.
    pub set_served :
        (at : ℤ) (c : StreamClient) (node : Text) (last_seen : ℕ) (clocks : Clocks)
        (b : Node (platform fl m mp))
        → let first = first_batch a.node_id (greeting last_seen c) (Entry.marshal fl m written) in
          mp.marshal_value value ≡ some bin
          → mp.unmarshal_value bin ≡ value
          → k * 1_000_000 < 2 ^ 63
          → IsValid a.log
          → a.log.head + 1 < 2 ^ 64
          → Entry.msgsize fl m written ≤ a.log.buf_cap
          → RoundTrip.IsEncodable fl written
          → IsEncodable first
          → length (Batch.marshal m first) ≤ max_stream
          → Dict.get c.conns node ≡ none
          → c.auth_token ≡ b.auth_token
          → (update (clocks 0 0).1 b.hlc taken).1 ≢ clock_smash
          → let (a', status) = set (platform fl m mp) r a key value (pos (k * 1_000_000)) in
            let v = live_value value taken (pos (k * 1_000_000)) in
            (status ≡ ok)
            × (entry a'.store key ≡ join (entry a.store key) v)
            × ((raw : List ℕ) × (slice a'.log (info_at a'.log a.log.head) ≡ some raw)
                × ((c' : StreamClient) × (conn : ClientConn) × (send_batch m at true true c node
                        (record { from_node = a.node_id; entries = raw ∷ []; handshake = none })
                        last_seen
                      ≡ (c', true))
                    × (Dict.get c'.conns node ≡ some conn)
                    × (entry (serve {mp = mp} m clocks b conn.written).store key
                        ≡ join (entry b.store key) v)))
    unfolding stamp
    set_served at c node last_seen clocks b encodes decodes short valid more room sound fits small
          lone token accepted =
        let (done, hlc, log, store) =
          set-ok (platform fl m mp) r a key value (pos (k * 1_000_000)) bin encodes in
        (
          done,
          ap (λ s. entry s key) store
              ∙ entry-set a.store key value taken (pos (k * 1_000_000)) key
              ∙ ground (arith, text_eq_iff key key),
          (
            Entry.marshal fl m written,
            ap (λ l. slice l (info_at l a.log.head)) log
                ∙ append-slice (Entry.codec fl m) (codec-IsCodec fl m law) a.log valid
                    (set_entry (platform fl m mp) r taken key bin (pos (k * 1_000_000))) room more,
            delivered r taken key value bin a.log.head k at c node a.node_id last_seen clocks b
                sound fits small lone token accepted decodes short,
          ),
        )
