-- ===== src/Tests/Network.antt =====
-- Examples for the client and the server of transport.go.
use capacitor.Prelude.{
  ℕ, zero, suc, ◌+◌, ◌≡◌, ◌≤◌, ◌<◌, refl, sym, ap, ◌∙◌, arith, true, false, some, none, Option,
  List, [], ◌∷◌, map, take, codes, ℤ, pos, length, Text, text_eq,
}
use capacitor.Client.{StreamClient, ClientConn, new_stream_client, send_batch}
use capacitor.Client.Delivery.{arrivals, raw_of, handle_each, greet}
use capacitor.Client.Streams.{entries_of, IsClient, send_batch-IsClient, new_stream_client-IsClient}
use capacitor.Client.Sync.{sync}
use capacitor.Client.Sync.Laws.{Ready}
use capacitor.Client.Sync.Delivered.{log_delivered}
use capacitor.Dict
use capacitor.Dict.{get-empty}
use capacitor.Wire.{write_struct}
use capacitor.Wire.Batch
use capacitor.Wire.Handshake
use capacitor.Log.{DeltaLog, slice, info_at, get_entries_raw}
use capacitor.Log.Append.{Holds}
use capacitor.Log.Batch.{IsRun}
use capacitor.Log.Retain.{IsIntact}
use capacitor.Node.{Platform, Node}
use capacitor.Node.Remote.{Batch, handle_conn}
use capacitor.Node.Replicate.{last_seq, has_news, next_batch}
use capacitor.Server.{returned, decode_batches, Clocks, with_clocks, max_stream, platform, serve}
use capacitor.Server.Stream.{encode_all, serve-encode_all}
use capacitor.Store.PeerSeq.{get_peer_seq, seq_in}
use capacitor.Store.Shard.{empty_store, get_shard, new_store_shard}
use capacitor.Metrics.{no_stat}
use capacitor.Tests.Fixtures.{int_float, plain, clock}
use capacitor.Tests.Msgp.{plain_msgp, plain_msgp-IsMsgp}
use capacitor.Tests.Wire.{opening, opening-IsEncodable}

-- A log with room for two entries, and one in it.
abbrev small_log : DeltaLog
small_log = record {
  index = record { offset = 0; size = 0 } ∷ record { offset = 0; size = 2 } ∷ [];
  bytes = 7 ∷ 8 ∷ [];
  head = 2;
  buf_head = 2;
  capacity = 2;
  buf_cap = 2;
}

abbrev pub wired : Platform
wired = platform int_float plain_msgp plain.msgpack

abbrev pub node_with : Text → DeltaLog → Node wired
node_with id log = record {
  node_id = id;
  store = empty_store ℤ;
  hlc = clock;
  log = log;
  metrics = record {
    set_lat = no_stat;
    get_lat = no_stat;
    incr_lat = no_stat;
    replicate_lat = no_stat;
  };
  auth_token = codes "secret";
  peer_seqs = Dict.empty;
  peer_stops = Dict.empty;
  disable_metrics = false;
}

abbrev a : Node wired
a = node_with (codes "A") small_log

abbrev pub b : Node wired
b = node_with (codes "B") small_log

abbrev pub client : StreamClient
client = new_stream_client (codes "secret")

abbrev seven : ℕ → List ℕ
seven i = 7 ∷ 8 ∷ []

abbrev pub clocks : Clocks
clocks i j = (pos 100, pos 91)

abbrev times : ℕ → ℤ
times k = pos 100

written_of : Option (Node wired × StreamClient) → ℕ
written_of none = 0
written_of (some (n, c)) = elim (Dict.get c.conns (codes "B")) [
  | none ↦ 0
  | some conn ↦ length conn.written
]

held : (seq : ℕ) → 1 ≤ seq → seq < 2 → Holds small_log seq (seven seq)
unfolding slice info_at
held zero ge lt = absurd (omega arith)
held (suc zero) ge lt = (refl, refl, omega arith)
held (suc (suc n)) ge lt = absurd (omega arith)

small_log-IsIntact : IsIntact small_log 1 seven
small_log-IsIntact = record {
  lo_pos = omega arith;
  lo_le = omega arith;
  in_index = omega arith;
  held = held;
}

-- The bytes of one batch with its handshake.
runs : written_of (sync plain_msgp 1 times a client (codes "B")) ≡ 28
unfolding sync new_stream_client written_of has_news Dict.get Dict.empty get_peer_seq Dict.get_or
    get_shard new_store_shard next_batch get_entries_raw send_batch Dict.put text_eq Batch.marshal
    write_struct Handshake.marshal Handshake.field_count
runs = refl

written_lem :
    (n : Node wired) (c : StreamClient) (conn : ClientConn)
    → Dict.get c.conns (codes "B") ≡ some conn
    → written_of (some (n, c)) ≡ length conn.written
unfolding written_of
written_lem n c conn e = rw (written_of, e) refl

small_stream :
    (n' : Node wired) (c' : StreamClient) (conn : ClientConn)
    → sync plain_msgp 1 times a client (codes "B") ≡ some (n', c')
    → Dict.get c'.conns (codes "B") ≡ some conn
    → length conn.written ≤ max_stream
small_stream n' c' conn ran found =
    let size : length conn.written ≡ 28 =
      sym (written_lem n' c' conn found) ∙ sym (ap written_of ran) ∙ runs in
    omega arith

a_position : last_seq a (codes "B") ≡ 0
unfolding last_seq get_peer_seq seq_in get_shard new_store_shard Dict.get_or Dict.get Dict.empty
a_position = refl

a_seen : get_peer_seq a.store (codes "B") ≡ 0
unfolding get_peer_seq seq_in get_shard new_store_shard Dict.get_or Dict.get Dict.empty
a_seen = refl

a-Ready : Ready plain_msgp seven 1 (λ i. omega arith) a client (codes "B")
a-Ready = record {
  intact = small_log-IsIntact;
  due = rw a_position (omega arith);
  small = omega arith;
  name = omega arith;
  seen = rw a_seen (omega arith);
  token = unfold new_stream_client in omega arith;
}

log_delivered_example :
    (n' : Node wired) × (c' : StreamClient) × (conn : ClientConn) × (bs : List Batch) × (sync
        plain_msgp 1 times a client
        (codes "B")
      ≡ some (n', c'))
    × (Dict.get c'.conns (codes "B") ≡ some conn)
    × (conn.written ≡ encode_all plain_msgp bs)
    × IsRun seven (last_seq a (codes "B") + 1) (entries_of bs)
    × (last_seq a (codes "B") + 1 + length (entries_of bs) ≡ 2)
    × (map raw_of (arrivals clocks 0 bs) ≡ entries_of bs)
    × (serve {mp = plain.msgpack} plain_msgp clocks b conn.written
        ≡ handle_each wired (greet wired b bs) (arrivals clocks 0 bs))
    × (last_seq n' (codes "B") + 1 ≡ 2)
log_delivered_example =
    log_delivered int_float plain_msgp plain_msgp-IsMsgp plain.msgpack seven 1 (λ i. omega arith) 1
      times clocks a b client (codes "B") a-Ready (rw a_position (omega arith))
      (rw a_position (omega arith)) (unfold new_stream_client in get-empty (codes "B"))
      (unfold new_stream_client in refl) small_stream

send_batch-IsClient_example :
    IsClient plain_msgp
      (send_batch plain_msgp
        (pos 100)
        true
        true
        client
        (codes "B")
        (record { from_node = codes "A"; entries = (7 ∷ 8 ∷ []) ∷ []; handshake = none })
        4).0
send_batch-IsClient_example =
    send_batch-IsClient plain_msgp client (new_stream_client-IsClient plain_msgp (codes "secret"))
      (pos 100) true true (codes "B")
      (record { from_node = codes "A"; entries = (7 ∷ 8 ∷ []) ∷ []; handshake = none }) 4 refl

serve-encode_all_example :
    (decode_batches plain_msgp
        (suc (length (encode_all plain_msgp (opening ∷ []))))
        (take max_stream (encode_all plain_msgp (opening ∷ [])))
      ≡ (opening ∷ [], returned))
    × (serve {mp = plain.msgpack} plain_msgp clocks b (encode_all plain_msgp (opening ∷ []))
        ≡ handle_conn wired b true (with_clocks clocks 0 (opening ∷ [])))
serve-encode_all_example =
    serve-encode_all int_float plain_msgp plain_msgp-IsMsgp plain.msgpack clocks b (opening ∷ [])
      (opening-IsEncodable, tt)
      (unfold encode_all Batch.marshal write_struct Handshake.marshal Handshake.field_count in
        omega arith)
