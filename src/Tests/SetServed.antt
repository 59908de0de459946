-- ===== src/Tests/SetServed.antt =====
-- An example for a value on its way from one node to another, in capacitor.go and transport.go.
use capacitor.Prelude.{
  ◌*◌, ◌≡◌, ◌≢◌, ◌≤◌, ◌+ℤ◌, ℕ, List, [], none, refl, arith, true, some, ◌∷◌, codes, ℤ, pos, length,
  wrap64, wrap32,
}
use capacitor.Client.{StreamClient, ClientConn, new_stream_client, send_batch}
use capacitor.Client.SetServed.{written, greeting, set_served}
use capacitor.Dict
use capacitor.Dict.{get-empty}
use capacitor.Hlc.{now, update, clock_smash}
use capacitor.Log.Entry.{LogEntry}
use capacitor.Node.{Node, Readings, ok}
use capacitor.Log.{slice, info_at, new_delta_log, buffer_size}
use capacitor.Log.Retain.{new-IsValid}
use capacitor.Node.Api.{set, set_entry}
use capacitor.Node.Remote.{Batch}
use capacitor.Node.Remote.Deliver.{first_batch}
use capacitor.Server.{max_stream, serve}
use capacitor.Store.Cache.{entry, live_value}
use capacitor.Store.Cache.Entry.{join}
use capacitor.Store.Shard.{text}
use capacitor.Tests.Fixtures.{int_float, plain}
use capacitor.Tests.Msgp.{plain_msgp, plain_msgp-IsMsgp}
use capacitor.Tests.Network.{wired, node_with, b, client, clocks}
use capacitor.Wire.{write_struct}
use capacitor.Wire.Batch
use capacitor.Wire.Batch.RoundTrip
use capacitor.Wire.Entry
use capacitor.Wire.Entry.RoundTrip.{IsEncodable}
use capacitor.Wire.Handshake
use capacitor.Wire.Timestamp

abbrev readings : Readings
readings = record { start = pos 90; wall = pos 91; born = pos 92; finish = pos 93 }

-- A node with an empty log.
abbrev sender : Node wired
sender = node_with (codes "A") (new_delta_log 4)

-- The entry of the value "x" with a TTL of five milliseconds.
abbrev set_x : LogEntry ℤ
set_x =
    written int_float plain_msgp plain_msgp-IsMsgp plain.msgpack readings sender (codes "k")
      (text (codes "x")) (0 ∷ codes "x") 5

set_x-IsEncodable : IsEncodable int_float set_x
unfolding set_entry now new_delta_log wrap64 wrap32 ◌+ℤ◌
set_x-IsEncodable = record {
  seq_in = omega arith;
  ts_in = ((omega arith, omega arith), (omega arith, omega arith));
  born_in = (omega arith, omega arith);
  op_in = tt;
  key_in = omega arith;
  node_in = omega arith;
  value_in = omega arith;
  delta_in = λ e. refl;
  ttl_in = (omega arith, omega arith);
}

abbrev set_batch : Batch
set_batch = first_batch (codes "A") (greeting 4 client) (Entry.marshal int_float plain_msgp set_x)

set_batch-IsEncodable : RoundTrip.IsEncodable set_batch
unfolding new_stream_client Entry.marshal Entry.field_count set_entry write_struct Timestamp.marshal
    now new_delta_log wrap64 wrap32 ◌+ℤ◌
set_batch-IsEncodable = record {
  from_in = omega arith;
  count_in = omega arith;
  entries_in = (omega arith, tt);
  handshake_in = (omega arith, omega arith);
}

set_batch_small : length (Batch.marshal plain_msgp set_batch) ≤ max_stream
unfolding new_stream_client Entry.marshal Entry.field_count set_entry write_struct Timestamp.marshal
    Batch.marshal Handshake.marshal Handshake.field_count now new_delta_log wrap64 wrap32 ◌+ℤ◌
set_batch_small = omega arith

set_x_fits : Entry.msgsize int_float plain_msgp set_x ≤ (new_delta_log 4).buf_cap
unfolding Entry.msgsize Timestamp.msgsize set_entry now new_delta_log buffer_size
set_x_fits = omega arith

accepted : (update (pos 91) b.hlc (now (pos 91) sender.hlc).1).1 ≢ clock_smash
unfolding update now wrap64 wrap32 ◌+ℤ◌
accepted e = ground (arith, e)

set_served_example :
    let (a', status) =
      set wired readings sender (codes "k") (text (codes "x")) (pos (5 * 1_000_000)) in
    let v = live_value (text (codes "x")) (now (pos 91) sender.hlc).1 (pos (5 * 1_000_000)) in
    (status ≡ ok)
    × (entry a'.store (codes "k") ≡ join (entry sender.store (codes "k")) v)
    × ((raw : List ℕ) × (slice a'.log (info_at a'.log sender.log.head) ≡ some raw)
        × ((c' : StreamClient) × (conn : ClientConn) × (send_batch plain_msgp
                (pos 100)
                true
                true
                client
                (codes "B")
                (record { from_node = codes "A"; entries = raw ∷ []; handshake = none })
                4
              ≡ (c', true))
            × (Dict.get c'.conns (codes "B") ≡ some conn)
            × (entry (serve {mp = plain.msgpack} plain_msgp clocks b conn.written).store (codes "k")
                ≡ join (entry b.store (codes "k")) v)))
set_served_example =
    set_served int_float plain_msgp plain_msgp-IsMsgp plain.msgpack readings sender (codes "k")
      (text (codes "x")) (0 ∷ codes "x") 5 (pos 100) client (codes "B") 4 clocks b refl refl
      (omega arith) (new-IsValid 4 (λ i. []) (omega arith)).0 (unfold new_delta_log in omega arith)
      set_x_fits set_x-IsEncodable set_batch-IsEncodable set_batch_small
      (unfold new_stream_client in get-empty (codes "B")) (unfold new_stream_client in refl)
      accepted
