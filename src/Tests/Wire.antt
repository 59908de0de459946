-- ===== src/Tests/Wire.antt =====
-- Examples for the generated encodings.
use capacitor.Prelude.{◌≡◌, arith, some, [], ◌∷◌, ◌++◌, codes, ℤ, pos, negsuc}
use capacitor.Log.Entry.{LogEntry, IsCodec, msg_incr}
use capacitor.Node.Remote.{Batch}
use capacitor.Server.{returned, decode_batches}
use capacitor.Server.Termination.{decode_batches_ends}
use capacitor.Tests.Fixtures.{int_float, at_time}
use capacitor.Tests.Msgp.{plain_msgp, plain_msgp-IsMsgp, plain_msgp-IsReader}
use capacitor.Wire.{Reads}
use capacitor.Wire.Batch
use capacitor.Wire.Batch.RoundTrip
use capacitor.Wire.Batch.RoundTrip.{decode-marshal}
use capacitor.Wire.Entry
use capacitor.Wire.Entry.RoundTrip.{IsEncodable, decode_entry-marshal, codec-IsCodec}

-- With a node and a delta, without a value and a TTL.
abbrev pub counted : LogEntry ℤ
counted = record {
  seq = 5;
  ts = at_time 100 2;
  born_at = pos 99;
  op = msg_incr;
  key = codes "k";
  node_id = codes "A";
  value = [];
  delta = negsuc 2;
  ttl = pos 0;
}

pub counted-IsEncodable : IsEncodable int_float counted
counted-IsEncodable = record {
  seq_in = omega arith;
  ts_in = ((omega arith, omega arith), (omega arith, omega arith));
  born_in = (omega arith, omega arith);
  op_in = tt;
  key_in = omega arith;
  node_in = omega arith;
  value_in = omega arith;
  delta_in = λ e. ground (arith, e);
  ttl_in = (omega arith, omega arith);
}

decode_entry-marshal_example :
    Entry.decode_entry int_float plain_msgp (Entry.marshal int_float plain_msgp counted ++ 7 ∷ [])
    ≡ some counted
decode_entry-marshal_example =
    decode_entry-marshal int_float plain_msgp plain_msgp-IsMsgp counted (7 ∷ []) counted-IsEncodable

codec-IsCodec_example : IsCodec (Entry.codec int_float plain_msgp)
codec-IsCodec_example = codec-IsCodec int_float plain_msgp plain_msgp-IsMsgp

abbrev pub opening : Batch
opening = record {
  from_node = codes "A";
  entries = (1 ∷ 2 ∷ []) ∷ [] ∷ [];
  handshake = some (record { last_seen_seq = 4; auth_token = codes "secret" });
}

pub opening-IsEncodable : RoundTrip.IsEncodable opening
opening-IsEncodable = record {
  from_in = omega arith;
  count_in = omega arith;
  entries_in = (omega arith, (omega arith, tt));
  handshake_in = (omega arith, omega arith);
}

decode-marshal_example :
    Reads (Batch.decode plain_msgp Batch.blank_batch) (Batch.marshal plain_msgp opening) opening
decode-marshal_example = decode-marshal plain_msgp plain_msgp-IsMsgp opening opening-IsEncodable

decode_batches_ends_example :
    ((decode_batches plain_msgp 30 (0x81 ∷ 7 ∷ 9 ∷ [])).1 ≡ returned)
    × (decode_batches plain_msgp 30 (0x81 ∷ 7 ∷ 9 ∷ [])
        ≡ decode_batches plain_msgp 4 (0x81 ∷ 7 ∷ 9 ∷ []))
decode_batches_ends_example =
    decode_batches_ends plain_msgp plain_msgp-IsReader 30 (0x81 ∷ 7 ∷ 9 ∷ []) (omega arith)
