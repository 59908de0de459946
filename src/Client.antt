-- ===== src/Client.antt =====
-- transport.go: `StreamClient`. A connection is the bytes that were written to it; the outcomes of
-- dialing and writing, and the clock readings, are arguments. One goroutine sends to a peer, so that a
-- call of `SendBatch` is one step. Encoding a batch cannot fail.
pub mod Streams
pub mod Delivery
pub mod Sync
pub mod SetServed
use capacitor.Prelude.{
  ℕ, ◌*◌, ◌≡◌, Bool, true, false, not, Option, none, some, List, [], ◌++◌, Text, ℤ, pos, ◌-ℤ◌,
  ltb_ℤ, wrap64, if◌then◌else◌,
}
use capacitor.Dict
use capacitor.Dict.{Dict}
use capacitor.Node.{Platform, Node}
use capacitor.Node.Remote.{Batch}
use capacitor.Node.Replicate.{stop_peer_replicator}
use capacitor.Wire.{Msgp}
use capacitor.Wire.Batch

-- `clientConn`
pub record ClientConn : Type 0 where
  pub written : List ℕ
  pub last_used : ℤ
  pub handshake_done : Bool

pub record StreamClient : Type 0 where
  pub conns : Dict ClientConn
  pub auth_token : Text

-- `NewStreamClient`
unfoldable pub new_stream_client : Text → StreamClient
new_stream_client token = record { conns = Dict.empty; auth_token = token }

-- 2 * time.Minute
abbrev pub max_idle : ℤ
max_idle = pos (120 * 1_000_000_000)

-- A tick of `janitor`: connections that were idle for too long are closed.
unfoldable pub close_idle : ℤ → StreamClient → StreamClient
close_idle now c = record c {
  conns = Dict.keep (λ node conn. not (ltb_ℤ max_idle (wrap64 (now -ℤ conn.last_used)))) c.conns;
}

-- A connection that was just dialed.
abbrev pub fresh : ℤ → ClientConn
fresh now = record { written = []; last_used = now; handshake_done = false }

-- `dial`: the connection that there is, or a new one, if `dials`. `none` is an error.
unfoldable pub dial : ℤ → Bool → StreamClient → Text → Option (StreamClient × ClientConn)
dial now dials c node = elim (Dict.get c.conns node) [
  | some conn ↦
      let used = record conn { last_used = now } in
      some (record c { conns = Dict.put c.conns node used }, used)
  | none ↦
      if dials
      then some (record c { conns = Dict.put c.conns node (fresh now) }, fresh now)
      else none
]

-- The batch as it is sent: with a handshake, if the connection has had none.
unfoldable pub attach : Text → ClientConn → Batch → ℕ → Batch
attach token conn batch last_seen = if conn.handshake_done then batch else record batch {
  handshake = some (record { last_seen_seq = last_seen; auth_token = token });
}

module _ {F : Type 0} (m : Msgp F) where
  -- The rest of `SendBatch` once there is a connection; the flag says that there was no error. A
  -- connection on which the write fails is closed.
  unfoldable pub write_batch :
      Bool → StreamClient → Text → ClientConn → Batch → ℕ → StreamClient × Bool
  unfolding attach
  write_batch writes c node conn batch last_seen =
      if writes
      then (
        record c {
          conns = Dict.put c.conns node (record conn {
            written = conn.written ++ Batch.marshal m (attach c.auth_token conn batch last_seen);
            handshake_done = true;
          });
        },
        true,
      )
      else (record c { conns = Dict.remove c.conns node }, false)

  -- `SendBatch`, where `dials` and `writes` say whether dialing and writing succeed.
  unfoldable pub send_batch :
      ℤ → Bool → Bool → StreamClient → Text → Batch → ℕ → StreamClient × Bool
  unfolding dial write_batch
  send_batch now dials writes c node batch last_seen = elim (dial now dials c node) [
    | none ↦ (c, false)
    | some (c', conn) ↦ write_batch writes c' node conn batch last_seen
  ]

-- `CloseConn` and `Close`
unfoldable pub close_conn : StreamClient → Text → StreamClient
close_conn c node = record c { conns = Dict.remove c.conns node }

unfoldable pub close : StreamClient → StreamClient
close c = record c { conns = Dict.empty }

-- `NotifyLeave`: the connection is closed, and the replicator of the peer stops. The flag says whether
-- a stop channel is closed.
unfoldable pub notify_leave :
    {p : Platform} → Node p → StreamClient → Text → Node p × StreamClient × Bool
unfolding close_conn
notify_leave n c node =
    let (n', stopped) = stop_peer_replicator n node in (n', close_conn c node, stopped)
