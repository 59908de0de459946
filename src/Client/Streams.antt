-- ===== src/Client/Streams.antt =====
-- What `StreamClient` of transport.go writes to a connection.
use mathlib.Core.Path.{subst}
use mathlib.Core.List.{append_assoc, append-nil}
use capacitor.Prelude.{
  ℕ, ◌≡◌, refl, sym, ap, ◌∙◌, Bool, true, false, Bool-cases, Option-cases, none, some, List, [],
  ◌∷◌, ◌++◌, Text, text_eq, ℤ, ◌-ℤ◌, ltb_ℤ, wrap64, not, inl, inr, arith,
}
use mathlib.Core.Option.{none-ne-some}
use capacitor.Client.{
  StreamClient, ClientConn, new_stream_client, close_idle, dial, attach, send_batch, close_conn,
  write_batch, fresh, max_idle,
}
use capacitor.Dict
use capacitor.Dict.{
  IsMap, get-empty, get-put, get-remove, get-keep, empty-IsMap, put-IsMap, remove-IsMap, keep-IsMap,
}
use capacitor.Node.Remote.{Batch, Handshake}
use capacitor.Server.Stream.{encode_all}
use capacitor.Wire.{Msgp}
use capacitor.Wire.Batch

-- All the entries of the batches.
unfoldable pub entries_of : List Batch → List (List ℕ)
entries_of [] = []
entries_of (b ∷ bs) = b.entries ++ entries_of bs

abbrev pub AllPlain : List Batch → Type 0
AllPlain [] = Unit
AllPlain (b ∷ bs) = (b.handshake ≡ none) × AllPlain bs

-- The first batch carries a handshake with the token, and no other does. There are none before the
-- handshake.
abbrev pub Opens : Text → Bool → List Batch → Type 0
Opens token done [] = done ≡ false
Opens token done (b ∷ bs) =
    (done ≡ true)
    × ((h : Handshake) × (b.handshake ≡ some h) × (h.auth_token ≡ token))
    × AllPlain bs

AllPlain-append :
    (bs : List Batch) (b : Batch) → AllPlain bs → b.handshake ≡ none → AllPlain (bs ++ b ∷ [])
AllPlain-append [] b h e = (e, tt)
AllPlain-append (x ∷ bs) b (p, ps) e = (p, AllPlain-append bs b ps e)

module _ {F : Type 0} (m : Msgp F) where
  -- The bytes of the connection are those of such a list of batches.
  abbrev pub IsStream : Text → ClientConn → Type 0
  IsStream token conn =
      (bs : List Batch) × (conn.written ≡ encode_all m bs) × Opens token conn.handshake_done bs

  -- Every open connection is such a stream.
  pub record IsClient (c : StreamClient) : Type 0 where
    pub map : IsMap c.conns
    pub streams :
        (node : Text) (conn : ClientConn)
        → Dict.get c.conns node ≡ some conn
        → IsStream c.auth_token conn

  encode_all-append :
      (bs : List Batch) (b : Batch)
      → encode_all m bs ++ Batch.marshal m b ≡ encode_all m (bs ++ b ∷ [])
  unfolding encode_all
  encode_all-append [] b = sym (append-nil (Batch.marshal m b))
  encode_all-append (x ∷ bs) b =
      append_assoc (Batch.marshal m x) (encode_all m bs) (Batch.marshal m b)
      ∙ ap (λ t. Batch.marshal m x ++ t) (encode_all-append bs b)

  -- One more batch on a stream.
  pub write_lem :
      (token : Text) (conn : ClientConn) (batch : Batch) (last_seen : ℕ) (bs : List Batch)
      → batch.handshake ≡ none
      → conn.written ≡ encode_all m bs
      → Opens token conn.handshake_done bs
      → let b = attach token conn batch last_seen in
        (conn.written ++ Batch.marshal m b ≡ encode_all m (bs ++ b ∷ []))
        × Opens token true (bs ++ b ∷ [])
  unfolding attach
  write_lem token conn batch last_seen bs plain same opens = (
    ap (λ t. t ++ Batch.marshal m (attach token conn batch last_seen)) same
        ∙ encode_all-append bs (attach token conn batch last_seen),
    go bs opens,
  )
    where
      go :
          (bs : List Batch)
          → Opens token conn.handshake_done bs
          → Opens token true (bs ++ attach token conn batch last_seen ∷ [])
      go [] e =
          rw e (refl, (record { last_seen_seq = last_seen; auth_token = token }, refl, refl), tt)
      go (b ∷ bs) (done, first, rest) = rw done (refl, first, AllPlain-append bs batch rest plain)

  write-IsStream :
      (token : Text) (conn : ClientConn) (batch : Batch) (last_seen : ℕ)
      → batch.handshake ≡ none
      → IsStream token conn
      → IsStream token (record conn {
        written = conn.written ++ Batch.marshal m (attach token conn batch last_seen);
        handshake_done = true;
      })
  write-IsStream token conn batch last_seen plain (bs, same, opens) =
      let (wrote, opens') = write_lem token conn batch last_seen bs plain same opens in
      (bs ++ attach token conn batch last_seen ∷ [], wrote, opens')

  module _ (c : StreamClient) (w : IsClient c) where
    put-IsClient :
        (node : Text) (conn : ClientConn)
        → IsStream c.auth_token conn
        → IsClient (record c { conns = Dict.put c.conns node conn })
    put-IsClient node conn s = record {
      map = put-IsMap c.conns node conn w.map;
      streams = λ other found e. elim (Bool-cases (text_eq node other)) [
        | inl p ↦
            let same : conn ≡ found = ground (arith, get-put c.conns node other conn, p, e) in
            subst (IsStream c.auth_token) same s
        | inr p ↦ w.streams other found (ground (arith, get-put c.conns node other conn, p, e))
      ];
    }

    remove-IsClient : (node : Text) → IsClient (record c { conns = Dict.remove c.conns node })
    remove-IsClient node = record {
      map = remove-IsMap c.conns node w.map;
      streams =
          λ other found e. w.streams other found (ground (arith, get-remove c.conns node other, e));
    }

    write_batch-IsClient :
        (writes : Bool) (node : Text) (conn : ClientConn) (batch : Batch) (last_seen : ℕ)
        → batch.handshake ≡ none
        → IsStream c.auth_token conn
        → IsClient (write_batch m writes c node conn batch last_seen).0
    unfolding write_batch
    write_batch-IsClient true node conn batch last_seen plain s =
        put-IsClient node _ (write-IsStream c.auth_token conn batch last_seen plain s)
    write_batch-IsClient false node conn batch last_seen plain s = remove-IsClient node

    pub close_idle-IsClient : (now : ℤ) → IsClient (close_idle now c)
    unfolding close_idle
    close_idle-IsClient now = record {
      map = keep-IsMap _ c.conns w.map;
      streams = λ node conn e. w.streams node conn (
          ground (
            arith,
            get-keep (λ node' conn'. not (ltb_ℤ max_idle (wrap64 (now -ℤ conn'.last_used)))) c.conns
                node w.map,
            e,
          ));
    }

    pub close_conn-IsClient : (node : Text) → IsClient (close_conn c node)
    unfolding close_conn
    close_conn-IsClient node = remove-IsClient node

  -- A call of `SendBatch` with a batch without a handshake, whatever becomes of it, leaves every open
  -- connection a stream of whole encoded batches, of which the first and no other has a handshake,
  -- with the client's token.
  pub send_batch-IsClient :
      (c : StreamClient)
      → IsClient c
      → (now : ℤ) (dials writes : Bool) (node : Text) (batch : Batch) (last_seen : ℕ)
      → batch.handshake ≡ none
      → IsClient (send_batch m now dials writes c node batch last_seen).0
  unfolding send_batch dial
  send_batch-IsClient c w now dials writes node batch last_seen plain =
      elim (Option-cases (Dict.get c.conns node)) [
        | inl e ↦ dialed e dials
        | inr (conn, e) ↦
            let used = record conn { last_used = now } in
            rw (send_batch, dial, e)
              (write_batch-IsClient _ (put-IsClient c w node used (w.streams node conn e)) writes
                node used batch last_seen plain (w.streams node conn e))
      ]
    where
      blank : IsStream c.auth_token (fresh now)
      blank = ([], unfold encode_all in refl, refl)

      dialed :
          Dict.get c.conns node ≡ none
          → (dials : Bool) → IsClient (send_batch m now dials writes c node batch last_seen).0
      dialed e true =
          rw (send_batch, dial, e)
            (write_batch-IsClient _ (put-IsClient c w node (fresh now) blank) writes node
              (fresh now) batch last_seen plain blank)
      dialed e false = rw (send_batch, dial, e) w

  pub new_stream_client-IsClient : (token : Text) → IsClient (new_stream_client token)
  unfolding new_stream_client
  new_stream_client-IsClient token = record {
    map = empty-IsMap;
    streams = λ node conn e. absurd (none-ne-some conn (sym (get-empty node) ∙ e));
  }
