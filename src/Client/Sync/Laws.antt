-- ===== src/Client/Sync/Laws.antt =====
-- Theorems on turns of the replicator of capacitor.go and the bytes that they write.
use mathlib.Core.Path.{subst}
use capacitor.Prelude.{
  ℕ, suc, ◌+◌, ◌≤◌, ◌<◌, ◌^◌, ◌≡◌, ◌⊎◌, refl, sym, Bool, true, none, some, List, [], ◌∷◌, ◌++◌,
  Text, text_eq_iff, ℤ, arith, length, Bool-cases, inl, inr,
}
use capacitor.Client.{StreamClient, ClientConn, dial, attach, write_batch, send_batch, fresh}
use capacitor.Client.Streams.{Opens, write_lem}
use capacitor.Client.Sync.{replicate_over}
use capacitor.Dict
use capacitor.Dict.{get-put}
use capacitor.Log.Batch.{IsRun}
use capacitor.Log.Retain.{IsIntact}
use capacitor.Node.{Platform, Node}
use capacitor.Node.Remote.{Batch}
use capacitor.Node.Replicate.{last_seq, next_batch, replicate_to_peer, batch_limit}
use capacitor.Node.Replicate.Laws.{replicate_to_peer_lem}
use capacitor.Server.Stream.{encode_all}
use capacitor.Store.PeerSeq.{get_peer_seq}
use capacitor.Wire.{Msgp}
use capacitor.Wire.Batch
use capacitor.Wire.Batch.RoundTrip.{IsEncodable, AllShort}

module _ {F : Type 0} (m : Msgp F) where
  -- The client has written these batches to its connection to the node: the first, and no other, with
  -- a handshake with its token.
  abbrev pub Carries : StreamClient → Text → List Batch → Type 0
  Carries c node bs =
      (conn : ClientConn) × (Dict.get c.conns node ≡ some conn)
      × (conn.written ≡ encode_all m bs)
      × Opens c.auth_token conn.handshake_done bs

  -- There is no connection, and nothing was written.
  abbrev pub Starts : StreamClient → Text → List Batch → Type 0
  Starts c node bs = (Dict.get c.conns node ≡ none) × (bs ≡ [])

  attach-IsEncodable :
      (token : Text) (conn : ClientConn) (batch : Batch) (last_seen : ℕ)
      → IsEncodable batch
      → last_seen < 2 ^ 64
      → length token < 2 ^ 32
      → IsEncodable (attach token conn batch last_seen)
  unfolding attach
  attach-IsEncodable token conn batch last_seen ok seen short =
      elim (Bool-cases conn.handshake_done) [
        | inl e ↦ rw e ok
        | inr e ↦ rw e (record {
          from_in = ok.from_in;
          count_in = ok.count_in;
          entries_in = ok.entries_in;
          handshake_in = (seen, short);
        })
      ]

  entries-attach :
      (token : Text) (conn : ClientConn) (batch : Batch) (last_seen : ℕ)
      → (attach token conn batch last_seen).entries ≡ batch.entries
  unfolding attach
  entries-attach token conn batch last_seen = ground arith

  module _ (now : ℤ) (c : StreamClient) (node : Text) (batch : Batch) (last_seen : ℕ)
      (plain : batch.handshake ≡ none) (ok : IsEncodable batch) (seen : last_seen < 2 ^ 64)
      (short : length c.auth_token < 2 ^ 32) where
    -- What a call of `SendBatch` without an error leaves, after the batches `bs`.
    abbrev Sent : List Batch → Type 0
    Sent bs =
        (c' : StreamClient) × (b : Batch) × (send_batch m now true true c node batch last_seen
          ≡ (c', true))
        × Carries c' node (bs ++ b ∷ [])
        × (b.entries ≡ batch.entries)
        × IsEncodable b
        × (c'.auth_token ≡ c.auth_token)

    write-Sent :
        (conns : Dict.Dict ClientConn) (conn : ClientConn) (bs : List Batch)
        → send_batch m now true true c node batch last_seen
          ≡ write_batch m true (record c { conns = conns }) node conn batch last_seen
        → conn.written ≡ encode_all m bs
        → Opens c.auth_token conn.handshake_done bs
        → Sent bs
    unfolding write_batch
    write-Sent conns conn bs runs same opens =
        let b = attach c.auth_token conn batch last_seen in
        let after = record conn {
          written = conn.written ++ Batch.marshal m b;
          handshake_done = true;
        } in
        let (wrote, opens') = write_lem m c.auth_token conn batch last_seen bs plain same opens in
        (
          record c { conns = Dict.put conns node after },
          b,
          runs,
          (
            after,
            ground (arith, get-put conns node node after, text_eq_iff node node),
            wrote,
            opens',
          ),
          entries-attach c.auth_token conn batch last_seen,
          attach-IsEncodable c.auth_token conn batch last_seen ok seen short,
          refl,
        )

    send_batch-Sent : (bs : List Batch) → Starts c node bs ⊎ Carries c node bs → Sent bs
    unfolding send_batch dial encode_all
    send_batch-Sent bs (inl (lone, none_yet)) =
        write-Sent (Dict.put c.conns node (fresh now)) (fresh now) bs
          (rw (send_batch, dial, lone) refl) (rw none_yet refl) (rw none_yet refl)
    send_batch-Sent bs (inr (conn, found, same, opens)) =
        let used = record conn { last_used = now } in
        write-Sent (Dict.put c.conns node used) used bs (rw (send_batch, dial, found) refl) same
          opens

pub IsRun-append :
    (h : ℕ → List ℕ) (seq : ℕ) (xs ys : List (List ℕ))
    → IsRun h seq xs
    → IsRun h (seq + length xs) ys
    → IsRun h seq (xs ++ ys)
IsRun-append h seq [] ys r s = subst (λ k. IsRun h k ys) (omega arith) s
IsRun-append h seq (x ∷ xs) ys (e, r) s =
    (e, IsRun-append h (suc seq) xs ys r (subst (λ k. IsRun h k ys) (omega arith) s))

AllShort-IsRun :
    (h : ℕ → List ℕ)
    → ((i : ℕ) → length (h i) < 2 ^ 32)
    → (seq : ℕ) (es : List (List ℕ)) → IsRun h seq es
    → AllShort es
AllShort-IsRun h short seq [] r = tt
AllShort-IsRun h short seq (e ∷ es) (same, r) =
    (rw same (short seq), AllShort-IsRun h short (suc seq) es r)

module _ {p : Platform} where
  plain_lem :
      (n n' : Node p) (node : Text) (batch : Batch)
      → next_batch n node ≡ some (n', some batch)
      → (batch.handshake ≡ none) × (batch.from_node ≡ n.node_id)
  unfolding next_batch
  plain_lem n n' node batch e = ground (arith, e)

  kept_lem :
      (n n' : Node p) (node : Text) (sent : Bool)
      → replicate_to_peer n node sent ≡ some n'
      → (n'.log ≡ n.log) × (n'.store ≡ n.store) × (n'.node_id ≡ n.node_id)
  unfolding replicate_to_peer next_batch
  kept_lem n n' node sent e = ground (arith, e)

  replicate_over_lem :
      (m : Msgp p.float.Carrier) (now : ℤ) (n n₁ n' : Node p) (c c' : StreamClient) (node : Text)
      (batch : Batch)
      → next_batch n node ≡ some (n₁, some batch)
      → send_batch m now true true c node batch (get_peer_seq n.store node) ≡ (c', true)
      → replicate_to_peer n node true ≡ some n'
      → replicate_over m now true true n c node ≡ some (n', c')
  unfolding replicate_over replicate_to_peer
  replicate_over_lem m now n n₁ n' c c' node batch found sent moved =
      ground (arith, found, sent, moved)

module _ {p : Platform} (m : Msgp p.float.Carrier) (h : ℕ → List ℕ) (lo : ℕ)
    (short : (i : ℕ) → length (h i) < 2 ^ 32) where
  -- What one turn needs of the node and the client.
  pub record Ready (n : Node p) (c : StreamClient) (node : Text) : Type 0 where
    pub intact : IsIntact n.log lo h
    pub due : lo ≤ last_seq n node + 1
    pub small : n.log.head + batch_limit < 2 ^ 64
    pub name : length n.node_id < 2 ^ 32
    pub seen : get_peer_seq n.store node < 2 ^ 64
    pub token : length c.auth_token < 2 ^ 32

  -- One turn: its batch is on the connection, and the position behind it.
  abbrev pub Turned : ℤ → Node p → StreamClient → Text → List Batch → Type 0
  Turned now n c node bs =
      (n' : Node p) × (c' : StreamClient) × (b : Batch) × (replicate_over m now true true n c node
        ≡ some (n', c'))
      × Carries m c' node (bs ++ b ∷ [])
      × IsEncodable b
      × IsRun h (last_seq n node + 1) b.entries
      × (0 < length b.entries)
      × (last_seq n node + length b.entries < n.log.head)
      × (last_seq n' node ≡ last_seq n node + length b.entries)
      × Ready n' c' node
      × (n'.log ≡ n.log)
      × (c'.auth_token ≡ c.auth_token)

  pub turn_lem :
      (now : ℤ) (n : Node p) (c : StreamClient) (node : Text) (bs : List Batch)
      → Ready n c node
      → last_seq n node + 1 < n.log.head
      → Starts m c node bs ⊎ Carries m c node bs
      → Turned now n c node bs
  turn_lem now n c node bs r behind before =
      let (batch, n', found, moved, run, pos, few, below, position) =
        replicate_to_peer_lem n node lo h r.intact true r.due behind r.small in
      let (plain, from) = plain_lem n _ node batch found in
      let ok : IsEncodable batch = record {
        from_in = rw from r.name;
        count_in = omega arith;
        entries_in = AllShort-IsRun h short (last_seq n node + 1) batch.entries run;
        handshake_in = rw plain tt;
      } in
      let (c', b, sent, carried, same, ok', token') =
        send_batch-Sent m now c node batch (get_peer_seq n.store node) plain ok r.seen r.token bs
          before in
      let (log', store', name') = kept_lem n n' node true moved in
      (
        n',
        c',
        b,
        replicate_over_lem m now n _ n' c c' node batch found sent moved,
        carried,
        ok',
        rw same run,
        rw same pos,
        rw same below,
        rw same position,
        record {
          intact = subst (λ l. IsIntact l lo h) (sym log') r.intact;
          due = let d = r.due in omega arith;
          small = rw log' r.small;
          name = rw name' r.name;
          seen = rw store' r.seen;
          token = rw token' r.token;
        },
        log',
        token',
      )
