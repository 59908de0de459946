-- ===== src/Client/Sync/Delivered.antt =====
-- capacitor.go and transport.go: the entries of one node's log at another, over a new connection.
use mathlib.Core.Path.{subst}
use mathlib.Core.List.{append_assoc, append-nil}
use capacitor.Prelude.{
  ℕ, zero, suc, ◌+◌, ◌≤◌, ◌<◌, ◌^◌, ◌≡◌, ◌⊎◌, refl, sym, ap, ◌∙◌, Bool, true, false, none, some,
  List, [], ◌∷◌, ◌++◌, map, Text, ℤ, arith, length, length-append, ltb, Bool-cases, inl, inr,
}
use capacitor.Client.{StreamClient, ClientConn}
use capacitor.Client.Streams.{Opens, entries_of}
use capacitor.Client.Delivery.{arrivals, raw_of, map-arrivals, handle_each, greet, serve-Opens}
use capacitor.Client.Sync.{replicate_over, sync}
use capacitor.Client.Sync.Laws.{Carries, Starts, IsRun-append, Ready, turn_lem}
use capacitor.Dict
use capacitor.Float.{Float64}
use capacitor.Log.Batch.{IsRun}
use capacitor.Log.{DeltaLog}
use capacitor.Node.{Platform, Node, Msgpack}
use capacitor.Node.Remote.{Batch}
use capacitor.Node.Replicate.{last_seq, has_news}
use capacitor.Node.Replicate.Rounds.{quiet_at_end}
use capacitor.Server.{Clocks, max_stream, platform, serve}
use capacitor.Server.Stream.{AllEncodable, encode_all}
use capacitor.Wire.{Msgp, IsMsgp}
use capacitor.Wire.Batch.RoundTrip.{IsEncodable}

module _ {p : Platform} (m : Msgp p.float.Carrier) (h : ℕ → List ℕ) (lo : ℕ)
    (short : (i : ℕ) → length (h i) < 2 ^ 32) where
  -- The turns end with every due entry in the batches `new`, in order, and these on the connection
  -- behind `bs`.
  abbrev pub Synced : ℕ → (ℕ → ℤ) → Node p → StreamClient → Text → List Batch → Type 0
  Synced k times n c node bs =
      (n' : Node p) × (c' : StreamClient) × (new : List Batch) × (sync m k times n c node
        ≡ some (n', c'))
      × (Starts m c' node (bs ++ new) ⊎ Carries m c' node (bs ++ new))
      × IsRun h (last_seq n node + 1) (entries_of new)
      × (last_seq n node + 1 + length (entries_of new) ≡ n.log.head)
      × AllEncodable new
      × (last_seq n' node + 1 ≡ n.log.head)
      × (c'.auth_token ≡ c.auth_token)

  sync-wait :
      (k : ℕ) (times : ℕ → ℤ) (n : Node p) (c : StreamClient) (node : Text)
      → has_news n node ≡ false
      → sync m k times n c node ≡ some (n, c)
  unfolding sync
  sync-wait zero times n c node quiet = refl
  sync-wait (suc k) times n c node quiet = ground (arith, quiet)

  Synced-wait :
      (k : ℕ) (times : ℕ → ℤ) (n : Node p) (c : StreamClient) (node : Text) (bs : List Batch)
      → Ready m h lo short n c node
      → last_seq n node + 1 ≡ n.log.head
      → Starts m c node bs ⊎ Carries m c node bs
      → Synced k times n c node bs
  unfolding entries_of
  Synced-wait k times n c node bs r done before =
      let small = r.small in
      (
        n,
        c,
        [],
        sync-wait k times n c node (quiet_at_end n node done (omega arith)),
        rw (append-nil bs) before,
        tt,
        omega arith,
        tt,
        done,
        refl,
      )

  sync-turn :
      (k : ℕ) (times : ℕ → ℤ) (n n' : Node p) (c c' : StreamClient) (node : Text)
      → has_news n node ≡ true
      → replicate_over m (times k) true true n c node ≡ some (n', c')
      → sync m (suc k) times n c node ≡ sync m k times n' c' node
  unfolding sync
  sync-turn k times n n' c c' node news turned = ground (arith, news, turned)

  Synced-turn :
      (k : ℕ) (times : ℕ → ℤ) (n n₁ : Node p) (c c₁ : StreamClient) (node : Text) (bs : List Batch)
      (b : Batch)
      → has_news n node ≡ true
      → replicate_over m (times k) true true n c node ≡ some (n₁, c₁)
      → n₁.log ≡ n.log
      → IsRun h (last_seq n node + 1) b.entries
      → last_seq n₁ node ≡ last_seq n node + length b.entries
      → IsEncodable b
      → c₁.auth_token ≡ c.auth_token
      → Synced k times n₁ c₁ node (bs ++ b ∷ [])
      → Synced (suc k) times n c node bs
  unfolding entries_of
  Synced-turn k times n n₁ c c₁ node bs b news turned same run position ok token
        (n', c', new, rest, carried, run', all, oks, done, token') =
      let head_same : n₁.log.head ≡ n.log.head = ap (λ (l : DeltaLog). l.head) same in
      (
        n',
        c',
        b ∷ new,
        sync-turn k times n n₁ c c₁ node news turned ∙ rest,
        rw (← append_assoc bs (b ∷ []) new) carried,
        IsRun-append h (last_seq n node + 1) b.entries (entries_of new) run
            (subst (λ i. IsRun h i (entries_of new)) (omega arith) run'),
        simp length-append (omega (arith, all, position, head_same)),
        (ok, oks),
        done ∙ head_same,
        token' ∙ token,
      )

  sync-Synced :
      (k : ℕ) (times : ℕ → ℤ) (n : Node p) (c : StreamClient) (node : Text) (bs : List Batch)
      → Ready m h lo short n c node
      → last_seq n node < n.log.head
      → n.log.head ≤ last_seq n node + 1 + k
      → Starts m c node bs ⊎ Carries m c node bs
      → Synced k times n c node bs
  sync-Synced zero times n c node bs r below enough before =
      Synced-wait zero times n c node bs r (omega arith) before
  sync-Synced (suc k) times n c node bs r below enough before =
      elim (Bool-cases (ltb (last_seq n node + 1) n.log.head)) [
        | inr done ↦ Synced-wait (suc k) times n c node bs r (ground (arith, done)) before
        | inl behind ↦
            let (n₁, c₁, b, turned, carried, ok, run, pos, less, position, r₁, same, token) =
              turn_lem m h lo short (times k) n c node bs r (ground (arith, behind)) before in
            Synced-turn k times n n₁ c c₁ node bs b (unfold has_news in ground (arith, behind))
              turned same run position ok token
              (sync-Synced k times n₁ c₁ node (bs ++ b ∷ []) r₁ (rw same (omega arith))
                (rw same (omega arith)) (inr carried))
      ]

module _ (fl : Float64) (m : Msgp fl.Carrier) (law : IsMsgp m) (mp : Msgpack) (h : ℕ → List ℕ)
    (lo : ℕ) (short : (i : ℕ) → length (h i) < 2 ^ 32) where
  -- Node `n`, whose log is ahead of the position of a peer and holds all that follows it, sends to the
  -- peer over a new connection with as many turns as entries are due, in which dialing and writing
  -- succeed. (Its log's head is more than 1000 below 2^64; the number that it has seen from the
  -- peer is below 2^64; its name, the token and every entry are shorter than 2^32.) The peer `b` has
  -- the client's token and reads what was written, no more than the 100 MB that it reads from one
  -- connection. Then what was written is the encoding of batches whose entries are the due ones, each
  -- once and in the order of the log, up to the last. The peer stores the position of the
  -- handshake, and then takes these entries one after another: it applies each one that decodes, with the
  -- clock readings for it, and passes over the others. The position that `n` has of the peer ends at
  -- the last entry of the log.
  pub log_delivered :
      (k : ℕ) (times : ℕ → ℤ) (clocks : Clocks) (n b : Node (platform fl m mp)) (c : StreamClient)
      (node : Text)
      → Ready m h lo short n c node
      → last_seq n node + 1 < n.log.head
      → n.log.head ≤ last_seq n node + 1 + k
      → Dict.get c.conns node ≡ none
      → b.auth_token ≡ c.auth_token
      → ((n' : Node (platform fl m mp)) (c' : StreamClient) (conn : ClientConn)
          → sync m k times n c node ≡ some (n', c')
          → Dict.get c'.conns node ≡ some conn
          → length conn.written ≤ max_stream)
      → (n' : Node (platform fl m mp)) × (c' : StreamClient) × (conn : ClientConn) × (bs : List
          Batch)
        × (sync m k times n c node ≡ some (n', c'))
        × (Dict.get c'.conns node ≡ some conn)
        × (conn.written ≡ encode_all m bs)
        × IsRun h (last_seq n node + 1) (entries_of bs)
        × (last_seq n node + 1 + length (entries_of bs) ≡ n.log.head)
        × (map raw_of (arrivals clocks 0 bs) ≡ entries_of bs)
        × (serve {mp = mp} m clocks b conn.written
            ≡ handle_each (platform fl m mp) (greet (platform fl m mp) b bs) (arrivals clocks 0 bs))
        × (last_seq n' node + 1 ≡ n.log.head)
  log_delivered k times clocks n b c node r behind enough lone token fits =
      let (n', c', bs, runs, carried, run, all, ok, done, token') =
        sync-Synced m h lo short k times n c node [] r (omega arith) enough (inl (lone, refl)) in
      elim carried [
        | inl (gone, nothing) ↦ absurd (no_batches bs nothing (omega arith))
        | inr (conn, found, same, opens) ↦ (
          n',
          c',
          conn,
          bs,
          runs,
          found,
          same,
          run,
          all,
          map-arrivals clocks 0 bs,
          rw same (
              serve-Opens fl m law mp clocks b bs
                (subst (λ t. Opens t true bs) (sym (token ∙ sym token'))
                  (opened c'.auth_token conn.handshake_done bs opens (omega arith)))
                ok
                (subst (λ (w : List ℕ). length w ≤ max_stream) same (fits n' c' conn runs found))),
          done,
        )
      ]
    where
      no_batches : (bs : List Batch) → bs ≡ [] → 0 < length (entries_of bs) → ⊥
      no_batches bs e pos =
          let none_due : 0 < length (entries_of []) = rw e at pos in
          unfold entries_of in absurd (omega arith)

      opened :
          (t : Text) (done : Bool) (bs : List Batch)
          → Opens t done bs
          → 0 < length (entries_of bs)
          → Opens t true bs
      opened t done [] e pos = absurd (no_batches [] refl pos)
      opened t done (x ∷ bs) (e, first, rest) pos = (refl, first, rest)
