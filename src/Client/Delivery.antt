-- ===== src/Client/Delivery.antt =====
-- transport.go: what `StreamClient` writes to a connection, at the `handleConn` of the other end.
use capacitor.Prelude.{
  ℕ, suc, ◌≡◌, refl, ap, ◌∙◌, ◌≤◌, true, false, none, some, List, [], ◌∷◌, ◌++◌, map, ℤ,
  text_eq_iff, arith, length,
}
use capacitor.Client.Streams.{Opens, AllPlain, entries_of}
use capacitor.Dict
use capacitor.Float.{Float64}
use capacitor.Node.{Platform, Node, Msgpack}
use capacitor.Node.Remote.{Batch, Handshake, admit, apply_entries, apply_remote_entry, handle_conn}
use capacitor.Server.{Clocks, max_stream, with_clocks, platform, serve}
use capacitor.Server.Stream.{encode_all, AllEncodable, serve-encode_all}
use capacitor.Wire.{Msgp, IsMsgp}

-- An entry as it arrives, with the two clock readings for it.
abbrev pub Arrival : Type 0
Arrival = (ℤ × ℤ) × List ℕ

-- The entries of one batch, from the `j`th reading on, and those of the batches of a connection.
pub arrivals_of : (ℕ → ℤ × ℤ) → ℕ → List (List ℕ) → List Arrival
arrivals_of clock j [] = []
arrivals_of clock j (raw ∷ raws) = (clock j, raw) ∷ arrivals_of clock (suc j) raws

pub arrivals : Clocks → ℕ → List Batch → List Arrival
arrivals clocks i [] = []
arrivals clocks i (b ∷ bs) = arrivals_of (clocks i) 0 b.entries ++ arrivals clocks (suc i) bs

pub raw_of : Arrival → List ℕ
raw_of (readings, raw) = raw

map-arrivals_of :
    (clock : ℕ → ℤ × ℤ) (j : ℕ) (raws : List (List ℕ)) (rest : List Arrival)
    → map raw_of (arrivals_of clock j raws ++ rest) ≡ raws ++ map raw_of rest
unfolding arrivals_of raw_of
map-arrivals_of clock j [] rest = refl
map-arrivals_of clock j (raw ∷ raws) rest =
    ap (λ l. raw ∷ l) (map-arrivals_of clock (suc j) raws rest)

-- Every entry of every batch arrives, once and in order.
pub map-arrivals :
    (clocks : Clocks) (i : ℕ) (bs : List Batch) → map raw_of (arrivals clocks i bs) ≡ entries_of bs
unfolding arrivals entries_of
map-arrivals clocks i [] = refl
map-arrivals clocks i (b ∷ bs) =
    map-arrivals_of (clocks i) 0 b.entries (arrivals clocks (suc i) bs)
    ∙ ap (λ l. b.entries ++ l) (map-arrivals clocks (suc i) bs)

module _ (p : Platform) where
  -- An entry that decodes is applied; another is passed over.
  pub handle_one : Node p → Arrival → Node p
  handle_one n ((seen, wall), raw) = elim (p.codec.unmarshal raw) [
    | none ↦ n
    | some e ↦ apply_remote_entry p seen wall n e
  ]

  -- One arrival after another.
  pub handle_each : Node p → List Arrival → Node p
  handle_each n [] = n
  handle_each n (a ∷ rest) = handle_each (handle_one n a) rest

  -- The node after the handshake of a first batch.
  pub greet : Node p → List Batch → Node p
  greet n [] = n
  greet n (b ∷ bs) = elim b.handshake [
    | none ↦ n
    | some h ↦ record n { peer_seqs = Dict.put n.peer_seqs b.from_node h.last_seen_seq }
  ]

  handle_each-apply_entries :
      (clock : ℕ → ℤ × ℤ) (j : ℕ) (n : Node p) (raws : List (List ℕ)) (rest : List Arrival)
      → handle_each (apply_entries p clock j n raws) rest
        ≡ handle_each n (arrivals_of clock j raws ++ rest)
  unfolding handle_each handle_one apply_entries arrivals_of
  handle_each-apply_entries clock j n [] rest = refl
  handle_each-apply_entries clock j n (raw ∷ raws) rest =
      handle_each-apply_entries clock (suc j) (handle_one n (clock j, raw)) raws rest

  module _ (clocks : Clocks) where
    handle_conn-AllPlain :
        (i : ℕ) (n : Node p) (bs : List Batch)
        → AllPlain bs
        → handle_conn p n false (with_clocks clocks i bs) ≡ handle_each n (arrivals clocks i bs)
    unfolding handle_conn handle_each arrivals admit
    handle_conn-AllPlain i n [] h = refl
    handle_conn-AllPlain i n (b ∷ bs) (plain, rest) =
        rw plain (handle_conn-AllPlain (suc i) (apply_entries p (clocks i) 0 n b.entries) bs rest)
        ∙ handle_each-apply_entries (clocks i) 0 n b.entries (arrivals clocks (suc i) bs)

    admit-token :
        (n : Node p) (b : Batch) (h : Handshake)
        → b.handshake ≡ some h
        → h.auth_token ≡ n.auth_token
        → (bs : List Batch) → admit p n true b ≡ some (greet n (b ∷ bs))
    unfolding admit greet
    admit-token n b h e token bs = ground (arith, e, token, text_eq_iff h.auth_token n.auth_token)

    -- A connection that opens with the node's token and has no other handshake is admitted to its end:
    -- every entry of every batch is handled, in order.
    pub handle_conn-Opens :
        (n : Node p) (bs : List Batch)
        → Opens n.auth_token true bs
        → handle_conn p n true (with_clocks clocks 0 bs)
          ≡ handle_each (greet n bs) (arrivals clocks 0 bs)
    handle_conn-Opens n [] e = unfold handle_conn handle_each arrivals greet in refl
    handle_conn-Opens n (b ∷ bs) (done, (h, e, token), rest) =
        admitted
        ∙ handle_conn-AllPlain 1 (apply_entries p (clocks 0) 0 (greet n (b ∷ bs)) b.entries) bs rest
        ∙ handle_each-apply_entries (clocks 0) 0 (greet n (b ∷ bs)) b.entries (arrivals clocks 1 bs)
        ∙ (unfold arrivals in refl)
      where
        admitted :
            handle_conn p n true (with_clocks clocks 0 (b ∷ bs))
            ≡ handle_conn p
                (apply_entries p (clocks 0) 0 (greet n (b ∷ bs)) b.entries)
                false
                (with_clocks clocks 1 bs)
        admitted = unfold handle_conn in ground (arith, admit-token n b h e token bs)

-- What the client writes to one connection, read by a server with the client's token: the node handles
-- every entry of every batch in order, after it has stored the position in the first batch's
-- handshake.
module _ (fl : Float64) (m : Msgp fl.Carrier) (law : IsMsgp m) (mp : Msgpack) where
  pub serve-Opens :
      (clocks : Clocks) (n : Node (platform fl m mp)) (bs : List Batch)
      → Opens n.auth_token true bs
      → AllEncodable bs
      → length (encode_all m bs) ≤ max_stream
      → serve {mp = mp} m clocks n (encode_all m bs)
        ≡ handle_each (platform fl m mp) (greet (platform fl m mp) n bs) (arrivals clocks 0 bs)
  serve-Opens clocks n bs opens ok small =
      (serve-encode_all fl m law mp clocks n bs ok small).1
      ∙ handle_conn-Opens (platform fl m mp) clocks n bs opens
