-- ===== src/Server/Stream.antt =====
-- transport.go: a connection that carries encoded batches, at `handleConn`.
use capacitor.Prelude.{
  ℕ, zero, suc, ◌≡◌, refl, ◌≤◌, ap, ◌∙◌, true, List, [], ◌∷◌, ◌++◌, length, length-append, take,
  arith,
}
use capacitor.Float.{Float64}
use capacitor.Node.{Node, Msgpack}
use capacitor.Node.Remote.{Batch, handle_conn}
use capacitor.Server.{
  Clocks, max_stream, Loop, returned, with_clocks, decode_batches, platform, serve,
}
use capacitor.Wire.{Msgp, IsMsgp, read_struct, write_struct}
use capacitor.Wire.Batch
use capacitor.Wire.Batch.RoundTrip.{IsEncodable, decode-marshal}

abbrev pub AllEncodable : List Batch → Type 0
AllEncodable [] = Unit
AllEncodable (b ∷ bs) = IsEncodable b × AllEncodable bs

-- The whole list fits.
take-all : (n : ℕ) (xs : List ℕ) → length xs ≤ n → take n xs ≡ xs
take-all zero [] h = refl
take-all zero (x ∷ xs) h = absurd (omega arith)
take-all (suc n) [] h = refl
take-all (suc n) (x ∷ xs) h = ap (λ t. x ∷ t) (take-all n xs (omega arith))

module _ {F : Type 0} (m : Msgp F) where
  -- Batches written one after another.
  unfoldable pub encode_all : List Batch → List ℕ
  encode_all [] = []
  encode_all (b ∷ bs) = Batch.marshal m b ++ encode_all bs

  module _ (law : IsMsgp m) where
    decode_batches-end : (fuel : ℕ) → decode_batches m (suc fuel) [] ≡ ([], returned)
    unfolding decode_batches Batch.decode read_struct
    decode_batches-end fuel = rw (decode_batches, law.map_header_end) refl

    -- Every batch takes at least one byte.
    enough : (bs : List Batch) → length bs ≤ length (encode_all bs)
    unfolding encode_all Batch.marshal write_struct
    enough [] = omega arith
    enough (b ∷ bs) = simp length-append (omega (arith, enough bs))

    decode_batches-encode_all :
        (fuel : ℕ) (bs : List Batch)
        → length bs ≤ fuel
        → AllEncodable bs
        → decode_batches m (suc fuel) (encode_all bs) ≡ (bs, returned)
    unfolding decode_batches encode_all
    decode_batches-encode_all fuel [] le h = decode_batches-end fuel
    decode_batches-encode_all zero (b ∷ bs) le h = absurd (omega arith)
    decode_batches-encode_all (suc fuel) (b ∷ bs) le (c, cs) =
        rw
          (
            decode_batches,
            decode-marshal m law b c (encode_all bs),
            decode_batches-encode_all fuel bs (omega arith) cs,
          )
          refl

module _ (fl : Float64) (m : Msgp fl.Carrier) (law : IsMsgp m) (mp : Msgpack) where
  -- A connection whose bytes are encoded batches, together no more than the limit of 100 MB: the
  -- decoding loop gets every one of them, in order, and returns within one more turn than there are
  -- bytes; and the connection is handled as the list of these batches.
  pub serve-encode_all :
      (clocks : Clocks) (n : Node (platform fl m mp)) (bs : List Batch)
      → AllEncodable bs
      → length (encode_all m bs) ≤ max_stream
      → (decode_batches m (suc (length (encode_all m bs))) (take max_stream (encode_all m bs))
          ≡ (bs, returned))
        × (serve {mp = mp} m clocks n (encode_all m bs)
            ≡ handle_conn (platform fl m mp) n true (with_clocks clocks 0 bs))
  unfolding serve
  serve-encode_all clocks n bs h small = (
    decoded,
    ap (λ (d : List Batch × Loop). handle_conn (platform fl m mp) n true (with_clocks clocks 0 d.0))
        decoded,
  )
    where
      decoded :
          decode_batches m (suc (length (encode_all m bs))) (take max_stream (encode_all m bs))
          ≡ (bs, returned)
      decoded =
          ap (λ bytes. decode_batches m (suc (length (encode_all m bs))) bytes)
            (take-all max_stream (encode_all m bs) small)
          ∙ decode_batches-encode_all m law (length (encode_all m bs)) bs (enough m law bs) h
