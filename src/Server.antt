-- ===== src/Server.antt =====
-- transport.go: the bytes of one connection at `StreamServer`. `handleConn` decodes one batch after
-- another from at most 100 MB, until the end or the first error, and handles each.
pub mod Stream
pub mod Termination
use capacitor.Prelude.{
  ℕ, zero, suc, ◌*◌, Bool, true, Option, none, some, List, [], ◌∷◌, ℤ, length, take,
}
use capacitor.Float.{Float64}
use capacitor.Node.{Platform, Node, Msgpack}
use capacitor.Node.Remote.{Batch, handle_conn}
use capacitor.Wire.{Msgp}
use capacitor.Wire.Batch
use capacitor.Wire.Entry

-- The limit of the `io.LimitReader`.
abbrev pub max_stream : ℕ
max_stream = 100 * 1024 * 1024

-- The clock readings for each entry of each batch.
abbrev pub Clocks : Type 0
Clocks = ℕ → ℕ → ℤ × ℤ

abbrev pub with_clocks : Clocks → ℕ → List Batch → List ((ℕ → ℤ × ℤ) × Batch)
with_clocks clocks i [] = []
with_clocks clocks i (b ∷ bs) = (clocks i, b) ∷ with_clocks clocks (suc i) bs

-- Whether the loop has returned, at the end of the input or at an error, or is still to go on where the
-- turns that are allowed are used up.
pub data Loop : Type 0 where
  returned running : Loop

-- The batches that are decoded in at most `fuel` turns, and what has become of the loop. What decoding
-- finds does not depend on the node.
unfoldable pub decode_batches : {F : Type 0} → Msgp F → ℕ → List ℕ → List Batch × Loop
decode_batches m zero bts = ([], running)
decode_batches m (suc fuel) bts = elim (Batch.decode m Batch.blank_batch bts) [
  | none ↦ ([], returned)
  | some (b, rest) ↦ let (bs, loop) = decode_batches m fuel rest in (b ∷ bs, loop)
]

-- What a node is built on: msgp's encoding of entries.
abbrev pub platform : (fl : Float64) → Msgp fl.Carrier → Msgpack → Platform
platform fl m mp = record { float = fl; codec = Entry.codec fl m; msgpack = mp }

-- `handleConn` on the bytes of a connection. A batch takes at least one byte, and the last turn returns.
unfoldable pub serve :
    {fl : Float64} {mp : Msgpack} (m : Msgp fl.Carrier)
    → Clocks
    → Node (platform fl m mp)
    → List ℕ
    → Node (platform fl m mp)
unfolding decode_batches
serve {fl} {mp} m clocks n bytes =
    handle_conn (platform fl m mp) n true
      (with_clocks clocks 0 (decode_batches m (suc (length bytes)) (take max_stream bytes)).0)
