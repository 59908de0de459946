-- ===== src/Server/Termination.antt =====
-- transport.go and transport_gen.go: the decoding loop of `handleConn` on any bytes.
use capacitor.Prelude.{
  ℕ, zero, suc, ◌≡◌, refl, ap, ◌≤◌, ◌<◌, Option, none, some, List, [], ◌∷◌, length, Text, Bool,
  true, false, arith, if◌then◌else◌,
}
use capacitor.Node.Remote.{Batch, Handshake}
use capacitor.Server.{Loop, returned, decode_batches}
use capacitor.Wire.{Msgp, Read, put, skipped, read_fields, read_struct}
use capacitor.Wire.Batch
use capacitor.Wire.Handshake

-- If something was read, at most `k` bytes are left.
unfoldable pub Leaves : {X : Type 0} → ℕ → Read X → Type 0
Leaves k none = Unit
Leaves k (some (x, rest)) = length rest ≤ k

abbrev pub LeavesLess : {X : Type 0} → ℕ → Read X → Type 0
LeavesLess k none = Unit
LeavesLess k (some (x, rest)) = length rest < k

abbrev pub Drops : ℕ → Option (List ℕ) → Type 0
Drops k none = Unit
Drops k (some rest) = length rest ≤ k

-- What msgp documents: a read returns the bytes behind what it has read, which for a map header is
-- at least one byte.
pub record IsReader {F : Type 0} (m : Msgp F) : Type 0 where
  pub map_header_leaves : (bts : List ℕ) → LeavesLess (length bts) (m.read_map_header bts)
  pub map_key_leaves : (bts : List ℕ) → Leaves (length bts) (m.read_map_key bts)
  pub uint64_leaves : (bts : List ℕ) → Leaves (length bts) (m.read_uint64 bts)
  pub string_leaves : (bts : List ℕ) → Leaves (length bts) (m.read_string bts)
  pub bytes_leaves : (bts : List ℕ) → Leaves (length bts) (m.read_bytes bts)
  pub array_header_leaves : (bts : List ℕ) → Leaves (length bts) (m.read_array_header bts)
  pub nil_drops : (bts : List ℕ) → Drops (length bts) (m.read_nil bts)
  pub skip_drops : (bts : List ℕ) → Drops (length bts) (m.skip bts)

module _ {X : Type 0} where
  Leaves-mono : {k l : ℕ} → k ≤ l → (o : Read X) → Leaves k o → Leaves l o
  unfolding Leaves
  Leaves-mono h none p = tt
  Leaves-mono h (some (x, rest)) p = omega arith

  Leaves-put : {S : Type 0} (k : ℕ) (f : X → S) (o : Read X) → Leaves k o → Leaves k (put o f)
  unfolding Leaves
  Leaves-put k f none p = tt
  Leaves-put k f (some (x, rest)) p = p

  Leaves-skipped : (k : ℕ) (z : X) (o : Option (List ℕ)) → Drops k o → Leaves k (skipped o z)
  unfolding Leaves
  Leaves-skipped k z none p = tt
  Leaves-skipped k z (some rest) p = p

  Leaves-if :
      (k : ℕ) (c : Bool) (o o' : Read X) → Leaves k o → Leaves k o' → Leaves k (if c then o else o')
  Leaves-if k true o o' p q = p
  Leaves-if k false o o' p q = q

  -- One read after another.
  Leaves-then :
      {S : Type 0} (k : ℕ) (o : Read X) (f : X → List ℕ → Read S)
      → Leaves k o
      → ((x : X) (rest : List ℕ) → length rest ≤ k → Leaves k (f x rest))
      → Leaves k (elim o [ none ↦ none | some (x, rest) ↦ f x rest ])
  unfolding Leaves
  Leaves-then k none f p q = tt
  Leaves-then k (some (x, rest)) f p q = q x rest p

module _ {F S : Type 0} (m : Msgp F) (r : IsReader m) (field : Text → S → List ℕ → Read S)
    (leaves : (key : Text) (z : S) (bts : List ℕ) → Leaves (length bts) (field key z bts)) where
  Leaves-read_fields :
      (n : ℕ) (z : S) (bts : List ℕ) → Leaves (length bts) (read_fields m field n z bts)
  unfolding read_fields Leaves
  Leaves-read_fields zero z bts = omega arith
  Leaves-read_fields (suc n) z bts =
      Leaves-then (length bts) (m.read_map_key bts) _ (r.map_key_leaves bts) (λ key at_value small.
        Leaves-mono small _ (
          Leaves-then (length at_value) (field key z at_value) _ (leaves key z at_value)
            (λ z' behind less.
              Leaves-mono less (read_fields m field n z' behind) (Leaves-read_fields n z' behind))))

  -- A struct takes at least one byte.
  LeavesLess-read_struct :
      (z : S) (bts : List ℕ) → LeavesLess (length bts) (read_struct m field z bts)
  unfolding read_struct Leaves
  LeavesLess-read_struct z bts = go (m.read_map_header bts) (r.map_header_leaves bts)
    where
      go :
          (o : Read ℕ)
          → LeavesLess (length bts) o
          → LeavesLess
              (length bts)
              (elim o [ none ↦ none | some (n, fields) ↦ read_fields m field n z fields ])
      go none p = tt
      go (some (n, fields)) p =
          less (read_fields m field n z fields) (Leaves-read_fields n z fields)
        where
          less : (o : Read S) → Leaves (length fields) o → LeavesLess (length bts) o
          less none q = tt
          less (some (z', rest)) q = omega arith

weaken : {X : Type 0} (k : ℕ) (o : Read X) → LeavesLess k o → Leaves k o
unfolding Leaves
weaken k none p = tt
weaken k (some (x, rest)) p = omega arith

module _ {F : Type 0} (m : Msgp F) (r : IsReader m) where
  Leaves-handshake :
      (z : Handshake) (bts : List ℕ) → Leaves (length bts) (Handshake.unmarshal m z bts)
  unfolding Handshake.unmarshal Handshake.read_field
  Leaves-handshake z bts = weaken (length bts) _ (
      LeavesLess-read_struct m r (Handshake.read_field m)
        (λ key z bts. Leaves-if (length bts) _ _ _ (Leaves-put _ _ _ (r.uint64_leaves bts)) (
          Leaves-if (length bts) _ _ _ (Leaves-put _ _ _ (r.string_leaves bts))
            (Leaves-skipped _ _ _ (r.skip_drops bts))))
        z bts)

  Leaves-entries : (n : ℕ) (bts : List ℕ) → Leaves (length bts) (Batch.read_entries m n bts)
  unfolding Batch.read_entries Leaves
  Leaves-entries zero bts = omega arith
  Leaves-entries (suc n) bts =
      Leaves-then (length bts) (m.read_bytes bts) _ (r.bytes_leaves bts)
        (λ e behind less. Leaves-mono less _ (Leaves-put _ _ _ (Leaves-entries n behind)))

  Leaves-array : (bts : List ℕ) → Leaves (length bts) (Batch.read_array m bts)
  unfolding Batch.read_array
  Leaves-array bts =
      Leaves-then (length bts) (m.read_array_header bts) _ (r.array_header_leaves bts)
        (λ n elements less. Leaves-mono less _ (Leaves-entries n elements))

  Leaves-read_handshake :
      (z : Batch) (bts : List ℕ) → Leaves (length bts) (Batch.read_handshake m z bts)
  unfolding Batch.read_handshake Leaves
  Leaves-read_handshake z bts =
      Leaves-if (length bts) _ _ _ (nothing (m.read_nil bts) (r.nil_drops bts))
        (Leaves-put _ _ _ (Leaves-handshake _ bts))
    where
      nothing :
          (o : Option (List ℕ))
          → Drops (length bts) o
          → Leaves
              (length bts)
              (elim o [ none ↦ none | some behind ↦ some (record z { handshake = none }, behind) ])
      nothing none p = tt
      nothing (some behind) p = p

  LeavesLess-decode : (z : Batch) (bts : List ℕ) → LeavesLess (length bts) (Batch.decode m z bts)
  unfolding Batch.decode Batch.read_field
  LeavesLess-decode z bts =
      LeavesLess-read_struct m r (Batch.read_field m)
        (λ key z bts. Leaves-if (length bts) _ _ _ (Leaves-put _ _ _ (r.string_leaves bts)) (
          Leaves-if (length bts) _ _ _ (Leaves-put _ _ _ (Leaves-array bts)) (
            Leaves-if (length bts) _ _ _ (Leaves-read_handshake z bts)
              (Leaves-skipped _ _ _ (r.skip_drops bts)))))
        z bts

  -- One turn more: the loop has returned if it has on fewer bytes.
  turn :
      (k : ℕ) (next : List ℕ → List Batch × Loop) (o : Read Batch)
      → LeavesLess k o
      → ((rest : List ℕ) → length rest < k → (next rest).1 ≡ returned)
      → (elim o as (λ x. List Batch × Loop) [
        | none ↦ ([], returned)
        | some (b, rest) ↦ let (bs, loop) = next rest in (b ∷ bs, loop)
      ]).1
        ≡ returned
  turn k next none less ends = refl
  turn k next (some (b, rest)) less ends = ends rest less

  -- The loops agree if they agree on fewer bytes.
  continues :
      (k : ℕ) (next next' : List ℕ → List Batch × Loop) (o : Read Batch)
      → LeavesLess k o
      → ((rest : List ℕ) → length rest < k → next rest ≡ next' rest)
      → elim o as (λ x. List Batch × Loop) [
        | none ↦ ([], returned)
        | some (b, rest) ↦ let (bs, loop) = next rest in (b ∷ bs, loop)
      ]
        ≡ elim o as (λ x. List Batch × Loop) [
          | none ↦ ([], returned)
          | some (b, rest) ↦ let (bs, loop) = next' rest in (b ∷ bs, loop)
        ]
  continues k next next' none less same = refl
  continues k next next' (some (b, rest)) less same =
      ap (λ (d : List Batch × Loop). (b ∷ d.0, d.1)) (same rest less)

  returns : (fuel : ℕ) (bts : List ℕ) → length bts < fuel → (decode_batches m fuel bts).1 ≡ returned
  unfolding decode_batches
  returns zero bts p = absurd (omega arith)
  returns (suc f) bts p =
      turn (length bts) (decode_batches m f) (Batch.decode m Batch.blank_batch bts)
        (LeavesLess-decode Batch.blank_batch bts) (λ rest less. returns f rest (omega arith))

  agrees :
      (f g : ℕ) (bts : List ℕ)
      → length bts < f
      → length bts < g
      → decode_batches m f bts ≡ decode_batches m g bts
  unfolding decode_batches
  agrees zero g bts p q = absurd (omega arith)
  agrees (suc f) zero bts p q = absurd (omega arith)
  agrees (suc f) (suc g) bts p q =
      continues (length bts) (decode_batches m f) (decode_batches m g)
        (Batch.decode m Batch.blank_batch bts) (LeavesLess-decode Batch.blank_batch bts)
        (λ rest less. agrees f g rest (omega arith) (omega arith))

  -- On any bytes, where a read leaves no more bytes than it was given, and that of a map header fewer: the
  -- loop returns, at the end of the input or at an error, within one more turn than there are
  -- bytes; with more turns allowed it decodes the same batches.
  pub decode_batches_ends :
      (fuel : ℕ) (bts : List ℕ)
      → length bts < fuel
      → ((decode_batches m fuel bts).1 ≡ returned)
        × (decode_batches m fuel bts ≡ decode_batches m (suc (length bts)) bts)
  decode_batches_ends fuel bts enough =
      (returns fuel bts enough, agrees fuel (suc (length bts)) bts enough (omega arith))
