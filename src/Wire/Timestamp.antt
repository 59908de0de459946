-- ===== src/Wire/Timestamp.antt =====
-- The encoding of a timestamp in hlc_gen.go.
use capacitor.Prelude.{
  ◌≤◌, ◌+◌, ℕ, refl, ◌∙◌, List, ◌∷◌, ◌++◌, length, length-append, Text, text_eq, codes,
  if◌then◌else◌, InInt64, InInt32, arith,
}
use mathlib.Core.List.{append_assoc}
use capacitor.Hlc.{Timestamp}
use capacitor.Wire.{Msgp, IsMsgp, Read, Reads, put, skipped, read_struct}
use capacitor.Wire.Fields.{read_struct-header, read_fields-next, read_fields-done}

module _ {F : Type 0} (m : Msgp F) where
  -- `MarshalMsg`
  unfoldable pub marshal : Timestamp → List ℕ
  marshal t =
      0x82 ∷ 0xa1 ∷ 0x70 ∷ m.append_int64 t.physical ++ 0xa1 ∷ 0x6c ∷ m.append_int32 t.logical

  -- The switch on the key in `UnmarshalMsg`.
  unfoldable pub read_field : Text → Timestamp → List ℕ → Read Timestamp
  read_field key z bts =
      if text_eq key (codes "p")
      then put (m.read_int64 bts) (λ x. record z { physical = x })
      else if text_eq key (codes "l")
      then put (m.read_int32 bts) (λ x. record z { logical = x })
      else skipped (m.skip bts) z

  -- `UnmarshalMsg` into a timestamp.
  unfoldable pub unmarshal : Timestamp → List ℕ → Read Timestamp
  unmarshal z bts = read_struct m read_field z bts

  -- `Msgsize`
  unfoldable pub msgsize : ℕ
  msgsize = 1 + 2 + m.int64_size + 2 + m.int32_size

  -- The parts are in the range of their types.
  abbrev pub IsRanged : Timestamp → Type 0
  IsRanged t = InInt64 t.physical × InInt32 t.logical

  module _ (law : IsMsgp m) (t : Timestamp) where
    -- A timestamp is read back, whatever follows it and whatever stood in its place.
    pub unmarshal-marshal : (z : Timestamp) → IsRanged t → Reads (unmarshal z) (marshal t) t
    unfolding unmarshal marshal read_field text_eq
    unmarshal-marshal z (in64, in32) rest =
        rw (append_assoc (m.append_int64 t.physical) (0xa1 ∷ 0x6c ∷ m.append_int32 t.logical) rest)
          (read_struct-header m law read_field 2 z _ (omega arith)
            ∙ read_fields-next m law read_field (codes "p") (m.append_int64 t.physical) _ 1 z
                (record z { physical = t.physical }) (omega arith)
                (rw (law.int64_reads t.physical in64 _) refl)
            ∙ read_fields-next m law read_field (codes "l") (m.append_int32 t.logical) rest 0 _ t
                (omega arith) (rw (law.int32_reads t.logical in32 _) refl)
            ∙ read_fields-done m law read_field t rest)

    pub length-marshal : length (marshal t) ≤ msgsize
    unfolding marshal msgsize
    length-marshal = omega (
      arith,
      length-append (m.append_int64 t.physical) (0xa1 ∷ 0x6c ∷ m.append_int32 t.logical),
      law.int64_within t.physical,
      law.int32_within t.logical,
    )
