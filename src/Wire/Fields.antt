-- ===== src/Wire/Fields.antt =====
-- The generated decoding loop, one field at a time.
use capacitor.Prelude.{
  ℕ, suc, ◌<◌, ◌≤◌, ◌≡◌, refl, ap, Bool, true, false, some, List, [], ◌∷◌, ◌++◌, length, Text,
  if◌then◌else◌, arith,
}
use Prim.Native.Nat.{bit_or}
use mathlib.Core.List.{append_assoc}
use native.Mathlib.Nat.{mod-eq_of_lt}
use capacitor.Wire.{Msgp, IsMsgp, Read, read_fields, read_struct, write_struct, is_empty}

-- The bytes of a key and of its value.
abbrev pub field_bytes : Text → List ℕ → List ℕ
field_bytes key value = bit_or 0xa0 (length key) ∷ key ++ value

-- `◌++◌`, grouped to the right.
infixr 60 ◌+++◌
abbrev pub ◌+++◌ : List ℕ → List ℕ → List ℕ
a +++ b = a ++ b

-- The number of fields with one more, which may be omitted.
abbrev pub counted : Bool → ℕ → ℕ
counted true n = n
counted false n = suc n

abbrev pub unless : Bool → List ℕ → List ℕ
unless omitted bytes = if omitted then [] else bytes

pub unless_within : (b : Bool) (bytes : List ℕ) → length (unless b bytes) ≤ length bytes
unless_within true bytes = omega arith
unless_within false bytes = omega arith

pub is_empty_eq : (xs : List ℕ) → is_empty xs ≡ true → [] ≡ xs
is_empty_eq [] h = refl
is_empty_eq (x ∷ xs) h = cc

module _ {F S : Type 0} (m : Msgp F) (law : IsMsgp m) (field : Text → S → List ℕ → Read S) where
  pub read_struct-header :
      (n : ℕ) (z : S) (fields : List ℕ)
      → n < 16
      → read_struct m field z (bit_or 0x80 n ∷ fields) ≡ read_fields m field n z fields
  unfolding read_struct
  read_struct-header n z fields small = rw (read_struct, law.map_header_reads n fields small) refl

  pub read_fields-done : (z : S) (bts : List ℕ) → read_fields m field 0 z bts ≡ some (z, bts)
  unfolding read_fields
  read_fields-done z bts = refl

  -- One field is read.
  pub read_fields-next :
      (key : Text) (value tail : List ℕ) (n : ℕ) (z z' : S)
      → length key < 32
      → field key z (value ++ tail) ≡ some (z', tail)
      → read_fields m field (suc n) z (field_bytes key value ++ tail)
        ≡ read_fields m field n z' tail
  unfolding read_fields
  read_fields-next key value tail n z z' short reads =
      rw
        (
          read_fields,
          append_assoc key value tail,
          law.map_key_reads key (value ++ tail) short,
          reads,
        )
        refl

  -- A field that may have been omitted.
  pub read_fields-unless :
      (omitted : Bool) (key : Text) (value tail : List ℕ) (n : ℕ) (z z' : S)
      → length key < 32
      → (omitted ≡ true → z ≡ z')
      → (omitted ≡ false → field key z (value ++ tail) ≡ some (z', tail))
      → read_fields m field (counted omitted n) z (unless omitted (field_bytes key value) ++ tail)
        ≡ read_fields m field n z' tail
  read_fields-unless true key value tail n z z' short same reads =
      ap (λ s. read_fields m field n s tail) (same refl)
  read_fields-unless false key value tail n z z' short same reads =
      read_fields-next key value tail n z z' short (reads refl)

-- A struct has between one and fifteen fields.
pub write_struct_some :
    (n : ℕ) (fields : List ℕ) → 0 < n → n < 16 → write_struct n fields ≡ bit_or 0x80 n ∷ fields
unfolding write_struct
write_struct_some n fields pos small =
    rw (mod-eq_of_lt {n = n} {m = 256} (omega arith)) (ground arith)
