-- ===== src/Float.antt =====
-- Go's `float64`, as far as store.go uses it: the operations as an interface, and the guarantees of
-- IEEE 754 binary64 that proofs use. Whole numbers up to 2^53 in magnitude are represented exactly,
-- and sums, differences, comparisons and conversions that stay among them are exact.
use capacitor.Prelude.{
  ℕ, ◌^◌, ◌≤◌, ◌≡◌, Bool, true, false, ℤ, pos, pos_part, neg_part, ◌+ℤ◌, ◌-ℤ◌, ltb_ℤ,
}

pub record Float64 : Type 1 where
  pub Carrier : Type 0
  -- the zero value
  pub zero_f : Carrier
  pub add : Carrier → Carrier → Carrier
  pub sub : Carrier → Carrier → Carrier
  pub div : Carrier → Carrier → Carrier
  -- a > b
  pub greater : Carrier → Carrier → Bool
  -- f == 0
  pub is_zero : Carrier → Bool
  -- float64(i) of an integer
  pub of_int : ℤ → Carrier
  -- int64(f)
  pub to_int : Carrier → ℤ
  -- float64(n) and uint64(f) of an unsigned integer
  pub of_uint : ℕ → Carrier
  pub to_uint : Carrier → ℕ
  -- math.Float64bits, math.Float64frombits
  pub bits : Carrier → ℕ
  pub from_bits : ℕ → Carrier

-- Whole numbers that `float64` represents exactly.
abbrev pub IsExact : ℤ → Type 0
IsExact z = (pos_part z ≤ 2 ^ 53) × (neg_part z ≤ 2 ^ 53)

pub record IsIeee (fl : Float64) : Type 0 where
  pub zero_exact : fl.zero_f ≡ fl.of_int (pos 0)
  pub add_exact :
      (a b : ℤ)
      → IsExact a
      → IsExact b
      → IsExact (a +ℤ b)
      → fl.add (fl.of_int a) (fl.of_int b) ≡ fl.of_int (a +ℤ b)
  pub sub_exact :
      (a b : ℤ)
      → IsExact a
      → IsExact b
      → IsExact (a -ℤ b)
      → fl.sub (fl.of_int a) (fl.of_int b) ≡ fl.of_int (a -ℤ b)
  pub greater_exact :
      (a b : ℤ) → IsExact a → IsExact b → fl.greater (fl.of_int a) (fl.of_int b) ≡ ltb_ℤ b a
  pub to_int_exact : (a : ℤ) → IsExact a → fl.to_int (fl.of_int a) ≡ a
  pub greater_irreflexive : (x : fl.Carrier) → fl.greater x x ≡ false
  pub greater_trans :
      (x y z : fl.Carrier) → fl.greater x y ≡ true → fl.greater y z ≡ true → fl.greater x z ≡ true
