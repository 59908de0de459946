-- ===== src/Hlc/Order.antt =====
-- The order of timestamps that `After` and `GreaterOrEqual` of hlc.go decide.
use capacitor.Prelude.{
  ◌≡◌, ◌⊎◌, ◌↔◌, inl, inr, true, false, not, arith, ◌<ℤ◌, eq_of_parts, Bool-cases,
}
use capacitor.Hlc.{Timestamp, greater_or_equal, after}

-- The lexicographic order, written independently of the code's tests.
abbrev pub Before : Timestamp → Timestamp → Type 0
Before s t = (s.physical <ℤ t.physical) ⊎ (s.physical ≡ t.physical) × (s.logical <ℤ t.logical)

-- `t.After(s)` decides the strict lexicographic order.
pub after_iff : (t s : Timestamp) → (after t s ≡ true) ↔ Before s t
unfolding after
after_iff t s = (λ h. ground (arith, eq_of_parts s.physical t.physical), λ h. ground arith)

pub greater_or_equal-eq-not-after : (t s : Timestamp) → greater_or_equal t s ≡ not (after s t)
unfolding after greater_or_equal
greater_or_equal-eq-not-after t s = ground arith

pub after_irreflexive : (t : Timestamp) → after t t ≡ false
unfolding after
after_irreflexive t = ground arith

pub after_trans : (r s t : Timestamp) → after t s ≡ true → after s r ≡ true → after t r ≡ true
unfolding after
after_trans r s t p q = ground arith

pub eq_of_not_after : (s t : Timestamp) → after t s ≡ false → after s t ≡ false → s ≡ t
unfolding after
eq_of_not_after s t p q =
    ground (arith, eq_of_parts s.physical t.physical, eq_of_parts s.logical t.logical)

-- Any two timestamps are ordered one way, the other way, or equal.
pub after_total : (s t : Timestamp) → (after t s ≡ true) ⊎ (after s t ≡ true) ⊎ (s ≡ t)
after_total s t = elim (Bool-cases (after t s)) [
  | inl p ↦ inl p
  | inr p ↦ elim (Bool-cases (after s t)) [
    | inl q ↦ inr (inl q)
    | inr q ↦ inr (inr (eq_of_not_after s t p q))
  ]
]

pub not_after_of_ge : (e w : Timestamp) → greater_or_equal e w ≡ true → after w e ≡ false
unfolding after greater_or_equal
not_after_of_ge e w h = ground arith

-- What is not after `e` is not after anything later than `e`.
pub not_after_of_not_ge :
    (e w u : Timestamp) → greater_or_equal e w ≡ false → after u e ≡ false → after u w ≡ false
unfolding after greater_or_equal
not_after_of_not_ge e w u h k = ground arith
