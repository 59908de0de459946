-- ===== src/Store/Counter/Reports.antt =====
-- Reports of the nodes' numbers of a counter of store.go, on a tally.
use capacitor.Prelude.{
  In, SameElements, ◌≡◌, refl, Bool, true, false, ◌&&◌, arith, List, [], ◌∷◌, Text, text_eq,
  text_eq_iff, ℤ, pos, if◌then◌else◌, ◌≤ℤ◌, ◌<ℤ◌, ltb_ℤ, int_laws, Bool-cases, inl, inr, ap₂, ◌⊎◌,
  ap, ◌∙◌, sym,
}
use mathlib.Core.Path.{subst}
use capacitor.Store.Counter.Spec.{Tally, slot, raise, slot-write, IsUnique, raise-IsUnique}
use capacitor.Store.Counter.Refine.{IsExactStep}

-- What a node reports of its own number.
abbrev pub Report : Type 0
Report = Text × ℤ

-- The tally after the reports, of which the first in the list came last.
unfoldable pub raise_all : Tally → List Report → Tally
raise_all t [] = t
raise_all t ((n, c) ∷ rs) = raise n c (raise_all t rs)

-- A node's number is the highest that it reported, or 0.
abbrev Highest : Text → List Report → ℤ → Type 0
Highest n rs z = ((z ≡ pos 0) ⊎ In (n, z) rs) × (pos 0 ≤ℤ z) × ((c : ℤ) → In (n, c) rs → c ≤ℤ z)

slot-raise :
    (m n : Text) (c : ℤ) (t : Tally)
    → slot n (raise m c t) ≡ (if text_eq m n && ltb_ℤ (slot n t) c then c else slot n t)
unfolding raise
slot-raise m n c t =
    ground (arith, slot-write m n c t, text_eq_iff m n, ap (λ k. slot k t) {x = m} {y = n})

report_key : {m n : Text} {c d : ℤ} → ◌≡◌ {A = Report} (m, c) (n, d) → m ≡ n
report_key e = ap (λ (r : Report). r.0) e

report_number : {m n : Text} {c d : ℤ} → ◌≡◌ {A = Report} (m, c) (n, d) → c ≡ d
report_number e = ap (λ (r : Report). r.1) e

le_of_eq : {a b : ℤ} → a ≡ b → a ≤ℤ b
le_of_eq {a} e = subst (λ z. a ≤ℤ z) e (omega arith)

le_of_not_lt : (a b : ℤ) → ltb_ℤ a b ≡ false → b ≤ℤ a
le_of_not_lt a b h = ground arith

lt_of_test : (a b : ℤ) → ltb_ℤ a b ≡ true → a <ℤ b
lt_of_test a b h = ground arith

module _ (n : Text) where
  -- A report that does not raise the number.
  Highest-skip :
      (m : Text) (c : ℤ) (rs : List Report) (z : ℤ)
      → (m ≡ n → c ≤ℤ z)
      → Highest n rs z
      → Highest n ((m, c) ∷ rs) z
  Highest-skip m c rs z small (known, nonneg, most) = (
    elim known [ inl e ↦ inl e | inr i ↦ inr (inr i) ],
    nonneg,
    λ d i. elim i [
      | inl e ↦ subst (λ x. x ≤ℤ z) (report_number e) (small (report_key e))
      | inr j ↦ most d j
    ],
  )

  Highest-raise :
      (c : ℤ) (rs : List Report) (z : ℤ) → z <ℤ c → Highest n rs z → Highest n ((n, c) ∷ rs) c
  Highest-raise c rs z more (known, nonneg, most) = (
    inr (inl refl),
    omega arith,
    λ d i. elim i [
      | inl e ↦ le_of_eq (sym (report_number e))
      | inr j ↦ let k = most d j in omega arith
    ],
  )

  raise_all-Highest : (rs : List Report) → Highest n rs (slot n (raise_all [] rs))
  unfolding raise_all
  raise_all-Highest [] = unfold slot in (inl refl, omega arith, λ c i. absurd i)
  raise_all-Highest ((m, c) ∷ rs) = elim (Bool-cases (text_eq m n)) [
    | inl same ↦ elim (Bool-cases (ltb_ℤ z c)) [
      | inl lt ↦ becomes true true same lt (
          subst (λ k. Highest n ((k, c) ∷ rs) c) (sym ((text_eq_iff m n).0 same))
            (Highest-raise c rs z (lt_of_test z c lt) (raise_all-Highest rs)))
      | inr ge ↦
          becomes true false same ge
            (Highest-skip m c rs z (λ e. le_of_not_lt z c ge) (raise_all-Highest rs))
    ]
    | inr other ↦
        becomes false (ltb_ℤ z c) other refl
          (Highest-skip m c rs z (λ e. absurd (differ e other)) (raise_all-Highest rs))
  ]
    where
      z : ℤ
      z = slot n (raise_all [] rs)

      differ : m ≡ n → text_eq m n ≡ false → ⊥
      differ e h = cc (h, (text_eq_iff m n).1 e)

      becomes :
          (b b' : Bool)
          → text_eq m n ≡ b
          → ltb_ℤ z c ≡ b'
          → Highest n ((m, c) ∷ rs) (if b && b' then c else z)
          → Highest n ((m, c) ∷ rs) (slot n (raise m c (raise_all [] rs)))
      becomes b b' e e' h =
          subst (Highest n ((m, c) ∷ rs))
            (sym (slot-raise m n c (raise_all [] rs) ∙ ap₂ (λ p q. if p && q then c else z) e e')) h

  Highest-le :
      (rs rs' : List Report) (z z' : ℤ)
      → ((r : Report) → In r rs → In r rs')
      → Highest n rs z
      → Highest n rs' z'
      → z ≤ℤ z'
  Highest-le rs rs' z z' sub (known, nonneg, most) (known', nonneg', most') = elim known [
    | inl e ↦ subst (λ x. x ≤ℤ z') (sym e) nonneg'
    | inr i ↦ most' z (sub (n, z) i)
  ]

le_antisymm : (a b : ℤ) → a ≤ℤ b → b ≤ℤ a → a ≡ b
le_antisymm a b h k = omega int_laws

-- The same reports, in any order and any number of times, make the same number for every node.
pub slot-raise_all :
    (rs rs' : List Report) (n : Text)
    → SameElements rs rs'
    → slot n (raise_all [] rs) ≡ slot n (raise_all [] rs')
slot-raise_all rs rs' n same =
    let a = raise_all-Highest n rs in
    let b = raise_all-Highest n rs' in
    le_antisymm (slot n (raise_all [] rs)) (slot n (raise_all [] rs'))
      (Highest-le n rs rs' (slot n (raise_all [] rs)) (slot n (raise_all [] rs')) same.0 a b)
      (Highest-le n rs' rs (slot n (raise_all [] rs')) (slot n (raise_all [] rs)) same.1 b a)

pub raise_all-IsUnique : (rs : List Report) → IsUnique (raise_all [] rs)
unfolding raise_all
raise_all-IsUnique [] = tt
raise_all-IsUnique ((n, c) ∷ rs) = raise-IsUnique n c (raise_all [] rs) (raise_all-IsUnique rs)

-- Every number that the reports lead to is exact in `float64`.
abbrev pub AllExact : List Report → Type 0
AllExact [] = Unit
AllExact ((n, c) ∷ rs) = IsExactStep (raise_all [] rs) n c × AllExact rs
