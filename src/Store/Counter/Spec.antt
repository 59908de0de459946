-- ===== src/Store/Counter/Spec.antt =====
-- What a counter of store.go means: one whole number per node, of which the counter is the sum.
use capacitor.Prelude.{
  Bool-cases, inl, inr, sym, ◌≡◌, ◌≢◌, refl, arith, List, [], ◌∷◌, Text, text_eq, text_eq_iff, ℤ,
  pos, if◌then◌else◌, ◌+ℤ◌, ◌-ℤ◌, ltb_ℤ, ◌+◌, int_laws, +ℤ_parts, pos_part, neg_part,
}

abbrev pub Tally : Type 0
Tally = List (Text × ℤ)

unfoldable pub slot : Text → Tally → ℤ
slot n [] = pos 0
slot n ((m, c) ∷ t) = if text_eq m n then c else slot n t

unfoldable pub total : Tally → ℤ
total [] = pos 0
total ((m, c) ∷ t) = c +ℤ total t

-- The tally after the node's number has become `c`.
unfoldable pub write : Text → ℤ → Tally → Tally
write n c [] = (n, c) ∷ []
write n c ((m, d) ∷ t) = if text_eq m n then (m, c) ∷ t else (m, d) ∷ write n c t

-- The tally after the node reported `c`: numbers only grow.
unfoldable pub raise : Text → ℤ → Tally → Tally
raise n c t = if ltb_ℤ (slot n t) c then write n c t else t

pub slot-write :
    (n m : Text) (c : ℤ) (t : Tally) → slot m (write n c t) ≡ (if text_eq n m then c else slot m t)
unfolding slot write
slot-write n m c [] = refl
slot-write n m c ((k, d) ∷ t) =
    ground (arith, text_eq_iff k n, text_eq_iff k m, text_eq_iff n m, slot-write n m c t)

-- A write changes the total by as much as the node's number.
total-write_parts :
    (n : Text) (c : ℤ) (t : Tally)
    → pos_part (total (write n c t)) + neg_part (total t) + pos_part (slot n t) + neg_part c
      ≡ neg_part (total (write n c t)) + pos_part (total t) + neg_part (slot n t) + pos_part c
unfolding slot write total
total-write_parts n c [] = ground (arith, +ℤ_parts c (pos 0))
total-write_parts n c ((k, d) ∷ t) = ground (
  arith,
  total-write_parts n c t,
  +ℤ_parts c (total t),
  +ℤ_parts d (total t),
  +ℤ_parts d (total (write n c t)),
)

pub total-write : (n : Text) (c : ℤ) (t : Tally) → total (write n c t) ≡ total t +ℤ (c -ℤ slot n t)
total-write n c t = omega (int_laws, total-write_parts n c t)

abbrev pub Lacks : Text → Tally → Type 0
Lacks n [] = Unit
Lacks n ((m, c) ∷ t) = (m ≢ n) × Lacks n t

-- Each node has one number.
abbrev pub IsUnique : Tally → Type 0
IsUnique [] = Unit
IsUnique ((m, c) ∷ t) = Lacks m t × IsUnique t

slot-Lacks : (n : Text) (t : Tally) → Lacks n t → slot n t ≡ pos 0
unfolding slot
slot-Lacks n [] h = refl
slot-Lacks n ((m, c) ∷ t) h = ground (arith, text_eq_iff m n, slot-Lacks n t h.1)

write-Lacks : (n m : Text) (c : ℤ) (t : Tally) → n ≢ m → Lacks m t → Lacks m (write n c t)
unfolding write
write-Lacks n m c [] ne h = (ne, tt)
write-Lacks n m c ((k, d) ∷ t) ne h = elim (Bool-cases (text_eq k n)) [
  | inl e ↦ rw e h
  | inr e ↦ rw e (h.0, write-Lacks n m c t ne h.1)
]

pub write-IsUnique : (n : Text) (c : ℤ) (t : Tally) → IsUnique t → IsUnique (write n c t)
unfolding write
write-IsUnique n c [] u = (tt, tt)
write-IsUnique n c ((k, d) ∷ t) u = elim (Bool-cases (text_eq k n)) [
  | inl e ↦ rw e u
  | inr e ↦
      rw e
        (write-Lacks n k c t (λ p. ground (arith, text_eq_iff k n)) u.0, write-IsUnique n c t u.1)
]

pub raise-IsUnique : (n : Text) (c : ℤ) (t : Tally) → IsUnique t → IsUnique (raise n c t)
unfolding raise
raise-IsUnique n c t u = elim (Bool-cases (ltb_ℤ (slot n t) c)) [
  | inl e ↦ rw e (write-IsUnique n c t u)
  | inr e ↦ rw e u
]

total_of_zero_slots : (t : Tally) → IsUnique t → ((n : Text) → slot n t ≡ pos 0) → total t ≡ pos 0
unfolding total
total_of_zero_slots [] u z = refl
total_of_zero_slots ((m, c) ∷ t) u z =
    rw (total_of_zero_slots t u.1 rest, head) (unfold ◌+ℤ◌ in refl)
  where
    head : c ≡ pos 0
    head = unfold slot in ground (arith, text_eq_iff m m, z m)

    rest : (n : Text) → slot n t ≡ pos 0
    rest n = unfold slot in ground (arith, z n, text_eq_iff m n, slot-Lacks m t u.0)

-- The total depends on the nodes' numbers alone.
pub total_of_slots :
    (t t' : Tally)
    → IsUnique t
    → IsUnique t'
    → ((n : Text) → slot n t ≡ slot n t')
    → total t ≡ total t'
unfolding total slot
total_of_slots [] t' u u' same = sym (total_of_zero_slots t' u' (λ n. sym (same n)))
total_of_slots ((m, c) ∷ t) t' u u' same =
    rw
      (
        total_of_slots t (write m (pos 0) t') u.1 (write-IsUnique m (pos 0) t' u') rest,
        total-write m (pos 0) t',
        ← head,
      )
      (omega int_laws)
  where
    head : c ≡ slot m t'
    head = ground (arith, text_eq_iff m m, same m)

    rest : (n : Text) → slot n t ≡ slot n (write m (pos 0) t')
    rest n = ground (arith, slot-write m n (pos 0) t', text_eq_iff m n, slot-Lacks m t u.0, same n)
