-- ===== src/Dict/Assoc.antt =====
-- Association lists under byte-string keys, the representation of `Dict`.
use capacitor.Prelude.{
  ◌≡◌, refl, Bool, true, false, Option, none, some, List, [], ◌∷◌, arith, Text, text_eq,
  text_eq_iff, ap, ◌&&◌, ◌||◌, if◌then◌else◌,
}

abbrev pub Assoc {ℓ} : Type ℓ → Type ℓ
Assoc V = List (Text × V)

module _ {ℓ} {V : Type ℓ} where
  unfoldable pub find : Text → Assoc V → Option V
  find k [] = none
  find k ((j, v) ∷ l) = if text_eq j k then some v else find k l

  -- Replaces the value of a key that is there; a new key goes to the end.
  unfoldable pub store : Text → V → Assoc V → Assoc V
  store k v [] = (k, v) ∷ []
  store k v ((j, w) ∷ l) = if text_eq j k then (j, v) ∷ l else (j, w) ∷ store k v l

  unfoldable pub without : Text → Assoc V → Assoc V
  without k [] = []
  without k ((j, v) ∷ l) = let rest = without k l in if text_eq j k then rest else (j, v) ∷ rest

  unfoldable pub keep_entries : (Text → V → Bool) → Assoc V → Assoc V
  keep_entries p [] = []
  keep_entries p ((j, v) ∷ l) = let rest = keep_entries p l in if p j v then (j, v) ∷ rest else rest

  pub find-store :
      (k j : Text) (v : V) (l : Assoc V)
      → find j (store k v l) ≡ (if text_eq k j then some v else find j l)
  unfolding find store
  find-store k j v [] = refl
  find-store k j v ((i, w) ∷ l) =
      ground (arith, text_eq_iff i k, text_eq_iff i j, text_eq_iff k j, find-store k j v l)

  pub find-without :
      (k j : Text) (l : Assoc V) → find j (without k l) ≡ (if text_eq k j then none else find j l)
  unfolding find without
  find-without k j [] = ground arith
  find-without k j ((i, w) ∷ l) =
      ground (arith, text_eq_iff i k, text_eq_iff i j, text_eq_iff k j, find-without k j l)

  unfoldable pub has : Text → Assoc V → Bool
  has k [] = false
  has k ((j, v) ∷ l) = if text_eq j k then true else has k l

  abbrev pub IsUnique : Assoc V → Type 0
  IsUnique [] = Unit
  IsUnique ((k, v) ∷ l) = (has k l ≡ false) × IsUnique l

  find-not-has : (k : Text) (l : Assoc V) → has k l ≡ false → find k l ≡ none
  unfolding find has
  find-not-has k [] h = refl
  find-not-has k ((j, v) ∷ l) h = ground (arith, find-not-has k l)

  has-store :
      (k j : Text) (v : V) (l : Assoc V)
      → has j (store k v l) ≡ (if text_eq k j then true else has j l)
  unfolding has store
  has-store k j v [] = refl
  has-store k j v ((i, w) ∷ l) =
      ground (arith, text_eq_iff i k, text_eq_iff i j, text_eq_iff k j, has-store k j v l)

  has-without : (k j : Text) (l : Assoc V) → has j l ≡ false → has j (without k l) ≡ false
  unfolding has without
  has-without k j [] h = refl
  has-without k j ((i, w) ∷ l) h = ground (arith, has-without k j l)

  has-keep :
      (p : Text → V → Bool) (j : Text) (l : Assoc V)
      → has j l ≡ false
      → has j (keep_entries p l) ≡ false
  unfolding has keep_entries
  has-keep p j [] h = refl
  has-keep p j ((i, w) ∷ l) h = ground (arith, has-keep p j l)

  pub find-keep :
      (p : Text → V → Bool) (k : Text) (l : Assoc V)
      → IsUnique l
      → find k (keep_entries p l)
        ≡ elim (find k l) [ none ↦ none | some v ↦ (if p k v then some v else none) ]
  unfolding find keep_entries
  find-keep p k [] u = refl
  find-keep p k ((j, v) ∷ l) u = ground (
    arith,
    text_eq_iff j k,
    find-keep p k l u.1,
    find-not-has j l u.0,
    ap (λ t. p t v) {x = j} {y = k},
  )

  pub store-IsUnique : (k : Text) (v : V) (l : Assoc V) → IsUnique l → IsUnique (store k v l)
  unfolding store
  store-IsUnique k v [] u = (unfold has in refl, tt)
  store-IsUnique k v ((j, w) ∷ l) u =
      ground (arith, has-store k j v l, text_eq_iff j k, text_eq_iff k j, store-IsUnique k v l u.1)

  pub without-IsUnique : (k : Text) (l : Assoc V) → IsUnique l → IsUnique (without k l)
  unfolding without
  without-IsUnique k [] u = tt
  without-IsUnique k ((j, w) ∷ l) u =
      ground (arith, has-without k j l u.0, without-IsUnique k l u.1)

  pub keep-IsUnique : (p : Text → V → Bool) (l : Assoc V) → IsUnique l → IsUnique (keep_entries p l)
  unfolding keep_entries
  keep-IsUnique p [] u = tt
  keep-IsUnique p ((j, w) ∷ l) u = ground (arith, has-keep p j l u.0, keep-IsUnique p l u.1)

  -- Some entry under `k` has a value with property `p`: what a loop over all entries meets.
  unfoldable pub meets : (V → Bool) → Text → Assoc V → Bool
  meets p k [] = false
  meets p k ((j, v) ∷ l) = (text_eq j k && p v) || meets p k l

  meets-not-has : (p : V → Bool) (k : Text) (l : Assoc V) → has k l ≡ false → meets p k l ≡ false
  unfolding meets has
  meets-not-has p k [] h = refl
  meets-not-has p k ((j, v) ∷ l) h = ground (arith, meets-not-has p k l)

  pub meets-eq-find :
      (p : V → Bool) (k : Text) (l : Assoc V)
      → IsUnique l
      → meets p k l ≡ elim (find k l) [ none ↦ false | some v ↦ p v ]
  unfolding meets find
  meets-eq-find p k [] u = refl
  meets-eq-find p k ((j, v) ∷ l) u = ground (
    arith,
    text_eq_iff j k,
    meets-not-has p j l u.0,
    ap (λ t. meets p t l) {x = j} {y = k},
    meets-eq-find p k l u.1,
  )
