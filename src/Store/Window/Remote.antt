-- ===== src/Store/Window/Remote.antt =====
-- Theorems on `addWindowTimestamp` of store.go.
use capacitor.Prelude.{
  In, SameElements, ℕ, suc, ◌≡◌, refl, arith, List, [], ◌∷◌, Text, text_eq_iff, ℤ, ◌<ℤ◌, ltb_ℤ,
  eqb_ℤ, eq_of_parts, if◌then◌else◌, Bool-cases, ◌⊎◌, inl, inr, ap, ap₂, ◌∙◌, sym,
}
use mathlib.Core.Path.{subst}
use capacitor.Dict
use capacitor.Dict.{get-put}
use capacitor.Store.Shard.{StoreShard, Store, get_shard, get_shard-with_shard_self, mark}
use capacitor.Store.Window.{
  Place, duplicate, at, find_place, insert_at, window_in, window_at, insert_event,
  add_window_timestamp,
}

-- What the search and the copying amount to: an insertion in order, unless the event is there.
unfoldable pub insert : ℤ → List ℤ → List ℤ
insert ts [] = ts ∷ []
insert ts (t ∷ win) =
    if eqb_ℤ t ts then t ∷ win else if ltb_ℤ ts t then ts ∷ t ∷ win else t ∷ insert ts win

bump : Place → Place
bump duplicate = duplicate
bump (at i) = at (suc i)

find_place-suc :
    (ts : ℤ) (i : ℕ) (win : List ℤ) → find_place ts (suc i) win ≡ bump (find_place ts i win)
unfolding find_place bump
find_place-suc ts i [] = refl
find_place-suc ts i (t ∷ win) = ground (arith, find_place-suc ts (suc i) win)

put_at : Place → ℤ → List ℤ → List ℤ
put_at duplicate ts win = win
put_at (at i) ts win = insert_at i ts win

put_at-bump :
    (p : Place) (ts t : ℤ) (win : List ℤ) → put_at (bump p) ts (t ∷ win) ≡ t ∷ put_at p ts win
unfolding put_at bump insert_at
put_at-bump duplicate ts t win = refl
put_at-bump (at i) ts t win = ground arith

put_at-find_place : (ts : ℤ) (win : List ℤ) → put_at (find_place ts 0 win) ts win ≡ insert ts win
unfolding find_place insert put_at
put_at-find_place ts [] = unfold insert_at in refl
put_at-find_place ts (t ∷ win) = elim (Bool-cases (eqb_ℤ t ts)) [
  | inl e ↦ rw e refl
  | inr e ↦ elim (Bool-cases (ltb_ℤ ts t)) [
    | inl lt ↦ rw (e, lt) (unfold insert_at in ground arith)
    | inr ge ↦
        rw (e, ge, find_place-suc ts 0 win, put_at-bump (find_place ts 0 win) ts t win)
          (ap (λ l. t ∷ l) (put_at-find_place ts win))
  ]
]

pub window-add :
    {F : Type 0} (s : Store F) (key : Text) (ts : ℤ)
    → window_at (add_window_timestamp s key ts) key ≡ insert ts (window_at s key)
unfolding window_at add_window_timestamp
window-add {F} s key ts =
    rw (get_shard-with_shard_self s key (insert_event key ts)) (inserted (get_shard s key))
  where
    inserted :
        (sh : StoreShard F) → window_in (insert_event key ts sh) key ≡ insert ts (window_in sh key)
    inserted sh =
        let win = window_in sh key in
        rw (← put_at-find_place ts win) (by_place (find_place ts 0 win) refl)
      where
        by_place :
            (p : Place)
            → find_place ts 0 (window_in sh key) ≡ p
            → window_in (insert_event key ts sh) key ≡ put_at p ts (window_in sh key)
        by_place duplicate e = unfold insert_event put_at in ground (arith, e)
        by_place (at i) e =
            unfold insert_event put_at mark window_in Dict.get_or in
            ground (
              arith,
              e,
              get-put sh.windows key key (insert_at i ts (window_in sh key)),
              text_eq_iff key key,
            )

-- All events of the list are after `t`.
abbrev pub AllAfter : ℤ → List ℤ → Type 0
AllAfter t [] = Unit
AllAfter t (u ∷ us) = (t <ℤ u) × AllAfter t us

-- Oldest first, and no event twice.
abbrev pub IsStrict : List ℤ → Type 0
IsStrict [] = Unit
IsStrict (t ∷ ts) = AllAfter t ts × IsStrict ts

AllAfter-trans : (t u : ℤ) (us : List ℤ) → t <ℤ u → AllAfter u us → AllAfter t us
AllAfter-trans t u [] lt a = tt
AllAfter-trans t u (v ∷ vs) lt a = (omega arith, AllAfter-trans t u vs lt a.1)

AllAfter-insert : (t ts : ℤ) (win : List ℤ) → t <ℤ ts → AllAfter t win → AllAfter t (insert ts win)
unfolding insert
AllAfter-insert t ts [] lt a = (lt, tt)
AllAfter-insert t ts (u ∷ us) lt a = ground (arith, AllAfter-insert t ts us lt a.1)

insert-IsStrict : (ts : ℤ) (win : List ℤ) → IsStrict win → IsStrict (insert ts win)
unfolding insert
insert-IsStrict ts [] s = (tt, tt)
insert-IsStrict ts (t ∷ win) s = elim (Bool-cases (eqb_ℤ t ts)) [
  | inl e ↦ rw e s
  | inr e ↦ elim (Bool-cases (ltb_ℤ ts t)) [
    | inl lt ↦ rw (e, lt) ((ground arith, AllAfter-trans ts t win (ground arith) s.0), s)
    | inr ge ↦ rw (e, ge) (AllAfter-insert t ts win (ground arith) s.0, insert-IsStrict ts win s.1)
  ]
]

In-insert : (x ts : ℤ) (win : List ℤ) → In x (insert ts win) → (ts ≡ x) ⊎ In x win
unfolding insert
In-insert x ts [] = λ i. i
In-insert x ts (t ∷ win) = elim (Bool-cases (eqb_ℤ t ts)) [
  | inl e ↦ rw e (λ i. inr i)
  | inr e ↦ elim (Bool-cases (ltb_ℤ ts t)) [
    | inl lt ↦ rw (e, lt) (λ i. i)
    | inr ge ↦
        rw (e, ge)
          (λ i. elim i [
            | inl p ↦ inr (inl p)
            | inr j ↦ elim (In-insert x ts win j) [ inl p ↦ inl p | inr k ↦ inr (inr k) ]
          ])
  ]
]

insert-In : (x ts : ℤ) (win : List ℤ) → (ts ≡ x) ⊎ In x win → In x (insert ts win)
unfolding insert
insert-In x ts [] = λ i. i
insert-In x ts (t ∷ win) = elim (Bool-cases (eqb_ℤ t ts)) [
  | inl e ↦ rw e (λ i. elim i [ inl p ↦ inl (eq_of_parts t ts (ground arith) ∙ p) | inr j ↦ j ])
  | inr e ↦ elim (Bool-cases (ltb_ℤ ts t)) [
    | inl lt ↦ rw (e, lt) (λ i. i)
    | inr ge ↦
        rw (e, ge)
          (λ i. elim i [
            | inl p ↦ inr (insert-In x ts win (inl p))
            | inr j ↦ elim j [ inl q ↦ inl q | inr k ↦ inr (insert-In x ts win (inr k)) ]
          ])
  ]
]

later_of_In : (t u : ℤ) (us : List ℤ) → AllAfter t us → In u us → t <ℤ u
later_of_In t u [] a i = absurd i
later_of_In t u (v ∷ vs) a i = elim i [
  | inl p ↦ subst (λ z. t <ℤ z) p a.0
  | inr j ↦ later_of_In t u vs a.1 j
]

-- A strictly sorted window is determined by its events.
strict_unique : (xs ys : List ℤ) → IsStrict xs → IsStrict ys → SameElements xs ys → xs ≡ ys
strict_unique [] [] s s' same = refl
strict_unique [] (y ∷ ys) s s' same = absurd (same.1 y (inl refl))
strict_unique (x ∷ xs) [] s s' same = absurd (same.0 x (inl refl))
strict_unique (x ∷ xs) (y ∷ ys) s s' same =
    ap₂ ◌∷◌ head (strict_unique xs ys s.1 s'.1 (λ a i. tail a i, λ a i. tail' a i))
  where
    head : x ≡ y
    head = elim (same.0 x (inl refl)) [
      | inl p ↦ sym p
      | inr i ↦ elim (same.1 y (inl refl)) [
        | inl q ↦ q
        | inr j ↦
            let a = later_of_In y x ys s'.0 i in
            let b = later_of_In x y xs s.0 j in absurd (omega arith)
      ]
    ]

    irreflexive : (a b : ℤ) → a <ℤ b → a ≡ b → ⊥
    irreflexive a b lt e = let c : b <ℤ b = subst (λ z. z <ℤ b) e lt in omega arith

    tail : (a : ℤ) → In a xs → In a ys
    tail a i = elim (same.0 a (inr i)) [
      | inl p ↦ absurd (irreflexive x a (later_of_In x a xs s.0 i) (head ∙ p))
      | inr j ↦ j
    ]

    tail' : (a : ℤ) → In a ys → In a xs
    tail' a i = elim (same.1 a (inr i)) [
      | inl p ↦ absurd (irreflexive y a (later_of_In y a ys s'.0 i) (sym head ∙ p))
      | inr j ↦ j
    ]

-- The events so inserted.
inserted : List ℤ → List ℤ
inserted [] = []
inserted (ts ∷ events) = insert ts (inserted events)

inserted-IsStrict : (events : List ℤ) → IsStrict (inserted events)
unfolding inserted
inserted-IsStrict [] = tt
inserted-IsStrict (ts ∷ events) = insert-IsStrict ts (inserted events) (inserted-IsStrict events)

inserted-elements : (events : List ℤ) → SameElements (inserted events) events
unfolding inserted
inserted-elements [] = (λ a i. i, λ a i. i)
inserted-elements (ts ∷ events) =
    let (down, up) = inserted-elements events in
    (
      λ a i. elim (In-insert a ts (inserted events) i) [ inl p ↦ inl p | inr j ↦ inr (down a j) ],
      λ a i. insert-In a ts (inserted events) (elim i [ inl p ↦ inl p | inr j ↦ inr (up a j) ]),
    )

module _ {F : Type 0} where
  -- The store after the events, of which the first in the list came last.
  pub add_all : Store F → Text → List ℤ → Store F
  add_all s key [] = s
  add_all s key (ts ∷ events) = add_window_timestamp (add_all s key events) key ts

  window-add_all :
      (s : Store F) (key : Text) (events : List ℤ)
      → window_at s key ≡ []
      → window_at (add_all s key events) key ≡ inserted events
  unfolding add_all inserted
  window-add_all s key [] e = e
  window-add_all s key (ts ∷ events) e =
      window-add (add_all s key events) key ts ∙ ap (insert ts) (window-add_all s key events e)

  -- Two stores with no window for the key, that received the same events in any order and any number of
  -- times, have the same window, which is sorted, holds each event once, and holds no other.
  pub windows_converge :
      (s s' : Store F) (key : Text) (events events' : List ℤ)
      → window_at s key ≡ []
      → window_at s' key ≡ []
      → SameElements events events'
      → (window_at (add_all s key events) key ≡ window_at (add_all s' key events') key)
        × IsStrict (window_at (add_all s key events) key)
        × SameElements (window_at (add_all s key events) key) events
  windows_converge s s' key events events' e e' same =
      rw (window-add_all s key events e, window-add_all s' key events' e')
        (
          strict_unique (inserted events) (inserted events') (inserted-IsStrict events)
              (inserted-IsStrict events') through,
          inserted-IsStrict events,
          inserted-elements events,
        )
    where
      a : SameElements (inserted events) events
      a = inserted-elements events

      b : SameElements (inserted events') events'
      b = inserted-elements events'

      through : SameElements (inserted events) (inserted events')
      through = (λ x i. b.1 x (same.0 x (a.0 x i)), λ x i. a.1 x (same.1 x (b.0 x i)))
