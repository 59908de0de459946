-- ===== src/Store/Window/Sorted.antt =====
-- Sorted windows of store.go: the counting loop, the cut and the sorted insertion on lists of times.
use capacitor.Prelude.{
  ◌≡◌, refl, arith, List, [], ◌∷◌, ◌++◌, ℤ, ◌≤ℤ◌, leb_ℤ, ltb, if◌then◌else◌, length, drop,
  Bool-cases, inl, inr, ap, ◌∙◌,
}
use capacitor.Store.Window.{count_recent, count_old, cut}

-- No event of the list is before `t`.
abbrev pub AllFrom : ℤ → List ℤ → Type 0
AllFrom t [] = Unit
AllFrom t (u ∷ us) = (t ≤ℤ u) × AllFrom t us

-- Oldest first.
abbrev pub IsSorted : List ℤ → Type 0
IsSorted [] = Unit
IsSorted (t ∷ ts) = AllFrom t ts × IsSorted ts

-- The events at or after the horizon, in order.
pub recent : ℤ → List ℤ → List ℤ
recent horizon [] = []
recent horizon (t ∷ ts) = let rest = recent horizon ts in if leb_ℤ horizon t then t ∷ rest else rest

length-recent : (h : ℤ) (win : List ℤ) → length (recent h win) ≡ count_recent h win
unfolding recent count_recent
length-recent h [] = refl
length-recent h (t ∷ ts) = ground (arith, length-recent h ts)

none_old :
    (h t : ℤ) (ts : List ℤ) → h ≤ℤ t → AllFrom t ts → (count_old h ts ≡ 0) × (recent h ts ≡ ts)
unfolding count_old recent
none_old h t [] le a = (refl, refl)
none_old h t (u ∷ us) le a = ground (arith, none_old h t us le a.1)

drop_old : (h : ℤ) (win : List ℤ) → IsSorted win → drop (count_old h win) win ≡ recent h win
unfolding count_old recent
drop_old h [] s = refl
drop_old h (t ∷ ts) s = elim (Bool-cases (leb_ℤ h t)) [
  | inl e ↦ rw (e, (none_old h t ts (ground arith) s.0).0, (none_old h t ts (ground arith) s.0).1)
  | inr e ↦ rw e (drop_old h ts s.1)
]

-- From a sorted window the cut removes exactly the events before the horizon, and the count is the
-- number of those that stay.
pub cut_lem :
    (h : ℤ) (win : List ℤ)
    → IsSorted win
    → (cut h win ≡ recent h win) × (length (cut h win) ≡ count_recent h win)
unfolding cut
cut_lem h win s = (same, ap length same ∙ length-recent h win)
  where
    same : (if ltb 0 (count_old h win) then drop (count_old h win) win else win) ≡ recent h win
    same = ground (arith, drop_old h win s)

AllFrom-append : (t u : ℤ) (ts : List ℤ) → AllFrom t ts → t ≤ℤ u → AllFrom t (ts ++ (u ∷ []))
AllFrom-append t u [] a le = (le, tt)
AllFrom-append t u (v ∷ vs) a le = (a.0, AllFrom-append t u vs a.1 le)

-- No event of the list is after `t`.
abbrev pub AllUpTo : ℤ → List ℤ → Type 0
AllUpTo t [] = Unit
AllUpTo t (u ∷ us) = (u ≤ℤ t) × AllUpTo t us

pub IsSorted-append : (u : ℤ) (ts : List ℤ) → IsSorted ts → AllUpTo u ts → IsSorted (ts ++ (u ∷ []))
IsSorted-append u [] s a = (tt, tt)
IsSorted-append u (t ∷ ts) s a = (AllFrom-append t u ts s.0 a.0, IsSorted-append u ts s.1 a.1)

AllFrom-recent : (h t : ℤ) (ts : List ℤ) → AllFrom t ts → AllFrom t (recent h ts)
unfolding recent
AllFrom-recent h t [] a = tt
AllFrom-recent h t (u ∷ us) a = ground (arith, AllFrom-recent h t us a.1)

pub recent-IsSorted : (h : ℤ) (ts : List ℤ) → IsSorted ts → IsSorted (recent h ts)
unfolding recent
recent-IsSorted h [] s = tt
recent-IsSorted h (t ∷ ts) s = ground (arith, AllFrom-recent h t ts s.0, recent-IsSorted h ts s.1)
