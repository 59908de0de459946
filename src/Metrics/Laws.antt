-- ===== src/Metrics/Laws.antt =====
-- What a statistic of metrics.go says of the durations that it was given.
use capacitor.Prelude.{
  ℕ, ◌+◌, ◌*◌, ◌/◌, ◌^◌, ◌≤◌, ◌<◌, ◌≡◌, refl, arith, List, [], ◌∷◌, Text, length, pos, ◌+ℤ◌,
  wrap64_exact, max,
}
use capacitor.Metrics.{Stat, no_stat, observe, summarize}

-- The statistic after the durations, of which the first in the list came last.
pub observe_all : List ℕ → Stat
observe_all [] = no_stat
observe_all (d ∷ ds) = observe (observe_all ds) (pos d)

unfoldable pub sum_of : List ℕ → ℕ
sum_of [] = 0
sum_of (d ∷ ds) = d + sum_of ds

unfoldable pub max_of : List ℕ → ℕ
max_of [] = 0
max_of (d ∷ ds) = max d (max_of ds)

-- The statistic of durations whose number and sum fit an `int64` is their number, sum and maximum.
pub observe_all_lem :
    (ds : List ℕ)
    → length ds < 2 ^ 63
    → sum_of ds < 2 ^ 63
    → observe_all ds
      ≡ record { count = pos (length ds); sum = pos (sum_of ds); max = pos (max_of ds) }
unfolding observe_all sum_of max_of
observe_all_lem [] few small = refl
observe_all_lem (d ∷ ds) few small = rw (observe_all_lem ds (omega arith) (omega arith)) (
    unfold observe ◌+ℤ◌ in
    ground (arith, wrap64_exact (pos (length ds + 1)), wrap64_exact (pos (sum_of ds + d))))

sum_of-le : (ds : List ℕ) → sum_of ds ≤ length ds * max_of ds
unfolding sum_of max_of
sum_of-le [] = omega arith
sum_of-le (d ∷ ds) = grind (arith, sum_of-le ds)

div_le : (a n m : ℕ) → 0 < n → a ≤ n * m → a / n ≤ m
div_le a n m h k = grind arith

-- The summary of one or more durations, whose number and sum fit an `int64`, has their number and
-- maximum, and their mean, rounded down, which is at most the maximum.
pub summarize_lem :
    (name : Text) (d : ℕ) (ds : List ℕ)
    → length (d ∷ ds) < 2 ^ 63
    → sum_of (d ∷ ds) < 2 ^ 63
    → (summarize name (observe_all (d ∷ ds)) ≡ record {
      metric = name;
      average = pos (sum_of (d ∷ ds) / length (d ∷ ds));
      peak = pos (max_of (d ∷ ds));
      count = pos (length (d ∷ ds));
    })
      × (sum_of (d ∷ ds) / length (d ∷ ds) ≤ max_of (d ∷ ds))
summarize_lem name d ds few small = (
  rw (observe_all_lem (d ∷ ds) few small) (unfold summarize in ground arith),
  div_le (sum_of (d ∷ ds)) (length (d ∷ ds)) (max_of (d ∷ ds)) (omega arith) (sum_of-le (d ∷ ds)),
)
