-- ===== src/Metrics.antt =====
-- metrics.go: latency statistics. The atomic operations of `Record` are taken as one step. The memory
-- figures are in Metrics/Memory.
pub mod Laws
pub mod Memory
use capacitor.Prelude.{
  ℕ, zero, suc, ◌/◌, Bool, List, [], ◌∷◌, Text, codes, ℤ, pos, negsuc, ◌+ℤ◌, leb_ℤ, eqb_ℤ, wrap64,
  if◌then◌else◌, sub_ℕ,
}

pub record Stat : Type 0 where
  pub count : ℤ
  pub sum : ℤ
  pub max : ℤ

abbrev pub no_stat : Stat
no_stat = record { count = pos 0; sum = pos 0; max = pos 0 }

unfoldable pub observe : Stat → ℤ → Stat
observe s d = record {
  count = wrap64 (s.count +ℤ pos 1);
  sum = wrap64 (s.sum +ℤ d);
  max = if leb_ℤ d s.max then s.max else d;
}

-- The latency fields of `MetricsTracker`.
pub record Tracker : Type 0 where
  pub set_lat : Stat
  pub get_lat : Stat
  pub incr_lat : Stat
  pub replicate_lat : Stat

-- The fields of `Summary` that `summarize` fills.
pub record Summary : Type 0 where
  pub metric : Text
  pub average : ℤ
  pub peak : ℤ
  pub count : ℤ

-- Go's `/` on int64 truncates towards 0; the divisor is positive here.
abbrev pub div_ℤ : ℤ → ℕ → ℤ
div_ℤ (pos n) m = pos (n / m)
div_ℤ (negsuc n) m = sub_ℕ 0 (suc n / m)

-- The same for any divisor other than 0, which a count that has wrapped round may be.
quotient : ℤ → ℤ → ℤ
quotient s (pos n) = div_ℤ s n
quotient (pos s) (negsuc n) = sub_ℕ 0 (s / suc n)
quotient (negsuc s) (negsuc n) = wrap64 (pos (suc s / suc n))

unfoldable pub summarize : Text → Stat → Summary
unfolding quotient
summarize name s =
    if eqb_ℤ s.count (pos 0)
    then record { metric = name; average = pos 0; peak = pos 0; count = pos 0 }
    else record { metric = name; average = quotient s.sum s.count; peak = s.max; count = s.count }

-- `GetSummary` without the entry for memory.
unfoldable pub get_summary : Tracker → List Summary
unfolding summarize
get_summary m =
    summarize (codes "Set") m.set_lat
    ∷ summarize (codes "Get") m.get_lat
    ∷ summarize (codes "Incr") m.incr_lat
    ∷ summarize (codes "Replication") m.replicate_lat
    ∷ []
