-- ===== src/Metrics/Memory.antt =====
-- metrics.go: the memory figures, `memMonitor` and the last entry of `GetSummary`. What the Go runtime
-- reads is an argument.
use capacitor.Prelude.{
  ℕ, ◌≤◌, ◌≡◌, ◌⊎◌, refl, ltb, if◌then◌else◌, List, [], ◌∷◌, In, Text, codes, arith, inl, inr,
  Bool-cases,
}
use capacitor.Float.{Float64}

-- The fields of `runtime.MemStats` that are read.
pub record MemStats : Type 0 where
  pub alloc : ℕ
  pub heap_alloc : ℕ
  pub sys : ℕ

-- The peaks in `MetricsTracker`.
pub record Peaks : Type 0 where
  pub peak_alloc : ℕ
  pub peak_heap_alloc : ℕ
  pub peak_sys : ℕ

abbrev pub no_peaks : Peaks
no_peaks = record { peak_alloc = 0; peak_heap_alloc = 0; peak_sys = 0 }

-- A tick of `memMonitor`.
unfoldable pub mem_tick : MemStats → Peaks → Peaks
mem_tick ms m = record {
  peak_alloc = if ltb m.peak_alloc ms.alloc then ms.alloc else m.peak_alloc;
  peak_heap_alloc =
      if ltb m.peak_heap_alloc ms.heap_alloc then ms.heap_alloc else m.peak_heap_alloc;
  peak_sys = if ltb m.peak_sys ms.sys then ms.sys else m.peak_sys;
}

module _ (fl : Float64) where
  open fl use {Carrier, div, of_uint}

  -- The entry of `GetSummary` for memory.
  pub record MemSummary : Type 0 where
    pub metric : Text
    pub peak_mem_mb : Carrier
    pub peak_heap_mb : Carrier

  unfoldable pub mem_summary : Peaks → MemSummary
  mem_summary m = record {
    metric = codes "Memory (Peak)";
    peak_mem_mb = div (div (of_uint m.peak_alloc) (of_uint 1024)) (of_uint 1024);
    peak_heap_mb = div (div (of_uint m.peak_heap_alloc) (of_uint 1024)) (of_uint 1024);
  }

-- The peaks after the readings, of which the first in the list came last.
pub mem_ticks : List MemStats → Peaks
mem_ticks [] = no_peaks
mem_ticks (ms ∷ readings) = mem_tick ms (mem_ticks readings)

-- The peak is at least every reading, and is 0 or one of them.
pub mem_ticks_lem :
    (readings : List MemStats)
    → ((ms : MemStats) → In ms readings → ms.alloc ≤ (mem_ticks readings).peak_alloc)
      × (((mem_ticks readings).peak_alloc ≡ 0)
          ⊎ ((ms : MemStats) × In ms readings × (ms.alloc ≡ (mem_ticks readings).peak_alloc)))
unfolding mem_ticks mem_tick
mem_ticks_lem [] = (λ ms i. absurd i, inl refl)
mem_ticks_lem (r ∷ readings) =
    let (above, reached) = mem_ticks_lem readings in
    elim (Bool-cases (ltb (mem_ticks readings).peak_alloc r.alloc)) [
      | inl e ↦ rw e (
        (λ ms i. elim i [
          | inl same ↦ rw same (omega arith)
          | inr later ↦ let h = above ms later in ground arith
        ]),
        inr (r, inl refl, refl),
      )
      | inr e ↦ rw e (
        (λ ms i. elim i [ inl same ↦ rw (← same) (ground arith) | inr later ↦ above ms later ]),
        elim reached [ inl none_yet ↦ inl none_yet | inr (ms, i, same) ↦ inr (ms, inr i, same) ],
      )
    ]
