-- ===== src/Hlc/Valid.antt =====
-- Machine range and drift of the clock of hlc.go.
use capacitor.Prelude.{
  ◌≡◌, arith, ℤ, pos, ◌+ℤ◌, ◌≤ℤ◌, ◌<ℤ◌, InInt64, InInt32, wrap32-InInt32, wrap64_exact, +ℤ_parts,
}
use capacitor.Hlc.{Timestamp, Hlc, clock_smash, now, tick, update, merge, max_ℤ}

-- The fields fit their Go types.
pub record IsValid (h : Hlc) : Type 0 where
  pub physical_fits : InInt64 h.physical
  pub logical_fits : InInt32 h.logical

pub tick-IsValid : (wall : ℤ) (h : Hlc) → InInt64 wall → IsValid h → IsValid (tick wall h)
unfolding tick
tick-IsValid wall h w v = ground (arith, wrap32-InInt32 (h.logical +ℤ pos 1))

pub merge-IsValid :
    (wall : ℤ) (h : Hlc) (remote : Timestamp)
    → InInt64 wall
    → InInt64 remote.physical
    → IsValid h
    → IsValid (merge wall h remote)
unfolding merge
merge-IsValid wall h remote w r v = ground (
  arith,
  wrap32-InInt32 (h.logical +ℤ pos 1),
  wrap32-InInt32 (remote.logical +ℤ pos 1),
  wrap32-InInt32 (max_ℤ h.logical remote.logical +ℤ pos 1),
)

-- `wall` plus the offset stays inside `int64`.
abbrev pub NoOverflow : ℤ → Hlc → Type 0
NoOverflow wall h = InInt64 (wall +ℤ h.max_offset)

-- Where wall clock plus offset fits an `int64`, `Update` returns `ErrClockSmash` for exactly the
-- remote timestamps whose physical part exceeds that sum.
pub update_smash_iff :
    (wall : ℤ) (h : Hlc) (remote : Timestamp)
    → NoOverflow wall h
    → ((update wall h remote).1 ≡ clock_smash → wall +ℤ h.max_offset <ℤ remote.physical)
      × (wall +ℤ h.max_offset <ℤ remote.physical → update wall h remote ≡ (h, clock_smash))
unfolding update
update_smash_iff wall h remote ok = (
  λ e. ground (arith, wrap64_exact (wall +ℤ h.max_offset) ok),
  λ lt. ground (arith, wrap64_exact (wall +ℤ h.max_offset) ok),
)

-- Where wall clock plus offset fits an `int64` and the offset is not negative: a clock that is at
-- most the offset ahead of the wall clock stays so under `Now` and `Update`, whatever the remote
-- timestamp is.
pub drift_bounded :
    (wall : ℤ) (h : Hlc) (remote : Timestamp)
    → NoOverflow wall h
    → pos 0 ≤ℤ h.max_offset
    → h.physical ≤ℤ wall +ℤ h.max_offset
    → ((now wall h).0.physical ≤ℤ wall +ℤ h.max_offset)
      × ((update wall h remote).0.physical ≤ℤ wall +ℤ h.max_offset)
unfolding update now merge
drift_bounded wall h remote ok nonneg near = (
  ground (arith, +ℤ_parts wall h.max_offset),
  ground (arith, +ℤ_parts wall h.max_offset, wrap64_exact (wall +ℤ h.max_offset) ok),
)
