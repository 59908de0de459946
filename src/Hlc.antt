-- ===== src/Hlc.antt =====
-- hlc.go: the hybrid logical clock. A method that changes the clock takes the wall clock's reading
-- (`time.Now().UnixNano()`) and returns the new clock beside its result. The mutex makes each
-- method one step.
pub mod Order
pub mod Valid
pub mod Causal
pub mod Run
use capacitor.Prelude.{
  ℕ, Bool, not, ◌&&◌, if◌then◌else◌, ℤ, pos, negsuc, ◌+ℤ◌, ltb_ℤ, leb_ℤ, eqb_ℤ, wrap64, wrap32,
}

pub record Timestamp : Type 0 where
  pub physical : ℤ
  pub logical : ℤ

-- `DefaultMaxOffset`, 500 ms in nanoseconds.
abbrev pub default_max_offset : ℤ
default_max_offset = pos 500_000_000

pub record Hlc : Type 0 where
  pub physical : ℤ
  pub logical : ℤ
  pub max_offset : ℤ

unfoldable pub greater_or_equal : Timestamp → Timestamp → Bool
greater_or_equal t other =
    if not (eqb_ℤ t.physical other.physical)
    then ltb_ℤ other.physical t.physical
    else leb_ℤ other.logical t.logical

unfoldable pub after : Timestamp → Timestamp → Bool
after t other =
    if ltb_ℤ other.physical t.physical
    then Bool.true
    else if ltb_ℤ t.physical other.physical
    then Bool.false
    else ltb_ℤ other.logical t.logical

unfoldable pub new_hlc : ℤ → Hlc
new_hlc wall = record { physical = wall; logical = pos 0; max_offset = default_max_offset }

unfoldable pub set_max_offset : Hlc → ℤ → Hlc
set_max_offset h offset = record h { max_offset = offset }

-- The timestamp that the clock reads.
abbrev pub reading : Hlc → Timestamp
reading h = record { physical = h.physical; logical = h.logical }

unfoldable pub tick : ℤ → Hlc → Hlc
tick wall h =
    if ltb_ℤ h.physical wall
    then record h { physical = wall; logical = pos 0 }
    else record h { logical = wrap32 (h.logical +ℤ pos 1) }

unfoldable pub now : ℤ → Hlc → Hlc × Timestamp
unfolding tick
now wall h = let h' = tick wall h in (h', reading h')

-- What `Update` returns: a timestamp, or `ErrClockSmash`.
pub data Reply : Type 0 where
  stamped : Timestamp → Reply
  clock_smash : Reply

abbrev pub max_ℤ : ℤ → ℤ → ℤ
max_ℤ a b = if ltb_ℤ a b then b else a

-- The clock after an accepted remote timestamp.
unfoldable pub merge : ℤ → Hlc → Timestamp → Hlc
merge wall h remote =
    let max_physical = max_ℤ (max_ℤ wall h.physical) remote.physical in
    if eqb_ℤ max_physical h.physical && eqb_ℤ max_physical remote.physical
    then record h { logical = wrap32 (max_ℤ h.logical remote.logical +ℤ pos 1) }
    else if eqb_ℤ max_physical h.physical
    then record h { logical = wrap32 (h.logical +ℤ pos 1) }
    else if eqb_ℤ max_physical remote.physical
    then record h { physical = max_physical; logical = wrap32 (remote.logical +ℤ pos 1) }
    else record h { physical = max_physical; logical = pos 0 }

unfoldable pub update : ℤ → Hlc → Timestamp → Hlc × Reply
update wall h remote =
    if ltb_ℤ (wrap64 (wall +ℤ h.max_offset)) remote.physical
    then (h, clock_smash)
    else let h' = merge wall h remote in (h', stamped (reading h'))
