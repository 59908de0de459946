-- ===== src/Hlc/Causal.antt =====
-- Theorems on `Now` and `Update` of hlc.go and the timestamps that the clock has seen.
use capacitor.Prelude.{
  ◌≡◌, arith, ℤ, pos, ◌+ℤ◌, ◌≤ℤ◌, ◌<ℤ◌, InInt32, wrap32, wrap32_exact, max_int32, true, +ℤ_parts,
  refl, negsuc, wrap64_exact,
}
use capacitor.Hlc.Valid.{NoOverflow}
use capacitor.Hlc.{Timestamp, Hlc, stamped, now, update, merge, max_ℤ, reading, after}

-- The logical part can still be counted up in an `int32`.
abbrev pub HasRoom : ℤ → Type 0
HasRoom logical = InInt32 logical × (logical <ℤ pos max_int32)

pub suc_exact : (l : ℤ) → HasRoom l → wrap32 (l +ℤ pos 1) ≡ l +ℤ pos 1
suc_exact l h = wrap32_exact (l +ℤ pos 1) (unfold ◌+ℤ◌ in ground arith)

pub bump-lt : (l : ℤ) → HasRoom l → l <ℤ wrap32 (l +ℤ pos 1)
bump-lt l h = rw (suc_exact l h) (omega (arith, +ℤ_parts l (pos 1)))

pub max_room : (a b : ℤ) → HasRoom a → HasRoom b → HasRoom (max_ℤ a b)
max_room a b ha hb = ground arith

-- Where the logical part can still be counted up in an `int32`: `Now` returns the new reading of
-- the clock. It is after the old reading, and its physical part is at least the wall clock, which
-- may have gone back.
pub now-after :
    (wall : ℤ) (h : Hlc)
    → HasRoom h.logical
    → let (h', t) = now wall h in
      (t ≡ reading h') × (after t (reading h) ≡ true) × (wall ≤ℤ t.physical)
unfolding now after
now-after wall h room = ground (arith, bump-lt h.logical room)

module _ (wall : ℤ) (h : Hlc) (remote : Timestamp) (room : HasRoom h.logical)
    (room' : HasRoom remote.logical) where
  pub merge-after_local : after (reading (merge wall h remote)) (reading h) ≡ true
  unfolding merge after
  merge-after_local = ground (
    arith,
    bump-lt h.logical room,
    bump-lt (max_ℤ h.logical remote.logical) (max_room h.logical remote.logical room room'),
  )

  pub merge-after_remote : after (reading (merge wall h remote)) remote ≡ true
  unfolding merge after
  merge-after_remote = ground (
    arith,
    bump-lt remote.logical room',
    bump-lt (max_ℤ h.logical remote.logical) (max_room h.logical remote.logical room room'),
  )

  pub wall-le-merge : wall ≤ℤ (merge wall h remote).physical
  unfolding merge
  wall-le-merge = ground arith

-- Where both logical parts can still be counted up in an `int32`: an accepted `Update` returns the
-- new reading of the clock, which is after both the old reading and the remote timestamp, and not
-- behind the wall clock.
pub update-after :
    (wall : ℤ) (h : Hlc) (remote : Timestamp) {t : Timestamp}
    → HasRoom h.logical
    → HasRoom remote.logical
    → (update wall h remote).1 ≡ stamped t
    → (t ≡ reading (update wall h remote).0)
      × (after t (reading h) ≡ true)
      × (after t remote ≡ true)
      × (wall ≤ℤ t.physical)
unfolding update
update-after wall h remote room room' e = ground (
  arith,
  merge-after_local wall h remote room room',
  merge-after_remote wall h remote room room',
  wall-le-merge wall h remote room room',
)

wrap32-max_int32 : wrap32 (pos max_int32 +ℤ pos 1) ≡ negsuc max_int32
unfolding wrap32 ◌+ℤ◌
wrap32-max_int32 = refl

-- The timestamp at physical time `p` with the largest logical part.
abbrev pub last_of : ℤ → Timestamp
last_of p = record { physical = p; logical = pos max_int32 }

merge-last_of :
    (wall : ℤ) (h : Hlc) (p : ℤ)
    → h.physical <ℤ p
    → wall <ℤ p
    → merge wall h (last_of p) ≡ record h { physical = p; logical = negsuc max_int32 }
unfolding merge
merge-last_of wall h p a b = ground (arith, wrap32-max_int32)

-- A remote timestamp that is ahead of the clock and of the wall clock, within the allowed offset,
-- where wall clock plus offset fits an `int64`, and that has the largest logical part: `Update`
-- accepts it, and returns a timestamp that is before it.
pub update_wraps :
    (wall : ℤ) (h : Hlc) (p : ℤ)
    → NoOverflow wall h
    → h.physical <ℤ p
    → wall <ℤ p
    → p ≤ℤ wall +ℤ h.max_offset
    → ((update wall h (last_of p)).1
        ≡ stamped (record { physical = p; logical = negsuc max_int32 }))
      × (after (last_of p) (record { physical = p; logical = negsuc max_int32 }) ≡ true)
unfolding update after
update_wraps wall h p ok a b c =
    ground (arith, merge-last_of wall h p a b, wrap64_exact (wall +ℤ h.max_offset) ok)
