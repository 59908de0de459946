-- ===== src/Hlc/Run.antt =====
-- Sequences of calls of one clock of hlc.go.
use capacitor.Prelude.{
  ℕ, suc, sym, ◌⊎◌, inl, inr, ◌+◌, ◌≡◌, arith, List, [], ◌∷◌, length, ℤ, pos, ◌+ℤ◌, InInt32,
  max_int32, true, neg_part, pos_part, ◌≤◌,
}
use mathlib.Core.Path.{subst}
use capacitor.Hlc.{
  Timestamp, Hlc, stamped, clock_smash, now, update, tick, merge, max_ℤ, wrap32, reading, after,
}
use capacitor.Hlc.Order.{after_trans}
use capacitor.Hlc.Causal.{HasRoom, suc_exact, now-after, merge-after_local}

-- A call, with the wall clock that it reads. The readings need not be monotone.
pub data Call : Type 0 where
  ask : ℤ → Call
  receive : ℤ → Timestamp → Call

-- The timestamps that the calls return, in order; a rejected one returns none.
pub run : Hlc → List Call → List Timestamp
run h [] = []
run h (ask wall ∷ calls) = let (h', t) = now wall h in t ∷ run h' calls
run h (receive wall remote ∷ calls) =
    let (h', reply) = update wall h remote in
    let rest = run h' calls in elim reply [ stamped t ↦ t ∷ rest | clock_smash ↦ rest ]

abbrev pub AllAfter : Timestamp → List Timestamp → Type 0
AllAfter t [] = Unit
AllAfter t (u ∷ us) = (after u t ≡ true) × AllAfter t us

-- Each timestamp is before all that follow it.
abbrev pub IsIncreasing : List Timestamp → Type 0
IsIncreasing [] = Unit
IsIncreasing (u ∷ us) = AllAfter u us × IsIncreasing us

-- The timestamps increase, from `t` on.
abbrev pub Follows : Timestamp → List Timestamp → Type 0
Follows t us = AllAfter t us × IsIncreasing us

-- The logical part can be counted up `n` times in an `int32`, also from 0.
abbrev pub HasRoomFor : ℕ → ℤ → Type 0
HasRoomFor n logical =
    InInt32 logical × (n ≤ max_int32) × (pos_part logical + n ≤ neg_part logical + max_int32)

-- Every remote timestamp leaves room for its own call and those that follow.
abbrev pub AllRoom : List Call → Type 0
AllRoom [] = Unit
AllRoom (ask wall ∷ calls) = AllRoom calls
AllRoom (receive wall remote ∷ calls) =
    HasRoomFor (suc (length calls)) remote.logical × AllRoom calls

AllAfter-trans :
    (s t : Timestamp) (us : List Timestamp) → after t s ≡ true → AllAfter t us → AllAfter s us
AllAfter-trans s t [] e a = tt
AllAfter-trans s t (u ∷ us) e a = (after_trans s t u a.0 e, AllAfter-trans s t us e a.1)

room_one : (n : ℕ) (l : ℤ) → HasRoomFor (suc n) l → HasRoom l
room_one n l r = ground arith

room_suc : (n : ℕ) (l : ℤ) → HasRoomFor (suc n) l → HasRoomFor n (wrap32 (l +ℤ pos 1))
room_suc n l r = rw (suc_exact l (room_one n l r)) (unfold ◌+ℤ◌ in ground arith)

room_less : (n : ℕ) (l : ℤ) → HasRoomFor (suc n) l → HasRoomFor n l
room_less n l r = omega arith

room_max : (n : ℕ) (a b : ℤ) → HasRoomFor n a → HasRoomFor n b → HasRoomFor n (max_ℤ a b)
room_max n a b ra rb = ground arith

room_tick :
    (wall : ℤ) (h : Hlc) (n : ℕ) → HasRoomFor (suc n) h.logical → HasRoomFor n (tick wall h).logical
unfolding tick
room_tick wall h n r = ground (arith, room_suc n h.logical r)

room_merge :
    (wall : ℤ) (h : Hlc) (remote : Timestamp) (n : ℕ)
    → HasRoomFor (suc n) h.logical
    → HasRoomFor (suc n) remote.logical
    → HasRoomFor n (merge wall h remote).logical
unfolding merge
room_merge wall h remote n r r' = ground (
  arith,
  room_suc n h.logical r,
  room_suc n remote.logical r',
  room_suc n (max_ℤ h.logical remote.logical) (room_max (suc n) h.logical remote.logical r r'),
)

run-receive :
    (wall : ℤ) (h : Hlc) (remote : Timestamp) (calls : List Call)
    → (run h (receive wall remote ∷ calls) ≡ run h calls)
      ⊎ (run h (receive wall remote ∷ calls)
          ≡ reading (merge wall h remote) ∷ run (merge wall h remote) calls)
unfolding run update
run-receive wall h remote calls = ground arith

extend :
    (s t : Timestamp) (us : List Timestamp) → after t s ≡ true → Follows t us → Follows s (t ∷ us)
extend s t us e ih = ((e, AllAfter-trans s t us e ih.0), ih)

-- Whatever the wall clock reads at each call, forward or back, and whatever is received: all the
-- timestamps that a run of `Now` and `Update` returns are after the clock's reading at the start, and
-- each is after all earlier ones, where no logical part can leave the `int32` range during the run.
pub run-IsIncreasing :
    (h : Hlc) (calls : List Call)
    → HasRoomFor (length calls) h.logical
    → AllRoom calls
    → Follows (reading h) (run h calls)
unfolding run now
run-IsIncreasing h [] r all = (tt, tt)
run-IsIncreasing h (ask wall ∷ calls) r all =
    extend (reading h) (reading (tick wall h)) (run (tick wall h) calls)
      (now-after wall h (room_one (length calls) h.logical r)).1
      (run-IsIncreasing (tick wall h) calls (room_tick wall h (length calls) r) all)
run-IsIncreasing h (receive wall remote ∷ calls) r all =
    let n = length calls in
    let rejected = run-IsIncreasing h calls (room_less n h.logical r) all.1 in
    let accepted =
      run-IsIncreasing (merge wall h remote) calls (room_merge wall h remote n r all.0) all.1 in
    elim (run-receive wall h remote calls) [
      | inl e ↦ subst (Follows (reading h)) (sym e) rejected
      | inr e ↦ subst (Follows (reading h)) (sym e) (
          extend (reading h) (reading (merge wall h remote)) (run (merge wall h remote) calls)
            (merge-after_local wall h remote (room_one n h.logical r)
              (room_one n remote.logical all.0))
            accepted)
    ]
