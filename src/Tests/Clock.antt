-- ===== src/Tests/Clock.antt =====
-- Examples for hlc.go.
use capacitor.Prelude.{◌≡◌, arith, List, [], ◌∷◌, pos, ◌+ℤ◌, ◌≤ℤ◌, ◌<ℤ◌}
use capacitor.Hlc.{clock_smash, now, update, reading}
use capacitor.Hlc.Valid.{update_smash_iff, drift_bounded}
use capacitor.Hlc.Run.{Call, ask, receive, run, Follows, run-IsIncreasing}
use capacitor.Tests.Fixtures.{clock, at_time}

-- The wall clock goes back, a remote timestamp is ahead, and the last one is too far ahead.
abbrev calls : List Call
calls =
    ask (pos 105)
    ∷ ask (pos 90)
    ∷ receive (pos 91) (at_time 120 7)
    ∷ receive (pos 91) (at_time 900 0)
    ∷ []

run-IsIncreasing_example : Follows (reading clock) (run clock calls)
run-IsIncreasing_example = run-IsIncreasing clock calls (ground arith) (ground arith)

update_smash_iff_example :
    ((update (pos 91) clock (at_time 900 0)).1 ≡ clock_smash → pos 91 +ℤ pos 50 <ℤ pos 900)
    × (pos 91 +ℤ pos 50 <ℤ pos 900 → update (pos 91) clock (at_time 900 0) ≡ (clock, clock_smash))
update_smash_iff_example =
    update_smash_iff (pos 91) clock (at_time 900 0) (unfold ◌+ℤ◌ in omega arith)

drift_bounded_example :
    ((now (pos 91) clock).0.physical ≤ℤ pos 91 +ℤ pos 50)
    × ((update (pos 91) clock (at_time 120 7)).0.physical ≤ℤ pos 91 +ℤ pos 50)
drift_bounded_example =
    drift_bounded (pos 91) clock (at_time 120 7) (unfold ◌+ℤ◌ in omega arith) (omega arith)
      (unfold ◌+ℤ◌ in omega arith)
