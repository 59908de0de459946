-- ===== src/Tests/Logs.antt =====
-- Examples for log.go: a log of four entries with one in it.
use capacitor.Prelude.{
  ℕ, ◌+◌, ◌-◌, ◌<◌, ◌≤◌, ◌^◌, ◌∙◌, ◌≡◌, ◌⊎◌, refl, arith, some, List, [], ◌∷◌, length, min, ℤ,
}
use mathlib.Core.Path.{subst}
use capacitor.Log.{DeltaLog, new_delta_log, buffer_size, append, stamp, get_entries_raw}
use capacitor.Log.Entry.{LogEntry}
use capacitor.Log.Append.{IsValid, head-append}
use capacitor.Log.Retain.{IsIntact, extend, next_lo, append-IsIntact, new-IsValid}
use capacitor.Log.Batch.{total, IsRun, get_entries_raw_lem}
use capacitor.Tests.Fixtures.{plain_codec, plain_codec-IsCodec, entry_of}

abbrev pub blank_log : DeltaLog
blank_log = new_delta_log 4

abbrev pub no_history : ℕ → List ℕ
no_history seq = []

pub blank_log-IsValid : IsValid blank_log
blank_log-IsValid = (new-IsValid 4 no_history (omega arith)).0

pub blank_log-IsIntact : IsIntact blank_log 1 no_history
blank_log-IsIntact = (new-IsValid 4 no_history (omega arith)).1

abbrev pub given : LogEntry ℤ
given = entry_of 0 (7 ∷ 8 ∷ [])

abbrev pub one_log : DeltaLog
one_log = (append plain_codec blank_log given).0

given_fits : length (stamp blank_log given).value + 2 ≤ blank_log.buf_cap
unfolding stamp new_delta_log buffer_size
given_fits = omega arith

blank_log_small : blank_log.head + 1 < 2 ^ 64
unfolding new_delta_log
blank_log_small = omega arith

pub head-one_log : one_log.head ≡ 2
head-one_log =
    head-append plain_codec plain_codec-IsCodec blank_log blank_log-IsValid given given_fits
      blank_log_small
    ∙ (unfold new_delta_log in refl)

abbrev pub one_entry : ℕ → List ℕ
one_entry = extend no_history blank_log.head (plain_codec.marshal (stamp blank_log given))

pub next_lo-blank_log : next_lo plain_codec blank_log given 1 ≡ 1
unfolding next_lo new_delta_log buffer_size stamp
next_lo-blank_log = refl

pub one_log-IsIntact : IsIntact one_log 1 one_entry
one_log-IsIntact =
    subst (λ lo. IsIntact one_log lo one_entry) next_lo-blank_log
      (append-IsIntact plain_codec plain_codec-IsCodec blank_log blank_log-IsValid given 1
        no_history blank_log-IsIntact given_fits blank_log_small)

append-IsIntact_example :
    IsIntact
      (append plain_codec blank_log given).0
      (next_lo plain_codec blank_log given 1)
      (extend no_history blank_log.head (plain_codec.marshal (stamp blank_log given)))
append-IsIntact_example =
    append-IsIntact plain_codec plain_codec-IsCodec blank_log blank_log-IsValid given 1 no_history
      blank_log-IsIntact given_fits blank_log_small

get_entries_raw_lem_example :
    (batch : List (List ℕ)) × (get_entries_raw one_log 1 10 100 ≡ some batch)
    × IsRun one_entry 1 batch
    × (0 < length batch)
    × (length batch ≤ min 10 (one_log.head - 1))
    × ((total batch ≤ 100) ⊎ (length batch ≡ 1))
    × ((length batch ≡ min 10 (one_log.head - 1))
        ⊎ (100 < total batch + length (one_entry (1 + length batch))))
get_entries_raw_lem_example =
    get_entries_raw_lem one_entry 100 one_log 1 one_log-IsIntact 1 10 (omega arith)
      (rw head-one_log (omega arith)) (omega arith)
