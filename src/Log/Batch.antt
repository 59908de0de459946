-- ===== src/Log/Batch.antt =====
-- `GetEntriesRaw` of log.go: which entries a batch holds.
use capacitor.Prelude.{
  ℕ, zero, suc, ◌+◌, ◌-◌, ◌≤◌, ◌<◌, ◌≡◌, refl, true, false, some, arith, List, [], ◌∷◌, length, min,
  ltb, if◌then◌else◌, ap, Bool-cases, inl, inr, ◌⊎◌,
}
use capacitor.Log.{DeltaLog, earliest, collect, start_seq_of, get_entries_raw}
use capacitor.Log.Retain.{IsIntact}

-- The number of bytes in a batch.
pub total : List (List ℕ) → ℕ
total [] = 0
total (b ∷ bs) = length b + total bs

-- The batch is a run of the history from `seq` on.
abbrev pub IsRun : (ℕ → List ℕ) → ℕ → List (List ℕ) → Type 0
IsRun h seq [] = Unit
IsRun h seq (b ∷ bs) = (b ≡ h seq) × IsRun h (suc seq) bs

module _ (h : ℕ → List ℕ) (max_bytes : ℕ) where
  -- The entries after the first: as long as they fit.
  fetch : ℕ → ℕ → ℕ → List (List ℕ)
  fetch zero seq current = []
  fetch (suc count) seq current =
      let rest = h seq ∷ fetch count (suc seq) (current + length (h seq)) in
      if ltb max_bytes (current + length (h seq)) then [] else rest

  record Fetched (count seq current : ℕ) (bs : List (List ℕ)) : Type 0 where
    run : IsRun h seq bs
    most : length bs ≤ count
    bytes : current ≤ max_bytes → current + total bs ≤ max_bytes
    over : max_bytes < current → bs ≡ []
    full : (length bs ≡ count) ⊎ (max_bytes < current + total bs + length (h (seq + length bs)))

  next-Fetched :
      (count seq current : ℕ) (bs : List (List ℕ))
      → current + length (h seq) ≤ max_bytes
      → Fetched count (suc seq) (current + length (h seq)) bs
      → Fetched (suc count) seq current (h seq ∷ bs)
  unfolding total
  next-Fetched count seq current bs small f = record {
    run = (refl, f.run);
    most = let m = f.most in omega arith;
    bytes = λ le. let b = f.bytes small in omega arith;
    over = λ lt. absurd (omega arith);
    full = elim f.full [ inl p ↦ inl (ap suc p) | inr q ↦ inr (rw shift (omega arith)) ];
  }
    where
      shift : h (seq + suc (length bs)) ≡ h (suc seq + length bs)
      shift = ap h (omega arith)

  fetch-Fetched : (count seq current : ℕ) → Fetched count seq current (fetch count seq current)
  unfolding fetch total
  fetch-Fetched zero seq current = record {
    run = tt;
    most = omega arith;
    bytes = λ le. omega arith;
    over = λ lt. refl;
    full = inl refl;
  }
  fetch-Fetched (suc count) seq current =
      elim (Bool-cases (ltb max_bytes (current + length (h seq)))) [
        | inl e ↦ rw e (record {
          run = tt;
          most = omega arith;
          bytes = λ le. omega arith;
          over = λ lt. refl;
          full = inr (rw stay (ground arith));
        })
        | inr e ↦ rw e (
            next-Fetched count seq current (fetch count (suc seq) (current + length (h seq)))
              (ground arith) (fetch-Fetched count (suc seq) (current + length (h seq))))
      ]
    where
      stay : h (seq + 0) ≡ h seq
      stay = ap h (omega arith)

  module _ (l : DeltaLog) (lo : ℕ) (w : IsIntact l lo h) where
    collect-fetch :
        (count seq current : ℕ)
        → lo ≤ seq
        → seq + count ≤ l.head
        → collect l max_bytes count false seq current ≡ some (fetch count seq current)
    unfolding collect fetch
    collect-fetch zero seq current ge le = refl
    collect-fetch (suc count) seq current ge le =
        let (read, size, below) = w.held seq ge (omega arith) in
        ground (
          arith,
          read,
          size,
          collect-fetch count (suc seq) (current + length (h seq)) (omega arith) (omega arith),
        )

    collect-first :
        (count seq : ℕ)
        → lo ≤ seq
        → seq + suc count ≤ l.head
        → collect l max_bytes (suc count) true seq 0
          ≡ some (h seq ∷ fetch count (suc seq) (length (h seq)))
    unfolding collect
    collect-first count seq ge le =
        let (read, size, below) = w.held seq ge (omega arith) in
        ground (
          arith,
          read,
          size,
          collect-fetch count (suc seq) (length (h seq)) (omega arith) (omega arith),
        )

    -- From a readable sequence number `seq` on, and for a limit of at least one, `GetEntriesRaw`
    -- does not panic and returns a batch that is not empty: the entries from `seq` on in order, at
    -- most `limit` and none past the last, of at most `max_bytes` bytes in total unless there is
    -- one alone; and it stops early only before an entry that would pass `max_bytes`.
    pub get_entries_raw_lem :
        (seq limit : ℕ)
        → lo ≤ seq
        → seq < l.head
        → 0 < limit
        → (batch : List (List ℕ)) × (get_entries_raw l seq limit max_bytes ≡ some batch)
          × IsRun h seq batch
          × (0 < length batch)
          × (length batch ≤ min limit (l.head - seq))
          × ((total batch ≤ max_bytes) ⊎ (length batch ≡ 1))
          × ((length batch ≡ min limit (l.head - seq))
              ⊎ (max_bytes < total batch + length (h (seq + length batch))))
    get_entries_raw_lem seq limit ge lt some_limit = (
      h seq ∷ rest,
      reads,
      (refl, f.run),
      omega arith,
      (let m = f.most in omega arith),
      few,
      all_or_full,
    )
      where
        count : ℕ
        count = min limit (l.head - seq) - 1

        rest : List (List ℕ)
        rest = fetch count (suc seq) (length (h seq))

        f : Fetched count (suc seq) (length (h seq)) rest
        f = fetch-Fetched count (suc seq) (length (h seq))

        begins : start_seq_of l seq ≡ seq
        begins =
            let a = w.in_index in let b = w.lo_pos in unfold start_seq_of earliest in ground arith

        counts : (if ltb limit (l.head - seq) then limit else l.head - seq) ≡ suc count
        counts = ground arith

        reads : get_entries_raw l seq limit max_bytes ≡ some (h seq ∷ rest)
        reads =
            unfold get_entries_raw in
            ground (arith, begins, counts, collect-first count seq ge (omega arith))

        few : (total (h seq ∷ rest) ≤ max_bytes) ⊎ (length (h seq ∷ rest) ≡ 1)
        few = unfold total in ground (arith, f.bytes, f.over)

        all_or_full :
            (length (h seq ∷ rest) ≡ min limit (l.head - seq))
            ⊎ (max_bytes < total (h seq ∷ rest) + length (h (seq + length (h seq ∷ rest))))
        all_or_full = elim f.full [
          | inl p ↦ inl (omega arith)
          | inr q ↦ inr (rw shift (unfold total in omega arith))
        ]
          where
            shift : h (seq + suc (length rest)) ≡ h (suc seq + length rest)
            shift = ap h (omega arith)
