-- ===== src/Strings/Decimal.antt =====
-- fmt.Sprintf("%d", …) and strconv.ParseInt of an int64, as store.go uses them for the events of windows.
use native.Mathlib.Nat.{div-lt_iff_lt-mul, pow-suc}
use capacitor.Prelude.{
  ℕ, zero, suc, ◌+◌, ◌-◌, ◌*◌, ◌/◌, ◌%◌, ◌^◌, ◌<◌, ◌≤◌, ◌≡◌, refl, sym, ap, ◌∙◌, Bool-cases, inl,
  inr, some, [], ◌∷◌, ◌++◌, arith, Text, ltb, ℤ, pos, negsuc, InInt64,
}
use capacitor.Strings.{digits, decimal, parse_digits, parse_unsigned, parse_int, Lacks}

-- The text is not empty and has digits only.
abbrev AllDigits : Text → Type 0
AllDigits [] = Unit
AllDigits (x ∷ xs) = (48 ≤ x) × (x ≤ 57) × AllDigits xs

AllDigits-append : (xs : Text) (x : ℕ) → AllDigits xs → 48 ≤ x → x ≤ 57 → AllDigits (xs ++ x ∷ [])
AllDigits-append [] x h p q = (p, q, tt)
AllDigits-append (y ∷ xs) x (p, q, h) p' q' = (p, q, AllDigits-append xs x h p' q')

AllDigits-digits : (fuel n : ℕ) → AllDigits (digits fuel n)
unfolding digits
AllDigits-digits zero n = tt
AllDigits-digits (suc fuel) n = elim (Bool-cases (ltb n 10)) [
  | inl small ↦ rw small (omega arith, ground arith, tt)
  | inr big ↦ rw big (
      AllDigits-append (digits fuel (n / 10)) (48 + n % 10) (AllDigits-digits fuel (n / 10))
        (omega arith) (omega arith))
]

parse_digits-next :
    (acc x : ℕ) (xs : Text)
    → 48 ≤ x
    → x ≤ 57
    → parse_digits acc (x ∷ xs) ≡ parse_digits (acc * 10 + (x - 48)) xs
unfolding parse_digits
parse_digits-next acc x xs lo hi = ground arith

parse_digits-append :
    (acc v : ℕ) (xs : Text) (d : ℕ)
    → AllDigits xs
    → parse_digits acc xs ≡ some v
    → d < 10
    → parse_digits acc (xs ++ (48 + d) ∷ []) ≡ some (v * 10 + d)
parse_digits-append acc v [] d h e small = unfold parse_digits in ground (arith, e)
parse_digits-append acc v (x ∷ xs) d (lo, hi, h) e small =
    parse_digits-next acc x (xs ++ (48 + d) ∷ []) lo hi
    ∙ parse_digits-append (acc * 10 + (x - 48)) v xs d h
        (sym (parse_digits-next acc x xs lo hi) ∙ e) small

fewer : (fuel n : ℕ) → n < 10 ^ suc fuel → n / 10 < 10 ^ fuel
fewer fuel n lt = (div-lt_iff_lt-mul (omega arith)).1 (rw (← pow-suc 10 fuel) lt)

more : (fuel n : ℕ) → n < 10 ^ suc fuel → 10 ≤ n → 0 < fuel
more zero n lt big = absurd (omega arith)
more (suc fuel) n lt big = omega arith

-- Enough digits spell the number.
parse_digits-digits :
    (fuel n : ℕ) → n < 10 ^ fuel → 0 < fuel → parse_digits 0 (digits fuel n) ≡ some n
unfolding digits
parse_digits-digits zero n lt some_fuel = absurd (omega arith)
parse_digits-digits (suc fuel) n lt some_fuel = elim (Bool-cases (ltb n 10)) [
  | inl small ↦ rw small (
      parse_digits-next 0 (48 + n) [] (omega arith) (ground arith)
      ∙ (unfold parse_digits in ap some (omega arith)))
  | inr big ↦ rw big (
      parse_digits-append 0 (n / 10) (digits fuel (n / 10)) (n % 10)
        (AllDigits-digits fuel (n / 10))
        (parse_digits-digits fuel (n / 10) (fewer fuel n lt) (more fuel n lt (ground arith)))
        (omega arith)
      ∙ ap some (omega arith))
]

-- The text begins with a digit.
abbrev First : Text → Type 0
First s = (x : ℕ) × (xs : Text) × (s ≡ x ∷ xs) × (48 ≤ x) × (x ≤ 57)

First-append : (xs : Text) (y : ℕ) → AllDigits (xs ++ y ∷ []) → First (xs ++ y ∷ [])
First-append [] y (p, q, h) = (y, [], refl, p, q)
First-append (x ∷ xs) y (p, q, h) = (x, xs ++ y ∷ [], refl, p, q)

First-digits : (fuel n : ℕ) → First (digits (suc fuel) n)
unfolding digits
First-digits fuel n = elim (Bool-cases (ltb n 10)) [
  | inl small ↦ rw small (48 + n, [], refl, omega arith, ground arith)
  | inr big ↦ rw big (
      First-append (digits fuel (n / 10)) (48 + n % 10) (
        AllDigits-append (digits fuel (n / 10)) (48 + n % 10) (AllDigits-digits fuel (n / 10))
          (omega arith) (omega arith)))
]

parse_positive :
    (s : Text) (n : ℕ) → First s → parse_digits 0 s ≡ some n → n < 2 ^ 63 → parse_int s ≡ pos n
unfolding parse_int parse_unsigned
parse_positive s n (x, xs, e, lo, hi) parsed small =
    let p : parse_digits 0 (x ∷ xs) ≡ some n = sym (ap (parse_digits 0) e) ∙ parsed in
    rw e (ground (arith, p))

parse_negative :
    (s : Text) (n : ℕ)
    → First s
    → parse_digits 0 s ≡ some (suc n)
    → n < 2 ^ 63
    → parse_int (b'-' ∷ s) ≡ negsuc n
unfolding parse_int parse_unsigned
parse_negative s n (x, xs, e, lo, hi) parsed small =
    let p : parse_digits 0 (x ∷ xs) ≡ some (suc n) = sym (ap (parse_digits 0) e) ∙ parsed in
    rw e (ground (arith, p))

-- The decimal form of an `int64` is read back as that number.
pub parse_int-decimal : (z : ℤ) → InInt64 z → parse_int (decimal z) ≡ z
unfolding decimal
parse_int-decimal (pos n) h =
    parse_positive (digits 20 n) n (First-digits 19 n)
      (parse_digits-digits 20 n (omega arith) (omega arith)) (omega arith)
parse_int-decimal (negsuc n) h =
    parse_negative (digits 20 (suc n)) n (First-digits 19 (suc n))
      (parse_digits-digits 20 (suc n) (omega arith) (omega arith)) (omega arith)

-- The decimal form has no separator.
Lacks-AllDigits : (c : ℕ) (s : Text) → AllDigits s → 57 < c → Lacks c s
Lacks-AllDigits c [] h big = tt
Lacks-AllDigits c (x ∷ s) (p, q, h) big = (λ e. omega arith, Lacks-AllDigits c s h big)

pub Lacks-decimal : (z : ℤ) → Lacks b':' (decimal z)
unfolding decimal
Lacks-decimal (pos n) = Lacks-AllDigits b':' (digits 20 n) (AllDigits-digits 20 n) (omega arith)
Lacks-decimal (negsuc n) = (
  λ e. omega arith,
  Lacks-AllDigits b':' (digits 20 (suc n)) (AllDigits-digits 20 (suc n)) (omega arith),
)
