-- ===== src/Strings.antt =====
-- The functions of Go's `strings`, `strconv` and `fmt` that store.go calls, on byte strings.
pub mod Decimal
use capacitor.Prelude.{
  ℕ, zero, suc, ◌+◌, ◌-◌, ◌*◌, ◌/◌, ◌%◌, ◌^◌, ◌<◌, ap, ◌≡◌, refl, ◌≢◌, Bool, true, false, ◌&&◌,
  Option, none, some, List, [], ◌∷◌, ◌++◌, arith, Text, ◌==◌, leb, ltb, if◌then◌else◌, ℤ, pos,
  negsuc, max_int64, length,
}

abbrev pub colon : ℕ
colon = b':'

-- strings.Index(s, ":") for the one separator in use, as an option.
unfoldable pub index_of : ℕ → Text → Option ℕ
index_of c [] = none
index_of c (x ∷ xs) =
    let rest = index_of c xs in
    if x == c then some 0 else elim rest [ none ↦ none | some i ↦ some (suc i) ]

-- strings.HasPrefix(s, prefix)
unfoldable pub has_prefix : Text → Text → Bool
has_prefix s [] = true
has_prefix [] (p ∷ ps) = false
has_prefix (x ∷ xs) (p ∷ ps) = x == p && has_prefix xs ps

-- strings.Split(s, ":"): never empty; the first part is `.0`, the others `.1`.
split_parts : ℕ → Text → Text × List Text
split_parts c [] = ([], [])
split_parts c (x ∷ xs) =
    let (part, parts) = split_parts c xs in if x == c then ([], part ∷ parts) else (x ∷ part, parts)

unfoldable pub split : ℕ → Text → List Text
unfolding split_parts
split c s = let (part, parts) = split_parts c s in part ∷ parts

-- binary.BigEndian.PutUint64
unfoldable pub to_be64 : ℕ → List ℕ
to_be64 n =
    n / 2 ^ 56 % 256
    ∷ n / 2 ^ 48 % 256
    ∷ n / 2 ^ 40 % 256
    ∷ n / 2 ^ 32 % 256
    ∷ n / 2 ^ 24 % 256
    ∷ n / 2 ^ 16 % 256
    ∷ n / 2 ^ 8 % 256
    ∷ n % 256
    ∷ []

-- binary.BigEndian.Uint64, which reads the first eight bytes and panics on fewer.
unfoldable pub from_be64 : List ℕ → Option ℕ
from_be64 (a ∷ b ∷ c ∷ d ∷ e ∷ f ∷ g ∷ h ∷ rest) =
    some
      (a * 2 ^ 56 + b * 2 ^ 48 + c * 2 ^ 40 + d * 2 ^ 32 + e * 2 ^ 24 + f * 2 ^ 16 + g * 2 ^ 8 + h)
from_be64 bytes = none

pub from_be64-to_be64 : (n : ℕ) → n < 2 ^ 64 → from_be64 (to_be64 n) ≡ some n
unfolding from_be64 to_be64
from_be64-to_be64 n h = ap some (omega arith)

-- The decimal digits of `n`; `fuel` is at least their number.
digits : ℕ → ℕ → Text
digits zero n = []
digits (suc fuel) n =
    let rest = digits fuel (n / 10) in
    if ltb n 10 then (48 + n) ∷ [] else rest ++ (48 + n % 10) ∷ []

-- fmt.Sprintf("%d", z) for an int64, whose magnitude has at most 19 digits.
unfoldable pub decimal : ℤ → Text
unfolding digits
decimal (pos n) = digits 20 n
decimal (negsuc n) = b'-' ∷ digits 20 (suc n)

-- The number that a run of digits spells, on top of `acc`; `none` at any other byte.
parse_digits : ℕ → Text → Option ℕ
parse_digits acc [] = some acc
parse_digits acc (x ∷ xs) =
    if leb 48 x && leb x 57 then parse_digits (acc * 10 + (x - 48)) xs else none

parse_unsigned : Text → Option ℕ
parse_unsigned [] = none
parse_unsigned (x ∷ xs) = parse_digits 0 (x ∷ xs)

-- The value that strconv.ParseInt(s, 10, 64) returns beside its error: 0 on a syntax error, the
-- nearest int64 out of range. (An optional sign, then at least one digit.)
unfoldable pub parse_int : Text → ℤ
unfolding parse_unsigned parse_digits
parse_int [] = pos 0
parse_int (x ∷ xs) =
    if x == b'-'
    then negative (parse_unsigned xs)
    else if x == b'+'
    then positive (parse_unsigned xs)
    else positive (parse_unsigned (x ∷ xs))
  where
    positive : Option ℕ → ℤ
    positive none = pos 0
    positive (some n) = pos (if ltb max_int64 n then max_int64 else n)

    negative : Option ℕ → ℤ
    negative none = pos 0
    negative (some zero) = pos 0
    negative (some (suc n)) = negsuc (if ltb max_int64 n then max_int64 else n)

-- No byte of the text is `c`.
abbrev pub Lacks : ℕ → Text → Type 0
Lacks c [] = Unit
Lacks c (x ∷ xs) = (x ≢ c) × Lacks c xs

pub index_of-Lacks : (c : ℕ) (s : Text) → Lacks c s → index_of c s ≡ none
unfolding index_of
index_of-Lacks c [] h = refl
index_of-Lacks c (x ∷ xs) h = ground (arith, index_of-Lacks c xs h.1)

-- The first separator stands right behind a text that lacks it.
pub index_of-append : (c : ℕ) (s t : Text) → Lacks c s → index_of c (s ++ c ∷ t) ≡ some (length s)
unfolding index_of
index_of-append c [] t h = ground arith
index_of-append c (x ∷ xs) t h = ground (arith, index_of-append c xs t h.1)

split_parts-Lacks : (c : ℕ) (s : Text) → Lacks c s → split_parts c s ≡ (s, [])
unfolding split_parts
split_parts-Lacks c [] h = refl
split_parts-Lacks c (x ∷ xs) h = ground (arith, split_parts-Lacks c xs h.1)

split_parts-append : (c : ℕ) (s t : Text) → Lacks c s → split_parts c (s ++ c ∷ t) ≡ (s, split c t)
unfolding split_parts split
split_parts-append c [] t h = ground arith
split_parts-append c (x ∷ xs) t h = ground (arith, split_parts-append c xs t h.1)

pub split-append : (c : ℕ) (s t : Text) → Lacks c s → split c (s ++ c ∷ t) ≡ s ∷ split c t
unfolding split
split-append c s t h = rw (split_parts-append c s t h)

pub split-Lacks : (c : ℕ) (s : Text) → Lacks c s → split c s ≡ s ∷ []
unfolding split
split-Lacks c s h = rw (split_parts-Lacks c s h)
