-- ===== src/Tests/Msgp.antt =====
-- A plain encoding in place of msgp's, which has its map headers and keys, for the examples.
use Prim.Native.Nat.{bit_or}
use mathlib.Core.Path.{subst}
use native.Mathlib.Decide.{dec_lt}
use capacitor.Prelude.{
  ℕ, zero, suc, ◌-◌, ◌≤◌, ◌<◌, ◌≡◌, refl, ap, Bool, true, false, not, ◌&&◌, some, none, List, [],
  ◌∷◌, ◌++◌, length, take, drop, Text, ltb, ◌^◌, pos_part, neg_part, Option, if◌then◌else◌, ℤ, pos,
  negsuc, arith, ◌==◌, ==_iff,
}
use capacitor.Server.Termination.{Leaves, LeavesLess, IsReader}
use capacitor.Wire.{Msgp, IsMsgp, Read}

abbrev put_ℤ : ℤ → List ℕ
put_ℤ (pos n) = 0 ∷ n ∷ []
put_ℤ (negsuc n) = 1 ∷ n ∷ []

-- Numbers that do not fit are refused.
abbrev checked : {X : Type 0} → Bool → X → Option X
checked c x = if c then some x else none

abbrev get_ℤ : ℕ → List ℕ → Read ℤ
get_ℤ k (zero ∷ n ∷ rest) = checked (ltb n k) (pos n, rest)
get_ℤ k (suc s ∷ n ∷ rest) = checked (ltb n k) (negsuc n, rest)
get_ℤ k bts = none

abbrev get_raw : List ℕ → Read ℤ
get_raw (zero ∷ n ∷ rest) = some (pos n, rest)
get_raw (suc s ∷ n ∷ rest) = some (negsuc n, rest)
get_raw bts = none

abbrev get_ℕ : ℕ → List ℕ → Read ℕ
get_ℕ k [] = none
get_ℕ k (x ∷ rest) = checked (ltb x k) (x, rest)

-- The first byte is a number on top of a mark.
abbrev get_marked : ℕ → List ℕ → Read ℕ
get_marked mark [] = none
get_marked mark (x ∷ rest) = some (x - mark, rest)

abbrev get_text : ℕ → List ℕ → Read Text
get_text mark [] = none
get_text mark (x ∷ rest) = some (take (x - mark) rest, drop (x - mark) rest)

abbrev starts_nil : List ℕ → Bool
starts_nil [] = false
starts_nil (x ∷ rest) = x == 0xc0

abbrev pub plain_msgp : Msgp ℤ
plain_msgp = record {
  append_uint64 = λ n. n ∷ [];
  append_int64 = put_ℤ;
  append_int32 = put_ℤ;
  append_byte = λ n. n ∷ [];
  append_string = λ s. length s ∷ s;
  append_bytes = λ s. length s ∷ s;
  append_float64 = put_ℤ;
  append_array_header = λ n. n ∷ [];
  append_nil = 0xc0 ∷ [];
  read_map_header = get_marked 0x80;
  read_map_key = get_text 0xa0;
  read_uint64 = get_ℕ (2 ^ 64);
  read_int64 = get_ℤ (2 ^ 63);
  read_int32 = get_ℤ (2 ^ 31);
  read_byte = get_ℕ 256;
  read_string = get_text 0;
  read_bytes = get_text 0;
  read_float64 = get_raw;
  read_array_header = get_ℕ (2 ^ 32);
  read_nil = λ bts. some (drop 1 bts);
  is_nil = starts_nil;
  skip = λ bts. some (drop 1 bts);
  uint64_size = 9;
  int64_size = 9;
  int32_size = 5;
  byte_size = 2;
  string_prefix_size = 5;
  bytes_prefix_size = 5;
  float64_size = 9;
  array_header_size = 5;
  nil_size = 1;
}

get_raw-put_ℤ : (z : ℤ) (rest : List ℕ) → get_raw (put_ℤ z ++ rest) ≡ some (z, rest)
get_raw-put_ℤ (pos n) rest = refl
get_raw-put_ℤ (negsuc n) rest = refl

get_ℤ-put_ℤ :
    (k : ℕ) (z : ℤ) (rest : List ℕ)
    → pos_part z < k
    → neg_part z ≤ k
    → get_ℤ k (put_ℤ z ++ rest) ≡ some (z, rest)
get_ℤ-put_ℤ k (pos n) rest p q = ground arith
get_ℤ-put_ℤ k (negsuc n) rest p q = ground arith

get_ℕ_lem : (k n : ℕ) (rest : List ℕ) → n < k → get_ℕ k (n ∷ rest) ≡ some (n, rest)
get_ℕ_lem k n rest p = ground arith

length-put_ℤ : (z : ℤ) → length (put_ℤ z) ≡ 2
length-put_ℤ (pos n) = refl
length-put_ℤ (negsuc n) = refl

take-front : (s rest : List ℕ) → take (length s) (s ++ rest) ≡ s
take-front [] rest = refl
take-front (x ∷ s) rest = ap (λ t. x ∷ t) (take-front s rest)

drop-front : (s rest : List ℕ) → drop (length s) (s ++ rest) ≡ rest
drop-front [] rest = refl
drop-front (x ∷ s) rest = drop-front s rest

get_text_lem :
    (mark x : ℕ) (s rest : List ℕ)
    → x - mark ≡ length s
    → get_text mark (x ∷ s ++ rest) ≡ some (s, rest)
get_text_lem mark x s rest e = rw (e, take-front s rest, drop-front s rest) refl

-- The test holds of all numbers below a bound.
abbrev all_below : ℕ → (ℕ → Bool) → Bool
all_below zero p = true
all_below (suc k) p = p k && all_below k p

all_below_lem : (k n : ℕ) (p : ℕ → Bool) → all_below k p ≡ true → n < k → p n ≡ true
all_below_lem zero n p h lt = absurd (omega arith)
all_below_lem (suc k) n p h lt = elim (dec_lt n k) [
  | yes below ↦ all_below_lem k n p (ground (arith, h)) below
  | no above ↦ let last : k ≡ n = omega arith in subst (λ i. p i ≡ true) last (ground (arith, h))
]

header_lem : (n : ℕ) → n < 16 → bit_or 0x80 n - 0x80 ≡ n
header_lem n lt = (==_iff _ _).0 (all_below_lem 16 n (λ i. bit_or 0x80 i - 0x80 == i) refl lt)

key_lem : (n : ℕ) → n < 32 → bit_or 0xa0 n - 0xa0 ≡ n
key_lem n lt = (==_iff _ _).0 (all_below_lem 32 n (λ i. bit_or 0xa0 i - 0xa0 == i) refl lt)

not_nil_lem : (n : ℕ) → n < 16 → (bit_or 0x80 n == 0xc0) ≡ false
not_nil_lem n lt = not_true (all_below_lem 16 n (λ i. not (bit_or 0x80 i == 0xc0)) refl lt)
  where
    not_true : {b : Bool} → not b ≡ true → b ≡ false
    not_true {b} e = ground (arith, e)

pub plain_msgp-IsMsgp : IsMsgp plain_msgp
plain_msgp-IsMsgp = record {
  uint64_reads = λ n h rest. get_ℕ_lem (2 ^ 64) n rest h;
  int64_reads = λ z h rest. get_ℤ-put_ℤ (2 ^ 63) z rest h.0 h.1;
  int32_reads = λ z h rest. get_ℤ-put_ℤ (2 ^ 31) z rest h.0 h.1;
  byte_reads = λ n h rest. get_ℕ_lem 256 n rest h;
  string_reads = λ s h rest. get_text_lem 0 (length s) s rest (omega arith);
  bytes_reads = λ s h rest. get_text_lem 0 (length s) s rest (omega arith);
  float64_reads = λ z rest. get_raw-put_ℤ z rest;
  array_header_reads = λ n h rest. get_ℕ_lem (2 ^ 32) n rest h;
  map_header_reads = λ n rest h. ap (λ k. some (k, rest)) (header_lem n h);
  map_key_reads =
      λ key rest h. get_text_lem 0xa0 (bit_or 0xa0 (length key)) key rest (key_lem (length key) h);
  map_header_end = refl;
  is_nil_map = λ n rest h. not_nil_lem n h;
  uint64_within = λ n. omega arith;
  int64_within = λ z. rw (length-put_ℤ z) (omega arith);
  int32_within = λ z. rw (length-put_ℤ z) (omega arith);
  byte_within = λ n. omega arith;
  string_within = λ s. omega arith;
  bytes_within = λ s. omega arith;
  float64_within = λ z. rw (length-put_ℤ z) (omega arith);
  array_header_within = λ n. omega arith;
}

checked-Leaves :
    {X : Type 0} (c : Bool) (x : X) (k : ℕ) (rest : List ℕ)
    → length rest ≤ k
    → Leaves k (checked c (x, rest))
unfolding Leaves
checked-Leaves true x k rest h = h
checked-Leaves false x k rest h = tt

length-drop_le : (n : ℕ) (xs : List ℕ) → length (drop n xs) ≤ length xs
length-drop_le zero xs = omega arith
length-drop_le (suc n) [] = omega arith
length-drop_le (suc n) (x ∷ xs) = omega (arith, length-drop_le n xs)

get_ℕ-Leaves : (k : ℕ) (bts : List ℕ) → Leaves (length bts) (get_ℕ k bts)
get_ℕ-Leaves k [] = unfold Leaves in tt
get_ℕ-Leaves k (x ∷ rest) = checked-Leaves (ltb x k) x (suc (length rest)) rest (omega arith)

get_text-Leaves : (mark : ℕ) (bts : List ℕ) → Leaves (length bts) (get_text mark bts)
unfolding Leaves
get_text-Leaves mark [] = tt
get_text-Leaves mark (x ∷ rest) = omega (arith, length-drop_le (x - mark) rest)

get_marked-LeavesLess : (mark : ℕ) (bts : List ℕ) → LeavesLess (length bts) (get_marked mark bts)
get_marked-LeavesLess mark [] = tt
get_marked-LeavesLess mark (x ∷ rest) = omega arith

pub plain_msgp-IsReader : IsReader plain_msgp
plain_msgp-IsReader = record {
  map_header_leaves = get_marked-LeavesLess 0x80;
  map_key_leaves = get_text-Leaves 0xa0;
  uint64_leaves = get_ℕ-Leaves (2 ^ 64);
  string_leaves = get_text-Leaves 0;
  bytes_leaves = get_text-Leaves 0;
  array_header_leaves = get_ℕ-Leaves (2 ^ 32);
  nil_drops = length-drop_le 1;
  skip_drops = length-drop_le 1;
}
