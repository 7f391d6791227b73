-- ===== src/Prelude/Numerals.antt =====
-- Numbers in texts: strconv.Atoi, strconv.ParseUint at base 10 and 64 bits, and strings.Fields.
use Prim.Native.Nat.{ℕ, zero, suc, ◌+◌, ◌-◌, ◌*◌, ◌/◌, ◌%◌, ◌≤◌, ◌<◌}
use mathlib.Core.Path.{◌≡◌, refl, ◌∙◌}
use mathlib.Core.Logic.{inl, inr}
use mathlib.Core.Bool.{Bool, true, false, ◌&&◌}
use mathlib.Core.List.{List, [], ◌∷◌}
use mathlib.Core.Option.{Option, none, some}
use native.Mathlib.Omega.{arith}
use onfire.Prelude.Tests.{◌==◌, ltb, leb, if◌then◌else◌, Bool-cases}
use onfire.Prelude.Int.{ℤ, pos, negsuc}
use onfire.Prelude.Text.{Text, is_digit, read_digits, decimal, digits_before, digit, is_space}

abbrev pub all_digits : Text → Bool
all_digits [] = true
all_digits (c ∷ s) = is_digit c && all_digits s

abbrev magnitude : Bool → ℕ → Option ℤ
magnitude true n =
    if n == 0
    then some (pos 0)
    else if leb n 9223372036854775808
    then some (negsuc (n - 1))
    else none
magnitude false n = if ltb n 9223372036854775808 then some (pos n) else none

unfoldable unsigned_value : Bool → Text → Option ℤ
unfolding read_digits
unsigned_value negative [] = none
unsigned_value negative (d ∷ ds) =
    if all_digits (d ∷ ds) then magnitude negative (read_digits 0 (d ∷ ds)) else none

-- strconv.Atoi, at 64 bits.
unfoldable pub atoi : Text → Option ℤ
unfolding unsigned_value
atoi [] = none
atoi (c ∷ s) =
    if c == b'-'
    then unsigned_value true s
    else if c == b'+'
    then unsigned_value false s
    else unsigned_value false (c ∷ s)

abbrev pub max_uint64 : ℕ
max_uint64 = 18446744073709551615

-- The value that ParseUint returns with or without an error: 0 for a character that is no digit, and
-- the largest number as soon as the digits read so far exceed it.
unfoldable pub uint_from : ℕ → Text → ℕ
uint_from n [] = n
uint_from n (c ∷ s) =
    let rest = uint_from (10 * n + (c - b'0')) s in
    if is_digit c then (if leb (10 * n + (c - b'0')) max_uint64 then rest else max_uint64) else 0

unfoldable pub parse_uint : Text → ℕ
unfolding uint_from
parse_uint [] = 0
parse_uint (c ∷ s) = uint_from 0 (c ∷ s)

abbrev pub push_word : Text → List Text → List Text
push_word [] ws = ws
push_word (c ∷ w) ws = (c ∷ w) ∷ ws

-- The word that a text begins with, and the words behind it.
unfoldable pub fields_of : Text → Text × List Text
unfolding is_space
fields_of [] = ([], [])
fields_of (c ∷ s) =
    let (word, words) = fields_of s in
    if is_space c then ([], push_word word words) else (c ∷ word, words)

-- strings.Fields
unfoldable pub fields : Text → List Text
unfolding fields_of
fields s = let (word, words) = fields_of s in push_word word words

digits_before-uint_from :
    (fuel n : ℕ) (rest : Text)
    → n < fuel
    → n ≤ max_uint64
    → uint_from 0 (digits_before 10 fuel n rest) ≡ uint_from n rest
unfolding uint_from digits_before
digits_before-uint_from zero n rest h le = absurd (omega arith)
digits_before-uint_from (suc fuel) n rest h le = elim (Bool-cases (ltb n 10)) [
  | inl t ↦ rw t (ground arith)
  | inr f ↦ rw f (
      digits_before-uint_from fuel (n / 10) (digit (n % 10) ∷ rest) (ground arith) (ground arith)
      ∙ ground arith)
]

parse_uint-uint_from : (s : Text) → parse_uint s ≡ uint_from 0 s
unfolding parse_uint uint_from
parse_uint-uint_from [] = refl
parse_uint-uint_from (c ∷ s) = refl

-- What is printed is read back.
pub parse_uint-decimal : (n : ℕ) → n ≤ max_uint64 → parse_uint (decimal n) ≡ n
unfolding decimal uint_from
parse_uint-decimal n h =
    parse_uint-uint_from (decimal n) ∙ digits_before-uint_from (n + 1) n [] (omega arith) h
