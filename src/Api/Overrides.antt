-- ===== src/Api/Overrides.antt =====
-- parseScaleOverrides and parseDiskOverrides of api/scenario.go, which cmd/scenario.go repeats: the
-- four functions have one body. fmt.Sscanf(s, "%d", &n) leaves n at 0 when it fails.
pub mod Positive
use onfire.Prelude.{
  ℕ, ◌-◌, List, [], ◌∷◌, Bool, true, false, Option, none, some, ltb, leb, ◌==◌, if◌then◌else◌,
}
use onfire.Prelude.Int.{ℤ, pos, negsuc, ltb_ℤ}
use onfire.Prelude.Text.{Text, split, cut, trim_space, is_space, is_digit, read_digits}
use onfire.Prelude.Dict.{Dict, insert}

-- SkipSpace of package fmt, which fails at a line's end.
unfoldable pub skip_blanks : Text → Option Text
unfolding is_space
skip_blanks [] = some []
skip_blanks (c ∷ s) =
    let rest = skip_blanks s in if c == 10 then none else if is_space c then rest else some (c ∷ s)

-- The digits that a text begins with.
unfoldable pub leading_digits : Text → Text
leading_digits [] = []
leading_digits (c ∷ s) = let rest = leading_digits s in if is_digit c then c ∷ rest else []

-- strconv.ParseInt of a sign and digits at 64 bits: 0 stands for a failure.
unfoldable pub signed_value : Bool → Text → ℤ
unfolding read_digits
signed_value negative [] = pos 0
signed_value negative (d ∷ ds) =
    let n = read_digits 0 (d ∷ ds) in
    if negative
    then (if n == 0 then pos 0 else if leb n 9223372036854775808 then negsuc (n - 1) else pos 0)
    else if ltb n 9223372036854775808
    then pos n
    else pos 0

unfoldable pub scan_signed : Text → ℤ
unfolding signed_value leading_digits
scan_signed [] = pos 0
scan_signed (c ∷ s) =
    if c == b'-'
    then signed_value true (leading_digits s)
    else if c == b'+'
    then signed_value false (leading_digits s)
    else signed_value false (leading_digits (c ∷ s))

abbrev scan_rest : Option Text → ℤ
scan_rest none = pos 0
scan_rest (some s) = scan_signed s

-- The value of n after `var n int; fmt.Sscanf(s, "%d", &n)`.
unfoldable pub sscanf_int : Text → ℤ
unfolding skip_blanks scan_signed
sscanf_int s = scan_rest (skip_blanks s)

abbrev pub store_positive : Text → ℤ → Dict ℤ → Dict ℤ
store_positive key n m = if ltb_ℤ (pos 0) n then insert key n m else m

abbrev pub add_pair : Text × Option Text → Dict ℤ → Dict ℤ
add_pair (key, none) m = m
add_pair (key, some value) m = store_positive (trim_space key) (sscanf_int value) m

unfoldable pub add_parts : List Text → Dict ℤ → Dict ℤ
unfolding sscanf_int trim_space cut insert
add_parts [] m = m
add_parts (part ∷ parts) m = add_parts parts (add_pair (cut b'=' part) m)

unfoldable pub parse_overrides : Text → Dict ℤ
unfolding add_parts split
parse_overrides [] = []
parse_overrides (c ∷ s) = add_parts (split b',' (c ∷ s)) []

abbrev pub parse_disk_overrides : Text → Dict ℤ
parse_disk_overrides s = parse_overrides s
