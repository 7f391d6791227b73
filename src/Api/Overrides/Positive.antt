-- ===== src/Api/Overrides/Positive.antt =====
-- What the parsed overrides hold.
use onfire.Prelude.{◌≡◌, refl, List, [], ◌∷◌, Option, none, some, arith}
use onfire.Prelude.Int.{ℤ, pos, ◌≤ℤ◌}
use onfire.Prelude.Text.{Text, codes, cut, split, trim_space}
use onfire.Prelude.Dict.{Dict, lookup, lookup-insert}
use onfire.Api.Overrides.{store_positive, add_pair, add_parts, parse_overrides, sscanf_int}

abbrev IsPositive : Dict ℤ → Type 0
IsPositive m = (k : Text) (n : ℤ) → lookup k m ≡ some n → pos 1 ≤ℤ n

store_positive-IsPositive :
    (key : Text) (n : ℤ) (m : Dict ℤ) → IsPositive m → IsPositive (store_positive key n m)
store_positive-IsPositive key n m h k v e = ground (arith, lookup-insert key k n m, h k v)

add_parts-IsPositive :
    (parts : List Text) (m : Dict ℤ) → IsPositive m → IsPositive (add_parts parts m)
unfolding add_parts
add_parts-IsPositive [] m h = h
add_parts-IsPositive (part ∷ parts) m h =
    add_parts-IsPositive parts (add_pair (cut b'=' part) m) (pair (cut b'=' part))
  where
    pair : (kv : Text × Option Text) → IsPositive (add_pair kv m)
    pair (key, none) = h
    pair (key, some value) = store_positive-IsPositive (trim_space key) (sscanf_int value) m h

-- Every override that is parsed, from any text, is a count or a size of at least 1.
pub parse_overrides-positive :
    (text key : Text) (n : ℤ) → lookup key (parse_overrides text) ≡ some n → pos 1 ≤ℤ n
unfolding parse_overrides lookup
parse_overrides-positive [] key n e = cc
parse_overrides-positive (c ∷ s) key n e =
    add_parts-IsPositive (split b',' (c ∷ s)) [] (λ k v h. cc) key n e

parse_two :
    parse_overrides (codes " web = 2x,db,api= +3")
    ≡ (codes "web", pos 2) ∷ (codes "api", pos 3) ∷ []
unfolding parse_overrides
parse_two = refl
