-- ===== src/Flags.antt =====
-- Package flag as the commands of cmd/ and onfirec/main.go use it: FlagSet.Parse on the flags that a
-- command declares. `read` is strconv.ParseInt(s, 0, 64), none on an error. A text stands for its bytes.
pub mod Settings
pub mod Positional
use onfire.Prelude.{
  ℕ, ◌+◌, List, [], ◌∷◌, ◌++◌, Bool, true, false, ◌&&◌, ◌||◌, not, Option, none, some,
  if◌then◌else◌, Result, ok, err, ◌==◌, contains,
}
use onfire.Prelude.Int.{ℤ, pos}
use onfire.Prelude.Text.{Text, codes, text_eq, cut, or_else}
use onfire.Prelude.Dict.{Dict, lookup, insert}

-- A flag's value, of the type that it is declared with.
pub data Value : Type 0 where
  text : Text → Value
  int : ℤ → Value
  bool : Bool → Value

-- The flags of a command with their values, the defaults at first.
abbrev pub FlagSet : Type 0
FlagSet = Dict Value

pub data FlagError : Type 0 where
  help : FlagError
  bad_syntax bad_value not_defined no_argument : Text → FlagError

-- flag.ExitOnError.
unfoldable pub exit_code : FlagError → ℕ
exit_code help = 0
exit_code _ = 2

abbrev one_of : Text → List Text → Bool
one_of s [] = false
one_of s (t ∷ ts) = text_eq s t || one_of s ts

-- strconv.ParseBool
unfoldable pub parse_bool : Text → Option Bool
parse_bool s =
    if one_of s
      (codes "1" ∷ codes "t" ∷ codes "T" ∷ codes "true" ∷ codes "TRUE" ∷ codes "True" ∷ [])
    then some true
    else if one_of s
        (codes "0" ∷ codes "f" ∷ codes "F" ∷ codes "false" ∷ codes "FALSE" ∷ codes "False" ∷ [])
    then some false
    else none

-- What an argument is: the end of the flags, "--", an error, a flag whose value is the next argument, or
-- a flag with its value.
pub data Argument : Type 0 where
  positional : Argument
  terminator : Argument
  refused : FlagError → Argument
  wants : Text → Argument
  assigns : Text → Value → Argument

module _ (read : Text → Option ℤ) where
  abbrev pub int_value : Option ℤ → Option Value
  int_value none = none
  int_value (some n) = some (int n)

  abbrev pub bool_value : Option Bool → Option Value
  bool_value none = none
  bool_value (some b) = some (bool b)

  -- Set, by the type of the flag.
  abbrev pub value_like : Value → Text → Option Value
  value_like (text t) s = some (text s)
  value_like (int n) s = int_value (read s)
  value_like (bool b) s = bool_value (parse_bool s)

  abbrev pub assigned : Text → Option Value → Argument
  assigned name none = refused (bad_value name)
  assigned name (some v) = assigns name v

  abbrev pub unknown : Text → Argument
  unknown name =
      if text_eq name (codes "help") || text_eq name (codes "h")
      then refused help
      else refused (not_defined name)

  -- A flag without "=" is true if it is a Boolean.
  abbrev pub bare : Text → Value → Argument
  bare name (bool b) = assigns name (bool true)
  bare name v = wants name

  abbrev pub flag_argument : Text → Option Value → Option Text → Argument
  flag_argument name none value = unknown name
  flag_argument name (some old) none = bare name old
  flag_argument name (some old) (some s) = assigned name (value_like old s)

  -- The name and what follows its first "=", if there is one.
  abbrev pub named : FlagSet → Text → Argument
  named fs [] = refused (bad_syntax [])
  named fs (c ∷ s) =
      if (c == b'-') || (c == b'=')
      then refused (bad_syntax (c ∷ s))
      else let (name, value) = cut b'=' (c ∷ s) in flag_argument name (lookup name fs) value

  -- Behind one hyphen.
  abbrev pub hyphened : FlagSet → Text → Argument
  hyphened fs [] = positional
  hyphened fs (d ∷ s) =
      if d == b'-' then (if text_eq s [] then terminator else named fs s) else named fs (d ∷ s)

  unfoldable pub argument : FlagSet → Text → Argument
  unfolding lookup cut parse_bool
  argument fs [] = positional
  argument fs (c ∷ s) = if c == b'-' then hyphened fs s else positional

  abbrev pub set_value : Text → FlagSet → Option Value → Result FlagError FlagSet
  set_value name fs none = err (bad_value name)
  set_value name fs (some v) = ok (insert name v fs)

  abbrev pub set_declared : Text → FlagSet → Text → Option Value → Result FlagError FlagSet
  set_declared name fs s none = err (not_defined name)
  set_declared name fs s (some old) = set_value name fs (value_like old s)

  -- The value of a flag that stands in the next argument.
  unfoldable pub set_next : FlagSet → Text → Text → Result FlagError FlagSet
  unfolding lookup insert parse_bool
  set_next fs name s = set_declared name fs s (lookup name fs)

  -- What follows an argument: `go_on` parses the rest, with a flag that waits for its value.
  abbrev pub proceed :
      FlagSet
      → Text
      → List Text
      → (Option Text → FlagSet → Result FlagError (FlagSet × List Text))
      → Argument
      → Result FlagError (FlagSet × List Text)
  proceed fs s args go_on positional = ok (fs, s ∷ args)
  proceed fs s args go_on terminator = ok (fs, args)
  proceed fs s args go_on (refused e) = err e
  proceed fs s args go_on (wants name) = go_on (some name) fs
  proceed fs s args go_on (assigns name v) = go_on none (insert name v fs)

  abbrev pub continue_with :
      (FlagSet → Result FlagError (FlagSet × List Text))
      → Result FlagError FlagSet
      → Result FlagError (FlagSet × List Text)
  continue_with go_on (err e) = err e
  continue_with go_on (ok fs) = go_on fs

  -- Parse: the flags, and the arguments behind them.
  unfoldable pub parse_flags :
      Option Text → FlagSet → List Text → Result FlagError (FlagSet × List Text)
  unfolding argument set_next insert
  parse_flags none fs [] = ok (fs, [])
  parse_flags (some name) fs [] = err (no_argument name)
  parse_flags (some name) fs (s ∷ args) =
      continue_with (λ fs'. parse_flags none fs' args) (set_next fs name s)
  parse_flags none fs (s ∷ args) =
      proceed fs s args (λ pending fs'. parse_flags pending fs' args) (argument fs s)

-- The value of a flag of the type that it is declared with.
abbrev pub as_text : Option Value → Text
as_text (some (text t)) = t
as_text _ = []

abbrev pub as_int : Option Value → ℤ
as_int (some (int n)) = n
as_int _ = pos 0

abbrev pub as_bool : Option Value → Bool
as_bool (some (bool b)) = b
as_bool _ = false

unfoldable pub text_of : Text → FlagSet → Text
unfolding lookup
text_of name fs = as_text (lookup name fs)

unfoldable pub int_of : Text → FlagSet → ℤ
unfolding lookup
int_of name fs = as_int (lookup name fs)

unfoldable pub bool_of : Text → FlagSet → Bool
unfolding lookup
bool_of name fs = as_bool (lookup name fs)

-- fs.Arg(0)
abbrev pub first_arg : List Text → Text
first_arg [] = []
first_arg (s ∷ args) = s

-- flag.ExitOnError: the process ends on an error.
abbrev pub parsed {ℓ} :
    {A : Type ℓ} → (FlagSet → List Text → A) → Result FlagError (FlagSet × List Text) → Result ℕ A
parsed f (err e) = err (exit_code e)
parsed f (ok (fs, args)) = ok (f fs args)
