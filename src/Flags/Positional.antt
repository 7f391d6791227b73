-- ===== src/Flags/Positional.antt =====
-- Where the flags of a command line end: the parser of Flags stops at the first argument that is no flag.
use onfire.Prelude.{
  ◌≡◌, refl, ap, ◌∙◌, List, [], ◌∷◌, ◌++◌, Bool, true, not, Option, none, some, if◌then◌else◌, ok,
  ◌==◌, All, Bool-cases, inl, inr,
}
use onfire.Prelude.Int.{ℤ}
use onfire.Prelude.Text.{Text, text_eq}
use onfire.Prelude.Dict.{lookup, insert, lookup-insert}
use onfire.Flags.{Value, FlagSet, positional, argument, parse_flags, proceed}
use onfire.Flags.Settings.{Setting, all_spelled, store, Declared, parse_flags-spelled}

-- An argument that is no flag: empty, "-", or without a hyphen in front.
abbrev pub is_positional : Text → Bool
is_positional [] = true
is_positional (c ∷ []) = true
is_positional (c ∷ d ∷ s) = not (c == b'-')

abbrev pub ends_flags : List Text → Bool
ends_flags [] = true
ends_flags (s ∷ args) = is_positional s

-- The value that a flag is given last.
abbrev pub given : Text → List Setting → Option Value → Option Value
given name [] v = v
given name (s ∷ ss) v = given name ss (if text_eq s.name name then some s.value else v)

lookup-store :
    (name : Text) (ss : List Setting) (fs : FlagSet)
    → lookup name (store ss fs) ≡ given name ss (lookup name fs)
lookup-store name [] fs = refl
lookup-store name (s ∷ ss) fs =
    lookup-store name ss (insert s.name s.value fs)
    ∙ ap (given name ss) (lookup-insert s.name name s.value fs)

module _ (read : Text → Option ℤ) (fs : FlagSet) where
  argument-positional : (s : Text) → is_positional s ≡ true → argument read fs s ≡ positional
  unfolding argument
  argument-positional [] h = refl
  argument-positional (c ∷ []) h = elim (Bool-cases (c == b'-')) [
    | inl e ↦ rw e refl
    | inr e ↦ rw e refl
  ]
  argument-positional (c ∷ d ∷ s) h = elim (Bool-cases (c == b'-')) [
    | inl e ↦ cc (rw e at h)
    | inr e ↦ rw e refl
  ]

  -- Nothing behind such an argument is read as a flag.
  pub parse_flags-positional :
      (args : List Text) → ends_flags args ≡ true → parse_flags read none fs args ≡ ok (fs, args)
  unfolding parse_flags
  parse_flags-positional [] h = refl
  parse_flags-positional (s ∷ args) h =
      ap (proceed read fs s args (λ pending fs'. parse_flags read pending fs' args))
        (argument-positional s h)

-- What a user writes is read back. A command line gives some of the declared flags, each as
-- "-name=value", as "-name value" or (a Boolean) as "-name", with one hyphen or two, and with a value of
-- the flag's type; then come arguments of which the first one is no flag. Parse leaves these arguments,
-- and every flag has the value that it was given last, or else the one that it had.
pub parse_flags-given :
    (read : Text → Option ℤ) (fs : FlagSet) (ss : List Setting) (args : List Text)
    → All (Declared read fs) ss
    → ends_flags args ≡ true
    → (parse_flags read none fs (all_spelled ss ++ args) ≡ ok (store ss fs, args))
      × ((name : Text) → lookup name (store ss fs) ≡ given name ss (lookup name fs))
parse_flags-given read fs ss args h stop = (
  parse_flags-spelled read fs ss args h ∙ parse_flags-positional read (store ss fs) args stop,
  λ name. lookup-store name ss fs,
)
