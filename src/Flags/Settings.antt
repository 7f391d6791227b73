-- ===== src/Flags/Settings.antt =====
-- The flags that a user writes are read back: the parser of Flags, on arguments of the documented forms.
use onfire.Prelude.{
  ℕ, ◌≡◌, refl, ap, sym, ◌∙◌, List, [], ◌∷◌, ◌++◌, Bool, true, false, ◌&&◌, ◌||◌, not, Option, none,
  some, if◌then◌else◌, ok, ◌==◌, All, some_eq_some, Bool-cases, inl, inr, arith,
}
use mathlib.Core.List.{append_assoc}
use onfire.Prelude.Int.{ℤ}
use onfire.Prelude.Text.{Text, text_eq, text_eq_sound, cut}
use onfire.Prelude.Dict.{lookup, insert, lookup-insert}
use onfire.Flags.{
  Value, text, int, bool, FlagSet, wants, assigns, value_like, bare, assigned, argument, set_next,
  parse_flags, named, parse_bool, int_value, bool_value, proceed, continue_with, set_declared,
  set_value,
}

abbrev pub no_equals : Text → Bool
no_equals [] = true
no_equals (c ∷ s) = not (c == b'=') && no_equals s

-- A name that a flag can be given by.
abbrev pub is_name : Text → Bool
is_name [] = false
is_name (c ∷ s) = not (c == b'-') && no_equals (c ∷ s)

-- "-name=value", "-name value" and "-name", each with one hyphen or two.
pub data Spelling : Type 0 where
  joined apart alone : Bool → Spelling

pub record Setting : Type 0 where
  pub spelling : Spelling
  pub name : Text
  pub raw : Text
  pub value : Value

abbrev pub hyphens : Bool → Text → Text
hyphens two s = if two then b'-' ∷ b'-' ∷ s else b'-' ∷ s

abbrev spelled_as : Spelling → Text → Text → List Text
spelled_as (joined two) name raw = hyphens two (name ++ (b'=' ∷ raw)) ∷ []
spelled_as (apart two) name raw = hyphens two name ∷ raw ∷ []
spelled_as (alone two) name raw = hyphens two name ∷ []

abbrev pub spelled : Setting → List Text
spelled s = spelled_as s.spelling s.name s.raw

abbrev pub all_spelled : List Setting → List Text
all_spelled [] = []
all_spelled (s ∷ ss) = spelled s ++ all_spelled ss

abbrev pub store : List Setting → FlagSet → FlagSet
store [] fs = fs
store (s ∷ ss) fs = store ss (insert s.name s.value fs)

cut-name :
    (name rest : Text)
    → no_equals name ≡ true
    → cut b'=' (name ++ (b'=' ∷ rest)) ≡ (name, some rest)
unfolding cut
cut-name [] rest h = refl
cut-name (c ∷ name) rest h = elim (Bool-cases (c == b'=')) [
  | inl e ↦ cc (rw e at h)
  | inr e ↦ rw (e, cut-name name rest (rw e at h)) refl
]

cut-all : (name : Text) → no_equals name ≡ true → cut b'=' name ≡ (name, none)
unfolding cut
cut-all [] h = refl
cut-all (c ∷ name) h = elim (Bool-cases (c == b'=')) [
  | inl e ↦ cc (rw e at h)
  | inr e ↦ rw (e, cut-all name (rw e at h)) refl
]

both : (a b : Bool) → (not a && b) ≡ true → (a ≡ false) × (b ≡ true)
both true b h = cc h
both false b h = (refl, h)

name_head :
    (c : ℕ) (s : Text)
    → is_name (c ∷ s) ≡ true
    → (((c == b'-') || (c == b'=')) ≡ false) × (no_equals (c ∷ s) ≡ true)
name_head c s h =
    let (no_dash, whole) = both (c == b'-') (no_equals (c ∷ s)) h in
    let (no_equal, rest) = both (c == b'=') (no_equals s) whole in
    (rw (no_dash, no_equal) refl, whole)

module _ (read : Text → Option ℤ) where
  -- The value of a setting, by the type that the flag is declared with.
  abbrev pub Fits : Value → Spelling → Text → Value → Type 0
  Fits old (joined two) raw v = value_like read old raw ≡ some v
  Fits (bool b) (apart two) raw v = ⊥
  Fits (text t) (apart two) raw v = value_like read (text t) raw ≡ some v
  Fits (int n) (apart two) raw v = value_like read (int n) raw ≡ some v
  Fits (bool b) (alone two) raw v = v ≡ bool true
  Fits (text t) (alone two) raw v = ⊥
  Fits (int n) (alone two) raw v = ⊥

  abbrev pub Declared : FlagSet → Setting → Type 0
  Declared fs s =
      (is_name s.name ≡ true)
      × ((old : Value) × (lookup s.name fs ≡ some old) × Fits old s.spelling s.raw s.value)

  -- Where the name ends at "=".
  named-joined :
      (fs : FlagSet) (name raw : Text) (old v : Value)
      → is_name name ≡ true
      → lookup name fs ≡ some old
      → value_like read old raw ≡ some v
      → named read fs (name ++ (b'=' ∷ raw)) ≡ assigns name v
  named-joined fs [] raw old v n l h = cc n
  named-joined fs (c ∷ s) raw old v n l h =
      let (head, whole) = name_head c s n in
      rw (head, cut-name (c ∷ s) raw whole, l) (ap (assigned read (c ∷ s)) h)

  -- Where it ends with the argument.
  named-alone :
      (fs : FlagSet) (name : Text) (old : Value)
      → is_name name ≡ true
      → lookup name fs ≡ some old
      → named read fs name ≡ bare read name old
  named-alone fs [] old n l = cc n
  named-alone fs (c ∷ s) old n l =
      let (head, whole) = name_head c s n in rw (head, cut-all (c ∷ s) whole, l) refl

  -- One hyphen or two in front of what begins like a name.
  argument-hyphens :
      (fs : FlagSet) (two : Bool) (c : ℕ) (s : Text)
      → (c == b'-') ≡ false
      → argument read fs (hyphens two (c ∷ s)) ≡ named read fs (c ∷ s)
  unfolding argument
  argument-hyphens fs true c s h = refl
  argument-hyphens fs false c s h = rw h refl

  argument-name :
      (fs : FlagSet) (two : Bool) (name rest : Text)
      → is_name name ≡ true
      → argument read fs (hyphens two (name ++ rest)) ≡ named read fs (name ++ rest)
  argument-name fs two [] rest n = cc n
  argument-name fs two (c ∷ s) rest n =
      argument-hyphens fs two c (s ++ rest) (both (c == b'-') (no_equals (c ∷ s)) n).0

  parse_assigns :
      (fs : FlagSet) (s name : Text) (v : Value) (args : List Text)
      → argument read fs s ≡ assigns name v
      → parse_flags read none fs (s ∷ args) ≡ parse_flags read none (insert name v fs) args
  unfolding parse_flags
  parse_assigns fs s name v args e =
      ap (proceed read fs s args (λ pending fs'. parse_flags read pending fs' args)) e

  set_next-value :
      (fs : FlagSet) (name raw : Text) (old v : Value)
      → lookup name fs ≡ some old
      → value_like read old raw ≡ some v
      → set_next read fs name raw ≡ ok (insert name v fs)
  unfolding set_next
  set_next-value fs name raw old v l h =
      ap (set_declared read name fs raw) l ∙ ap (set_value read name fs) h

  parse_wants :
      (fs : FlagSet) (s name raw : Text) (old v : Value) (args : List Text)
      → argument read fs s ≡ wants name
      → lookup name fs ≡ some old
      → value_like read old raw ≡ some v
      → parse_flags read none fs (s ∷ raw ∷ args) ≡ parse_flags read none (insert name v fs) args
  unfolding parse_flags
  parse_wants fs s name raw old v args e l h =
      ap (proceed read fs s (raw ∷ args) (λ pending fs'. parse_flags read pending fs' (raw ∷ args)))
        e
      ∙ ap (continue_with read (λ fs'. parse_flags read none fs' args))
          (set_next-value fs name raw old v l h)

  -- The argument of a name alone.
  argument-alone :
      (fs : FlagSet) (two : Bool) (name : Text) (old : Value)
      → is_name name ≡ true
      → lookup name fs ≡ some old
      → argument read fs (hyphens two name) ≡ bare read name old
  argument-alone fs two [] old n l = cc n
  argument-alone fs two (c ∷ s) old n l =
      argument-hyphens fs two c s (both (c == b'-') (no_equals (c ∷ s)) n).0
      ∙ named-alone fs (c ∷ s) old n l

  -- A setting in front of other arguments is stored.
  stored_as :
      (fs : FlagSet) (how : Spelling) (name raw : Text) (old v : Value) (args : List Text)
      → is_name name ≡ true
      → lookup name fs ≡ some old
      → Fits old how raw v
      → parse_flags read none fs (spelled_as how name raw ++ args)
        ≡ parse_flags read none (insert name v fs) args
  stored_as fs (joined two) name raw old v args n l h =
      parse_assigns fs (hyphens two (name ++ (b'=' ∷ raw))) name v args
        (argument-name fs two name (b'=' ∷ raw) n ∙ named-joined fs name raw old v n l h)
  stored_as fs (apart two) name raw (text t) v args n l h =
      parse_wants fs (hyphens two name) name raw (text t) v args
        (argument-alone fs two name (text t) n l) l h
  stored_as fs (apart two) name raw (int k) v args n l h =
      parse_wants fs (hyphens two name) name raw (int k) v args
        (argument-alone fs two name (int k) n l) l h
  stored_as fs (apart two) name raw (bool b) v args n l h = absurd h
  stored_as fs (alone two) name raw (bool b) v args n l h =
      parse_assigns fs (hyphens two name) name v args
        (argument-alone fs two name (bool b) n l ∙ ap (assigns name) (sym h))
  stored_as fs (alone two) name raw (text t) v args n l h = absurd h
  stored_as fs (alone two) name raw (int k) v args n l h = absurd h

-- The type of a value.
abbrev kind : Value → ℕ
kind (text t) = 0
kind (int n) = 1
kind (bool b) = 2

module _ (read : Text → Option ℤ) where
  int_value-kind : (o : Option ℤ) (v : Value) → int_value read o ≡ some v → kind v ≡ 1
  int_value-kind none v h = cc h
  int_value-kind (some n) v h = ap kind (sym (some_eq_some h))

  bool_value-kind : (o : Option Bool) (v : Value) → bool_value read o ≡ some v → kind v ≡ 2
  bool_value-kind none v h = cc h
  bool_value-kind (some b) v h = ap kind (sym (some_eq_some h))

  value_like-kind :
      (old : Value) (raw : Text) (v : Value) → value_like read old raw ≡ some v → kind v ≡ kind old
  value_like-kind (text t) raw v h = ap kind (sym (some_eq_some h))
  value_like-kind (int n) raw v h = int_value-kind (read raw) v h
  value_like-kind (bool b) raw v h = bool_value-kind (parse_bool raw) v h

  Fits-kind :
      (old : Value) (how : Spelling) (raw : Text) (v : Value)
      → Fits read old how raw v
      → kind v ≡ kind old
  Fits-kind old (joined two) raw v h = value_like-kind old raw v h
  Fits-kind (text t) (apart two) raw v h = value_like-kind (text t) raw v h
  Fits-kind (int n) (apart two) raw v h = value_like-kind (int n) raw v h
  Fits-kind (bool b) (apart two) raw v h = absurd h
  Fits-kind (bool b) (alone two) raw v h = ap kind h
  Fits-kind (text t) (alone two) raw v h = absurd h
  Fits-kind (int n) (alone two) raw v h = absurd h

  -- What fits a flag fits it whatever its value is.
  same_kind-Fits :
      (a b : Value) (how : Spelling) (raw : Text) (v : Value)
      → kind a ≡ kind b
      → Fits read a how raw v
      → Fits read b how raw v
  same_kind-Fits (text s) (text t) (joined two) raw v e h = h
  same_kind-Fits (text s) (text t) (apart two) raw v e h = h
  same_kind-Fits (text s) (text t) (alone two) raw v e h = h
  same_kind-Fits (int m) (int n) (joined two) raw v e h = h
  same_kind-Fits (int m) (int n) (apart two) raw v e h = h
  same_kind-Fits (int m) (int n) (alone two) raw v e h = h
  same_kind-Fits (bool a) (bool b) (joined two) raw v e h = h
  same_kind-Fits (bool a) (bool b) (apart two) raw v e h = h
  same_kind-Fits (bool a) (bool b) (alone two) raw v e h = h
  same_kind-Fits (text s) (int n) how raw v e h = absurd (omega (arith, e))
  same_kind-Fits (text s) (bool b) how raw v e h = absurd (omega (arith, e))
  same_kind-Fits (int m) (text t) how raw v e h = absurd (omega (arith, e))
  same_kind-Fits (int m) (bool b) how raw v e h = absurd (omega (arith, e))
  same_kind-Fits (bool a) (text t) how raw v e h = absurd (omega (arith, e))
  same_kind-Fits (bool a) (int n) how raw v e h = absurd (omega (arith, e))

  -- A setting changes no type, so that the others stay declared.
  insert-Declared :
      (fs : FlagSet) (s t : Setting)
      → Declared read fs s
      → Declared read fs t
      → Declared read (insert s.name s.value fs) t
  insert-Declared fs s t (n, (old, l, h)) (n', (old', l', h')) =
      elim (Bool-cases (text_eq s.name t.name)) [
        | inr e ↦ (n', (old', lookup-insert s.name t.name s.value fs ∙ rw e l', h'))
        | inl e ↦
            let same : old ≡ old' =
              some_eq_some (sym l ∙ ap (λ k. lookup k fs) (text_eq_sound s.name t.name e) ∙ l') in
            (
              n',
              (
                s.value,
                lookup-insert s.name t.name s.value fs ∙ rw e refl,
                same_kind-Fits old' s.value t.spelling t.raw t.value
                    (ap kind (sym same) ∙ sym (Fits-kind old s.spelling s.raw s.value h)) h',
              ),
            )
      ]

  insert-All-Declared :
      (fs : FlagSet) (s : Setting) (ss : List Setting)
      → Declared read fs s
      → All (Declared read fs) ss
      → All (Declared read (insert s.name s.value fs)) ss
  insert-All-Declared fs s [] d h = tt
  insert-All-Declared fs s (t ∷ ts) d h =
      (insert-Declared fs s t d h.0, insert-All-Declared fs s ts d h.1)

  pub parse_flags-spelled :
      (fs : FlagSet) (ss : List Setting) (args : List Text)
      → All (Declared read fs) ss
      → parse_flags read none fs (all_spelled ss ++ args) ≡ parse_flags read none (store ss fs) args
  parse_flags-spelled fs [] args h = refl
  parse_flags-spelled fs (s ∷ ss) args ((n, (old, l, f)), h) =
      rw (append_assoc (spelled s) (all_spelled ss) args) (
        stored_as read fs s.spelling s.name s.raw old s.value (all_spelled ss ++ args) n l f
        ∙ parse_flags-spelled (insert s.name s.value fs) ss args
            (insert-All-Declared fs s ss (n, (old, l, f)) h))
