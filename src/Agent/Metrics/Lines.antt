-- ===== src/Agent/Metrics/Lines.antt =====
-- The lines of /proc/meminfo, as the kernel prints them, and the words that strings.Fields makes of them.
use onfire.Prelude.{
  append_empty, ℕ, zero, suc, ◌+◌, ◌/◌, ◌%◌, ◌<◌, List, [], ◌∷◌, ◌++◌, Bool, true, false, ◌≡◌, refl,
  ap, ◌∙◌, inl, inr, All, Bool-cases, ltb, arith,
}
use onfire.Prelude.Text.{Text, codes, is_space, decimal, digits_before, digit}
use onfire.Prelude.Numerals.{push_word, fields_of, fields}

abbrev pub NoSpace : Text → Type 0
NoSpace w = All (λ c. is_space c ≡ false) w

abbrev pub is_empty : Text → Bool
is_empty [] = true
is_empty (c ∷ s) = false

pub push_word-is_empty : (w : Text) (ws : List Text) → is_empty w ≡ false → push_word w ws ≡ w ∷ ws
push_word-is_empty [] ws h = ground arith
push_word-is_empty (c ∷ w) ws h = refl

pub fields_of-append :
    (w s : Text) → NoSpace w → fields_of (w ++ s) ≡ (w ++ (fields_of s).0, (fields_of s).1)
unfolding fields_of
fields_of-append [] s h = refl
fields_of-append (c ∷ w) s h = rw (h.0, fields_of-append w s h.1) refl

-- `k` blanks.
abbrev pub pad : ℕ → Text → Text
pad zero s = s
pad (suc k) s = b' ' ∷ pad k s

pub fields_of-pad :
    (k : ℕ) (s : Text) → fields_of (pad (suc k) s) ≡ ([], push_word (fields_of s).0 (fields_of s).1)
unfolding fields_of is_space
fields_of-pad zero s = refl
fields_of-pad (suc k) s = rw (fields_of-pad k s) refl

pub digit-NoSpace : (d : ℕ) → d < 10 → is_space (digit d) ≡ false
unfolding is_space
digit-NoSpace d h = ground arith

pub digit-NoSpace_small : (d : ℕ) → d < 10 → is_space (b'0' + d) ≡ false
unfolding is_space
digit-NoSpace_small d h = ground arith

pub digits_before-NoSpace :
    (fuel n : ℕ) (rest : Text) → NoSpace rest → NoSpace (digits_before 10 fuel n rest)
unfolding digits_before
digits_before-NoSpace zero n rest h = h
digits_before-NoSpace (suc fuel) n rest h = elim (Bool-cases (ltb n 10)) [
  | inl t ↦ rw t (digit-NoSpace_small n (ground arith), h)
  | inr f ↦ rw f (
      digits_before-NoSpace fuel (n / 10) (digit (n % 10) ∷ rest)
        (digit-NoSpace (n % 10) (omega arith), h))
]

pub digits_before-is_empty :
    (fuel n d : ℕ) (rest : Text) → is_empty (digits_before 10 fuel n (d ∷ rest)) ≡ false
unfolding digits_before
digits_before-is_empty zero n d rest = refl
digits_before-is_empty (suc fuel) n d rest = elim (Bool-cases (ltb n 10)) [
  | inl t ↦ rw t refl
  | inr f ↦ rw f (digits_before-is_empty fuel (n / 10) (digit (n % 10)) (d ∷ rest))
]

pub digits_before-fuel : (fuel n : ℕ) → 0 < fuel → is_empty (digits_before 10 fuel n []) ≡ false
unfolding digits_before
digits_before-fuel zero n h = absurd (omega arith)
digits_before-fuel (suc fuel) n h = elim (Bool-cases (ltb n 10)) [
  | inl t ↦ rw t refl
  | inr f ↦ rw f (digits_before-is_empty fuel (n / 10) (digit (n % 10)) [])
]

pub decimal-is_empty : (n : ℕ) → is_empty (decimal n) ≡ false
unfolding decimal
decimal-is_empty n = digits_before-fuel (n + 1) n (omega arith)

pub decimal-NoSpace : (n : ℕ) → NoSpace (decimal n)
unfolding decimal
decimal-NoSpace n = digits_before-NoSpace (n + 1) n [] tt

-- A line of /proc/meminfo.
unfoldable pub mem_line : Text → ℕ → ℕ → Text
unfolding decimal
mem_line name blanks n = name ++ pad (suc blanks) (decimal n ++ codes " kB")

pub value-fields_of : (n : ℕ) → fields_of (decimal n ++ codes " kB") ≡ (decimal n, codes "kB" ∷ [])
unfolding fields_of is_space
value-fields_of n =
    fields_of-append (decimal n) (codes " kB") (decimal-NoSpace n)
    ∙ ap (λ w. (w, codes "kB" ∷ [])) (append_empty (decimal n))

pub fields-mem_line :
    (name : Text) (blanks n : ℕ)
    → NoSpace name
    → is_empty name ≡ false
    → fields (mem_line name blanks n) ≡ name ∷ decimal n ∷ codes "kB" ∷ []
unfolding fields mem_line
fields-mem_line name blanks n h ne =
    let behind : fields_of (pad (suc blanks) (decimal n ++ codes " kB"))
        ≡ ([], decimal n ∷ codes "kB" ∷ []) =
      fields_of-pad blanks (decimal n ++ codes " kB")
      ∙ ap (λ p. ([], push_word p.0 p.1)) (value-fields_of n)
      ∙ ap (λ ws. ([], ws))
          (push_word-is_empty (decimal n) (codes "kB" ∷ []) (decimal-is_empty n)) in
    ap (λ p. push_word p.0 p.1)
      (fields_of-append name (pad (suc blanks) (decimal n ++ codes " kB")) h)
    ∙ ap (λ p. push_word (name ++ p.0) p.1) behind
    ∙ ap (λ w. push_word w (decimal n ∷ codes "kB" ∷ [])) (append_empty name)
    ∙ push_word-is_empty name (decimal n ∷ codes "kB" ∷ []) ne
