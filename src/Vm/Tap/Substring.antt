-- ===== src/Vm/Tap/Substring.antt =====
-- The search of vm/tap.go against what a substring is.
use onfire.Prelude.{
  take, drop, take-length, append_empty, ℕ, zero, suc, ◌+◌, ◌-◌, ◌≤◌, ◌≡◌, ◌↔◌, refl, [], ◌∷◌, ◌++◌,
  true, arith, length, ap, Bool-cases, inl, inr, ◌∙◌, sym, length-append,
}
use onfire.Prelude.Text.{Text, text_eq, text_eq_sound, text_eq_refl}
use onfire.Vm.Tap.{rest_of, any_slice, contains_str, has_substring}

-- A text that begins with another, and one that has it inside.
abbrev pub IsPrefix : Text → Text → Type 0
IsPrefix sub s = (post : Text) × (s ≡ sub ++ post)

abbrev pub IsSubstring : Text → Text → Type 0
IsSubstring sub s = (pre post : Text) × (s ≡ pre ++ (sub ++ post))

take-drop : (n : ℕ) (s : Text) → s ≡ take n s ++ drop n s
take-drop zero s = refl
take-drop (suc n) [] = refl
take-drop (suc n) (c ∷ s) = ap (λ t. c ∷ t) (take-drop n s)

any_slice_sound : (n : ℕ) (s sub : Text) → any_slice n s sub ≡ true → IsSubstring sub s
unfolding any_slice
any_slice_sound zero s sub h = cc
any_slice_sound (suc n) s sub h = elim (Bool-cases (text_eq (take (length sub) s) sub)) [
  | inl t ↦ (
    [],
    drop (length sub) s,
    ◌∙◌ (take-drop (length sub) s) (ap (λ u. u ++ drop (length sub) s) (text_eq_sound _ _ t)),
  )
  | inr f ↦ later s (any_slice_sound n (rest_of s) sub (rw f at h))
]
  where
    later : (s : Text) → IsSubstring sub (rest_of s) → IsSubstring sub s
    later [] p = p
    later (c ∷ s) (pre, post, e) = (c ∷ pre, post, ap (λ t. c ∷ t) e)

any_slice_complete :
    (n : ℕ) (pre sub post : Text)
    → length pre + 1 ≤ n
    → any_slice n (pre ++ (sub ++ post)) sub ≡ true
unfolding any_slice
any_slice_complete zero pre sub post h = ground arith
any_slice_complete (suc n) [] sub post h = rw (take-length sub post) (rw (text_eq_refl sub) refl)
any_slice_complete (suc n) (c ∷ pre) sub post h =
    ground (arith, any_slice_complete n pre sub post (omega arith))

text_eq_empty : (s sub : Text) → length s ≡ 0 → length sub ≡ 0 → text_eq s sub ≡ true
text_eq_empty [] [] h k = refl
text_eq_empty [] (c ∷ sub) h k = ground arith
text_eq_empty (c ∷ s) sub h k = ground arith

has_substring_complete : (pre sub post : Text) → has_substring (pre ++ (sub ++ post)) sub ≡ true
unfolding has_substring contains_str
has_substring_complete pre sub post =
    let s = pre ++ (sub ++ post) in
    let whole = length-append pre (sub ++ post) in
    let part = length-append sub post in
    ground (
      arith,
      text_eq_empty s sub,
      any_slice_complete (length s + 1 - length sub) pre sub post (omega (arith, whole, part)),
    )

-- For every two texts, contains of vm/tap.go answers true exactly when the second occurs in the
-- first. The empty text occurs in each.
pub has_substring_iff : (s sub : Text) → (has_substring s sub ≡ true) ↔ IsSubstring sub s
unfolding has_substring contains_str
has_substring_iff s sub = (
  (λ h. elim (Bool-cases (text_eq s sub)) [
    | inl t ↦ ([], [], ◌∙◌ (text_eq_sound s sub t) (sym (append_empty sub)))
    | inr f ↦ any_slice_sound (length s + 1 - length sub) s sub (ground arith)
  ]),
  λ (pre, post, e). rw e (has_substring_complete pre sub post),
)
