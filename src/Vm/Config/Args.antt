-- ===== src/Vm/Config/Args.antt =====
-- The regular expression `\bip=[^\s]*` of ForVM in vm/config.go: regexp's MatchString and
-- ReplaceAllString for it, one character at a time.
use onfire.Prelude.{ℕ, [], ◌∷◌, ◌++◌, Bool, true, false, ◌&&◌, ◌||◌, not, leb, ◌==◌}
use onfire.Prelude.Text.{Text, codes, has_prefix}

-- \w, and \s.
abbrev pub is_word : ℕ → Bool
is_word c =
    (leb b'0' c && leb c b'9')
    || (leb b'A' c && leb c b'Z')
    || (leb b'a' c && leb c b'z')
    || (c == b'_')

abbrev pub is_re_space : ℕ → Bool
is_re_space c = (c == 9) || (c == 10) || (c == 12) || (c == 13) || (c == 32)

-- A match begins here: `ip=`, and what stands before is no word character.
unfoldable pub at_ip : Bool → Text → Bool
unfolding has_prefix
at_ip after_word s = not after_word && has_prefix (codes "ip=") s

unfoldable pub has_ip : Bool → Text → Bool
unfolding at_ip
has_ip after_word [] = false
has_ip after_word (c ∷ s) = at_ip after_word (c ∷ s) || has_ip (is_word c) s

-- `inside` says that the scan is in a match, whose text has been replaced.
unfoldable pub replace_ip : Text → Bool → Bool → Text → Text
unfolding at_ip
replace_ip new after_word inside [] = []
replace_ip new after_word true (c ∷ s) = elim (is_re_space c) [
  | true ↦ c ∷ replace_ip new false false s
  | false ↦ replace_ip new after_word true s
]
replace_ip new after_word false (c ∷ s) = elim (at_ip after_word (c ∷ s)) [
  | true ↦ new ++ replace_ip new after_word true s
  | false ↦ c ∷ replace_ip new (is_word c) false s
]
