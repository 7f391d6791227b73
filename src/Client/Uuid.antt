-- ===== src/Client/Uuid.antt =====
-- looksLikeUUID of onfirec/main.go against the shape of a UUID.
use onfire.Prelude.{
  ℕ, zero, suc, ◌+◌, ◌<◌, ◌≤◌, [], ◌∷◌, ◌++◌, Bool, true, false, ◌&&◌, ◌==◌, ◌≡◌, refl, ◌↔◌, ap,
  ◌∙◌, sym, if◌then◌else◌, length, length-append, append_empty, arith, ==_iff,
}
use onfire.Prelude.Text.{Text}
use onfire.Client.{is_hex, is_dash_place, uuid_from, looks_like_uuid}

abbrev all_hex : Text → Bool
all_hex [] = true
all_hex (c ∷ s) = is_hex c && all_hex s

-- `n` hexadecimal digits.
abbrev pub IsHex : ℕ → Text → Type 0
IsHex n s = (length s ≡ n) × (all_hex s ≡ true)

-- Five groups of hexadecimal digits of lengths 8, 4, 4, 4 and 12, with dashes between them.
abbrev pub IsUuid : Text → Type 0
IsUuid s =
    (a b c d e : Text) × IsHex 8 a
    × IsHex 4 b
    × IsHex 4 c
    × IsHex 4 d
    × IsHex 12 e
    × (s ≡ a ++ (b'-' ∷ (b ++ (b'-' ∷ (c ++ (b'-' ∷ (d ++ (b'-' ∷ e))))))))

-- No dash is expected at the `n` positions from `i` on.
abbrev NoDash : ℕ → ℕ → Type 0
NoDash i n = (j : ℕ) → i ≤ j → j < i + n → is_dash_place j ≡ false

later-NoDash : (i n : ℕ) → NoDash i (suc n) → NoDash (i + 1) n
later-NoDash i n h j le lt = h j (omega arith) (omega arith)

-- A group is the next `n` characters of the text.
abbrev IsGroup : ℕ → ℕ → Text → Type 0
IsGroup i n s = (a rest : Text) × IsHex n a × (s ≡ a ++ rest) × (uuid_from (i + n) rest ≡ true)

uuid_from-IsGroup :
    (n i : ℕ) (s : Text) → NoDash i n → n ≤ length s → uuid_from i s ≡ true → IsGroup i n s
unfolding uuid_from
uuid_from-IsGroup zero i s free le h =
    ([], s, (refl, refl), refl, ap (λ k. uuid_from k s) (omega arith) ∙ h)
uuid_from-IsGroup (suc n) i [] free le h = absurd (omega arith)
uuid_from-IsGroup (suc n) i (c ∷ s) free le h =
    let here : (is_hex c ≡ true) × (uuid_from (i + 1) s ≡ true) =
      ground (arith, h, free i (omega arith) (omega arith)) in
    let (a, rest, (len, hex), e, tail) =
      uuid_from-IsGroup n (i + 1) s (later-NoDash i n free) (omega arith) here.1 in
    (
      c ∷ a,
      rest,
      (omega (arith, len), ground (arith, here.0, hex)),
      ap (λ t. c ∷ t) e,
      ap (λ k. uuid_from k rest) (omega arith) ∙ tail,
    )

uuid_from-append :
    (n i : ℕ) (a rest : Text)
    → NoDash i n
    → IsHex n a
    → uuid_from i (a ++ rest) ≡ uuid_from (i + n) rest
unfolding uuid_from
uuid_from-append n i [] rest free h = ap (λ k. uuid_from k rest) (omega (arith, h.0))
uuid_from-append zero i (c ∷ a) rest free h = absurd (omega (arith, h.0))
uuid_from-append (suc n) i (c ∷ a) rest free h =
    let both : (is_hex c ≡ true) × (all_hex a ≡ true) = ground (arith, h.1) in
    rw (free i (omega arith) (omega arith), both.0)
      (uuid_from-append n (i + 1) a rest (later-NoDash i n free) (omega (arith, h.0), both.1)
        ∙ ap (λ k. uuid_from k rest) (omega arith))

uuid_from-dash :
    (i : ℕ) (s : Text)
    → is_dash_place i ≡ true
    → 1 ≤ length s
    → uuid_from i s ≡ true
    → (rest : Text) × (s ≡ b'-' ∷ rest) × (uuid_from (i + 1) rest ≡ true)
unfolding uuid_from
uuid_from-dash i [] at le h = absurd (omega arith)
uuid_from-dash i (c ∷ s) at le h =
    let both : (c ≡ b'-') × (uuid_from (i + 1) s ≡ true) = ground (arith, at, h) in
    (s, ap (λ d. d ∷ s) both.0, both.1)

-- One group with the dash behind it.
group_dash :
    (n i : ℕ) (s : Text)
    → NoDash i n
    → is_dash_place (i + n) ≡ true
    → n + 1 ≤ length s
    → uuid_from i s ≡ true
    → (a rest : Text) × IsHex n a
      × (s ≡ a ++ (b'-' ∷ rest))
      × (uuid_from (i + n + 1) rest ≡ true)
      × (length rest + n + 1 ≡ length s)
group_dash n i s free at le h =
    let (a, more, hex, e, tail) = uuid_from-IsGroup n i s free (omega arith) h in
    let total : length s ≡ length a + length more = ap length e ∙ length-append a more in
    let (rest, e', tail') = uuid_from-dash (i + n) more at (omega (arith, hex.0)) tail in
    (a, rest, hex, e ∙ ap (λ t. a ++ t) e', tail', omega (arith, hex.0, ap length e'))

both_true : (a b : Bool) → (if a then b else false) ≡ true → (a ≡ true) × (b ≡ true)
both_true true b h = (refl, h)
both_true false b h = ground arith

-- The places of the groups.
free_0 : NoDash 0 8
free_0 j le lt = ground arith

free_9 : NoDash 9 4
free_9 j le lt = ground arith

free_14 : NoDash 14 4
free_14 j le lt = ground arith

free_19 : NoDash 19 4
free_19 j le lt = ground arith

free_24 : NoDash 24 12
free_24 j le lt = ground arith

all_hex-uuid_from :
    (n i : ℕ) (s : Text) → NoDash i n → length s ≡ n → uuid_from i s ≡ true → all_hex s ≡ true
unfolding uuid_from
all_hex-uuid_from n i [] free len h = refl
all_hex-uuid_from zero i (c ∷ s) free len h = absurd (omega (arith, len))
all_hex-uuid_from (suc n) i (c ∷ s) free len h =
    let here : (is_hex c ≡ true) × (uuid_from (i + 1) s ≡ true) =
      ground (arith, h, free i (omega arith) (omega arith)) in
    let rest = all_hex-uuid_from n (i + 1) s (later-NoDash i n free) (omega (arith, len)) here.1 in
    rw (here.0, rest) refl

looks_like_uuid-IsUuid : (s : Text) → looks_like_uuid s ≡ true → IsUuid s
unfolding looks_like_uuid
looks_like_uuid-IsUuid s h =
    let (is36, all) = both_true (length s == 36) (uuid_from 0 s) h in
    let len : length s ≡ 36 = (==_iff (length s) 36).0 is36 in
    let (a, s1, ha, ea, t1, l1) = group_dash 8 0 s free_0 refl (omega (arith, len)) all in
    let (b, s2, hb, eb, t2, l2) = group_dash 4 9 s1 free_9 refl (omega (arith, len, l1)) t1 in
    let (c, s3, hc, ec, t3, l3) = group_dash 4 14 s2 free_14 refl (omega (arith, len, l1, l2)) t2 in
    let (d, s4, hd, ed, t4, l4) =
      group_dash 4 19 s3 free_19 refl (omega (arith, len, l1, l2, l3)) t3 in
    let len4 : length s4 ≡ 12 = omega (arith, len, l1, l2, l3, l4) in
    let last : IsHex 12 s4 = (len4, all_hex-uuid_from 12 24 s4 free_24 len4 t4) in
    (
      a,
      b,
      c,
      d,
      s4,
      ha,
      hb,
      hc,
      hd,
      last,
      ea
          ∙ ap (λ t. a ++ (b'-' ∷ t))
              (eb ∙ ap (λ t. b ++ (b'-' ∷ t)) (ec ∙ ap (λ t. c ++ (b'-' ∷ t)) ed)),
    )

nothing_left : (i : ℕ) → uuid_from i [] ≡ true
unfolding uuid_from
nothing_left i = refl

uuid_from-append_dash :
    (n i : ℕ) (a rest : Text)
    → NoDash i n
    → is_dash_place (i + n) ≡ true
    → IsHex n a
    → uuid_from i (a ++ (b'-' ∷ rest)) ≡ uuid_from (i + n + 1) rest
unfolding uuid_from
uuid_from-append_dash n i a rest free at h =
    uuid_from-append n i a (b'-' ∷ rest) free h ∙ rw at refl

IsUuid-looks_like_uuid : (s : Text) → IsUuid s → looks_like_uuid s ≡ true
unfolding looks_like_uuid
IsUuid-looks_like_uuid s (a, b, c, d, e, ha, hb, hc, hd, he, es) =
    let s3 : Text = d ++ (b'-' ∷ e) in
    let s2 : Text = c ++ (b'-' ∷ s3) in
    let s1 : Text = b ++ (b'-' ∷ s2) in
    let len : length s ≡ 36 = omega (
      arith,
      ap length es,
      length-append a (b'-' ∷ s1),
      length-append b (b'-' ∷ s2),
      length-append c (b'-' ∷ s3),
      length-append d (b'-' ∷ e),
      ha.0,
      hb.0,
      hc.0,
      hd.0,
      he.0,
    ) in
    let all : uuid_from 0 s ≡ true =
      ap (uuid_from 0) es
      ∙ uuid_from-append_dash 8 0 a s1 free_0 refl ha
      ∙ uuid_from-append_dash 4 9 b s2 free_9 refl hb
      ∙ uuid_from-append_dash 4 14 c s3 free_14 refl hc
      ∙ uuid_from-append_dash 4 19 d e free_19 refl hd
      ∙ sym (ap (uuid_from 24) (append_empty e))
      ∙ uuid_from-append 12 24 e [] free_24 he
      ∙ nothing_left 36 in
    rw ((==_iff (length s) 36).1 len) all

-- The client takes an argument for a fleet ID exactly when it is five groups of hexadecimal digits, of
-- lengths 8, 4, 4, 4 and 12, with dashes between them.
pub looks_like_uuid_iff : (s : Text) → (looks_like_uuid s ≡ true) ↔ IsUuid s
looks_like_uuid_iff s = (looks_like_uuid-IsUuid s, IsUuid-looks_like_uuid s)
