-- ===== src/Api/Mux/Same.antt =====
-- The patterns of Handler of api/server.go, and the chain of tests that stands for them in Api/Routes.
use onfire.Prelude.{
  ◌≡◌, refl, ap, [], ◌∷◌, ◌++◌, Bool, true, false, ◌||◌, not, Option, none, some, if◌then◌else◌,
  ◌==◌, Bool-cases, inl, inr, arith,
}
use onfire.Prelude.Text.{Text, codes, text_eq, text_eq_sound}
use onfire.Api.Routes.{Route, fleets, fleet, scenarios, scenario, vms, openapi, route}
use onfire.Api.Mux.{
  MuxAnswer, matched, redirected, unmatched, ends_with_slash, serve_mux, api_patterns,
}

-- The pattern with which a handler is registered.
unfoldable pub pattern_of : Option Route → MuxAnswer
pattern_of none = unmatched
pattern_of (some fleets) = matched (codes "/api/v1/fleets")
pattern_of (some fleet) = matched (codes "/api/v1/fleets/")
pattern_of (some scenarios) = matched (codes "/api/v1/scenarios")
pattern_of (some scenario) = matched (codes "/api/v1/scenarios/")
pattern_of (some vms) = matched (codes "/api/v1/vms/")
pattern_of (some openapi) = matched (codes "/api/v1/openapi.yaml")

-- Two texts with different characters at one place.
abbrev apart : Text → Text → Bool
apart [] q = false
apart (x ∷ p) [] = false
apart (x ∷ p) (y ∷ q) = not (x == y) || apart p q

nonempty :
    (s : Text) → (text_eq [] (s ++ (b'/' ∷ [])) ≡ false) × (text_eq (s ++ (b'/' ∷ [])) [] ≡ false)
nonempty [] = (refl, refl)
nonempty (c ∷ s) = (refl, refl)

pub text_eq-append_slash :
    (s t : Text) → text_eq (s ++ (b'/' ∷ [])) (t ++ (b'/' ∷ [])) ≡ text_eq s t
text_eq-append_slash [] [] = refl
text_eq-append_slash [] (d ∷ t) = ground (arith, nonempty t)
text_eq-append_slash (c ∷ s) [] = ground (arith, nonempty s)
text_eq-append_slash (c ∷ s) (d ∷ t) = ground (arith, text_eq-append_slash s t)

append-ends_with_slash : (s : Text) → ends_with_slash (s ++ (b'/' ∷ [])) ≡ true
append-ends_with_slash [] = refl
append-ends_with_slash (c ∷ []) = refl
append-ends_with_slash (c ∷ d ∷ s) = append-ends_with_slash (d ∷ s)

pub slash_ne : (s t : Text) → ends_with_slash t ≡ false → text_eq (s ++ (b'/' ∷ [])) t ≡ false
slash_ne s t h = elim (Bool-cases (text_eq (s ++ (b'/' ∷ [])) t)) [
  | inr f ↦ f
  | inl e ↦
      cc (h, append-ends_with_slash s, ap ends_with_slash (text_eq_sound (s ++ (b'/' ∷ [])) t e))
]

abbrev vms_root : Text
vms_root = codes "/api/v1/vms"

abbrev Agrees : Text → Type 0
Agrees path =
    serve_mux api_patterns path
    ≡ (if text_eq path vms_root then redirected (codes "/api/v1/vms/") else pattern_of (route path))

abbrev fleets_below : Text
fleets_below = codes "/api/v1/fleets/"

abbrev scenarios_below : Text
scenarios_below = codes "/api/v1/scenarios/"

abbrev vms_below : Text
vms_below = codes "/api/v1/vms/"
