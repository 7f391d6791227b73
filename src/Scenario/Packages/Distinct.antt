-- ===== src/Scenario/Packages/Distinct.antt =====
-- What the list of packages holds.
use onfire.Prelude.{
  ◌≡◌, refl, inl, inr, List, [], ◌∷◌, ◌++◌, Bool, false, ◌||◌, arith, Bool-cases, Option-cases,
}
use onfire.Prelude.Text.{Text, text_eq_iff, or_else}
use onfire.Prelude.Dict.{Dict, lookup}
use onfire.Scenario.Packages.{mapping, has_text, add_packages, packages_of, service_packages}

-- No text occurs twice.
abbrev pub AreDistinct : List Text → Type 0
AreDistinct [] = Unit {0}
AreDistinct (t ∷ ts) = (has_text t ts ≡ false) × AreDistinct ts

has_text-append :
    (t : Text) (xs ys : List Text) → has_text t (xs ++ ys) ≡ (has_text t xs || has_text t ys)
has_text-append t [] ys = refl
has_text-append t (x ∷ xs) ys = ground (arith, has_text-append t xs ys)

AreDistinct-append :
    (xs : List Text) (p : Text)
    → AreDistinct xs
    → has_text p xs ≡ false
    → AreDistinct (xs ++ (p ∷ []))
AreDistinct-append [] p d h = (refl, tt)
AreDistinct-append (x ∷ xs) p d h = (
  ground (arith, d.0, has_text-append x xs (p ∷ []), text_eq_iff x p, text_eq_iff p x),
  AreDistinct-append xs p d.1 (ground arith),
)

add_packages-AreDistinct :
    (ps pkgs : List Text) → AreDistinct pkgs → AreDistinct (add_packages ps pkgs)
unfolding add_packages
add_packages-AreDistinct [] pkgs d = d
add_packages-AreDistinct (p ∷ ps) pkgs d = elim (Bool-cases (has_text p pkgs)) [
  | inl e ↦ rw e (add_packages-AreDistinct ps pkgs d)
  | inr e ↦ rw e (add_packages-AreDistinct ps (pkgs ++ (p ∷ [])) (AreDistinct-append pkgs p d e))
]

has_text-add_packages :
    (t : Text) (ps pkgs : List Text)
    → has_text t (add_packages ps pkgs) ≡ (has_text t pkgs || has_text t ps)
unfolding add_packages
has_text-add_packages t [] pkgs = ground arith
has_text-add_packages t (p ∷ ps) pkgs = elim (Bool-cases (has_text p pkgs)) [
  | inl e ↦ rw e (ground (arith, e, text_eq_iff p t, has_text-add_packages t ps pkgs))
  | inr e ↦ rw e (
      ground
        (arith, has_text-add_packages t ps (pkgs ++ (p ∷ [])), has_text-append t pkgs (p ∷ [])))
]

packages_of-AreDistinct :
    (table : Dict (List Text)) (svcs pkgs : List Text)
    → AreDistinct pkgs
    → AreDistinct (packages_of table svcs pkgs)
unfolding packages_of
packages_of-AreDistinct table [] pkgs d = d
packages_of-AreDistinct table (svc ∷ svcs) pkgs d = elim (Option-cases (lookup svc table)) [
  | inl e ↦ rw e (packages_of-AreDistinct table svcs pkgs d)
  | inr (ps, e) ↦ rw e (
      packages_of-AreDistinct table svcs (add_packages ps pkgs)
        (add_packages-AreDistinct ps pkgs d))
]

-- Whether a package is mapped to by one of the services.
unfoldable pub is_mapped : Dict (List Text) → Text → List Text → Bool
unfolding lookup
is_mapped table p [] = false
is_mapped table p (svc ∷ svcs) =
    has_text p (or_else (lookup svc table) []) || is_mapped table p svcs

has_text-packages_of :
    (table : Dict (List Text)) (p : Text) (svcs pkgs : List Text)
    → has_text p (packages_of table svcs pkgs) ≡ (has_text p pkgs || is_mapped table p svcs)
unfolding packages_of is_mapped
has_text-packages_of table p [] pkgs = ground arith
has_text-packages_of table p (svc ∷ svcs) pkgs = elim (Option-cases (lookup svc table)) [
  | inl e ↦ rw e (has_text-packages_of table p svcs pkgs)
  | inr (ps, e) ↦ rw e (
      ground (
        arith,
        has_text-packages_of table p svcs (add_packages ps pkgs),
        has_text-add_packages p ps pkgs,
      ))
]

-- For every list of services: the list of packages has no repetition, and holds exactly the packages
-- that the table gives for one of the services. A service that is not in the table adds nothing.
pub service_packages_exact :
    (services : List Text)
    → AreDistinct (service_packages services)
      × ((p : Text) → has_text p (service_packages services) ≡ is_mapped mapping p services)
unfolding service_packages
service_packages_exact services = (
  packages_of-AreDistinct mapping services [] tt,
  λ p. has_text-packages_of mapping p services [],
)
