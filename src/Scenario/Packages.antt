-- ===== src/Scenario/Packages.antt =====
-- servicePackages of scenario/runner.go. The table's values are given as the fields that
-- strings.Fields makes of them.
pub mod Distinct
use onfire.Prelude.{List, [], ◌∷◌, ◌++◌, Bool, true, false, ◌||◌, Option, none, some, if◌then◌else◌}
use onfire.Prelude.Text.{Text, codes, text_eq}
use onfire.Prelude.Dict.{Dict, lookup}

abbrev pub mapping : Dict (List Text)
mapping =
    (codes "nginx", codes "nginx" ∷ [])
    ∷ (codes "apache2", codes "apache2" ∷ [])
    ∷ (codes "mysql", codes "mysql-server" ∷ [])
    ∷ (codes "postgresql", codes "postgresql" ∷ [])
    ∷ (codes "postgres", codes "postgresql" ∷ [])
    ∷ (codes "redis", codes "redis-server" ∷ [])
    ∷ (codes "redis-server", codes "redis-server" ∷ [])
    ∷ (codes "app-server", codes "python3" ∷ codes "python3-flask" ∷ [])
    ∷ (codes "celery", codes "python3-celery" ∷ [])
    ∷ (codes "stress-ng", codes "stress-ng" ∷ [])
    ∷ []

abbrev pub has_text : Text → List Text → Bool
has_text t [] = false
has_text t (u ∷ us) = text_eq u t || has_text t us

-- The packages collected so far are also the set `seen`: both grow together.
unfoldable pub add_packages : List Text → List Text → List Text
add_packages [] pkgs = pkgs
add_packages (p ∷ ps) pkgs = add_packages ps (if has_text p pkgs then pkgs else pkgs ++ (p ∷ []))

abbrev pub add_mapped : Option (List Text) → List Text → List Text
add_mapped none pkgs = pkgs
add_mapped (some ps) pkgs = add_packages ps pkgs

unfoldable pub packages_of : Dict (List Text) → List Text → List Text → List Text
unfolding add_packages lookup
packages_of table [] pkgs = pkgs
packages_of table (svc ∷ svcs) pkgs = packages_of table svcs (add_mapped (lookup svc table) pkgs)

unfoldable pub service_packages : List Text → List Text
unfolding packages_of
service_packages services = packages_of mapping services []
