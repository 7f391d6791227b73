-- ===== src/Api/Mux.antt =====
-- http.ServeMux as api/server.go, cmd/server.go and cmd/serve.go use it: its patterns are paths, and one
-- that ends with a slash also stands for the paths that begin with it. A path here is a clean one,
-- with no empty segment, "." or "..".
pub mod Same
use onfire.Prelude.{
  List, [], ◌∷◌, ◌++◌, Bool, true, false, ◌&&◌, ◌||◌, not, Option, none, some, if◌then◌else◌,
  length, ltb, ◌==◌,
}
use onfire.Prelude.Text.{Text, codes, text_eq, has_prefix}

-- The pattern whose handler is called, the path that the browser is sent to, or the answer 404.
pub data MuxAnswer : Type 0 where
  matched redirected : Text → MuxAnswer
  unmatched : MuxAnswer

abbrev pub ends_with_slash : Text → Bool
ends_with_slash [] = false
ends_with_slash (c ∷ []) = c == b'/'
ends_with_slash (c ∷ d ∷ s) = ends_with_slash (d ∷ s)

abbrev pub covers : Text → Text → Bool
covers pattern path = ends_with_slash pattern && has_prefix pattern path

abbrev pub has_pattern : Text → List Text → Bool
has_pattern path [] = false
has_pattern path (p ∷ ps) = text_eq path p || has_pattern path ps

abbrev pub longer : Text → Option Text → Text
longer p none = p
longer p (some q) = if ltb (length p) (length q) then q else p

-- The longest pattern that covers the path.
abbrev pub longest : List Text → Text → Option Text
longest [] path = none
longest (p ∷ ps) path =
    let rest = longest ps path in if covers p path then some (longer p rest) else rest

abbrev pub answer_of : Option Text → MuxAnswer
answer_of none = unmatched
answer_of (some p) = matched p

-- A path that is a pattern comes first, then one that is a pattern but for the slash at its end.
unfoldable pub serve_mux : List Text → Text → MuxAnswer
unfolding has_prefix
serve_mux patterns path =
    if has_pattern path patterns
    then matched path
    else if not (ends_with_slash path) && has_pattern (path ++ (b'/' ∷ [])) patterns
    then redirected (path ++ (b'/' ∷ []))
    else answer_of (longest patterns path)

-- The patterns of Handler.
abbrev pub api_patterns : List Text
api_patterns =
    codes "/api/v1/fleets"
    ∷ codes "/api/v1/fleets/"
    ∷ codes "/api/v1/scenarios"
    ∷ codes "/api/v1/scenarios/"
    ∷ codes "/api/v1/vms/"
    ∷ codes "/api/v1/openapi.yaml"
    ∷ []
