-- ===== src/Cmd/Server/Routes.antt =====
-- Who answers a request to the servers of cmd/server.go and cmd/serve.go.
use onfire.Prelude.{
  ◌≡◌, refl, ap, sym, ◌∙◌, subst, List, [], ◌∷◌, ◌++◌, Bool, true, false, ◌&&◌, not, some,
  if◌then◌else◌, Bool-cases, All, inl, inr,
}
use onfire.Prelude.Text.{Text, codes, text_eq, text_eq_sound, has_prefix}
use onfire.Api.Mux.{MuxAnswer, matched, ends_with_slash, has_pattern, longest, serve_mux}
use onfire.Api.Mux.Same.{text_eq-append_slash, slash_ne}
use onfire.Cmd.Server.{
  Target, api, terminal, page, missing, moved, target_of, at_root, server_patterns, server_target,
  terminal_patterns, terminal_target,
}

abbrev pub server_table : Text → Target
server_table path =
    if text_eq path (codes "/ws")
    then terminal
    else if text_eq path (codes "/")
    then page
    else if text_eq path (codes "/api")
    then moved (codes "/api/")
    else if has_prefix (codes "/api/") path
    then api
    else missing

abbrev Tabled : Text → Type 0
Tabled path = server_target path ≡ server_table path

at_known : (path known : Text) → text_eq path known ≡ true → Tabled known → Tabled path
at_known path known e a = subst Tabled (sym (text_eq_sound path known e)) a

no_match :
    (path : Text) (ps : List Text)
    → All (λ p. text_eq path p ≡ false) ps
    → has_pattern path ps ≡ false
no_match path [] h = refl
no_match path (p ∷ ps) h = rw (h.0, no_match path ps h.1) refl

not_empty : (path : Text) → has_prefix (codes "/") path ≡ true → text_eq path [] ≡ false
unfolding has_prefix
not_empty [] h = cc
not_empty (c ∷ s) h = refl

longest-server :
    (path : Text)
    → has_prefix (codes "/") path ≡ true
    → longest server_patterns path
      ≡ some (if has_prefix (codes "/api/") path then codes "/api/" else codes "/")
longest-server path h = elim (Bool-cases (has_prefix (codes "/api/") path)) [
  | inl t ↦ rw (t, h) refl
  | inr f ↦ rw (f, h) refl
]

longest-target :
    (path : Text) (b : Bool)
    → target_of path (matched (if b then codes "/api/" else codes "/"))
      ≡ (if b then api else at_root path)
longest-target path true = refl
longest-target path false = refl

never : (b : Bool) (x y : MuxAnswer) → (if b && false then x else y) ≡ y
never true x y = refl
never false x y = refl

unlisted :
    (path : Text)
    → has_prefix (codes "/") path ≡ true
    → text_eq path (codes "/ws") ≡ false
    → text_eq path (codes "/") ≡ false
    → text_eq path (codes "/api/") ≡ false
    → text_eq path (codes "/api") ≡ false
    → server_target path ≡ (if has_prefix (codes "/api/") path then api else missing)
unfolding server_target serve_mux
unlisted path p w r a m =
    let here = no_match path server_patterns (a, (w, (r, tt))) in
    let below = no_match (path ++ (b'/' ∷ [])) server_patterns (
      text_eq-append_slash path (codes "/api") ∙ m,
      (slash_ne path (codes "/ws") refl, (text_eq-append_slash path [] ∙ not_empty path p, tt)),
    ) in
    ap (target_of path) {x = serve_mux server_patterns path}
      {y = matched (if has_prefix (codes "/api/") path then codes "/api/" else codes "/")}
      (rw (here, below, longest-server path p) (never (not (ends_with_slash path)) _ _))
    ∙ longest-target path (has_prefix (codes "/api/") path)
    ∙ rw r refl

pub server_target-table : (path : Text) → has_prefix (codes "/") path ≡ true → Tabled path
unfolding server_target serve_mux
server_target-table path p = elim (Bool-cases (text_eq path (codes "/ws"))) [
  | inl e ↦ at_known path _ e refl
  | inr w ↦ elim (Bool-cases (text_eq path (codes "/"))) [
    | inl e ↦ at_known path _ e refl
    | inr r ↦ elim (Bool-cases (text_eq path (codes "/api"))) [
      | inl e ↦ at_known path _ e refl
      | inr m ↦ elim (Bool-cases (text_eq path (codes "/api/"))) [
        | inl e ↦ at_known path _ e refl
        | inr a ↦ unlisted path p w r a m ∙ rw (w, r, m) refl
      ]
    ]
  ]
]

abbrev pub terminal_table : Text → Target
terminal_table path =
    if text_eq path (codes "/ws")
    then terminal
    else if text_eq path (codes "/")
    then page
    else missing

unlisted_terminal :
    (path : Text)
    → has_prefix (codes "/") path ≡ true
    → text_eq path (codes "/ws") ≡ false
    → text_eq path (codes "/") ≡ false
    → terminal_target path ≡ missing
unfolding terminal_target serve_mux
unlisted_terminal path p w r =
    let here = no_match path terminal_patterns (r, (w, tt)) in
    let below =
      no_match (path ++ (b'/' ∷ [])) terminal_patterns
        (text_eq-append_slash path [] ∙ not_empty path p, (slash_ne path (codes "/ws") refl, tt)) in
    ap (target_of path) {x = serve_mux terminal_patterns path} {y = matched (codes "/")}
      (rw (here, below, p) (never (not (ends_with_slash path)) _ _))
    ∙ rw r refl

pub terminal_target-table :
    (path : Text) → has_prefix (codes "/") path ≡ true → terminal_target path ≡ terminal_table path
unfolding terminal_target serve_mux
terminal_target-table path p = elim (Bool-cases (text_eq path (codes "/ws"))) [
  | inl e ↦
      subst (λ t. terminal_target t ≡ terminal_table t) (sym (text_eq_sound path (codes "/ws") e))
        refl
  | inr w ↦ elim (Bool-cases (text_eq path (codes "/"))) [
    | inl e ↦
        subst (λ t. terminal_target t ≡ terminal_table t) (sym (text_eq_sound path (codes "/") e))
          refl
    | inr r ↦ unlisted_terminal path p w r ∙ rw (w, r) refl
  ]
]
