-- ===== src/Cmd/Server/Shells.antt =====
-- Which requests get a shell from the servers of cmd/server.go and cmd/serve.go, and which ones change
-- the state of the server.
use onfire.Prelude.{
  ℕ, ◌<◌, ◌≡◌, ◌≢◌, ◌↔◌, refl, ap, sym, ◌∙◌, Bool, true, false, Option, none, some, Result,
  if◌then◌else◌, Bool-cases, inl, inr, arith,
}
use onfire.Prelude.Int.{ℤ, pos, negsuc}
use onfire.Prelude.Text.{Text, codes, text_eq, text_eq_sound, text_eq_refl, has_prefix}
use onfire.Prelude.Numerals.{atoi}
use onfire.Scenario.Floats.{FloatOps}
use onfire.Scenario.Types.{Scenario}
use onfire.Scenario.Parser.{LoadError}
use onfire.Api.State.{Server, Body}
use onfire.Api.Routes.{Request}
use onfire.Api.Handler
use onfire.Cmd.Terminal.{ws_vm}
use onfire.Cmd.Terminal.Reach.{ws_vm_iff}
use onfire.Cmd.Server.{
  Target, api, terminal, page, missing, moved, server_target, terminal_target, server_vm, by_api,
  shell, open_shell, serve_terminal, serve_all, terminal_answer, server_answer, not_negative,
}
use onfire.Cmd.Server.Routes.{
  server_table, terminal_table, server_target-table, terminal_target-table,
}

server_table-terminal : (path : Text) → (server_table path ≡ terminal) ↔ (path ≡ codes "/ws")
server_table-terminal path = elim (Bool-cases (text_eq path (codes "/ws"))) [
  | inl e ↦ rw e ((λ h. text_eq_sound path (codes "/ws") e), λ h. refl)
  | inr n ↦ (
    (λ h. absurd (
        never_terminal (text_eq path (codes "/")) (text_eq path (codes "/api"))
          (has_prefix (codes "/api/") path) (rw n at h))),
    λ h. cc (n, ap (λ t. text_eq t (codes "/ws")) h, text_eq_refl (codes "/ws")),
  )
]
  where
    never_terminal :
        (a b c : Bool)
        → (if a then page else if b then moved (codes "/api/") else if c then api else missing)
          ≡ terminal
        → ⊥
    never_terminal a b c h = ground arith

terminal_table-terminal : (path : Text) → (terminal_table path ≡ terminal) ↔ (path ≡ codes "/ws")
terminal_table-terminal path = elim (Bool-cases (text_eq path (codes "/ws"))) [
  | inl e ↦ rw e ((λ h. text_eq_sound path (codes "/ws") e), λ h. refl)
  | inr n ↦ (
    (λ h. absurd (never_terminal (text_eq path (codes "/")) (rw n at h))),
    λ h. cc (n, ap (λ t. text_eq t (codes "/ws")) h, text_eq_refl (codes "/ws")),
  )
]
  where
    never_terminal : (a : Bool) → (if a then page else missing) ≡ terminal → ⊥
    never_terminal a h = ground arith

not_negative_iff : (o : Option ℤ) (vm : ℕ) → (not_negative o ≡ some vm) ↔ (o ≡ some (pos vm))
not_negative_iff none vm = ((λ h. cc h), λ h. cc h)
not_negative_iff (some (negsuc n)) vm = ((λ h. cc h), λ h. cc h)
not_negative_iff (some (pos n)) vm = ((λ h. cc h), λ h. cc h)

open_shell_iff :
    {R : Type 0} (upgrades : Bool) (o : Option ℕ) (vm : ℕ)
    → (open_shell {R = R} upgrades o ≡ shell vm) ↔ ((o ≡ some vm) × (upgrades ≡ true))
open_shell_iff upgrades none vm = ((λ h. cc h), λ h. cc h.0)
open_shell_iff true (some n) vm = ((λ h. (cc h, refl)), λ h. cc h.0)
open_shell_iff false (some n) vm = ((λ h. cc h), λ h. cc h.1)

module _ {R : Type 0} (query : Text) (upgrades : Bool) (vm : ℕ) where
  terminal_answer-shell :
      (count : ℕ) (t : Target)
      → (terminal_answer {R = R} query upgrades count t ≡ shell vm)
        ↔ ((t ≡ terminal) × (ws_vm count query ≡ some vm) × (upgrades ≡ true))
  terminal_answer-shell count api = ((λ h. cc h), λ h. cc h.0)
  terminal_answer-shell count terminal =
      let (there, back) = open_shell_iff upgrades (ws_vm count query) vm in
      ((λ h. let (o, u) = there h in (refl, o, u)), λ (t, o, u). back (o, u))
  terminal_answer-shell count page = ((λ h. cc h), λ h. cc h.0)
  terminal_answer-shell count missing = ((λ h. cc h), λ h. cc h.0)
  terminal_answer-shell count (moved to) = ((λ h. cc h), λ h. cc h.0)

  module _ (fl : FloatOps R) (load : Text → Result LoadError (Scenario R)) (spec : Body R) where
    server_answer-shell :
        (t : Target) (r : Request) (s : Server R)
        → ((server_answer query upgrades fl load spec t r s).1 ≡ shell vm)
          ↔ ((t ≡ terminal) × (server_vm query ≡ some vm) × (upgrades ≡ true))
    server_answer-shell api r s = ((λ h. cc h), λ h. cc h.0)
    server_answer-shell terminal r s =
        let (there, back) = open_shell_iff upgrades (server_vm query) vm in
        ((λ h. let (o, u) = there h in (refl, o, u)), λ (t, o, u). back (o, u))
    server_answer-shell page r s = ((λ h. cc h), λ h. cc h.0)
    server_answer-shell missing r s = ((λ h. cc h), λ h. cc h.0)
    server_answer-shell (moved to) r s = ((λ h. cc h), λ h. cc h.0)

not_known :
    (path known : Text)
    → has_prefix (codes "/api/") path ≡ true
    → has_prefix (codes "/api/") known ≡ false
    → text_eq path known ≡ false
not_known path known h n = elim (Bool-cases (text_eq path known)) [
  | inl e ↦ cc (h, n, ap (has_prefix (codes "/api/")) (text_eq_sound path known e))
  | inr f ↦ f
]

-- A path of the REST API is none of the others.
server_table-api : (path : Text) → has_prefix (codes "/api/") path ≡ true → server_table path ≡ api
unfolding has_prefix
server_table-api path h =
    rw
      (
        not_known path (codes "/ws") h refl,
        not_known path (codes "/") h refl,
        not_known path (codes "/api") h refl,
        h,
      )
      refl

server_table-ne-api :
    (path : Text) → has_prefix (codes "/api/") path ≡ false → server_table path ≢ api
server_table-ne-api path n h =
    other_target (text_eq path (codes "/ws")) (text_eq path (codes "/"))
      (text_eq path (codes "/api")) (rw n at h)
  where
    other_target :
        (a b c : Bool)
        → (if a then terminal else if b then page else if c then moved (codes "/api/") else missing)
          ≢ api
    other_target a b c h = ground arith

server_answer-state :
    {R : Type 0} (fl : FloatOps R) (load : Text → Result LoadError (Scenario R)) (spec : Body R)
    (query : Text) (upgrades : Bool) (t : Target) (r : Request) (s : Server R)
    → t ≢ api
    → (server_answer query upgrades fl load spec t r s).0 ≡ s
server_answer-state fl load spec query upgrades api r s n = absurd (n refl)
server_answer-state fl load spec query upgrades terminal r s n = refl
server_answer-state fl load spec query upgrades page r s n = refl
server_answer-state fl load spec query upgrades missing r s n = refl
server_answer-state fl load spec query upgrades (moved to) r s n = refl

-- At "/ws".
pub serve_terminal-shell :
    {R : Type 0} (query : Text) (upgrades : Bool) (vm count : ℕ)
    → (serve_terminal {R = R} query upgrades count (codes "/ws") ≡ shell vm)
      ↔ ((ws_vm count query ≡ some vm) × (upgrades ≡ true))
unfolding serve_terminal
serve_terminal-shell query upgrades vm count =
    let (there, back) =
      terminal_answer-shell query upgrades vm count (terminal_target (codes "/ws")) in
    let at = terminal_target-table (codes "/ws") refl in
    ((λ h. let (t, u, v) = there h in (u, v)), λ (u, v). back (at, u, v))

-- A request gets a shell on a VM from the server of the REST API exactly when its path is "/ws", its
-- parameter is the number of the VM, and the connection can be upgraded: the fleets and the scenarios of
-- the server have no part in it. The web terminal of a fleet also asks that the number is below the
-- count of its VMs.
pub shell_iff :
    {R : Type 0} (fl : FloatOps R) (load : Text → Result LoadError (Scenario R)) (spec : Body R)
    (query : Text) (upgrades : Bool) (vm count : ℕ) (r : Request) (s : Server R)
    → has_prefix (codes "/") r.path ≡ true
    → (((serve_all query upgrades fl load spec r s).1 ≡ shell vm)
        ↔ ((r.path ≡ codes "/ws") × (atoi query ≡ some (pos vm)) × (upgrades ≡ true)))
      × ((serve_terminal {R = R} query upgrades count r.path ≡ shell vm) ↔ (
          (r.path ≡ codes "/ws") × (atoi query ≡ some (pos vm)) × (vm < count) × (upgrades ≡ true)))
unfolding serve_all serve_terminal server_vm
shell_iff fl load spec query upgrades vm count r s p =
    let (a, b) = server_answer-shell query upgrades vm fl load spec (server_target r.path) r s in
    let (c, d) = terminal_answer-shell query upgrades vm count (terminal_target r.path) in
    let (e, f) = server_table-terminal r.path in
    let (g, h) = terminal_table-terminal r.path in
    let (i, j) = not_negative_iff (atoi query) vm in
    let (k, l) = ws_vm_iff count query vm in
    let at = server_target-table r.path p in
    let below = terminal_target-table r.path p in
    (
      ((λ x. let (t, u, v) = a x in (e (sym at ∙ t), i u, v)), λ (t, u, v). b (at ∙ f t, j u, v)),
      (
        (λ x. let (t, u, v) = c x in let (m, n) = k u in (g (sym below ∙ t), m, n, v)),
        λ (t, u, n, v). d (below ∙ h t, l (u, n), v),
      ),
    )

eq_if {ℓ} :
    {A : Type ℓ} (b : Bool) {x y z : A}
    → (b ≡ true → x ≡ y)
    → (b ≡ false → x ≡ z)
    → x ≡ (if b then y else z)
eq_if true f g = f refl
eq_if false f g = g refl

-- The server of the REST API hands a request whose path begins with "/api/" to the handlers of package
-- api, whose answer and state are then those of the server; no other request changes the state.
pub serve_all-api :
    {R : Type 0} (fl : FloatOps R) (load : Text → Result LoadError (Scenario R)) (spec : Body R)
    (query : Text) (upgrades : Bool) (r : Request) (s : Server R)
    → has_prefix (codes "/") r.path ≡ true
    → let done = serve_all query upgrades fl load spec r s in
      let handled = Handler.serve fl load spec r s in
      done
      ≡ (if has_prefix (codes "/api/") r.path then (handled.0, by_api handled.1) else (s, done.1))
unfolding serve_all
serve_all-api fl load spec query upgrades r s p =
    let at = server_target-table r.path p in
    eq_if (has_prefix (codes "/api/") r.path)
      (λ h.
        ap (λ t. server_answer query upgrades fl load spec t r s) (at ∙ server_table-api r.path h))
      (λ h.
        ap (λ u. (u, (server_answer query upgrades fl load spec (server_target r.path) r s).1))
          (server_answer-state fl load spec query upgrades (server_target r.path) r s
            (λ e. server_table-ne-api r.path h (sym at ∙ e))))
