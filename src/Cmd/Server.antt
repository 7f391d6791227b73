-- ===== src/Cmd/Server.antt =====
-- The HTTP handlers of cmd/server.go, which mounts Handler of package api beside the web terminal and the
-- page, and those of StartWebTerminal of cmd/serve.go.
pub mod Routes
pub mod Shells
use onfire.Prelude.{ℕ, List, [], ◌∷◌, Bool, true, false, Option, none, some, Result, if◌then◌else◌}
use onfire.Prelude.Int.{ℤ, pos, negsuc}
use onfire.Prelude.Text.{Text, codes, text_eq}
use onfire.Prelude.Numerals.{atoi}
use onfire.Scenario.Floats.{FloatOps}
use onfire.Scenario.Types.{Scenario}
use onfire.Scenario.Parser.{LoadError}
use onfire.Api.State.{Server, Response, Body}
use onfire.Api.Mux.{MuxAnswer, matched, redirected, unmatched, serve_mux}
use onfire.Api.Routes.{Request}
use onfire.Api.Handler
use onfire.Cmd.Terminal.{ws_vm}

-- Whom a path is for. The handler of "/" answers 404 to other paths.
pub data Target : Type 0 where
  api terminal page missing : Target
  moved : Text → Target

abbrev pub at_root : Text → Target
at_root path = if text_eq path (codes "/") then page else missing

abbrev pub target_of : Text → MuxAnswer → Target
target_of path unmatched = missing
target_of path (redirected to) = moved to
target_of path (matched p) =
    if text_eq p (codes "/api/")
    then api
    else if text_eq p (codes "/ws")
    then terminal
    else at_root path

-- serverCmd.
abbrev pub server_patterns : List Text
server_patterns = codes "/api/" ∷ codes "/ws" ∷ codes "/" ∷ []

unfoldable pub server_target : Text → Target
unfolding serve_mux
server_target path = target_of path (serve_mux server_patterns path)

-- StartWebTerminal.
abbrev pub terminal_patterns : List Text
terminal_patterns = codes "/" ∷ codes "/ws" ∷ []

unfoldable pub terminal_target : Text → Target
unfolding serve_mux
terminal_target path = target_of path (serve_mux terminal_patterns path)

abbrev pub not_negative : Option ℤ → Option ℕ
not_negative none = none
not_negative (some (negsuc n)) = none
not_negative (some (pos n)) = some n

-- The VM of a request to /ws of serverCmd, none where the answer is 400.
unfoldable pub server_vm : Text → Option ℕ
unfolding atoi
server_vm query = not_negative (atoi query)

-- What a request is answered. A shell is what wsHandler does with the VM, once the connection has been
-- upgraded; where that fails, the package has answered.
pub data Served (R : Type 0) : Type 0 where
  by_api : Response R → Served R
  shell : ℕ → Served R
  not_upgraded : Served R
  bad_request : Served R
  index_html : Served R
  not_found : Served R
  to_path : Text → Served R

abbrev pub open_shell : {R : Type 0} → Bool → Option ℕ → Served R
open_shell upgrades none = bad_request
open_shell upgrades (some vm) = if upgrades then shell vm else not_upgraded

-- `query` is the parameter vm of the request, and `upgrades` whether the connection can be upgraded.
module _ {R : Type 0} (query : Text) (upgrades : Bool) where
  abbrev pub terminal_answer : ℕ → Target → Served R
  terminal_answer count terminal = open_shell upgrades (ws_vm count query)
  terminal_answer count page = index_html
  terminal_answer count (moved to) = to_path to
  terminal_answer count _ = not_found

  -- The handlers of StartWebTerminal, for `count` VMs.
  unfoldable pub serve_terminal : ℕ → Text → Served R
  unfolding terminal_target ws_vm
  serve_terminal count path = terminal_answer count (terminal_target path)

  module _ (fl : FloatOps R) (load : Text → Result LoadError (Scenario R)) (spec : Body R) where
    abbrev with_response : Server R × Response R → Server R × Served R
    with_response p = (p.0, by_api p.1)

    abbrev pub server_answer : Target → Request → Server R → Server R × Served R
    server_answer api r s = with_response (Handler.serve fl load spec r s)
    server_answer terminal r s = (s, open_shell upgrades (server_vm query))
    server_answer page r s = (s, index_html)
    server_answer missing r s = (s, not_found)
    server_answer (moved to) r s = (s, to_path to)

    -- The handlers of serverCmd.
    unfoldable pub serve_all : Request → Server R → Server R × Served R
    unfolding server_target server_vm Handler.serve
    serve_all r s = server_answer (server_target r.path) r s
