-- ===== src/Cmd/Process.antt =====
-- The end of serverCmd (cmd/server.go) and of serveCmd with StartWebTerminal (cmd/serve.go): the main
-- goroutine in ListenAndServe, the one that waits for the context and calls Shutdown, the requests that
-- are handled, and the launchFleet that serveCmd has started. What happens comes one by one, in any order.
pub mod Exits
use onfire.Prelude.{
  ℕ, ◌+◌, ◌-◌, List, [], ◌∷◌, Bool, true, false, ◌&&◌, ◌||◌, not, Option, none, some, if◌then◌else◌,
}

-- `cancelled` is whether the context is done, `shut` whether Shutdown has been called, `active` the
-- requests that are being handled, `fleet` whether launchFleet has still to return, and `code` the exit
-- code of the process.
pub record Process : Type 0 where
  pub cancelled : Bool
  pub shut : Bool
  pub active : ℕ
  pub fleet : Bool
  pub code : Option ℕ

pub data Happening : Type 0 where
  signal : Happening
  listen_fails : Happening
  request_begins request_ends : Happening
  fleet_returns : Happening
  shutdown : Happening
  main_returns : Happening

-- From the call of Shutdown on, ListenAndServe returns ErrServerClosed and no request is accepted;
-- Shutdown itself waits for the requests. An error of ListenAndServe before is an exit with code 1.
abbrev pub happens : Happening → Process → Process
happens signal p = record p { cancelled = true }
happens listen_fails p = if p.shut then p else record p { code = some 1 }
happens request_begins p = if p.shut then p else record p { active = p.active + 1 }
happens request_ends p = record p { active = p.active - 1 }
happens fleet_returns p = record p { fleet = false }
happens shutdown p = if p.cancelled then record p { shut = true } else p
happens main_returns p = if p.shut then record p { code = some 0 } else p

abbrev when_running : Option ℕ → Process → Process → Process
when_running none p q = q
when_running (some n) p q = p

-- Nothing happens in a process that has exited.
unfoldable pub process_step : Happening → Process → Process
process_step h p = when_running p.code p (happens h p)

unfoldable pub process_run : List Happening → Process → Process
unfolding process_step
process_run [] p = p
process_run (h ∷ hs) p = process_run hs (process_step h p)

-- `fleet` is true for serveCmd.
abbrev pub start_process : Bool → Process
start_process fleet = record {
  cancelled = false;
  shut = false;
  active = 0;
  fleet = fleet;
  code = none;
}
