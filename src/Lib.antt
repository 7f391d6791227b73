-- ===== src/Lib.antt =====
-- onfire: a chaos engineering platform. A server on the host starts fleets of Firecracker microVMs
-- and scenarios; a scenario starts the VMs of its tiers, has the agents in them inject faults, checks
-- objectives, and counts a score.
--
-- The parts, and the files that model them:
--   Vm/Config       vm/config.go: Config, DefaultConfig, resolveBinary, Validate, ForVM, with the
--                   rewriting of the kernel's ip= argument in Vm/Config/Args.
--   Vm/Tap          vm/tap.go: EnsureTAP, RemoveTAP and the search for "already exists".
--   Vm/RootFs, Vm/Write   vm/rootfs.go: PrepareRootFS, and WriteToRootFS with lastSlash.
--   Vm/Machine      vm/machine.go: New and Stop. Vm/Distinct is about the names of VMs.
--   Scenario/Types  scenario/types.go: the records of a document, the plan, AgentURL.
--   Scenario/Parser scenario/parser.go: Load and validate.
--   Scenario/Plan, Scenario/Targets   BuildVMPlan and ResolveTargets of the same file.
--   Scenario/Score, Scenario/Runner   Score.Current (types.go); NewRunner, RequestHint,
--                   RequestHintText and CurrentScore (scenario/runner.go).
--   Scenario/Delivery     injectFault and stopFault of the runner; Scenario/Injection has their
--                   requests at the handlers of the agents.
--   Scenario/Objectives, Scenario/Condition   checkAllObjectives, checkObjective, fetchMetrics,
--                   fetchServices and evalCondition.
--   Scenario/Provision, Scenario/Packages   provisionVM, provisionAll and servicePackages.
--   Scenario/Boot, Scenario/Screen   the start of the VMs in Run, and what the runner prints.
--   Scenario/Run    Run of the runner from the point where the VMs are up: the timers of the faults,
--                   the poll, hints, the context, and the select that ends it.
--   Api/State, Api/Ids    the Server of api/server.go with its entries, allocateVMIDs and
--                   releaseVMIDs; Api/Totals is TotalVMs.
--   Api/Fleets, Api/Launch   api/fleet.go: the handlers, the critical sections of the goroutine of
--                   createFleet, and launchFleet; Api/Launch/Defaults is DefaultLaunchDeps.
--   Api/Mux         http.ServeMux on clean paths, for the patterns of Handler and of the servers.
--   Api/Scenarios, Api/Overrides   api/scenario.go: the handlers, the goroutine of createScenario,
--                   and the parsers of scale and disk overrides.
--   Api/Routes, Api/Handler   the dispatching handlers, handleVM, and Handler with its patterns.
--   Client          onfirec/main.go: the commands, the requests they send and what they print.
--   Flags           package flag, as the commands of both programs use it. Client/Arguments and
--                   Cmd/Arguments have the flags that the commands declare.
--   Cmd/Commands    Execute of cmd/run.go, scenarioCmd of cmd/scenario.go, serveCmd of cmd/serve.go.
--   Cmd/Fleet       cmd/fleet.go, runSingleVM and runCmd of cmd/run.go, and vm/cloudinit.go.
--   Cmd/Terminal    the session of wsHandler (cmd/serve.go), and scenarioRunCmd (cmd/scenario.go).
--   Cmd/Relay       the two goroutines of wsHandler that copy the output of a shell to the browser.
--   Cmd/Server      the HTTP handlers of cmd/server.go and of StartWebTerminal.
--   Cmd/Process     the end of these servers: ListenAndServe, Shutdown, the requests, the fleet.
--   Agent           agent/faults.go and agent/main.go: Agent/Commands has the commands of a fault,
--                   Agent/Faults startFault and stopFault, Agent/Background the goroutines of the
--                   cpu, memory and disk faults, Agent/Handlers the HTTP handlers; Agent/Metrics is
--                   agent/metrics.go.
--   Prelude         lists and tests on native numbers, int64, texts, maps and results.
--   Examples        the theorems at concrete inputs. What a theorem is about stands in the child
--                   modules of the module that has the code.
--
-- How the parts interact: createFleet takes IDs from the allocator and hands them to launchFleet,
-- which asks ForVM for the configuration of each; createScenario also gives them to BuildVMPlan,
-- whose plan ResolveTargets, injectFault and checkObjective index; injectFault posts to the
-- handler handleFaultStart of an agent. A command of onfirec is a request that Handler gives to a
-- handler. serverCmd mounts Handler beside the web terminal, which Run of a scenario also starts, for
-- the VMs of its plan.
--
-- State and steps. A handler is a function from the server to the server and a response; it holds
-- the lock while it reads or writes the maps, so it is one step, and each critical section of a
-- goroutine is a step of its own. A run of a scenario takes one event at a time. Histories of
-- such steps in any order are a data type. The entries of a map are pointers, and are changed
-- under their ID. The agent unlocks its map while the commands of a fault run, so startFault is
-- two steps in Agent/Faults, its critical sections: Agent/Faults/Tracking has histories of them,
-- with stops and timers, and Agent/Faults/Race what goes wrong between them; start_fault is the
-- two without anything between. In Cmd/Relay a goroutine's step is one call (Read, Lock,
-- WriteMessage, Unlock), and a schedule is a list of whose turn it is.
--
-- Numbers. VM IDs, counts and positions are native naturals; int and int64 that the documents or
-- the clients give are signed integers, and the score wraps around at 64 bits. float64 is a
-- parameter: a record of the operations that the code uses. A text is the list of its code
-- points.
--
-- Fuel. The loop of allocateVMIDs has the number of IDs asked for plus the number in use, since a
-- candidate is passed over only if it is in use. The digits of a number n have n + 1. The search
-- for a substring and the dials of provisionVM (15) and of wsHandler (10) have as many rounds as the
-- source's loops. All other loops are over lists.
--
-- What is an argument: the YAML and JSON decoders, the file system, $PATH, UUIDs, the clock, the
-- answers of HTTP requests, the SSH client, the Firecracker SDK, strconv.ParseInt, whether a command
-- succeeds, time.ParseDuration, and LaunchDeps. The order in which Go ranges over a map is that
-- of the list that stands for it.
--
-- What is not modelled: the Firecracker SDK, which is a third-party library; the paths that are not
-- clean, which http.ServeMux redirects; the headers of responses; the text of usage and progress
-- messages; and the embedded files. They print, wait, or hand their work to a library.
pub mod Prelude
pub mod Vm
pub mod Scenario
pub mod Api
pub mod Agent
pub mod Flags
pub mod Client
pub mod Cmd
pub mod Examples
