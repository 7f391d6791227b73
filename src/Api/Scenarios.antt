-- ===== src/Api/Scenarios.antt =====
-- The handlers of api/scenario.go and the goroutine of createScenario. The decoder's result, the
-- loader, the UUID, the time and the time elapsed are arguments. Each handler is one step: between
-- the two critical sections of createScenario the IDs are in use already and nothing else of it is
-- visible.
use onfire.Prelude.{
  ℕ, ◌+◌, List, [], ◌++◌, Bool, true, false, Option, none, some, map, Result, ok, err,
  if◌then◌else◌, ◌==◌,
}
use onfire.Prelude.Int.{ℤ, pos}
use onfire.Prelude.Text.{Text, codes}
use onfire.Prelude.Dict.{lookup, insert}
use onfire.Scenario.Floats.{FloatOps}
use onfire.Scenario.Types.{Scenario, VmPlan, RunOptions}
use onfire.Scenario.Parser.{LoadError}
use onfire.Scenario.Plan.{PlanError, build_vm_plan}
use onfire.Scenario.Runner.{Runner, new_runner, request_hint_text, current_score}
use onfire.Vm.Config.{Config, is_empty}
use onfire.Api.Ids.{allocate_vm_ids, mark_ids, release_vm_ids}
use onfire.Api.Overrides.{parse_overrides, parse_disk_overrides}
use onfire.Api.Fleets.{override_text}
use onfire.Api.State.{
  ScenarioStatus, ScenarioEntry, Server, Response, in_progress, complete, aborted, spawned,
  finished, message, scenario_json, scenarios_json, hint_json, load_failed, plan_failed,
  runner_failed, no_body, respond, vm_statuses, modify,
}

pub record ScenarioCreateRequest : Type 0 where
  pub scenario_file : Text
  pub kernel : Text
  pub rootfs : Text
  pub cloud_init_iso : Text
  pub firecracker_bin : Text
  pub scale : Text
  pub disk : Text
  pub web_port : ℤ

abbrev default_port : ℤ → ℤ
default_port (pos n) = if n == 0 then pos 8888 else pos n
default_port n = n

unfoldable pub run_options : Config → ScenarioCreateRequest → List ℕ → RunOptions
unfolding parse_overrides
run_options base req ids = record {
  kernel_path = override_text req.kernel base.kernel_image_path;
  rootfs_path = override_text req.rootfs base.rootfs_path;
  cloud_init_iso = override_text req.cloud_init_iso base.cloud_init_iso;
  firecracker_bin = override_text req.firecracker_bin base.firecracker_bin;
  overrides = record {
    scale = parse_overrides req.scale;
    disk = parse_disk_overrides req.disk;
    vm_ids = ids;
  };
  dry_run = false;
  web_port = default_port req.web_port;
}

module _ {R : Type 0} where
  unfoldable pub new_scenario : Text → ℤ → Scenario R → Text → List ℕ → Runner R → ScenarioEntry R
  unfolding vm_statuses
  new_scenario uuid now sc file ids runner = record {
    id = uuid;
    title = sc.info.title;
    file = file;
    status = in_progress;
    score = pos 0;
    elapsed = pos 0;
    hints_used = 0;
    vms = vm_statuses ids;
    created_at = now;
    runner = some runner;
    start_at = now;
    vm_ids = ids;
    cancelled = false;
    phase = spawned;
  }

  -- Once the IDs are allocated: on an error of NewRunner they are released again.
  unfoldable pub add_scenario :
      Text
      → ℤ
      → Scenario R
      → Text
      → List ℕ
      → Result PlanError (Runner R)
      → Server R
      → Server R × Response R
  unfolding new_scenario insert release_vm_ids
  add_scenario uuid now sc file ids (err e) s =
      (record s { used_ids = release_vm_ids s.used_ids ids }, respond 500 (runner_failed e))
  add_scenario uuid now sc file ids (ok runner) s =
      let entry = new_scenario uuid now sc file ids runner in
      (record s { scenarios = insert uuid entry s.scenarios }, respond 201 (scenario_json entry))

  -- The first plan is built with no IDs, to know how many to allocate.
  unfoldable pub plan_scenario :
      Text
      → ℤ
      → ScenarioCreateRequest
      → Scenario R
      → Result PlanError VmPlan
      → Server R
      → Server R × Response R
  unfolding allocate_vm_ids add_scenario new_runner run_options
  plan_scenario uuid now req sc (err e) s = (s, respond 400 (plan_failed e))
  plan_scenario uuid now req sc (ok plan) s =
      let ids = allocate_vm_ids s.used_ids plan.total_vms in
      add_scenario uuid now sc req.scenario_file ids
        (new_runner sc (run_options s.base_cfg req ids))
        (record s { used_ids = mark_ids s.used_ids ids })

  unfoldable pub start_scenario :
      Text
      → ℤ
      → ScenarioCreateRequest
      → Result LoadError (Scenario R)
      → Server R
      → Server R × Response R
  unfolding plan_scenario build_vm_plan run_options
  start_scenario uuid now req (err e) s = (s, respond 400 (load_failed e))
  start_scenario uuid now req (ok sc) s =
      plan_scenario uuid now req sc
        (build_vm_plan sc.environment.tiers (run_options s.base_cfg req []).overrides) s

  unfoldable pub create_scenario :
      (Text → Result LoadError (Scenario R))
      → Text
      → ℤ
      → Result Text ScenarioCreateRequest
      → Server R
      → Server R × Response R
  unfolding start_scenario
  create_scenario load uuid now (err e) s = (s, respond 400 (message (codes "invalid JSON: " ++ e)))
  create_scenario load uuid now (ok req) s =
      if is_empty req.scenario_file
      then (s, respond 400 (message (codes "scenario_file is required")))
      else start_scenario uuid now req (load req.scenario_file) s

  unfoldable pub list_scenarios : Server R → Response R
  list_scenarios s = respond 200 (scenarios_json (map (λ kv. kv.1) s.scenarios))

  abbrev not_found : Server R → Server R × Response R
  not_found s = (s, respond 404 (message (codes "scenario not found")))

module _ {R : Type 0} (fl : FloatOps R) where
  -- `since_run` is the time since the runner's start, `since_create` the one since the entry's.
  abbrev pub refreshed : ℤ → ℤ → ScenarioEntry R → Option (Runner R) → ScenarioEntry R
  refreshed since_run since_create e none = e
  refreshed since_run since_create e (some r) =
      let (r', score) = current_score fl r since_run in
      record e { runner = some r'; score = score; elapsed = since_create }

  abbrev get_found : ℤ → ℤ → Text → Server R → Option (ScenarioEntry R) → Server R × Response R
  get_found since_run since_create id s none = not_found s
  get_found since_run since_create id s (some e) =
      let e' = refreshed since_run since_create e e.runner in
      (record s { scenarios = insert id e' s.scenarios }, respond 200 (scenario_json e'))

  unfoldable pub get_scenario : ℤ → ℤ → Text → Server R → Server R × Response R
  unfolding lookup insert current_score
  get_scenario since_run since_create id s =
      get_found since_run since_create id s (lookup id s.scenarios)

  -- A hint of an entry that has been found: the runner counts it, and so does the entry.
  unfoldable pub give_hint :
      ℤ → Text → Server R → ScenarioEntry R → Option (Runner R) → Server R × Response R
  unfolding insert request_hint_text current_score
  give_hint since_run id s e none = (s, respond 500 (message (codes "runner not available")))
  give_hint since_run id s e (some r) =
      let (r1, text) = request_hint_text r in
      let (r2, score) = current_score fl r1 since_run in
      (
        record s {
          scenarios =
              insert id
                (record e { runner = some r2; hints_used = e.hints_used + 1; score = score })
                s.scenarios;
        },
        respond 200 (hint_json text score),
      )

  abbrev hint_found : ℤ → Text → Server R → Option (ScenarioEntry R) → Server R × Response R
  hint_found since_run id s none = not_found s
  hint_found since_run id s (some e) = give_hint since_run id s e e.runner

  unfoldable pub hint_scenario : ℤ → Text → Server R → Server R × Response R
  unfolding give_hint lookup
  hint_scenario since_run id s = hint_found since_run id s (lookup id s.scenarios)

abbrev pub final_status : Bool → ScenarioStatus → ScenarioStatus
final_status true in_progress = aborted
final_status false in_progress = complete
final_status c st = st

module _ {R : Type 0} where
  abbrev abort_found : Text → Server R → Option (ScenarioEntry R) → Server R × Response R
  abort_found id s none = not_found s
  abort_found id s (some e) = (
    record s {
      scenarios = insert id (record e { cancelled = true; status = aborted }) s.scenarios;
    },
    respond 204 no_body,
  )

  unfoldable pub delete_scenario : Text → Server R → Server R × Response R
  unfolding lookup insert
  delete_scenario id s = abort_found id s (lookup id s.scenarios)

  abbrev pub freed_by : Option (ScenarioEntry R) → List ℕ → List ℕ
  freed_by none used = used
  freed_by (some e) used = release_vm_ids used e.vm_ids

  -- The goroutine's critical section, once Run has returned: ctx.Err() is read there.
  unfoldable pub end_scenario : Text → Server R → Server R
  unfolding modify lookup release_vm_ids
  end_scenario id s = record s {
    scenarios =
        modify id (λ e. record e { status = final_status e.cancelled e.status; phase = finished })
          s.scenarios;
    used_ids = freed_by (lookup id s.scenarios) s.used_ids;
  }
