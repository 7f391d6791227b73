-- ===== src/Scenario/Types.antt =====
-- scenario/types.go. The parameter `R` stands for float64. Fields of a document that the code only
-- prints (tags, extends, the triggers' conditions) are kept where a record has them.
use onfire.Prelude.{ℕ, List, ◌++◌, Bool}
use onfire.Prelude.Int.{ℤ, pos}
use onfire.Prelude.Text.{Text, codes, decimal}
use onfire.Prelude.Dict.{Dict}
use onfire.Scenario.Floats.{FloatOps}

pub record ScenarioMeta : Type 0 where
  pub id : Text
  pub title : Text
  pub difficulty : Text
  pub architecture : Text
  pub tags : List Text
  pub description : Text

pub record Tier : Type 0 where
  pub name : Text
  pub count : ℤ
  pub count_min : ℤ
  pub count_max : ℤ
  pub vcpus : ℤ
  pub mem_mb : ℤ
  pub disk_mb : ℤ
  pub services : List Text
  pub setup : List Text

pub record Environment : Type 0 where
  pub extends : Text
  pub tiers : List Tier

pub record FaultTarget : Type 0 where
  pub vm : Text
  pub tier : Text
  pub select : Text

pub record FaultTrigger : Type 0 where
  pub fault : Text
  pub when : Text

-- The type is the string of the document: `cpu`, `memory`, `disk` and so on.
pub record Fault : Type 0 where
  pub id : Text
  pub fault_type : Text
  pub target : FaultTarget
  pub params : Dict Text
  pub at : Text
  pub duration : Text
  pub triggers : List FaultTrigger

pub record Alert : Type 0 where
  pub name : Text
  pub severity : Text
  pub fired_at : Text
  pub message : Text

pub record Signals : Type 0 where
  pub alerts : List Alert
  pub symptoms : List Text
  pub runbook_url : Text

-- The type is the string of the document: `http`, `file-exists`, `agent-metric`, `process-running`.
pub record ObjectiveCheck : Type 0 where
  pub check_type : Text
  pub target : FaultTarget
  pub path : Text
  pub expected_status : ℤ
  pub window : Text
  pub metric : Text
  pub condition : Text
  pub service : Text

pub record Objective : Type 0 where
  pub id : Text
  pub description : Text
  pub check : ObjectiveCheck

pub record Scoring (R : Type 0) : Type 0 where
  pub base : ℤ
  pub time_penalty_per_second : R
  pub hint_penalty : ℤ
  pub perfect_window : Text

unfoldable pub default_scoring : {R : Type 0} → FloatOps R → Scoring R
default_scoring fl = record {
  base = pos 100;
  time_penalty_per_second = fl.five_hundredths;
  hint_penalty = pos 10;
  perfect_window = codes "5m";
}

-- A hint is its text.
pub record Scenario (R : Type 0) : Type 0 where
  pub info : ScenarioMeta
  pub environment : Environment
  pub faults : List Fault
  pub signals : Signals
  pub objectives : List Objective
  pub hints : List Text
  pub scoring : Scoring R

pub record VmEntry : Type 0 where
  pub index : ℕ
  pub name : Text
  pub tier : Text
  pub tier_index : ℕ
  pub vcpus : ℤ
  pub mem_mb : ℤ
  pub disk_mb : ℤ
  pub services : List Text

pub record VmPlan : Type 0 where
  pub total_vms : ℕ
  pub vms : List VmEntry
  pub by_name : Dict ℕ
  pub by_tier : Dict (List ℕ)

-- The overrides of a run by tier name, and the allocated IDs.
pub record Overrides : Type 0 where
  pub scale : Dict ℤ
  pub disk : Dict ℤ
  pub vm_ids : List ℕ

pub record RunOptions : Type 0 where
  pub kernel_path : Text
  pub rootfs_path : Text
  pub cloud_init_iso : Text
  pub firecracker_bin : Text
  pub overrides : Overrides
  pub dry_run : Bool
  pub web_port : ℤ

unfoldable pub agent_url : VmEntry → Text
agent_url e = codes "http://172.16." ++ (decimal e.index ++ codes ".2:7777")
