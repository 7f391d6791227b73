-- ===== src/Examples/Sample.antt =====
-- A small scenario in the manner of scenario/testdata/minimal.yaml, and float operations on
-- thousandths, for the examples.
use onfire.Prelude.{◌/◌, ◌*◌, [], ◌∷◌, none, false}
use onfire.Prelude.Int.{ℤ, pos, pos_part, ltb_ℤ}
use onfire.Prelude.Text.{codes}
use onfire.Scenario.Floats.{FloatOps}
use onfire.Scenario.Types.{Tier, FaultTarget, Fault, Scenario, RunOptions}

-- Numbers of thousandths that are not negative.
abbrev pub thousandths : FloatOps ℤ
thousandths = record {
  seconds = λ n. pos (pos_part n / 1_000_000);
  mul = λ a b. pos (pos_part a * pos_part b / 1000);
  to_int = λ a. pos (pos_part a / 1000);
  lt = ltb_ℤ;
  parse = λ s. none;
  five_hundredths = pos 50;
}

abbrev pub web_tier : Tier
web_tier = record {
  name = codes "web";
  count = pos 2;
  count_min = pos 1;
  count_max = pos 3;
  vcpus = pos 1;
  mem_mb = pos 256;
  disk_mb = pos 0;
  services = codes "nginx" ∷ [];
  setup = [];
}

abbrev pub db_tier : Tier
db_tier = record web_tier { name = codes "db"; count = pos 0; services = codes "mysql" ∷ [] }

abbrev pub web_target : FaultTarget
web_target = record { vm = []; tier = codes "web"; select = codes "all" }

abbrev pub disk_fault : Fault
disk_fault = record {
  id = codes "fill";
  fault_type = codes "disk";
  target = web_target;
  params = (codes "path", codes "/var") ∷ [];
  at = codes "0s";
  duration = codes "5m";
  triggers = [];
}

abbrev pub sample : Scenario ℤ
sample = record {
  info = record {
    id = codes "test-001";
    title = codes "Disk full";
    difficulty = codes "easy";
    architecture = codes "monolith";
    tags = [];
    description = [];
  };
  environment = record { extends = []; tiers = web_tier ∷ db_tier ∷ [] };
  faults = disk_fault ∷ [];
  signals = record { alerts = []; symptoms = []; runbook_url = [] };
  objectives = [];
  hints = codes "look at df" ∷ codes "rm the file" ∷ [];
  scoring = record {
    base = pos 0;
    time_penalty_per_second = pos 0;
    hint_penalty = pos 0;
    perfect_window = [];
  };
}

abbrev pub sample_options : RunOptions
sample_options = record {
  kernel_path = codes "vmlinux";
  rootfs_path = codes "rootfs.ext4";
  cloud_init_iso = [];
  firecracker_bin = [];
  overrides = record { scale = (codes "web", pos 3) ∷ []; disk = []; vm_ids = 4 ∷ 7 ∷ [] };
  dry_run = false;
  web_port = pos 8888;
}
