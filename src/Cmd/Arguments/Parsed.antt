-- ===== src/Cmd/Arguments/Parsed.antt =====
-- What "onfire scenario run" makes of its arguments: scenarioRunCmd of cmd/scenario.go.
use onfire.Prelude.{◌≡◌, ap, ◌∙◌, List, [], ◌∷◌, ◌++◌, Bool, true, false, Option, some, ok, All}
use onfire.Prelude.Int.{ℤ, pos}
use onfire.Prelude.Text.{Text, codes}
use onfire.Prelude.Dict.{lookup}
use onfire.Flags.{text, int, bool, parsed, first_arg, as_text, as_int, as_bool}
use onfire.Flags.Settings.{Setting, all_spelled, store, Declared}
use onfire.Flags.Positional.{is_positional, given, parse_flags-given}
use onfire.Cmd.Terminal.{ScenarioFlags}
use onfire.Cmd.Arguments.{scenario_set, scenario_flags, scenario_arguments}

-- The value of a flag that a command line gives last, or else its default.
abbrev pub text_given : Text → List Setting → Text → Text
text_given name ss d = as_text (given name ss (some (text d)))

abbrev pub int_given : Text → List Setting → ℤ → ℤ
int_given name ss d = as_int (given name ss (some (int d)))

abbrev pub bool_given : Text → List Setting → Bool → Bool
bool_given name ss d = as_bool (given name ss (some (bool d)))

abbrev pub scenario_given : List Setting → Text → ScenarioFlags
scenario_given ss file = record {
  kernel = text_given (codes "kernel") ss [];
  rootfs = text_given (codes "rootfs") ss [];
  firecracker_bin = text_given (codes "firecracker-bin") ss [];
  cloud_init_iso = text_given (codes "cloud-init-iso") ss [];
  scale = text_given (codes "scale") ss [];
  disk = text_given (codes "disk") ss [];
  dry_run = bool_given (codes "dry-run") ss false;
  port = int_given (codes "port") ss (pos 8888);
  file = file;
}

flags_of :
    (ss : List Setting) (file : Text)
    → ((name : Text)
        → lookup name (store ss scenario_set) ≡ given name ss (lookup name scenario_set))
    → scenario_flags (store ss scenario_set) file ≡ scenario_given ss file
unfolding scenario_flags
flags_of ss file last = λ i. record {
  kernel = as_text (last (codes "kernel") i);
  rootfs = as_text (last (codes "rootfs") i);
  firecracker_bin = as_text (last (codes "firecracker-bin") i);
  cloud_init_iso = as_text (last (codes "cloud-init-iso") i);
  scale = as_text (last (codes "scale") i);
  disk = as_text (last (codes "disk") i);
  dry_run = as_bool (last (codes "dry-run") i);
  port = as_int (last (codes "port") i);
  file = file;
}

-- What the user of "onfire scenario run" writes in front of the file is read back: each of its flags, as
-- "-name=value", as "-name value" or (for "dry-run") as "-name", with one hyphen or two, and with a value
-- of the flag's type, has the value that it was given last, or else its default. Nothing behind the file
-- is read: a "--dry-run" there makes no dry run.
pub scenario_arguments-given :
    (read : Text → Option ℤ) (ss : List Setting) (file : Text) (rest : List Text)
    → All (Declared read scenario_set) ss
    → is_positional file ≡ true
    → scenario_arguments read (all_spelled ss ++ (file ∷ rest)) ≡ ok (scenario_given ss file)
unfolding scenario_arguments
scenario_arguments-given read ss file rest h p =
    let (parse, last) = parse_flags-given read scenario_set ss (file ∷ rest) h p in
    ap (parsed (λ fs args. scenario_flags fs (first_arg args))) parse
    ∙ ap ok (flags_of ss file last)
