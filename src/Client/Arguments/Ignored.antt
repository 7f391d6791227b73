-- ===== src/Client/Arguments/Ignored.antt =====
-- What "onfirec scenario run" does with flags behind the file, where its usage line shows them.
use onfire.Prelude.{◌≡◌, refl, ap, ◌∙◌, List, [], ◌∷◌, ◌++◌, true, false, Option, ok, All}
use onfire.Prelude.Int.{ℤ}
use onfire.Prelude.Text.{Text, codes, text_eq}
use onfire.Flags.{parsed, FlagSet, first_arg}
use onfire.Flags.Settings.{Setting, all_spelled, store, Declared}
use onfire.Flags.Positional.{is_positional, parse_flags-given}
use onfire.Client.{client, Plan, asks, print_json, scenario_object, run_plan}
use onfire.Client.Arguments.{scenario_run_set, scenario_request, package_flags}

abbrev pub post_scenario : FlagSet → Text → Plan
post_scenario fs file =
    asks
      (record {
        method = codes "POST";
        path = codes "/api/v1/scenarios";
        body = scenario_object (scenario_request fs file);
      })
      print_json

run_plan-file :
    (fs : FlagSet) (file : Text)
    → text_eq file [] ≡ false
    → run_plan (ok (scenario_request fs file)) ≡ post_scenario fs file
unfolding scenario_request
run_plan-file fs file h = rw h refl

-- "onfirec scenario run" sends the file with the flags that stand in front of it. Whatever follows the
-- file has no effect on the request, flags such as "--scale web=2" included, which the usage line shows
-- there: it is not even read.
pub scenario_run_ignores :
    (read : Text → Option ℤ) (url : Text) (ss : List Setting) (file : Text) (rest : List Text)
    → All (Declared read scenario_run_set) ss
    → is_positional file ≡ true
    → text_eq file [] ≡ false
    → client
        (package_flags read)
        url
        (codes "scenario" ∷ codes "run" ∷ (all_spelled ss ++ (file ∷ rest)))
      ≡ post_scenario (store ss scenario_run_set) file
unfolding client package_flags
scenario_run_ignores read url ss file rest h p n =
    ap (λ r. run_plan (parsed (λ fs args. scenario_request fs (first_arg args)) r))
      (parse_flags-given read scenario_run_set ss (file ∷ rest) h p).0
    ∙ run_plan-file (store ss scenario_run_set) file n
