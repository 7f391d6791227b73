-- ===== src/Vm/Write.antt =====
-- WriteToRootFS and lastSlash of vm/rootfs.go. os.CreateTemp is the path that it makes, or none.
pub mod Path
use onfire.Prelude.{
  take, drop, get_elem?, ℕ, zero, suc, ◌+◌, List, [], ◌∷◌, ◌++◌, Bool, true, false, not, Option,
  none, some, length, if◌then◌else◌, ◌==◌, ◌≡◌, refl, ap, ◌∙◌, sym, arith, Result, ok, err,
}
use onfire.Prelude.Text.{Text, codes}
use onfire.Vm.RootFs.{File, temp_file, script_file, Change, made, removed}

abbrev pub is_slash : Option ℕ → Bool
is_slash none = false
is_slash (some c) = c == b'/'

-- The loop for the indices below `n`, from the last one down.
unfoldable pub slash_below : Text → ℕ → ℕ
slash_below s zero = 0
slash_below s (suc i) = let rest = slash_below s i in if is_slash (get_elem? s i) then i else rest

-- 0 if there is no slash.
unfoldable pub last_slash : Text → ℕ
unfolding slash_below
last_slash s = slash_below s (length s)

pub data WriteError : Type 0 where
  temp_failed write_failed script_failed debugfs_failed : WriteError

-- `debugfs` is given the text of the script and the image.
pub record WriteTools : Type 0 where
  pub temp : Option Text
  pub writes : Bool
  pub script : Option Text
  pub debugfs : Text → Text → Bool

-- What is written to the temporary file, and what debugfs was run with.
pub record Written : Type 0 where
  pub changes : List Change
  pub ran : Option (Text × Text)
  pub error : Option WriteError

-- "cd %s\nrm %s\nwrite %s %s\n"
abbrev pub debugfs_script : Text → Text → Text → Text
debugfs_script dir name temp =
    codes "cd "
    ++ (dir
        ++ ((b'\n' ∷ codes "rm ")
            ++ (name ++ ((b'\n' ∷ codes "write ") ++ (temp ++ (b' ' ∷ (name ++ (b'\n' ∷ []))))))))

abbrev pub with_file : File → Written → Written
with_file file w = record w { changes = made file ∷ (w.changes ++ (removed file ∷ [])) }

abbrev pub failed_with : WriteError → Written
failed_with e = record { changes = []; ran = none; error = some e }

abbrev pub run_script : WriteTools → Text → Text → Written
run_script tools text image = record {
  changes = [];
  ran = some (text, image);
  error = if tools.debugfs text image then none else some debugfs_failed;
}

-- The script for a path: its directory, and the name behind the last slash. Beyond the end a slice
-- panics, which only an empty path would come to.
unfoldable pub script_of : Text → Text → Text
unfolding last_slash
script_of path temp =
    debugfs_script (take (last_slash path) path) (drop (last_slash path + 1) path) temp

abbrev pub on_script : WriteTools → Text → Text → Text → Option Text → Written
on_script tools image path temp none = failed_with script_failed
on_script tools image path temp (some script) =
    with_file (script_file script) (run_script tools (script_of path temp) image)

abbrev pub on_temp : WriteTools → Text → Text → Option Text → Written
on_temp tools image path none = failed_with temp_failed
on_temp tools image path (some temp) = with_file (temp_file temp) (
    if tools.writes then on_script tools image path temp tools.script else failed_with write_failed)

unfoldable pub write_to_rootfs : WriteTools → Text → Text → Written
unfolding script_of
write_to_rootfs tools image path = on_temp tools image path tools.temp
