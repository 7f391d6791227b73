-- ===== src/Vm/RootFs.antt =====
-- PrepareRootFS of vm/rootfs.go. What the file system and the external
-- commands answer is an argument: whether a call succeeds, or the path of a temporary file.
pub mod Cleanup
use onfire.Prelude.{
  ℕ, zero, suc, ◌+◌, List, [], ◌∷◌, ◌++◌, Bool, true, false, not, ◌&&◌, Option, none, some, Result,
  ok, err, ◌==◌, if◌then◌else◌,
}
use onfire.Prelude.Int.{ℤ, pos, pos_part, ltb_ℤ}
use onfire.Prelude.Text.{Text, codes, decimal}

pub record Tools : Type 0 where
  -- cp --reflink=auto, and the plain cp; whether a plain cp that fails leaves a file
  pub clones : Bool
  pub copies : Bool
  pub leaves_copy : Bool
  -- os.CreateTemp and WriteString of the content, os.CreateTemp of the script
  pub temp : Option Text
  pub writes : Bool
  pub script : Option Text
  pub debugfs : Text → Text → Bool
  pub truncates : Text → Bool
  pub resizes : Bool

pub data RootError : Type 0 where
  copy_failed temp_failed write_failed script_failed : RootError
  debugfs_failed truncate_failed resize_failed : RootError

-- A file by what it is made for, with its path. os.CreateTemp gives new paths.
pub data File : Type 0 where
  image_file temp_file script_file : Text → File

pub data Change : Type 0 where
  made removed : File → Change

pub record Prepared : Type 0 where
  pub changes : List Change
  pub result : Result RootError Text

unfoldable pub image_path : ℕ → Text
image_path id = codes "vm-" ++ (decimal id ++ codes "-rootfs.ext4")

abbrev pub after : Change → Prepared → Prepared
after c p = record { changes = c ∷ p.changes; result = p.result }

-- defer os.Remove(file)
abbrev pub deferred : File → Prepared → Prepared
deferred file p = record { changes = p.changes ++ (removed file ∷ []); result = p.result }

-- os.Remove(vmRootFS), and the error.
abbrev pub give_up : Text → RootError → Prepared
give_up image e = record { changes = removed (image_file image) ∷ []; result = err e }

module _ (tools : Tools) (image : Text) where
  -- The image is resized if a size is given; the answer of e2fsck is not looked at.
  unfoldable pub expand : ℤ → Prepared
  unfolding decimal
  expand size =
      if not (ltb_ℤ (pos 0) size)
      then record { changes = []; result = ok image }
      else if not (tools.truncates (decimal (pos_part size) ++ codes "M"))
      then give_up image truncate_failed
      else if not tools.resizes
      then give_up image resize_failed
      else record { changes = []; result = ok image }

  abbrev pub with_script : ℤ → Option Text → Prepared
  with_script size none = give_up image script_failed
  with_script size (some path) = after (made (script_file path)) (
      deferred (script_file path)
        (if tools.debugfs path image then expand size else give_up image debugfs_failed))

  abbrev pub with_temp : ℤ → Option Text → Prepared
  with_temp size none = give_up image temp_failed
  with_temp size (some path) = after (made (temp_file path)) (
      deferred (temp_file path)
        (if tools.writes then with_script size tools.script else give_up image write_failed))

-- The plain cp is tried where the cloning one fails. What a failed one leaves is not removed.
unfoldable pub prepare_rootfs : Tools → ℕ → ℤ → Prepared
unfolding expand image_path
prepare_rootfs tools id size =
    let image = image_path id in
    if not tools.clones && not tools.copies
    then record {
      changes = if tools.leaves_copy then made (image_file image) ∷ [] else [];
      result = err copy_failed;
    }
    else after (made (image_file image)) (with_temp tools image size tools.temp)
