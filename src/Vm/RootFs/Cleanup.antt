-- ===== src/Vm/RootFs/Cleanup.antt =====
-- What PrepareRootFS leaves in the file system.
use onfire.Prelude.{
  true, ◌||◌, ◌⊎◌, ℕ, ◌≡◌, refl, List, [], ◌∷◌, ◌++◌, Bool, false, not, Option, none, some, Result,
  ok, err, if◌then◌else◌, Bool-cases, ◌∙◌, ap, inl, inr,
}
use onfire.Prelude.Int.{ℤ, pos, pos_part, ltb_ℤ}
use onfire.Prelude.Text.{Text, codes, decimal, text_eq, text_eq_refl}
use onfire.Vm.RootFs.{
  Tools, RootError, copy_failed, debugfs_failed, write_failed, File, image_file, temp_file,
  script_file, Change, made, removed, Prepared, expand, with_script, with_temp, after, deferred,
  give_up, image_path, prepare_rootfs,
}

abbrev same_file : File → File → Bool
same_file (image_file p) (image_file q) = text_eq p q
same_file (temp_file p) (temp_file q) = text_eq p q
same_file (script_file p) (script_file q) = text_eq p q
same_file _ _ = false

abbrev pub drop_file : File → List File → List File
drop_file f [] = []
drop_file f (g ∷ gs) = let rest = drop_file f gs in if same_file f g then rest else g ∷ rest

-- The files that there are after some changes, the newest first.
abbrev pub files_after : List Change → List File → List File
files_after [] files = files
files_after (made f ∷ cs) files = files_after cs (f ∷ files)
files_after (removed f ∷ cs) files = files_after cs (drop_file f files)

abbrev pub kept : Result RootError Text → List File
kept (ok path) = image_file path ∷ []
kept (err e) = []

pub files_after-append :
    (cs ds : List Change) (files : List File)
    → files_after (cs ++ ds) files ≡ files_after ds (files_after cs files)
files_after-append [] ds files = refl
files_after-append (made f ∷ cs) ds files = files_after-append cs ds (f ∷ files)
files_after-append (removed f ∷ cs) ds files = files_after-append cs ds (drop_file f files)

module _ (tools : Tools) (image : Text) where
  -- Of the files of one temporary kind under the image, only the image goes on a failure.
  abbrev Keeps : List File → Prepared → Type 0
  Keeps others p =
      files_after p.changes (others ++ (image_file image ∷ [])) ≡ others ++ kept p.result

  expand-Keeps :
      (t s : Text) (size : ℤ) → Keeps (script_file s ∷ temp_file t ∷ []) (expand tools image size)
  unfolding expand
  expand-Keeps t s size = elim (Bool-cases (ltb_ℤ (pos 0) size)) [
    | inr f ↦ rw f refl
    | inl p ↦ elim (Bool-cases (tools.truncates (decimal (pos_part size) ++ codes "M"))) [
      | inr f ↦ rw p (rw f (rw (text_eq_refl image) refl))
      | inl q ↦ elim (Bool-cases tools.resizes) [
        | inr f ↦ rw p (rw q (rw f (rw (text_eq_refl image) refl)))
        | inl u ↦ rw p (rw q (rw u refl))
      ]
    ]
  ]

  drop_script :
      (t s : Text) (r : Result RootError Text)
      → drop_file (script_file s) (script_file s ∷ temp_file t ∷ kept r) ≡ temp_file t ∷ kept r
  drop_script t s (ok p) = rw (text_eq_refl s) refl
  drop_script t s (err e) = rw (text_eq_refl s) refl

  drop_temp :
      (t : Text) (r : Result RootError Text)
      → drop_file (temp_file t) (temp_file t ∷ kept r) ≡ kept r
  drop_temp t (ok p) = rw (text_eq_refl t) refl
  drop_temp t (err e) = rw (text_eq_refl t) refl

  deferred_script :
      (t s : Text) (p : Prepared)
      → Keeps (script_file s ∷ temp_file t ∷ []) p
      → Keeps (temp_file t ∷ []) (after (made (script_file s)) (deferred (script_file s) p))
  deferred_script t s p h =
      ◌∙◌ (files_after-append p.changes (removed (script_file s) ∷ []) _)
        (◌∙◌ (ap (drop_file (script_file s)) h) (drop_script t s p.result))

  deferred_temp :
      (t : Text) (p : Prepared)
      → Keeps (temp_file t ∷ []) p
      → Keeps [] (after (made (temp_file t)) (deferred (temp_file t) p))
  deferred_temp t p h =
      ◌∙◌ (files_after-append p.changes (removed (temp_file t) ∷ []) _)
        (◌∙◌ (ap (drop_file (temp_file t)) h) (drop_temp t p.result))

  with_script-Keeps :
      (t : Text) (size : ℤ) (o : Option Text)
      → Keeps (temp_file t ∷ []) (with_script tools image size o)
  with_script-Keeps t size none = rw (text_eq_refl image) refl
  with_script-Keeps t size (some s) =
      deferred_script t s
        (if tools.debugfs s image then expand tools image size else give_up image debugfs_failed)
        (elim (Bool-cases (tools.debugfs s image)) [
          | inl d ↦ rw d (expand-Keeps t s size)
          | inr d ↦ rw d (rw (text_eq_refl image) refl)
        ])

  with_temp-Keeps : (size : ℤ) (o : Option Text) → Keeps [] (with_temp tools image size o)
  with_temp-Keeps size none = rw (text_eq_refl image) refl
  with_temp-Keeps size (some t) =
      deferred_temp t
        (if tools.writes
          then with_script tools image size tools.script
          else give_up image write_failed)
        (elim (Bool-cases tools.writes) [
          | inl w ↦ simp w (with_script-Keeps t size tools.script)
          | inr w ↦ rw w (rw (text_eq_refl image) refl)
        ])

-- What PrepareRootFS has made is removed, but for the image of the path that it returns.
abbrev pub LeavesImage : Tools → Prepared → Type 0
LeavesImage tools p =
    ((tools.clones || tools.copies || not tools.leaves_copy) ≡ true)
    × (files_after p.changes [] ≡ kept p.result)

-- Both copies have failed, and the file that the second one has left stays.
abbrev pub LeavesCopy : Tools → ℕ → Prepared → Type 0
LeavesCopy tools id p =
    (tools.clones ≡ false)
    × (tools.copies ≡ false)
    × (tools.leaves_copy ≡ true)
    × (p.result ≡ err copy_failed)
    × (files_after p.changes [] ≡ image_file (image_path id) ∷ [])

-- Whatever the tools answer: if PrepareRootFS returns a path, then of the files that it has made the
-- image at this path is the only one left; if it returns an error, none is left, but where both cp
-- fail and the second one leaves a file: then this file, at the path of the image, stays.
pub prepare_rootfs-files_after :
    (tools : Tools) (id : ℕ) (size : ℤ)
    → let p = prepare_rootfs tools id size in LeavesImage tools p ⊎ LeavesCopy tools id p
unfolding prepare_rootfs
prepare_rootfs-files_after tools id size = elim (Bool-cases tools.clones) [
  | inl c ↦ rw c (inl (refl, with_temp-Keeps tools (image_path id) size tools.temp))
  | inr c ↦ elim (Bool-cases tools.copies) [
    | inl d ↦ rw (c, d) (inl (refl, with_temp-Keeps tools (image_path id) size tools.temp))
    | inr d ↦ elim (Bool-cases tools.leaves_copy) [
      | inl l ↦ rw (c, d, l) (inr (refl, refl, refl, refl, refl))
      | inr l ↦ rw (c, d, l) (inl (refl, refl))
    ]
  ]
]
