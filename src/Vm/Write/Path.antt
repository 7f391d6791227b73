-- ===== src/Vm/Write/Path.antt =====
-- How WriteToRootFS takes a path apart, and what it leaves.
use onfire.Prelude.{
  take-length, drop, subst, some_eq_some, ℕ, zero, suc, ◌+◌, [], ◌∷◌, ◌++◌, Bool, true, false,
  Option, none, some, length, if◌then◌else◌, ◌≡◌, refl, ap, ◌∙◌, sym, arith, get_elem?, ◌↔◌,
  length-append, Bool-cases, inl, inr,
}
use onfire.Prelude.Text.{Text, text_eq_refl, has_slash}
use onfire.Vm.RootFs.{temp_file, removed}
use onfire.Vm.RootFs.Cleanup.{files_after, files_after-append, drop_file}
use onfire.Vm.Write.{
  is_slash, script_of, failed_with, write_failed, debugfs_failed, slash_below, last_slash, drop,
  WriteTools, debugfs_script, on_script, on_temp, write_to_rootfs,
}

suc_add : (a b : ℕ) → suc a + b ≡ suc (a + b)
suc_add a b = omega arith

get_elem?-append : (xs ys : Text) (i : ℕ) → get_elem? (xs ++ ys) (length xs + i) ≡ get_elem? ys i
get_elem?-append [] ys i = ap (get_elem? ys) (omega arith)
get_elem?-append (x ∷ xs) ys i =
    ap (get_elem? (x ∷ (xs ++ ys))) (suc_add (length xs) i) ∙ get_elem?-append xs ys i

is_slash-get_elem? : (s : Text) (i : ℕ) → has_slash s ≡ false → is_slash (get_elem? s i) ≡ false
is_slash-get_elem? [] i h = refl
is_slash-get_elem? (c ∷ s) zero h = ground (arith, h)
is_slash-get_elem? (c ∷ s) (suc i) h = is_slash-get_elem? s i (ground (arith, h))

slash_below-append :
    (dir name : Text) (k : ℕ)
    → has_slash name ≡ false
    → slash_below (dir ++ (b'/' ∷ name)) (suc (length dir + k)) ≡ length dir
unfolding slash_below
slash_below-append dir name zero h = rw (get_elem?-append dir (b'/' ∷ name) 0) (omega arith)
slash_below-append dir name (suc k) h =
    rw (get_elem?-append dir (b'/' ∷ name) (suc k), is_slash-get_elem? name k h)
      (ap (slash_below (dir ++ (b'/' ∷ name))) {y = suc (length dir + k)} (omega arith)
        ∙ slash_below-append dir name k h)

last_slash-append :
    (dir name : Text) → has_slash name ≡ false → last_slash (dir ++ (b'/' ∷ name)) ≡ length dir
unfolding last_slash
last_slash-append dir name h =
    ap (slash_below (dir ++ (b'/' ∷ name))) {y = suc (length dir + length name)}
      (length-append dir (b'/' ∷ name) ∙ omega arith)
    ∙ slash_below-append dir name (length name) h

drop-length : (dir : Text) (c : ℕ) (s : Text) → drop (length dir + 1) (dir ++ (c ∷ s)) ≡ s
drop-length [] c s = refl
drop-length (d ∷ dir) c s =
    ap (λ n. drop n (d ∷ (dir ++ (c ∷ s)))) (suc_add (length dir) 1) ∙ drop-length dir c s

script_of-append :
    (dir name temp : Text)
    → has_slash name ≡ false
    → script_of (dir ++ (b'/' ∷ name)) temp ≡ debugfs_script dir name temp
unfolding script_of
script_of-append dir name temp h =
    rw (last_slash-append dir name h, take-length dir (b'/' ∷ name), drop-length dir b'/' name) refl

no_error_iff {ℓ} :
    {E : Type ℓ} (b : Bool) (e : E) → ((if b then none else some e) ≡ none) ↔ (b ≡ true)
no_error_iff true e = ground arith
no_error_iff false e = ground arith

on_script-files_after :
    (tools : WriteTools) (image path temp : Text) (o : Option Text)
    → files_after (on_script tools image path temp o).changes (temp_file temp ∷ [])
      ≡ temp_file temp ∷ []
on_script-files_after tools image path temp none = refl
on_script-files_after tools image path temp (some script) = rw (text_eq_refl script) refl

on_temp-files_after :
    (tools : WriteTools) (image path : Text) (o : Option Text)
    → files_after (on_temp tools image path o).changes [] ≡ []
on_temp-files_after tools image path none = refl
on_temp-files_after tools image path (some temp) =
    files_after-append
      (if tools.writes
        then on_script tools image path temp tools.script
        else failed_with write_failed).changes
      (removed (temp_file temp) ∷ []) (temp_file temp ∷ [])
    ∙ ap (drop_file (temp_file temp)) {y = temp_file temp ∷ []} (elim (Bool-cases tools.writes) [
      | inl w ↦ rw w (on_script-files_after tools image path temp tools.script)
      | inr f ↦ rw f refl
    ])
    ∙ rw (text_eq_refl temp) refl

-- What it takes for the script to be run with success.
abbrev Runs : WriteTools → Text → Text → Text → Option Text → Type 0
Runs tools image path temp o =
    (script : Text) × (o ≡ some script) × (tools.debugfs (script_of path temp) image ≡ true)

on_script_iff :
    (tools : WriteTools) (image path temp : Text) (o : Option Text)
    → ((on_script tools image path temp o).error ≡ none) ↔ Runs tools image path temp o
on_script_iff tools image path temp none = (λ e. cc e, λ r. cc r.1)
on_script_iff tools image path temp (some script) =
    let both = no_error_iff (tools.debugfs (script_of path temp) image) debugfs_failed in
    (λ e. (script, refl, both.0 e), λ r. both.1 r.2)

on_temp_iff :
    (tools : WriteTools) (image path : Text) (o : Option Text)
    → ((on_temp tools image path o).error ≡ none) ↔ (
        (temp : Text) × (o ≡ some temp)
        × (tools.writes ≡ true)
        × Runs tools image path temp tools.script)
on_temp_iff tools image path none = (λ e. cc e, λ r. cc r.1)
on_temp_iff tools image path (some temp) = elim (Bool-cases tools.writes) [
  | inl w ↦
      let both = on_script_iff tools image path temp tools.script in
      simp w (
        (λ e. (temp, refl, refl, both.0 e)),
        λ r.
            both.1 (subst (λ t. Runs tools image path t tools.script) (sym (some_eq_some r.1)) r.3),
      )
  | inr f ↦ simp f ((λ e. cc e), λ r. cc (r.2))
]

-- For a path that is a directory, a slash and a name with no slash: WriteToRootFS succeeds if and only
-- if both temporary files are made, the content is written, and debugfs succeeds with the script that
-- goes to that directory, removes that name and writes the content to it. On every path it leaves
-- neither temporary file.
pub write_to_rootfs_iff :
    (tools : WriteTools) (image dir name : Text)
    → has_slash name ≡ false
    → (files_after (write_to_rootfs tools image (dir ++ (b'/' ∷ name))).changes [] ≡ [])
      × (((write_to_rootfs tools image (dir ++ (b'/' ∷ name))).error ≡ none) ↔ (
          (temp : Text) × (tools.temp ≡ some temp)
          × (tools.writes ≡ true)
          × (script : Text) × (tools.script ≡ some script)
          × (tools.debugfs (debugfs_script dir name temp) image ≡ true)))
unfolding write_to_rootfs
write_to_rootfs_iff tools image dir name h =
    let path = dir ++ (b'/' ∷ name) in
    let (there, back) = on_temp_iff tools image path tools.temp in
    let same : (t : Text)
        → tools.debugfs (script_of path t) image ≡ tools.debugfs (debugfs_script dir name t) image =
      λ t. ap (λ x. tools.debugfs x image) (script_of-append dir name t h) in
    (
      on_temp-files_after tools image path tools.temp,
      (
        λ e. let (t, et, w, (script, es, d)) = there e in (t, et, w, script, es, sym (same t) ∙ d),
        λ (t, et, w, script, es, d). back (t, et, w, (script, es, same t ∙ d)),
      ),
    )
