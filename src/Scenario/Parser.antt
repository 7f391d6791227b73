-- ===== src/Scenario/Parser.antt =====
-- Load and validate of scenario/parser.go. The YAML decoder is an argument of `load`. What validate
-- has changed before it returns an error is dropped with the document, so an error carries no state.
pub mod Filled
pub mod Validity
use onfire.Prelude.{
  ℕ, ◌+◌, List, [], ◌∷◌, Bool, true, false, ◌&&◌, Option, none, some, if◌then◌else◌, Result, ok,
  err,
}
use onfire.Prelude.Int.{ℤ, pos, ◌≤ℤ◌, ltb_ℤ}
use onfire.Prelude.Text.{Text, text_eq}
use onfire.Scenario.Floats.{FloatOps}
use onfire.Scenario.Types.{Tier, Fault, Scenario, default_scoring}

pub data ValidationError : Type 0 where
  id_required title_required tiers_empty fault_id_required : ValidationError
  tier_name_required : ℕ → ValidationError
  fault_target_required : Text → ValidationError

-- Go's a <= 0 at int or int64.
abbrev pub le_zero : ℤ → Bool
le_zero a = ltb_ℤ a (pos 1)

unfoldable pub with_defaults : Tier → Tier
with_defaults t = record t {
  count = if le_zero t.count then pos 1 else t.count;
  vcpus = if le_zero t.vcpus then pos 1 else t.vcpus;
  mem_mb = if le_zero t.mem_mb then pos 512 else t.mem_mb;
  disk_mb = if ltb_ℤ t.disk_mb (pos 0) then pos 0 else t.disk_mb;
}

abbrev pub cons_ok : Tier → Result ValidationError (List Tier) → Result ValidationError (List Tier)
cons_ok t (err e) = err e
cons_ok t (ok ts) = ok (t ∷ ts)

-- The loop over the tiers, from index `i` on.
unfoldable pub validate_tiers : ℕ → List Tier → Result ValidationError (List Tier)
unfolding with_defaults
validate_tiers i [] = ok []
validate_tiers i (t ∷ ts) =
    let rest = validate_tiers (i + 1) ts in
    if text_eq t.name [] then err (tier_name_required i) else cons_ok (with_defaults t) rest

unfoldable pub validate_faults : List Fault → Option ValidationError
validate_faults [] = none
validate_faults (f ∷ fs) =
    let rest = validate_faults fs in
    if text_eq f.id []
    then some fault_id_required
    else if text_eq f.target.vm [] && text_eq f.target.tier []
    then some (fault_target_required f.id)
    else rest

abbrev pub is_zero : ℤ → Bool
is_zero (pos n) = ltb_ℤ (pos n) (pos 1)
is_zero a = false

abbrev pub is_nil : List Tier → Bool
is_nil [] = true
is_nil (t ∷ ts) = false

module _ {R : Type 0} (fl : FloatOps R) where
  unfoldable pub apply_scoring : Scenario R → Scenario R
  unfolding default_scoring
  apply_scoring s = if is_zero s.scoring.base then record s { scoring = default_scoring fl } else s

  abbrev pub finish : Scenario R → Option ValidationError → Result ValidationError (Scenario R)
  finish s (some e) = err e
  finish s none = ok (apply_scoring s)

  abbrev pub with_tiers :
      Scenario R → Result ValidationError (List Tier) → Result ValidationError (Scenario R)
  with_tiers s (err e) = err e
  with_tiers s (ok ts) =
      finish (record s { environment = record s.environment { tiers = ts } })
        (validate_faults s.faults)

  unfoldable pub validate : Scenario R → Result ValidationError (Scenario R)
  unfolding apply_scoring validate_tiers validate_faults
  validate s =
      if text_eq s.info.id []
      then err id_required
      else if text_eq s.info.title []
      then err title_required
      else if is_nil s.environment.tiers
      then err tiers_empty
      else with_tiers s (validate_tiers 0 s.environment.tiers)

pub data LoadError : Type 0 where
  unreadable unparsable : LoadError
  invalid : ValidationError → LoadError

module _ {R : Type 0} (fl : FloatOps R) where
  abbrev as_load : Result ValidationError (Scenario R) → Result LoadError (Scenario R)
  as_load (err e) = err (invalid e)
  as_load (ok s) = ok s

  abbrev decode : Option (Scenario R) → Result LoadError (Scenario R)
  decode none = err unparsable
  decode (some s) = as_load (validate fl s)

  abbrev read_then : (Text → Option (Scenario R)) → Option Text → Result LoadError (Scenario R)
  read_then unmarshal none = err unreadable
  read_then unmarshal (some bytes) = decode (unmarshal bytes)

  -- `read_file` and `unmarshal` give none on an error.
  unfoldable pub load :
      (Text → Option Text) → (Text → Option (Scenario R)) → Text → Result LoadError (Scenario R)
  unfolding validate
  load read_file unmarshal path = read_then unmarshal (read_file path)
