-- ===== src/Api/Ids.antt =====
-- allocateVMIDs and releaseVMIDs of api/server.go. The map usedIDs is the list of its keys: a key is
-- present or absent, and is only ever stored with the value true.
pub mod Allocation
use onfire.Prelude.{
  ℕ, zero, suc, ◌+◌, List, [], ◌∷◌, ◌++◌, Bool, true, false, contains, length, remove,
}

-- for len(ids) < count { if !s.usedIDs[candidate] { append }; candidate++ }: `need` is
-- count - len(ids).
unfoldable pub pick_ids : ℕ → List ℕ → ℕ → ℕ → List ℕ
pick_ids fuel used zero candidate = []
pick_ids zero used (suc need) candidate = []
pick_ids (suc fuel) used (suc need) candidate = elim (contains candidate used) [
  | true ↦ pick_ids fuel used (suc need) (candidate + 1)
  | false ↦ candidate ∷ pick_ids fuel used need (candidate + 1)
]

-- At most one candidate is passed over for each key in use.
unfoldable pub allocate_vm_ids : List ℕ → ℕ → List ℕ
unfolding pick_ids
allocate_vm_ids used count = pick_ids (count + length used) used count 0

-- for _, id := range ids { s.usedIDs[id] = true }
abbrev pub mark_ids : List ℕ → List ℕ → List ℕ
mark_ids used ids = ids ++ used

unfoldable pub release_vm_ids : List ℕ → List ℕ → List ℕ
unfolding remove
release_vm_ids used [] = used
release_vm_ids used (id ∷ ids) = release_vm_ids (remove id used) ids
