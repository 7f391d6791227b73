-- ===== src/Api/Ownership/Ledger.antt =====
-- The ledger of VM IDs: what each owner holds, which owners have been cancelled and still run, and
-- the set of IDs in use. What creating, cancelling and ending do to it.
use onfire.Prelude.{
  ℕ, ◌≡◌, ◌∙◌, ap, List, [], Bool, true, false, arith, contains, ◌↔◌, if◌then◌else◌,
  contains-append,
}
use onfire.Prelude.Text.{Text, text_eq, text_eq_iff}
use onfire.Api.Ids.{mark_ids, release_vm_ids}
use onfire.Api.Ids.Allocation.{SameIds, contains-release_vm_ids}

pub data Owner : Type 0 where
  fleet : Text → Owner
  scenario : Text → Owner

abbrev pub owner_eq : Owner → Owner → Bool
owner_eq (fleet a) (fleet b) = text_eq a b
owner_eq (scenario a) (scenario b) = text_eq a b
owner_eq _ _ = false

pub owner_eq_iff : (a b : Owner) → (owner_eq a b ≡ true) ↔ (a ≡ b)
owner_eq_iff (fleet a) (fleet b) =
    ((λ e. ap fleet ((text_eq_iff a b).0 e)), λ e. (text_eq_iff a b).1 (cc))
owner_eq_iff (scenario a) (scenario b) =
    ((λ e. ap scenario ((text_eq_iff a b).0 e)), λ e. (text_eq_iff a b).1 (cc))
owner_eq_iff (fleet a) (scenario b) = ((λ e. cc), λ e. cc)
owner_eq_iff (scenario a) (fleet b) = ((λ e. cc), λ e. cc)

-- No ID has two owners, and what an owner holds is in use unless it has been cancelled.
pub record IsOwned (held : Owner → List ℕ) (zombie : Owner → Bool) (used : List ℕ) : Type 0 where
  pub apart :
      (a b : Owner) (x : ℕ) → contains x (held a) ≡ true → contains x (held b) ≡ true → a ≡ b
  pub in_use :
      (a : Owner) (x : ℕ) → zombie a ≡ false → contains x (held a) ≡ true → contains x used ≡ true

module _ {held : Owner → List ℕ} {zombie : Owner → Bool} {used : List ℕ}
    (inv : IsOwned held zombie used) (held' : Owner → List ℕ) (zombie' : Owner → Bool) where
  -- Nothing has changed, but that more owners may have been cancelled.
  pub IsOwned-keep :
      (used' : List ℕ)
      → ((a : Owner) → held' a ≡ held a)
      → ((a : Owner) → zombie' a ≡ false → zombie a ≡ false)
      → SameIds used' used
      → IsOwned held' zombie' used'
  IsOwned-keep used' h z u = record {
    apart = λ a b x p q. inv.apart a b x (rw h at p) (rw h at q);
    in_use = λ a x p q. u x ∙ inv.in_use a x (z a p) (rw h at q);
  }

  -- An owner is given IDs that were free, at a time when no cancelled owner still runs.
  pub IsOwned-grant :
      (o : Owner) (ids : List ℕ)
      → ((a : Owner) → zombie a ≡ false)
      → ((x : ℕ) → contains x ids ≡ true → contains x used ≡ false)
      → ((a : Owner) → held' a ≡ (if owner_eq o a then ids else held a))
      → IsOwned held' zombie' (mark_ids used ids)
  IsOwned-grant o ids calm free h = record {
    apart = λ a b x p q. ground (
      arith,
      h a,
      h b,
      owner_eq_iff o a,
      owner_eq_iff o b,
      free x,
      inv.in_use a x (calm a),
      inv.in_use b x (calm b),
      inv.apart a b x,
    );
    in_use = λ a x p q.
        ground (arith, h a, owner_eq_iff o a, contains-append x ids used, inv.in_use a x (calm a));
  }

  -- An owner is cancelled: its IDs are free again though it still holds them.
  pub IsOwned-cancel :
      (o : Owner)
      → ((a : Owner) → held' a ≡ held a)
      → ((a : Owner) → zombie' a ≡ (if owner_eq o a then true else zombie a))
      → IsOwned held' zombie' (release_vm_ids used (held o))
  IsOwned-cancel o h z = record {
    apart = λ a b x p q. inv.apart a b x (rw h at p) (rw h at q);
    in_use = λ a x p q. ground (
      arith,
      h a,
      z a,
      owner_eq_iff o a,
      contains-release_vm_ids x used (held o),
      inv.in_use a x,
      inv.apart o a x,
    );
  }

  -- An owner ends: it holds nothing any more, and what it held is free.
  pub IsOwned-end :
      (o : Owner)
      → ((a : Owner) → held' a ≡ (if owner_eq o a then [] else held a))
      → ((a : Owner) → zombie' a ≡ (if owner_eq o a then false else zombie a))
      → IsOwned held' zombie' (release_vm_ids used (held o))
  IsOwned-end o h z = record {
    apart =
        λ a b x p q. ground (arith, h a, h b, owner_eq_iff o a, owner_eq_iff o b, inv.apart a b x);
    in_use = λ a x p q. ground (
      arith,
      h a,
      z a,
      owner_eq_iff o a,
      contains-release_vm_ids x used (held o),
      inv.in_use a x,
      inv.apart o a x,
    );
  }
