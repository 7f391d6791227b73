-- ===== src/Api/Ids/Allocation.antt =====
-- What the allocator promises: as many IDs as were asked for, all free, in rising order, and no free
-- one passed over.
use onfire.Prelude.{
  ℕ, zero, suc, ◌+◌, ◌≤◌, ◌<◌, ◌≡◌, refl, List, [], ◌∷◌, true, false, ◌||◌, contains, length, arith,
  ap, sym, ◌∙◌, ==_iff, Bool-cases, inl, inr, leb, if◌then◌else◌, remove, contains-remove,
  contains-append,
}
use onfire.Api.Ids.{pick_ids, allocate_vm_ids, mark_ids, release_vm_ids}

-- How many keys in use are at least `c`.
above : ℕ → List ℕ → ℕ
above c [] = 0
above c (x ∷ xs) = let rest = above c xs in if leb c x then suc rest else rest

above_mono : (c : ℕ) (used : List ℕ) → above (c + 1) used ≤ above c used
unfolding above
above_mono c [] = omega arith
above_mono c (x ∷ xs) = ground (arith, above_mono c xs)

above_used : (c : ℕ) (used : List ℕ) → contains c used ≡ true → above (c + 1) used < above c used
unfolding above
above_used c [] h = cc
above_used c (x ∷ xs) h = ground (arith, above_mono c xs, above_used c xs)

above-le-length : (c : ℕ) (used : List ℕ) → above c used ≤ length used
unfolding above
above-le-length c [] = omega arith
above-le-length c (x ∷ xs) = ground (arith, above-le-length c xs)

-- Rising from `c`, and free of `used`.
abbrev pub IsRisingFree : List ℕ → ℕ → List ℕ → Type 0
IsRisingFree used c [] = Unit {0}
IsRisingFree used c (x ∷ xs) = (c ≤ x) × (contains x used ≡ false) × IsRisingFree used (x + 1) xs

IsRisingFree-mono :
    (used : List ℕ) {c d : ℕ} (xs : List ℕ)
    → c ≤ d
    → IsRisingFree used d xs
    → IsRisingFree used c xs
IsRisingFree-mono used [] h r = tt
IsRisingFree-mono used (x ∷ xs) h r = (omega arith, r.1, r.2)

length-pick_ids :
    (fuel : ℕ) (used : List ℕ) (need c : ℕ)
    → need + above c used ≤ fuel
    → length (pick_ids fuel used need c) ≡ need
unfolding pick_ids
length-pick_ids zero used zero c h = refl
length-pick_ids (suc fuel) used zero c h = refl
length-pick_ids zero used (suc need) c h = absurd (omega arith)
length-pick_ids (suc fuel) used (suc need) c h = elim (Bool-cases (contains c used)) [
  | inl e ↦
      rw (e, pick_ids)
        (length-pick_ids fuel used (suc need) (c + 1) (omega (arith, above_used c used e)))
  | inr e ↦
      rw (e, pick_ids)
        (omega (arith, length-pick_ids fuel used need (c + 1) (omega (arith, above_mono c used))))
]

pick_ids-IsRisingFree :
    (fuel : ℕ) (used : List ℕ) (need c : ℕ) → IsRisingFree used c (pick_ids fuel used need c)
unfolding pick_ids
pick_ids-IsRisingFree zero used zero c = tt
pick_ids-IsRisingFree (suc fuel) used zero c = tt
pick_ids-IsRisingFree zero used (suc need) c = tt
pick_ids-IsRisingFree (suc fuel) used (suc need) c = elim (Bool-cases (contains c used)) [
  | inl e ↦
      rw (e, pick_ids)
        (IsRisingFree-mono used _ (omega arith)
          (pick_ids-IsRisingFree fuel used (suc need) (c + 1)))
  | inr e ↦ rw (e, pick_ids) (omega arith, e, pick_ids-IsRisingFree fuel used need (c + 1))
]

pick_ids_gapless :
    (fuel : ℕ) (used : List ℕ) (need c x y : ℕ)
    → contains y (pick_ids fuel used need c) ≡ true
    → c ≤ x
    → x < y
    → contains x used ≡ false
    → contains x (pick_ids fuel used need c) ≡ true
unfolding pick_ids
pick_ids_gapless zero used zero c x y m h k free = cc
pick_ids_gapless (suc fuel) used zero c x y m h k free = cc
pick_ids_gapless zero used (suc need) c x y m h k free = cc
pick_ids_gapless (suc fuel) used (suc need) c x y m h k free = ground (
  arith,
  pick_ids_gapless fuel used (suc need) (c + 1) x y,
  pick_ids_gapless fuel used need (c + 1) x y,
)

-- The same keys.
abbrev pub SameIds : List ℕ → List ℕ → Type 0
SameIds u v = (x : ℕ) → contains x u ≡ contains x v

pick_ids_cong :
    (f g : ℕ) (u v : List ℕ) (need c : ℕ)
    → SameIds u v
    → need + above c u ≤ f
    → need + above c v ≤ g
    → pick_ids f u need c ≡ pick_ids g v need c
unfolding pick_ids
pick_ids_cong zero zero u v zero c s h k = refl
pick_ids_cong zero (suc g) u v zero c s h k = refl
pick_ids_cong (suc f) zero u v zero c s h k = refl
pick_ids_cong (suc f) (suc g) u v zero c s h k = refl
pick_ids_cong zero g u v (suc need) c s h k = absurd (omega arith)
pick_ids_cong (suc f) zero u v (suc need) c s h k = absurd (omega arith)
pick_ids_cong (suc f) (suc g) u v (suc need) c s h k = elim (Bool-cases (contains c u)) [
  | inl e ↦
      let e' = sym (s c) ∙ e in
      rw (e, pick_ids)
        (rw (e', pick_ids)
          (pick_ids_cong f g u v (suc need) (c + 1) s (omega (arith, above_used c u e))
            (omega (arith, above_used c v e'))))
  | inr e ↦
      let e' = sym (s c) ∙ e in
      rw (e, pick_ids)
        (rw (e', pick_ids)
          (ap (◌∷◌ c) (
            pick_ids_cong f g u v need (c + 1) s (omega (arith, above_mono c u))
              (omega (arith, above_mono c v)))))
]

-- As many IDs as were asked for, whatever is in use: the loop ends.
pub length-allocate_vm_ids :
    (used : List ℕ) (count : ℕ) → length (allocate_vm_ids used count) ≡ count
unfolding allocate_vm_ids
length-allocate_vm_ids used count =
    length-pick_ids (count + length used) used count 0 (omega (arith, above-le-length 0 used))

pub allocate_vm_ids-IsRisingFree :
    (used : List ℕ) (count : ℕ) → IsRisingFree used 0 (allocate_vm_ids used count)
unfolding allocate_vm_ids
allocate_vm_ids-IsRisingFree used count = pick_ids-IsRisingFree (count + length used) used count 0

pub allocate_vm_ids_cong :
    (u v : List ℕ) (count : ℕ) → SameIds u v → allocate_vm_ids u count ≡ allocate_vm_ids v count
unfolding allocate_vm_ids
allocate_vm_ids_cong u v count s =
    pick_ids_cong (count + length u) (count + length v) u v count 0 s
      (omega (arith, above-le-length 0 u)) (omega (arith, above-le-length 0 v))

-- For every set of IDs in use and every count: the allocator returns exactly `count` IDs, in rising
-- order and so distinct, none of them in use; and every free ID below one that is returned is
-- returned too.
pub allocate_vm_ids_lowest :
    (used : List ℕ) (count : ℕ)
    → let ids = allocate_vm_ids used count in
      (length ids ≡ count)
      × IsRisingFree used 0 ids
      × ((x y : ℕ)
          → contains y ids ≡ true
          → x < y
          → contains x used ≡ false
          → contains x ids ≡ true)
unfolding allocate_vm_ids
allocate_vm_ids_lowest used count = (
  length-allocate_vm_ids used count,
  allocate_vm_ids-IsRisingFree used count,
  λ x y m k free. pick_ids_gapless (count + length used) used count 0 x y m (omega arith) k free,
)

IsRisingFree-not_used :
    (used : List ℕ) (c x : ℕ) (ids : List ℕ)
    → IsRisingFree used c ids
    → contains x ids ≡ true
    → contains x used ≡ false
IsRisingFree-not_used used c x [] r m = cc
IsRisingFree-not_used used c x (y ∷ ids) r m =
    ground (arith, ==_iff y x, r.1, IsRisingFree-not_used used (y + 1) x ids r.2)

pub not_used_of_allocated :
    (used : List ℕ) (count x : ℕ)
    → contains x (allocate_vm_ids used count) ≡ true
    → contains x used ≡ false
not_used_of_allocated used count x m =
    IsRisingFree-not_used used 0 x _ (allocate_vm_ids-IsRisingFree used count) m

pub contains-release_vm_ids :
    (b : ℕ) (used ids : List ℕ)
    → contains b (release_vm_ids used ids) ≡ (if contains b ids then false else contains b used)
unfolding release_vm_ids
contains-release_vm_ids b used [] = refl
contains-release_vm_ids b used (id ∷ ids) =
    ground (arith, contains-release_vm_ids b (remove id used) ids, contains-remove id b used)

pub contains-mark_ids :
    (b : ℕ) (used ids : List ℕ)
    → contains b (mark_ids used ids) ≡ (contains b ids || contains b used)
contains-mark_ids b used ids = contains-append b ids used

-- Releasing what was just allocated restores the set of IDs in use, so the same request is then
-- given the same IDs again.
pub release-allocate_restores :
    (used : List ℕ) (count : ℕ)
    → let ids = allocate_vm_ids used count in
      let after = release_vm_ids (mark_ids used ids) ids in
      SameIds after used × (allocate_vm_ids after count ≡ ids)
release-allocate_restores used count = (same, allocate_vm_ids_cong _ _ count same)
  where
    same :
        SameIds
          (release_vm_ids (mark_ids used (allocate_vm_ids used count)) (allocate_vm_ids used count))
          used
    same x = ground (
      arith,
      contains-release_vm_ids x (mark_ids used (allocate_vm_ids used count))
          (allocate_vm_ids used count),
      contains-append x (allocate_vm_ids used count) used,
      not_used_of_allocated used count x,
    )
