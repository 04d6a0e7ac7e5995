-- ===== src/BTreeMap.antt =====
-- std's `BTreeMap` and `BTreeSet`, as the source uses them: a list of entries in ascending key
-- order, over any key type with a lawful comparison (Rust's `Ord`).
pub mod Lookup
pub mod Sorted
pub mod Size
pub mod Injection
use arkhe_kernel.Order.{Ord, eqb}
use arkhe_kernel.Prelude.{Ordering, Bool, Option, none, some, List, [], ◌∷◌, is_some, if◌then◌else◌}

abbrev pub BTreeMap {ℓ κ} : Type ℓ → Type κ → Type (ℓ ⊔ κ)
BTreeMap K V = List (K × V)

abbrev pub BTreeSet {ℓ} : Type ℓ → Type ℓ
BTreeSet K = BTreeMap K (Unit {0})

module _ {ℓ κ} {K : Type ℓ} {V : Type κ} where
  -- `first_key_value`
  unfoldable pub first : BTreeMap K V → Option (K × V)
  first [] = none
  first (e ∷ m) = some e

  unfoldable pub keys : BTreeMap K V → List K
  keys [] = []
  keys ((k, v) ∷ m) = k ∷ keys m

  unfoldable pub values : BTreeMap K V → List V
  values [] = []
  values ((k, v) ∷ m) = v ∷ values m

module _ {ℓ κ} {K : Type ℓ} {V : Type κ} ⦃o : Ord K⦄ where
  unfoldable pub get : K → BTreeMap K V → Option V
  get k [] = none
  get k ((j, v) ∷ m) = if eqb k j then some v else get k m

  -- the new entry stands before the first greater key
  unfoldable pub insert : K → V → BTreeMap K V → BTreeMap K V
  insert k v [] = (k, v) ∷ []
  insert k v ((j, w) ∷ m) = elim (o.cmp k j) [
    | Ordering.lt ↦ (k, v) ∷ (j, w) ∷ m
    | Ordering.eq ↦ (k, v) ∷ m
    | Ordering.gt ↦ (j, w) ∷ insert k v m
  ]

  unfoldable pub remove : K → BTreeMap K V → BTreeMap K V
  remove k [] = []
  remove k ((j, w) ∷ m) = let rest = remove k m in if eqb k j then rest else (j, w) ∷ rest

  unfoldable pub contains : K → BTreeMap K V → Bool
  unfolding get
  contains k m = is_some (get k m)
