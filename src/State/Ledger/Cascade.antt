-- ===== src/State/Ledger/Cascade.antt =====
-- The loop of `remove_entity` over the components of the entity (state/ledger.rs).
use arkhe_kernel.Prelude.{
  ℕ, ◌+◌, ◌≤◌, ◌≡◌, refl, Bool, true, false, ◌||◌, none, some, Option-cases, inl, inr, List, [],
  ◌∷◌, u32_max, u64_max, sat_add64, sat_sub, if◌then◌else◌, arith,
}
use arkhe_kernel.Order.{nat_ord, pair_ord, eqb, eqb_self, eq_of_eqb}
use arkhe_kernel.BTreeMap
use arkhe_kernel.BTreeMap.{BTreeMap}
use arkhe_kernel.BTreeMap.Lookup.{get-remove}
use arkhe_kernel.BTreeMap.Sorted.{IsSorted, remove-IsSorted}
use arkhe_kernel.BTreeMap.Size.{total, total-remove}
use arkhe_kernel.Abi.{EntityId}
use arkhe_kernel.State.Ledger.{ResourceLedger, ComponentKey, keys_of, drop_components}

-- whether `k` is one of the keys
abbrev pub among : ComponentKey → List ComponentKey → Bool
among k [] = false
among k (j ∷ js) = eqb k j || among k js

pub among-keys_of {ℓ} :
    {V : Type ℓ} (k : ComponentKey) (v : V) (id : EntityId) (m : BTreeMap ComponentKey V)
    → BTreeMap.get k m ≡ some v
    → k.0 ≡ id
    → k.1 ≤ u32_max
    → among k (keys_of id m) ≡ true
unfolding keys_of BTreeMap.get
among-keys_of k v id [] h e t = absurd (cc)
among-keys_of k v id ((j, w) ∷ m) h e t = ground (arith, among-keys_of k v id m, eq_of_eqb k j)

-- a key of another entity is not among them
pub among-keys_of_ne {ℓ} :
    {V : Type ℓ} (k : ComponentKey) (id : EntityId) (m : BTreeMap ComponentKey V)
    → eqb k.0 id ≡ false
    → among k (keys_of id m) ≡ false
unfolding keys_of
among-keys_of_ne k id [] h = refl
among-keys_of_ne k id ((j, w) ∷ m) h =
    ground (arith, among-keys_of_ne k id m, eq_of_eqb k j, eqb_self id)

-- the ledger of one round of the loop
abbrev drop_one : ResourceLedger → ComponentKey → ℕ → ResourceLedger
drop_one l k size = record l {
  component_sizes = BTreeMap.remove k l.component_sizes;
  total_bytes = sat_sub l.total_bytes size;
}

-- what stands at `k` after the loop
pub get-drop_components :
    (k : ComponentKey) (ks : List ComponentKey) (freed : ℕ) (l : ResourceLedger)
    → BTreeMap.get k (drop_components ks freed l).1.component_sizes
      ≡ (if among k ks then none else BTreeMap.get k l.component_sizes)
unfolding drop_components
get-drop_components k [] freed l = refl
get-drop_components k (j ∷ js) freed l = elim (Option-cases (BTreeMap.get j l.component_sizes)) [
  | inl e ↦
      rw (e, drop_components) (ground (arith, get-drop_components k js freed l, eq_of_eqb k j))
  | inr (size, e) ↦
      rw (e, drop_components)
        (ground (
          arith,
          get-drop_components k js (sat_add64 freed size) (drop_one l j size),
          get-remove k j l.component_sizes,
        ))
]

pub entities-drop_components :
    (ks : List ComponentKey) (freed : ℕ) (l : ResourceLedger)
    → (drop_components ks freed l).1.entities ≡ l.entities
unfolding drop_components
entities-drop_components [] freed l = refl
entities-drop_components (j ∷ js) freed l = elim (Option-cases (BTreeMap.get j l.component_sizes)) [
  | inl e ↦ rw (e, drop_components) (entities-drop_components js freed l)
  | inr (size, e) ↦
      rw (e, drop_components)
        (entities-drop_components js (sat_add64 freed size) (drop_one l j size))
]

-- The total stays the sum of the sizes, and what it loses is what the loop frees.
abbrev pub Conserves : ℕ → ResourceLedger → ℕ × ResourceLedger → Type 0
Conserves freed l r =
    IsSorted r.1.component_sizes
    × (r.1.total_bytes ≡ total r.1.component_sizes)
    × (r.1.total_bytes ≤ l.total_bytes)
    × (freed + l.total_bytes ≤ u64_max → r.0 + r.1.total_bytes ≡ freed + l.total_bytes)

pub drop_components-Conserves :
    (ks : List ComponentKey) (freed : ℕ) (l : ResourceLedger)
    → IsSorted l.component_sizes
    → l.total_bytes ≡ total l.component_sizes
    → Conserves freed l (drop_components ks freed l)
unfolding drop_components
drop_components-Conserves [] freed l s x = (s, x, omega arith, λ h. refl)
drop_components-Conserves (j ∷ js) freed l s x =
    elim (Option-cases (BTreeMap.get j l.component_sizes)) [
      | inl e ↦ rw (e, drop_components) (drop_components-Conserves js freed l s x)
      | inr (size, e) ↦
          let left = total-remove j l.component_sizes s in
          let one = rw e at left in
          let ih =
            drop_components-Conserves js (sat_add64 freed size) (drop_one l j size)
              (remove-IsSorted j l.component_sizes s) (omega (arith, x, one)) in
          rw (e, drop_components)
            (
              ih.0,
              ih.1,
              omega (arith, ih.2),
              λ h. omega (arith, ih.3 (omega (arith, x, one)), x, one),
            )
    ]
