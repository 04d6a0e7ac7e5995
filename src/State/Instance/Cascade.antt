-- ===== src/State/Instance/Cascade.antt =====
-- The removal of an entity and of its components (state/instance.rs).
use arkhe_kernel.Prelude.{
  ◌≡◌, refl, ◌≤◌, Option-cases, none, List, [], ◌∷◌, inl, inr, arith, u32_max, if◌then◌else◌,
}
use arkhe_kernel.Order.{nat_ord, pair_ord, eqb, eqb_self, eq_of_eqb}
use arkhe_kernel.BTreeMap
use arkhe_kernel.BTreeMap.{BTreeMap}
use arkhe_kernel.BTreeMap.Lookup.{get-remove}
use arkhe_kernel.Abi.{EntityId, TypeCode, Bytes}
use arkhe_kernel.State.Ledger.{ComponentKey, keys_of}
use arkhe_kernel.State.Ledger.Cascade.{among, among-keys_of, among-keys_of_ne}
use arkhe_kernel.State.Instance.{Instance, component, entity_meta, remove_keys, remove_entity}

get-remove_keys :
    (k : ComponentKey) (ks : List ComponentKey) (m : BTreeMap ComponentKey Bytes)
    → BTreeMap.get k (remove_keys ks m) ≡ (if among k ks then none else BTreeMap.get k m)
unfolding remove_keys
get-remove_keys k [] m = refl
get-remove_keys k (j ∷ js) m =
    ground (arith, get-remove_keys k js (BTreeMap.remove j m), get-remove k j m)

-- After the removal of an entity, the entity is unknown and none of its components is left, and
-- every other entity and component is as it was. A type code has 32 bits.
pub remove_entity_lem :
    (i : Instance) (id e : EntityId) (tc : TypeCode)
    → tc ≤ u32_max
    → (entity_meta (remove_entity i id) e ≡ (if eqb e id then none else entity_meta i e))
      × (component (remove_entity i id) e tc ≡ (if eqb e id then none else component i e tc))
unfolding remove_entity component entity_meta
remove_entity_lem i id e tc bound = (
  get-remove e id i.entities,
  elim (Option-cases (BTreeMap.get (e, tc) i.components)) [
    | inl gone ↦ ground (arith, get-remove_keys (e, tc) (keys_of id i.components) i.components)
    | inr (v, held) ↦ ground (
      arith,
      get-remove_keys (e, tc) (keys_of id i.components) i.components,
      among-keys_of (e, tc) v id i.components held,
      among-keys_of_ne (e, tc) id i.components,
      eq_of_eqb e id,
      eqb_self id,
    )
  ],
)
