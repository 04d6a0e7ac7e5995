-- ===== src/Runtime/View.antt =====
-- runtime/view.rs, with the iterators of state/instance.rs that it hands out, and `instance_view` of
-- runtime/kernel.rs. A view borrows the instance: it is the instance.
pub mod Query
use arkhe_kernel.Prelude.{ℕ, Option, none, some, List, [], ◌∷◌, ◌==◌, length, if◌then◌else◌}
use arkhe_kernel.Order.{nat_ord}
use arkhe_kernel.BTreeMap
use arkhe_kernel.BTreeMap.{BTreeMap}
use arkhe_kernel.Abi.{EntityId, InstanceId, TypeCode, Bytes}
use arkhe_kernel.State.Ledger.{ComponentKey}
use arkhe_kernel.State.Instance
use arkhe_kernel.State.Instance.{Instance, EntityMeta}
use arkhe_kernel.Runtime.Kernel.{Kernel}

pub record InstanceView : Type 0 where
  pub instance : Instance

-- `Kernel::instance_view` and `Kernel::instances_len`
unfoldable pub instance_view : Kernel → InstanceId → Option InstanceView
instance_view k id = elim (BTreeMap.get id k.instances) [
  | none ↦ none
  | some inst ↦ some (record { instance = inst })
]

unfoldable pub instances_len : Kernel → ℕ
instances_len k = length k.instances

unfoldable pub entity_count : InstanceView → ℕ
entity_count v = Instance.entities_len v.instance

unfoldable pub component_count : InstanceView → ℕ
component_count v = Instance.components_len v.instance

unfoldable pub entity_meta : InstanceView → EntityId → Option EntityMeta
entity_meta v entity = Instance.entity_meta v.instance entity

unfoldable pub component : InstanceView → EntityId → TypeCode → Option Bytes
component v entity tc = Instance.component v.instance entity tc

-- `entities_iter`: the entries in ascending order
unfoldable pub entities : InstanceView → List (EntityId × EntityMeta)
entities v = v.instance.entities

-- the `filter_map` of `components_by_type_iter`
unfoldable pub with_type : TypeCode → BTreeMap ComponentKey Bytes → List (EntityId × Bytes)
with_type type_code [] = []
with_type type_code (((eid, tc), bytes) ∷ m) =
    let rest = with_type type_code m in if tc == type_code then (eid, bytes) ∷ rest else rest

unfoldable pub components_by_type : InstanceView → TypeCode → List (EntityId × Bytes)
unfolding with_type
components_by_type v type_code = with_type type_code v.instance.components
