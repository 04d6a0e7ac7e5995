-- ===== src/Runtime/Registry.antt =====
-- runtime/registry.rs with the parts of state/context.rs and state/traits.rs that it rests on: the
-- table from type codes to deserializers. An action object is its `compute`; what `postcard`
-- decodes is a field of the action type.
use arkhe_kernel.Prelude.{ℕ, not, Option, none, some, List, Result, ok, err, ◌==◌, if◌then◌else◌}
use arkhe_kernel.Order.{nat_ord}
use arkhe_kernel.BTreeMap
use arkhe_kernel.BTreeMap.{BTreeMap}
use arkhe_kernel.Abi.{EntityId, InstanceId, Tick, TypeCode, Bytes}
use arkhe_kernel.State.Op.{Op}
use arkhe_kernel.State.Instance.{Instance}

pub record ActionContext : Type 0 where
  pub actor : Option EntityId
  pub now : Tick
  pub instance_id : InstanceId
  pub target : Instance

-- `Box<dyn ActionDyn>`, by its `compute_dyn`
abbrev pub ActionDyn : Type 0
ActionDyn = ActionContext → List Op

pub data DeserializeError : Type 0 where
  -- expected, got
  schema_version_mismatch : ℕ → ℕ → DeserializeError
  payload_malformed : DeserializeError
  -- observed
  unknown_type_code : TypeCode → DeserializeError
  length_exceeds_budget : DeserializeError

-- A type that implements `Action`: its two constants and what its decoder accepts.
pub record Action : Type 0 where
  pub type_code : TypeCode
  pub schema_version : ℕ
  pub decode : Bytes → Option ActionDyn

-- `Action::from_bytes`
unfoldable pub from_bytes : Action → ℕ → Bytes → Result DeserializeError ActionDyn
from_bytes a version bytes =
    if not (version == a.schema_version)
    then err (schema_version_mismatch a.schema_version version)
    else elim (a.decode bytes) [ none ↦ err payload_malformed | some action ↦ ok action ]

pub record ActionRegistration : Type 0 where
  pub schema_version : ℕ
  pub deserializer : ℕ → Bytes → Result DeserializeError ActionDyn

abbrev pub ActionRegistry : Type 0
ActionRegistry = BTreeMap TypeCode ActionRegistration

unfoldable pub register : ActionRegistry → Action → ActionRegistry
unfolding from_bytes
register r a =
    BTreeMap.insert a.type_code
      (record { schema_version = a.schema_version; deserializer = from_bytes a }) r

unfoldable pub get : ActionRegistry → TypeCode → Option ActionRegistration
get r tc = BTreeMap.get tc r
