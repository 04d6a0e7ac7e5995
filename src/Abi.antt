-- ===== src/Abi.antt =====
-- arkhe-kernel/src/abi: identifiers, principals, capability masks and the kernel's error type.
pub mod Caps
use arkhe_kernel.Prelude.{ℕ, zero, suc, List, Option, none, some, sat_add64, ◌==◌, if◌then◌else◌}

-- the number behind an `InstanceId` (a `NonZeroU64` in the source)
abbrev pub InstanceId : Type 0
InstanceId = ℕ

-- the number behind an `EntityId` (a `NonZeroU64` in the source)
abbrev pub EntityId : Type 0
EntityId = ℕ

-- `InstanceId::new`, `EntityId::new` and `ScheduledActionId::new`: zero is no identifier.
abbrev pub new_id : ℕ → Option ℕ
new_id v = if v == 0 then none else some v

abbrev pub Tick : Type 0
Tick = ℕ

-- `Tick::advance`
abbrev pub advance : Tick → ℕ → Tick
advance t delta = sat_add64 t delta

abbrev pub TypeCode : Type 0
TypeCode = ℕ

abbrev pub RouteId : Type 0
RouteId = ℕ

abbrev pub Bytes : Type 0
Bytes = List ℕ

pub data Principal : Type 0 where
  unauthenticated : Principal
  external : ℕ → Principal
  system : Principal

pub data ArkheError : Type 0 where
  instance_not_found capability_denied quota_exceeded : ArkheError
  domain : ℕ → Bytes → ArkheError
