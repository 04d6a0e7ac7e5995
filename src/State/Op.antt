-- ===== src/State/Op.antt =====
-- state/op.rs: what an action asks the kernel to do
use arkhe_kernel.Prelude.{ℕ, Option}
use arkhe_kernel.Abi.{EntityId, InstanceId, Tick, TypeCode, RouteId, Bytes, Principal}

pub data Op : Type 0 where
  -- id, owner
  spawn_entity : EntityId → Principal → Op
  -- id
  despawn_entity : EntityId → Op
  -- entity, type_code, bytes, size
  set_component : EntityId → TypeCode → Bytes → ℕ → Op
  -- entity, type_code, size
  remove_component : EntityId → TypeCode → ℕ → Op
  -- actor, event_type_code, event_bytes
  emit_event : Option EntityId → TypeCode → Bytes → Op
  -- at, actor, action_type_code, action_bytes
  schedule_action : Tick → Option EntityId → TypeCode → Bytes → Op
  -- target, route, payload
  send_signal : InstanceId → RouteId → Bytes → Op
