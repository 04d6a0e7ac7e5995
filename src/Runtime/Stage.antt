-- ===== src/Runtime/Stage.antt =====
-- runtime/stage.rs: the buckets in which one step collects its writes, and the projection of the
-- component bytes that the budget gate compares.
use arkhe_kernel.Prelude.{ℕ, List, [], ◌∷◌, sat_add64, sat_sub, unwrap_or}
use arkhe_kernel.Abi.{EntityId, InstanceId, Principal, RouteId, TypeCode, Bytes}
use arkhe_kernel.State.Instance.{EntityMeta}
use arkhe_kernel.State.Ledger.{ResourceLedger, component_size}
use arkhe_kernel.State.Scheduler.{ScheduledEntry}
use arkhe_kernel.State.Scheduler.Key.{ScheduledActionId}
use arkhe_kernel.Runtime.Event.{KernelEvent, ObserverHandle}

pub data StagedStateDelta : Type 0 where
  -- id, meta
  spawn_entity : EntityId → EntityMeta → StagedStateDelta
  despawn_entity : EntityId → StagedStateDelta
  -- entity, type_code, bytes, size
  set_component : EntityId → TypeCode → Bytes → ℕ → StagedStateDelta
  -- entity, type_code, size
  remove_component : EntityId → TypeCode → ℕ → StagedStateDelta

pub data ScheduledEntryDelta : Type 0 where
  add : ScheduledEntry → ScheduledEntryDelta
  remove : ScheduledActionId → ScheduledEntryDelta

pub record PendingSignal : Type 0 where
  pub target : InstanceId
  pub route : RouteId
  pub payload : Bytes
  pub principal : Principal

pub record IdCountersDelta : Type 0 where
  pub next_entity_advance : ℕ
  pub next_scheduled_advance : ℕ
  pub next_source_seq_advance : ℕ

pub data LedgerOp : Type 0 where
  add_entity remove_entity : EntityId → LedgerOp
  -- entity, type_code, size
  add_component remove_component : EntityId → TypeCode → ℕ → LedgerOp

-- `ResourceLedgerDelta` has the one field `ops`, which stands for it here.
pub record StepStage : Type 0 where
  pub state_ops : List StagedStateDelta
  pub events : List KernelEvent
  pub schedule_deltas : List ScheduledEntryDelta
  pub pending_signals : List PendingSignal
  pub id_counters : IdCountersDelta
  pub ledger_delta : List LedgerOp
  pub wall_remainder_delta : ℕ
  pub local_tick_delta : ℕ
  pub observer_eviction_pending : List ObserverHandle

abbrev pub empty : StepStage
empty = record {
  state_ops = [];
  events = [];
  schedule_deltas = [];
  pending_signals = [];
  id_counters = record {
    next_entity_advance = 0;
    next_scheduled_advance = 0;
    next_source_seq_advance = 0;
  };
  ledger_delta = [];
  wall_remainder_delta = 0;
  local_tick_delta = 0;
  observer_eviction_pending = [];
}

-- `clear`, bucket by bucket
unfoldable pub clear : StepStage → StepStage
clear s = record s {
  state_ops = [];
  events = [];
  schedule_deltas = [];
  pending_signals = [];
  id_counters = record {
    next_entity_advance = 0;
    next_scheduled_advance = 0;
    next_source_seq_advance = 0;
  };
  ledger_delta = [];
  wall_remainder_delta = 0;
  local_tick_delta = 0;
  observer_eviction_pending = [];
}

-- what one ledger op does to the projected total
unfoldable pub project_op : ResourceLedger → ℕ → LedgerOp → ℕ
project_op ledger total (add_component entity tc size) = sat_add64 total size
project_op ledger total (remove_component entity tc size) =
    sat_sub total (unwrap_or 0 (component_size ledger entity tc))
project_op ledger total (add_entity id) = total
project_op ledger total (remove_entity id) = total

-- the loop over the staged ledger ops
unfoldable pub project_ops : ResourceLedger → ℕ → List LedgerOp → ℕ
unfolding project_op
project_ops ledger total [] = total
project_ops ledger total (op ∷ ops) = project_ops ledger (project_op ledger total op) ops

unfoldable pub projected_component_bytes : ℕ → StepStage → ResourceLedger → ℕ
unfolding project_ops
projected_component_bytes baseline stage ledger = project_ops ledger baseline stage.ledger_delta
