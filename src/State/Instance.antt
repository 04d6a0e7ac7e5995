-- ===== src/State/Instance.antt =====
-- state/instance.rs: everything that one instance holds, and the accessors that change it. Each
-- mutator takes the instance and returns the new one, beside its result if the kernel reads that.
pub mod Cascade
use arkhe_kernel.Prelude.{
  ℕ, suc, Option, none, some, List, [], ◌∷◌, ◌++◌, length, sat_add64, sat_add128, unwrap_or,
}
use arkhe_kernel.Order.{nat_ord, pair_ord}
use arkhe_kernel.BTreeMap
use arkhe_kernel.BTreeMap.{BTreeMap}
use arkhe_kernel.Abi.{EntityId, InstanceId, Principal, RouteId, Tick, TypeCode, Bytes}
use arkhe_kernel.State.Config.{InstanceConfig}
use arkhe_kernel.State.Ledger
use arkhe_kernel.State.Ledger.{ResourceLedger, ComponentKey, keys_of}
use arkhe_kernel.State.Scheduler
use arkhe_kernel.State.Scheduler.{Scheduler}

pub record EntityMeta : Type 0 where
  pub owner : Principal
  pub created : Tick

pub record InboundSignal : Type 0 where
  pub from : InstanceId
  pub principal : Principal
  pub payload : Bytes
  pub seq : ℕ

pub record IdCounters : Type 0 where
  pub next_entity : ℕ
  pub next_scheduled : ℕ
  pub next_source_seq : ℕ

pub record Instance : Type 0 where
  pub id : InstanceId
  pub config : InstanceConfig
  pub entities : BTreeMap EntityId EntityMeta
  pub components : BTreeMap ComponentKey Bytes
  pub scheduler : Scheduler
  pub id_counters : IdCounters
  pub ledger : ResourceLedger
  pub inflight_refs : BTreeMap RouteId ℕ
  pub signal_inbox : BTreeMap RouteId (List InboundSignal)
  pub inbox_seq : ℕ
  pub wall_remainder : ℕ
  pub local_tick : ℕ

-- `Instance::new`
abbrev pub new : InstanceId → InstanceConfig → Instance
new id config = record {
  id = id;
  config = config;
  entities = [];
  components = [];
  scheduler = Scheduler.new;
  id_counters = record { next_entity = 0; next_scheduled = 0; next_source_seq = 0 };
  ledger = Ledger.new;
  inflight_refs = [];
  signal_inbox = [];
  inbox_seq = 0;
  wall_remainder = 0;
  local_tick = 0;
}

unfoldable pub entities_len : Instance → ℕ
entities_len i = length i.entities

unfoldable pub components_len : Instance → ℕ
components_len i = length i.components

unfoldable pub entity_meta : Instance → EntityId → Option EntityMeta
entity_meta i entity = BTreeMap.get entity i.entities

unfoldable pub component : Instance → EntityId → TypeCode → Option Bytes
component i entity tc = BTreeMap.get (entity, tc) i.components

unfoldable pub inflight_refs_for : Instance → RouteId → ℕ
inflight_refs_for i route = unwrap_or 0 (BTreeMap.get route i.inflight_refs)

unfoldable pub insert_entity : Instance → EntityId → EntityMeta → Instance
insert_entity i id meta = record i { entities = BTreeMap.insert id meta i.entities }

-- the loop over the orphaned component keys
unfoldable pub remove_keys {ℓ} :
    {V : Type ℓ} → List ComponentKey → BTreeMap ComponentKey V → BTreeMap ComponentKey V
remove_keys [] m = m
remove_keys (k ∷ ks) m = remove_keys ks (BTreeMap.remove k m)

unfoldable pub remove_entity : Instance → EntityId → Instance
remove_entity i id = record i {
  entities = BTreeMap.remove id i.entities;
  components = remove_keys (keys_of id i.components) i.components;
}

unfoldable pub insert_component : Instance → ComponentKey → Bytes → Instance
insert_component i key bytes = record i { components = BTreeMap.insert key bytes i.components }

unfoldable pub remove_component : Instance → ComponentKey → Instance
remove_component i key = record i { components = BTreeMap.remove key i.components }

unfoldable pub advance_wall_remainder : Instance → ℕ → Instance
advance_wall_remainder i delta = record i { wall_remainder = sat_add128 i.wall_remainder delta }

unfoldable pub advance_local_tick : Instance → ℕ → Instance
advance_local_tick i delta = record i { local_tick = sat_add64 i.local_tick delta }

-- The signal goes to the back of its route's queue, under the instance's next sequence number,
-- which is returned.
unfoldable pub deliver_signal : Instance → RouteId → InboundSignal → ℕ × Instance
deliver_signal i route signal = (
  i.inbox_seq,
  record i {
    signal_inbox =
        BTreeMap.insert route
          (unwrap_or [] (BTreeMap.get route i.signal_inbox)
            ++ record signal { seq = i.inbox_seq } ∷ [])
          i.signal_inbox;
    inbox_seq = sat_add64 i.inbox_seq 1;
  },
)

unfoldable pub inbox_len : Instance → RouteId → ℕ
inbox_len i route = length (unwrap_or [] (BTreeMap.get route i.signal_inbox))

pub record InstanceSnapshot : Type 0 where
  pub id : InstanceId
  pub config : InstanceConfig
  pub entities : BTreeMap EntityId EntityMeta
  pub components : BTreeMap ComponentKey Bytes
  pub scheduler : Scheduler
  pub id_counters : IdCounters
  pub ledger : ResourceLedger
  pub inflight_refs : BTreeMap RouteId ℕ
  pub signal_inbox : BTreeMap RouteId (List InboundSignal)
  pub inbox_seq : ℕ
  pub wall_remainder : ℕ
  pub local_tick : ℕ

unfoldable pub to_snapshot : Instance → InstanceSnapshot
to_snapshot i = record {
  id = i.id;
  config = i.config;
  entities = i.entities;
  components = i.components;
  scheduler = i.scheduler;
  id_counters = i.id_counters;
  ledger = i.ledger;
  inflight_refs = i.inflight_refs;
  signal_inbox = i.signal_inbox;
  inbox_seq = i.inbox_seq;
  wall_remainder = i.wall_remainder;
  local_tick = i.local_tick;
}

unfoldable pub from_snapshot : InstanceSnapshot → Instance
from_snapshot s = record {
  id = s.id;
  config = s.config;
  entities = s.entities;
  components = s.components;
  scheduler = s.scheduler;
  id_counters = s.id_counters;
  ledger = s.ledger;
  inflight_refs = s.inflight_refs;
  signal_inbox = s.signal_inbox;
  inbox_seq = s.inbox_seq;
  wall_remainder = s.wall_remainder;
  local_tick = s.local_tick;
}
