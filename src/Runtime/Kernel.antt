-- ===== src/Runtime/Kernel.antt =====
-- runtime/kernel.rs: the kernel's state and the operations around the step: construction,
-- admission of actions, force-unload, snapshots and statistics.
pub mod Admission
pub mod Backpressure
use arkhe_kernel.Prelude.{
  ℕ, Bool, not, ◌&&◌, Option, none, some, List, [], ◌∷◌, Checked, done, expect, ◌>>=◌, Result, ok,
  err, sat_add32, sat_add64, is_some, ltb, leb, length, u64_max, min, ◌+◌, if◌then◌else◌,
}
use arkhe_kernel.Order.{nat_ord}
use arkhe_kernel.BTreeMap
use arkhe_kernel.BTreeMap.{BTreeMap}
use arkhe_kernel.Abi.{
  EntityId, InstanceId, Principal, RouteId, Tick, TypeCode, Bytes, ArkheError, instance_not_found,
  capability_denied, quota_exceeded, new_id,
}
use arkhe_kernel.Abi.Caps.{CapabilityMask, contains, admin_unload}
use arkhe_kernel.State.Config.{InstanceConfig}
use arkhe_kernel.State.Instance
use arkhe_kernel.State.Instance.{Instance, InstanceSnapshot}
use arkhe_kernel.State.Ledger
use arkhe_kernel.State.Scheduler
use arkhe_kernel.State.Scheduler.{ScheduledEntry}
use arkhe_kernel.State.Scheduler.Key.{ScheduledActionId}
use arkhe_kernel.Runtime.Event.{KernelEvent, EventMask, ObserverHandle, module_force_unloaded}
use arkhe_kernel.Runtime.Observer
use arkhe_kernel.Runtime.Observer.{ObserverRegistry, KernelObserver, deliver}
use arkhe_kernel.Runtime.Registry
use arkhe_kernel.Runtime.Registry.{ActionRegistry, Action}
use arkhe_kernel.Runtime.Stage
use arkhe_kernel.Runtime.Stage.{StepStage}
use arkhe_kernel.Persist.Record.{Hash, zero_hash}
use arkhe_kernel.Persist.Signature.{Crypto, SignatureClass}
use arkhe_kernel.Persist.Wal.{WalWriter, with_signature, append_submit, record_count}

pub record Kernel : Type 0 where
  pub instances : BTreeMap InstanceId Instance
  pub action_registry : ActionRegistry
  pub observers : ObserverRegistry
  pub next_instance_id : ℕ
  pub manifest_digest : Hash
  pub wal : Option WalWriter
  pub step_scratch : StepStage

-- `Kernel::new`
abbrev pub new : Kernel
new = record {
  instances = [];
  action_registry = [];
  observers = Observer.new;
  next_instance_id = 0;
  manifest_digest = zero_hash;
  wal = none;
  step_scratch = Stage.empty;
}

-- `Kernel::new_with_wal_signed`; `new_with_wal` is the case of no signature
unfoldable pub new_with_wal_signed : Crypto → Hash → Hash → SignatureClass → Kernel
new_with_wal_signed c world_id manifest_digest sig_class = record new {
  manifest_digest = manifest_digest;
  wal = some (with_signature c world_id manifest_digest sig_class);
}

unfoldable pub register_action : Kernel → Action → Kernel
register_action k a = record k { action_registry = Registry.register k.action_registry a }

-- `register_observer` and `register_observer_filtered`
unfoldable pub register_observer : Kernel → KernelObserver → ObserverHandle × Kernel
register_observer k obs =
    let (handle, observers) = Observer.register k.observers obs in
    (handle, record k { observers = observers })

unfoldable pub register_observer_filtered :
    Kernel → KernelObserver → EventMask → ObserverHandle × Kernel
register_observer_filtered k obs mask =
    let (handle, observers) = Observer.register_filtered k.observers obs mask in
    (handle, record k { observers = observers })

unfoldable pub create_instance : Kernel → InstanceConfig → Checked (InstanceId × Kernel)
create_instance k config =
    let next = sat_add64 k.next_instance_id 1 in
    expect (new_id next) >>= λ id. done (
      id,
      record k {
        next_instance_id = next;
        instances = BTreeMap.insert id (Instance.new id config) k.instances;
      },
    )

-- the back-pressure test of `submit`
unfoldable pub is_full : Instance → Bool
is_full i = ltb 0 i.config.max_scheduled && leb i.config.max_scheduled (Scheduler.len i.scheduler)

-- the scheduling half of `submit`: the instance counts one id more and queues the entry under it
unfoldable pub admit :
    Instance → (ScheduledActionId → ScheduledEntry) → Checked (ScheduledActionId × Instance)
admit i entry =
    let next = sat_add64 i.id_counters.next_scheduled 1 in
    expect (new_id next) >>= λ id. done (
      id,
      record i {
        id_counters = record i.id_counters { next_scheduled = next };
        scheduler = Scheduler.schedule_with_id i.scheduler (entry id);
      },
    )

-- an action as it is submitted; the ceiling is the mask that the caller grants
pub record Submission : Type 0 where
  pub principal : Principal
  pub actor : Option EntityId
  pub caps : CapabilityMask
  pub at : Tick
  pub action_type_code : TypeCode
  pub action_bytes : Bytes

abbrev pub entry_of : Submission → ScheduledActionId → ScheduledEntry
entry_of s id = record {
  id = id;
  at = s.at;
  actor = s.actor;
  principal = s.principal;
  action_type_code = s.action_type_code;
  action_bytes = s.action_bytes;
  caps_ceiling = s.caps;
}

-- An attached log gets one record of the submission; its own errors are ignored.
unfoldable pub log_submit :
    Crypto → Option WalWriter → InstanceId → Submission → ScheduledActionId → Option WalWriter
log_submit c none instance_id s id = none
log_submit c (some w) instance_id s id =
    some
      (append_submit c w instance_id s.principal s.actor s.caps s.at s.action_type_code
        s.action_bytes id).1

unfoldable pub submit :
    Crypto
    → Kernel
    → InstanceId
    → Submission
    → Checked (Result ArkheError ScheduledActionId × Kernel)
submit c k instance_id s = elim (BTreeMap.get instance_id k.instances) [
  | none ↦ done (err instance_not_found, k)
  | some inst ↦
      if is_full inst
      then done (err quota_exceeded, k)
      else admit inst (entry_of s) >>= λ r. done (
        ok r.0,
        record k {
          instances = BTreeMap.insert instance_id r.1 k.instances;
          wal = log_submit c k.wal instance_id s r.0;
        },
      )
]

-- the admission of a recorded submission, under its recorded id and without a log record
unfoldable pub admit_with_id : Instance → Submission → ScheduledActionId → Instance
admit_with_id i s id = record i {
  id_counters = record i.id_counters {
    next_scheduled =
        if ltb i.id_counters.next_scheduled id then id else i.id_counters.next_scheduled;
  };
  scheduler = Scheduler.schedule_with_id i.scheduler (entry_of s id);
}

unfoldable pub submit_with_id :
    Kernel → InstanceId → Submission → ScheduledActionId → Result ArkheError Kernel
submit_with_id k instance_id s id = elim (BTreeMap.get instance_id k.instances) [
  | none ↦ err instance_not_found
  | some inst ↦
      ok
        (record k { instances = BTreeMap.insert instance_id (admit_with_id inst s id) k.instances })
]

-- the loop of `force_unload`: the references dropped, and the instances without the route
unfoldable pub drop_route :
    RouteId → ℕ → BTreeMap InstanceId Instance → ℕ × BTreeMap InstanceId Instance
drop_route route total [] = (total, [])
drop_route route total ((id, i) ∷ m) =
    let held = BTreeMap.get route i.inflight_refs in
    let (sum, rest) =
      drop_route route (elim held [ none ↦ total | some refs ↦ sat_add32 total refs ]) m in
    (sum, (id, record i { inflight_refs = BTreeMap.remove route i.inflight_refs }) ∷ rest)

unfoldable pub force_unload : Kernel → RouteId → CapabilityMask → Result ArkheError ℕ × Kernel
force_unload k route caps =
    if not (contains caps admin_unload)
    then (err capability_denied, k)
    else (let (total, instances) = drop_route route 0 k.instances in
        (
          ok total,
          record k {
            instances = instances;
            observers = (deliver k.observers (module_force_unloaded route total)).1;
          },
        ))

pub record KernelSnapshot : Type 0 where
  pub instances : BTreeMap InstanceId InstanceSnapshot
  pub next_instance_id : ℕ

-- `map(|(id, inst)| (*id, inst.to_snapshot())).collect()`
unfoldable pub snapshot_all : BTreeMap InstanceId Instance → BTreeMap InstanceId InstanceSnapshot
snapshot_all [] = []
snapshot_all ((id, i) ∷ m) = (id, Instance.to_snapshot i) ∷ snapshot_all m

unfoldable pub restore_all : BTreeMap InstanceId InstanceSnapshot → BTreeMap InstanceId Instance
restore_all [] = []
restore_all ((id, s) ∷ m) = (id, Instance.from_snapshot s) ∷ restore_all m

unfoldable pub snapshot : Kernel → KernelSnapshot
unfolding snapshot_all
snapshot k = record { instances = snapshot_all k.instances; next_instance_id = k.next_instance_id }

unfoldable pub from_snapshot : KernelSnapshot → Kernel
unfolding restore_all
from_snapshot s = record new {
  instances = restore_all s.instances;
  next_instance_id = s.next_instance_id;
}

pub record Stats : Type 0 where
  pub instance_count : ℕ
  pub scheduled_action_count : ℕ
  pub entity_count : ℕ
  pub component_byte_count : ℕ
  pub observer_count : ℕ
  pub wal_record_count : ℕ

-- the sums of `stats` over the instances; `usize` has 64 bits
abbrev add_stats : Stats → Instance → Stats
add_stats s i = record s {
  scheduled_action_count = sat_add64 s.scheduled_action_count (Scheduler.len i.scheduler);
  entity_count = sat_add32 s.entity_count (Ledger.total_entities i.ledger);
  component_byte_count = sat_add64 s.component_byte_count i.ledger.total_bytes;
}

unfoldable pub sum_stats : Stats → BTreeMap InstanceId Instance → Stats
sum_stats s [] = s
sum_stats s ((id, i) ∷ m) = sum_stats (add_stats s i) m

unfoldable pub stats : Kernel → Stats
unfolding sum_stats
stats k =
    sum_stats
      (record {
        instance_count = length k.instances;
        scheduled_action_count = 0;
        entity_count = 0;
        component_byte_count = 0;
        observer_count = Observer.len k.observers;
        wal_record_count = elim k.wal [ none ↦ 0 | some w ↦ record_count w ];
      })
      k.instances
