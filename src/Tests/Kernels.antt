-- ===== src/Tests/Kernels.antt =====
-- The theorems on the kernel and the step, applied.
use arkhe_kernel.Prelude.{
  ◌≡◌, refl, true, false, some, List, [], ◌∷◌, Returns, Both, Allows, ok, arith,
}
use arkhe_kernel.Abi.{system}
use arkhe_kernel.State.Op.{Op}
use arkhe_kernel.State.Instance.{entities_len}
use arkhe_kernel.Order.{nat_ord}
use arkhe_kernel.BTreeMap
use arkhe_kernel.BTreeMap.Lookup.{Everywhere}
use arkhe_kernel.State.Scheduler
use arkhe_kernel.State.Authz.{authorize}
use arkhe_kernel.Runtime.Step.{execute, gate_context, computed_ops}
use arkhe_kernel.Runtime.Step.Rollback.{RolledBack, execute-RolledBack}
use arkhe_kernel.Runtime.Gate.{GateState, GateContext, gate_ops}
use arkhe_kernel.Runtime.Gate.Loop.{Gated, some_unauthorized, is_authorized, gate_ops-Gated}
use arkhe_kernel.Runtime.Drive.Quotas.{IsGoverned, step-InQuotas}
use arkhe_kernel.Runtime.Registry
use arkhe_kernel.Runtime.Registry.{ActionDyn}
use arkhe_kernel.Runtime.Kernel.{Kernel}
use arkhe_kernel.Runtime.Stage
use arkhe_kernel.Runtime.Kernel.Backpressure.{IsBounded, submit-IsBounded, from_snapshot-snapshot}
use arkhe_kernel.Runtime.Kernel
use arkhe_kernel.Runtime.Drive
use arkhe_kernel.Runtime.Drive.Observers.{Alike, step-observers}
use arkhe_kernel.Runtime.Observer
use arkhe_kernel.Runtime.Reach.{Reachable, fresh_with_wal, created, submitted}
use arkhe_kernel.Runtime.Reach.Safety.{Reachable-AllSafe, step-never_panics, submit-never_panics}
use arkhe_kernel.Persist.Record.{zero_hash}
use arkhe_kernel.Persist.Signature.{SignatureClass}
use arkhe_kernel.Tests.Fixtures.{
  plain_crypto, plain_hashing, small_config, one_instance, one_action, first_submission,
  small_instance, spawn_all, guest_entry,
}

pub one_instance-Reachable : Reachable plain_hashing plain_crypto one_instance
unfolding Kernel.create_instance Kernel.new_with_wal_signed
one_instance-Reachable =
    created small_config 1 (fresh_with_wal zero_hash zero_hash (SignatureClass.hybrid [] [])) refl

pub one_action-Reachable : Reachable plain_hashing plain_crypto one_action
unfolding Kernel.create_instance Kernel.submit BTreeMap.get BTreeMap.insert nat_ord
    Kernel.new_with_wal_signed Kernel.is_full Kernel.admit Scheduler.len
one_action-Reachable = submitted 1 first_submission (ok 1) one_instance-Reachable refl

step-never_panics_example :
    Returns
      (λ r. Reachable plain_hashing plain_crypto r.1)
      (Drive.step plain_hashing plain_crypto one_action 0 1)
step-never_panics_example =
    step-never_panics plain_hashing plain_crypto one_action 0 1 one_action-Reachable

submit-never_panics_example :
    Returns
      (λ r. Reachable plain_hashing plain_crypto r.1)
      (Kernel.submit plain_crypto one_action 2 first_submission)
    × Returns
        (λ r. Reachable plain_hashing plain_crypto r.1)
        (Kernel.create_instance one_action small_config)
submit-never_panics_example =
    submit-never_panics plain_hashing plain_crypto one_action 2 first_submission small_config
      one_action-Reachable

step-observers_example : Both Alike (Drive.step plain_hashing plain_crypto one_action 0 1) (
    Drive.step plain_hashing plain_crypto
      (record one_action { observers = (Observer.register Observer.new (λ seen event. true)).1 })
      0
      1)
step-observers_example =
    step-observers plain_hashing plain_crypto one_action
      (Observer.register Observer.new (λ seen event. true)).1 0 1

-- an action without an authenticated principal
execute-RolledBack_example :
    Returns
      (λ r. RolledBack small_instance r.1 r.0)
      (execute plain_hashing true 1 small_instance Stage.empty 0 1 guest_entry spawn_all)
unfolding some_unauthorized is_authorized authorize gate_context computed_ops
execute-RolledBack_example =
    execute-RolledBack plain_hashing true 1 small_instance Stage.empty 0 1 guest_entry spawn_all
      refl

-- a third entity is one too many
abbrev three_spawns : List Op
three_spawns = Op.spawn_entity 7 system ∷ Op.spawn_entity 8 system ∷ Op.spawn_entity 9 system ∷ []

abbrev spawn_three : ActionDyn
spawn_three context = three_spawns

abbrev system_context : GateContext
system_context = record {
  inst_id = 1;
  inst = small_instance;
  now = 0;
  eff = 18446744073709551615;
  principal = system;
}

abbrev fresh_state : GateState
fresh_state = record {
  stage = Stage.empty;
  next_scheduled_id = 0;
  any_denied = false;
  applied = 0;
  denied = 0;
}

gate_ops-Gated_example :
    Returns
      (Gated fresh_state (some_unauthorized system_context three_spawns) 3)
      (gate_ops system_context three_spawns fresh_state)
gate_ops-Gated_example = gate_ops-Gated system_context three_spawns fresh_state

-- the kernel with one waiting action, which spawns three entities where two may be
abbrev spawning : Kernel
spawning = record one_action {
  action_registry =
      Registry.register one_action.action_registry
        (record { type_code = 5; schema_version = 1; decode = λ bytes. some spawn_three });
}

spawning-IsGoverned : Everywhere IsGoverned spawning.instances
unfolding Everywhere Kernel.create_instance Kernel.submit BTreeMap.get BTreeMap.insert nat_ord
    Kernel.new_with_wal_signed Kernel.is_full Kernel.admit Scheduler.len Scheduler.schedule_with_id
    entities_len
spawning-IsGoverned = (
  (
    (Reachable-AllSafe plain_hashing plain_crypto one_action one_action-Reachable).0,
    record {
      narrow_entities = omega arith;
      narrow_scheduled = omega arith;
      entities = λ h. omega arith;
      scheduled = λ h. omega arith;
    },
  ),
  tt,
)

step-InQuotas_example :
    Returns
      (λ r. Everywhere IsGoverned r.1.instances)
      (Drive.step plain_hashing plain_crypto spawning 0 18446744073709551615)
step-InQuotas_example =
    step-InQuotas plain_hashing plain_crypto spawning 0 18446744073709551615 spawning-IsGoverned

one_instance-IsBounded : Everywhere IsBounded one_instance.instances
unfolding Everywhere IsBounded Kernel.create_instance Kernel.new_with_wal_signed BTreeMap.insert
    Scheduler.len
one_instance-IsBounded = (λ h. omega arith, tt)

submit-IsBounded_example :
    Allows
      (λ r. Everywhere IsBounded r.1.instances)
      (Kernel.submit plain_crypto one_instance 1 first_submission)
submit-IsBounded_example =
    submit-IsBounded plain_crypto one_instance 1 first_submission one_instance-IsBounded

from_snapshot-snapshot_example :
    ((Kernel.from_snapshot (Kernel.snapshot one_action)).instances ≡ one_action.instances)
    × ((Kernel.from_snapshot (Kernel.snapshot one_action)).next_instance_id
        ≡ one_action.next_instance_id)
from_snapshot-snapshot_example = from_snapshot-snapshot one_action
