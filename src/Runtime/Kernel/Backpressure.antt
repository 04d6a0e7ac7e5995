-- ===== src/Runtime/Kernel/Backpressure.antt =====
-- The back-pressure of `submit` (runtime/kernel.rs), and the round trip of a kernel snapshot.
use arkhe_kernel.Prelude.{
  ◌≡◌, refl, ap, ◌≤◌, ◌<◌, Bool, Bool-cases, Option-cases, [], ◌∷◌, Allows, Allows->>=, Allows-any,
  expect, inl, inr, arith, sat_add64,
}
use arkhe_kernel.Order.{nat_ord}
use arkhe_kernel.BTreeMap
use arkhe_kernel.BTreeMap.{BTreeMap}
use arkhe_kernel.BTreeMap.Lookup.{Everywhere, insert-Everywhere}
use arkhe_kernel.Abi.{InstanceId, new_id}
use arkhe_kernel.State.Instance
use arkhe_kernel.State.Instance.{Instance, InstanceSnapshot}
use arkhe_kernel.State.Scheduler
use arkhe_kernel.State.Scheduler.{Scheduler, ScheduledEntry}
use arkhe_kernel.State.Scheduler.Depth.{len-schedule_with_id}
use arkhe_kernel.State.Scheduler.Key.{ScheduledActionId, sched_key_ord}
use arkhe_kernel.Runtime.Kernel.{
  Kernel, Submission, entry_of, submit, is_full, admit, snapshot, from_snapshot, snapshot_all,
  restore_all,
}
use arkhe_kernel.Persist.Signature.{Crypto}

-- the queue holds no more than the configured number; 0 is no limit
unfoldable pub IsBounded : Instance → Type 0
IsBounded i = (0 < i.config.max_scheduled) → Scheduler.len i.scheduler ≤ i.config.max_scheduled

admit-IsBounded :
    (i : Instance) (entry : ScheduledActionId → ScheduledEntry)
    → is_full i ≡ Bool.false
    → Allows (λ r. IsBounded r.1) (admit i entry)
unfolding admit is_full IsBounded
admit-IsBounded i entry room =
    Allows-any (λ r. IsBounded r.1) (expect (new_id (sat_add64 i.id_counters.next_scheduled 1))) _
      (λ id h. ground (arith, len-schedule_with_id i.scheduler (entry id)))

-- If every instance's queue is within its limit, every one is after a submission, accepted or refused.
pub submit-IsBounded :
    (c : Crypto) (k : Kernel) (id : InstanceId) (s : Submission)
    → Everywhere IsBounded k.instances
    → Allows (λ r. Everywhere IsBounded r.1.instances) (submit c k id s)
unfolding submit
submit-IsBounded c k id s all = elim (Option-cases (BTreeMap.get id k.instances)) [
  | inl missing ↦ rw (missing, submit) all
  | inr (i, found) ↦ elim (Bool-cases (is_full i)) [
    | inl full ↦ rw (found, submit, full) all
    | inr room ↦
        rw (found, submit, room)
          (Allows->>= (λ r. IsBounded r.1) (λ r. Everywhere IsBounded r.1.instances) _ _
            (admit-IsBounded i (entry_of s) room)
            (λ r b. insert-Everywhere IsBounded id r.1 k.instances b all))
  ]
]

restore_all-snapshot_all : (m : BTreeMap InstanceId Instance) → restore_all (snapshot_all m) ≡ m
unfolding restore_all snapshot_all Instance.from_snapshot Instance.to_snapshot
restore_all-snapshot_all [] = refl
restore_all-snapshot_all ((id, i) ∷ m) = ap (λ x. (id, i) ∷ x) (restore_all-snapshot_all m)

-- A kernel that is restored from a snapshot has the instances of the kernel that was captured, and
-- goes on with its instance ids.
pub from_snapshot-snapshot :
    (k : Kernel)
    → ((from_snapshot (snapshot k)).instances ≡ k.instances)
      × ((from_snapshot (snapshot k)).next_instance_id ≡ k.next_instance_id)
unfolding from_snapshot snapshot
from_snapshot-snapshot k = (restore_all-snapshot_all k.instances, refl)
