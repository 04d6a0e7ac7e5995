-- ===== src/Runtime/Kernel/Admission.antt =====
-- The schedulers of all instances under the operations of runtime/kernel.rs around the step.
use arkhe_kernel.Prelude.{
  ℕ, ◌≡◌, ◌≤◌, u64_max, not, Bool-cases, Option-cases, some, [], ◌∷◌, Returns, Returns->>=, inl,
  inr, arith, sat_add64, ok, ok-injective, subst,
}
use arkhe_kernel.Order.{nat_ord}
use arkhe_kernel.BTreeMap
use arkhe_kernel.BTreeMap.{BTreeMap}
use arkhe_kernel.BTreeMap.Lookup.{Everywhere, insert-Everywhere, get-Everywhere}
use arkhe_kernel.Abi.{InstanceId, RouteId, new_id}
use arkhe_kernel.Abi.Caps.{CapabilityMask, contains, admin_unload}
use arkhe_kernel.State.Config.{InstanceConfig}
use arkhe_kernel.State.Instance
use arkhe_kernel.State.Instance.{Instance}
use arkhe_kernel.State.Scheduler.{ScheduledEntry}
use arkhe_kernel.State.Scheduler.Key.{ScheduledActionId}
use arkhe_kernel.State.Scheduler.Linked.{schedule_with_id-IsLinked}
use arkhe_kernel.Runtime.Step.Safety.{IsSafe, AllSafe}
use arkhe_kernel.Runtime.Kernel.{
  Kernel, Submission, entry_of, create_instance, submit, is_full, admit, admit_with_id,
  submit_with_id, force_unload, drop_route,
}
use arkhe_kernel.Persist.Signature.{Crypto}

pub new_id_next : (n : ℕ) → new_id (sat_add64 n 1) ≡ some (sat_add64 n 1)
new_id_next n = ground arith

pub new-IsSafe : (id : InstanceId) (config : InstanceConfig) → IsSafe (Instance.new id config)
unfolding BTreeMap.get
new-IsSafe id config = (
  record {
    key_id = λ i key h. absurd (cc);
    present = λ i key h. absurd (cc);
    entry_id = λ key e h. absurd (cc);
    sorted = tt;
  },
  omega arith,
)

pub create_instance-AllSafe :
    (k : Kernel) (config : InstanceConfig)
    → AllSafe k.instances
    → Returns (λ r. AllSafe r.1.instances) (create_instance k config)
unfolding create_instance
create_instance-AllSafe k config all = rw (new_id_next k.next_instance_id) (
    insert-Everywhere IsSafe (sat_add64 k.next_instance_id 1)
      (Instance.new (sat_add64 k.next_instance_id 1) config) k.instances
      (new-IsSafe (sat_add64 k.next_instance_id 1) config) all)

pub admit-IsSafe :
    (i : Instance) (entry : ScheduledActionId → ScheduledEntry)
    → IsSafe i
    → Returns (λ r. IsSafe r.1) (admit i entry)
unfolding admit
admit-IsSafe i entry l =
    rw (new_id_next i.id_counters.next_scheduled)
      (schedule_with_id-IsLinked i.scheduler (entry _) l.0, omega arith)

pub submit-AllSafe :
    (c : Crypto) (k : Kernel) (id : InstanceId) (s : Submission)
    → AllSafe k.instances
    → Returns (λ r. AllSafe r.1.instances) (submit c k id s)
unfolding submit
submit-AllSafe c k id s all = elim (Option-cases (BTreeMap.get id k.instances)) [
  | inl missing ↦ rw (missing, submit) all
  | inr (i, found) ↦ elim (Bool-cases (is_full i)) [
    | inl full ↦ rw (found, submit, full) all
    | inr room ↦
        rw (found, submit, room)
          (Returns->>= (λ r. IsSafe r.1) (λ r. AllSafe r.1.instances) _ _
            (admit-IsSafe i (entry_of s) (get-Everywhere IsSafe id i k.instances all found))
            (λ r l. insert-Everywhere IsSafe id r.1 k.instances l all))
  ]
]

-- the state after a submission under a recorded id
pub submit_with_id-AllSafe :
    (k k' : Kernel) (id : InstanceId) (s : Submission) (action : ScheduledActionId)
    → action ≤ u64_max
    → AllSafe k.instances
    → submit_with_id k id s action ≡ ok k'
    → AllSafe k'.instances
unfolding submit_with_id admit_with_id
submit_with_id-AllSafe k k' id s action fits all h =
    elim (Option-cases (BTreeMap.get id k.instances)) [
      | inl missing ↦ absurd (cc)
      | inr (i, found) ↦
          subst (λ l. AllSafe l.instances) (ok-injective (rw (found, submit_with_id) at h))
            (insert-Everywhere IsSafe id (admit_with_id i s action) k.instances
              (let safe = get-Everywhere IsSafe id i k.instances all found in
                (schedule_with_id-IsLinked i.scheduler (entry_of s action) safe.0, ground arith))
              all)
    ]

drop_route-AllSafe :
    (route : RouteId) (m : BTreeMap InstanceId Instance) (total : ℕ)
    → AllSafe m
    → AllSafe (drop_route route total m).1
unfolding drop_route Everywhere
drop_route-AllSafe route [] total all = tt
drop_route-AllSafe route ((id, i) ∷ m) total (l, all) = (l, drop_route-AllSafe route m _ all)

pub force_unload-AllSafe :
    (k : Kernel) (route : RouteId) (caps : CapabilityMask)
    → AllSafe k.instances
    → AllSafe (force_unload k route caps).1.instances
unfolding force_unload
force_unload-AllSafe k route caps all = elim (Bool-cases (not (contains caps admin_unload))) [
  | inl denied ↦ rw denied all
  | inr allowed ↦ rw allowed (drop_route-AllSafe route k.instances 0 all)
]
