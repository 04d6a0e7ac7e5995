-- ===== src/Runtime/Reach/Fit.antt =====
-- The schedulers of reachable kernels (runtime/kernel.rs), as long as no 64-bit counter has reached
-- its limit.
use arkhe_kernel.Prelude.{
  ℕ, ◌<◌, u64_max, arith, sym, subst, not, Bool, Bool-cases, Option-cases, [], ◌∷◌, inl, inr,
  Returns, Returns->>=, Returns-value, Returns-with, sat_add64,
}
use arkhe_kernel.Order.{nat_ord}
use arkhe_kernel.BTreeMap
use arkhe_kernel.BTreeMap.{BTreeMap}
use arkhe_kernel.BTreeMap.Lookup.{Everywhere, insert-Everywhere, get-Everywhere}
use arkhe_kernel.Abi.{InstanceId, RouteId, Tick}
use arkhe_kernel.Abi.Caps.{CapabilityMask, contains, admin_unload}
use arkhe_kernel.State.Config.{InstanceConfig}
use arkhe_kernel.State.Instance
use arkhe_kernel.State.Instance.{Instance}
use arkhe_kernel.State.Scheduler
use arkhe_kernel.State.Scheduler.{ScheduledEntry}
use arkhe_kernel.State.Scheduler.Consistent.{IsValid}
use arkhe_kernel.State.Scheduler.Consistent.Used.{new-IsValid}
use arkhe_kernel.Runtime.Registry.{ActionRegistry}
use arkhe_kernel.Runtime.Stage.{StepStage, PendingSignal}
use arkhe_kernel.Runtime.Step.{StateHashing, step_one_core}
use arkhe_kernel.Runtime.Step.Safety.{IsSafe, step_one_core-IsSafe}
use arkhe_kernel.Runtime.Step.Fit.{IsFit, schedule_with_id-FitsUp, step_one_core-IsFit}
use arkhe_kernel.Runtime.Kernel
use arkhe_kernel.Runtime.Kernel.{
  Kernel, Submission, entry_of, create_instance, submit, is_full, admit, force_unload, drop_route,
}
use arkhe_kernel.Runtime.Kernel.Admission.{new_id_next, new-IsSafe, admit-IsSafe}
use arkhe_kernel.Runtime.Kernel.Backpressure.{from_snapshot-snapshot}
use arkhe_kernel.Runtime.Drive
use arkhe_kernel.Runtime.Drive.{receive}
use arkhe_kernel.Runtime.Drive.Safety.{receive-IsSafe}
use arkhe_kernel.Runtime.Drive.Keeps.{step-Each}
use arkhe_kernel.Runtime.Reach.{
  Reachable, fresh, fresh_with_wal, registered, observed, created, submitted, unloaded, restored,
  stepped,
}
use arkhe_kernel.Persist.Signature.{Crypto}

-- safe, and in order below the limits
abbrev IsOrderly : Instance → Type 0
IsOrderly i = IsSafe i × IsFit i

abbrev AllOrderly : BTreeMap InstanceId Instance → Type 0
AllOrderly m = Everywhere IsOrderly m

receive-IsOrderly :
    (from : InstanceId) (sig : PendingSignal) (i : Instance)
    → IsOrderly i
    → IsOrderly (receive from sig i)
unfolding receive Instance.deliver_signal
receive-IsOrderly from sig i l = (receive-IsSafe from sig i l.0, l.1)

new-IsOrderly : (id : InstanceId) (config : InstanceConfig) → IsOrderly (Instance.new id config)
new-IsOrderly id config = (new-IsSafe id config, λ limit room. (new-IsValid, omega arith))

create_instance-AllOrderly :
    (k : Kernel) (config : InstanceConfig)
    → AllOrderly k.instances
    → Returns (λ r. AllOrderly r.1.instances) (create_instance k config)
unfolding create_instance
create_instance-AllOrderly k config all = rw (new_id_next k.next_instance_id) (
    insert-Everywhere IsOrderly (sat_add64 k.next_instance_id 1)
      (Instance.new (sat_add64 k.next_instance_id 1) config) k.instances
      (new-IsOrderly (sat_add64 k.next_instance_id 1) config) all)

-- the new id is above all that were given, unless the counter is full
admitted-IsFit :
    (i : Instance) (s : Submission)
    → IsFit i
    → IsFit (record i {
      id_counters = record i.id_counters {
        next_scheduled = sat_add64 i.id_counters.next_scheduled 1;
      };
      scheduler =
          Scheduler.schedule_with_id i.scheduler
            (entry_of s (sat_add64 i.id_counters.next_scheduled 1));
    })
admitted-IsFit i s f limit =
    schedule_with_id-FitsUp i.scheduler (entry_of s (sat_add64 i.id_counters.next_scheduled 1))
      i.id_counters.next_scheduled (f (omega arith)) (omega arith)

admit-IsOrderly :
    (i : Instance) (s : Submission)
    → IsOrderly i
    → Returns (λ r. IsOrderly r.1) (admit i (entry_of s))
unfolding admit
admit-IsOrderly i s l =
    let safe = admit-IsSafe i (entry_of s) l.0 in
    rw (new_id_next i.id_counters.next_scheduled)
      (rw (new_id_next i.id_counters.next_scheduled) at safe, admitted-IsFit i s l.1)

submit-AllOrderly :
    (c : Crypto) (k : Kernel) (id : InstanceId) (s : Submission)
    → AllOrderly k.instances
    → Returns (λ r. AllOrderly r.1.instances) (submit c k id s)
unfolding submit
submit-AllOrderly c k id s all = elim (Option-cases (BTreeMap.get id k.instances)) [
  | inl missing ↦ rw (missing, submit) all
  | inr (i, found) ↦ elim (Bool-cases (is_full i)) [
    | inl full ↦ rw (found, submit, full) all
    | inr room ↦
        rw (found, submit, room)
          (Returns->>= (λ r. IsOrderly r.1) (λ r. AllOrderly r.1.instances) (admit i (entry_of s)) _
            (admit-IsOrderly i s (get-Everywhere IsOrderly id i k.instances all found))
            (λ r l. insert-Everywhere IsOrderly id r.1 k.instances l all))
  ]
]

drop_route-AllOrderly :
    (route : RouteId) (m : BTreeMap InstanceId Instance) (total : ℕ)
    → AllOrderly m
    → AllOrderly (drop_route route total m).1
unfolding drop_route Everywhere
drop_route-AllOrderly route [] total all = tt
drop_route-AllOrderly route ((id, i) ∷ m) total (l, all) = (l, drop_route-AllOrderly route m _ all)

force_unload-AllOrderly :
    (k : Kernel) (route : RouteId) (caps : CapabilityMask)
    → AllOrderly k.instances
    → AllOrderly (force_unload k route caps).1.instances
unfolding force_unload
force_unload-AllOrderly k route caps all = elim (Bool-cases (not (contains caps admin_unload))) [
  | inl denied ↦ rw denied all
  | inr allowed ↦ rw allowed (drop_route-AllOrderly route k.instances 0 all)
]

-- the counters of an instance have not reached their limit
abbrev pub HasRoom : Instance → Type 0
HasRoom i = (i.scheduler.next_seq < u64_max) × (i.id_counters.next_scheduled < u64_max)

below_limits :
    (m : BTreeMap InstanceId Instance)
    → AllOrderly m
    → Everywhere HasRoom m
    → Everywhere (λ i. IsValid i.scheduler) m
unfolding Everywhere
below_limits [] all room = tt
below_limits ((id, i) ∷ m) all room = ((all.0.1 room.0.1 room.0.0).0, below_limits m all.1 room.1)

module _ (h : StateHashing) (c : Crypto) where
  step_one_core-IsOrderly :
      (m : Bool) (id : InstanceId) (i : Instance) (registry : ActionRegistry) (scratch : StepStage)
      (now : Tick) (caps : CapabilityMask)
      → IsOrderly i
      → Returns (λ r. IsOrderly r.1) (step_one_core h m id i registry scratch now caps)
  step_one_core-IsOrderly m id i registry scratch now caps l =
      Returns-with (λ r. IsSafe r.1) (λ r. IsFit r.1)
        (step_one_core h m id i registry scratch now caps)
        (step_one_core-IsSafe h m id i registry scratch now caps l.0)
        (step_one_core-IsFit h m id now caps i registry scratch l.0.1 l.1)

  Reachable-AllOrderly : (k : Kernel) → Reachable h c k → AllOrderly k.instances
  unfolding Everywhere Kernel.new_with_wal_signed Kernel.register_action
      Kernel.register_observer_filtered
  Reachable-AllOrderly _ fresh = tt
  Reachable-AllOrderly _ (fresh_with_wal w m sig) = tt
  Reachable-AllOrderly _ (registered {k} a r) = Reachable-AllOrderly k r
  Reachable-AllOrderly _ (observed {k} obs mask r) = Reachable-AllOrderly k r
  Reachable-AllOrderly _ (created {k} {k'} config id r e) =
      Returns-value (λ p. AllOrderly p.1.instances) (Kernel.create_instance k config) (id, k')
        (create_instance-AllOrderly k config (Reachable-AllOrderly k r)) e
  Reachable-AllOrderly _ (submitted {k} {k'} id s res r e) =
      Returns-value (λ p. AllOrderly p.1.instances) (Kernel.submit c k id s) (res, k')
        (submit-AllOrderly c k id s (Reachable-AllOrderly k r)) e
  Reachable-AllOrderly _ (unloaded {k} route caps r) =
      force_unload-AllOrderly k route caps (Reachable-AllOrderly k r)
  Reachable-AllOrderly _ (restored {k} r) =
      subst (λ m. AllOrderly m) (sym (from_snapshot-snapshot k).0) (Reachable-AllOrderly k r)
  Reachable-AllOrderly _ (stepped {k} {k'} now caps report r e) =
      Returns-value (λ p. AllOrderly p.1.instances) (Drive.step h c k now caps) (report, k')
        (step-Each IsOrderly receive-IsOrderly h step_one_core-IsOrderly c k now caps
          (Reachable-AllOrderly k r))
        e

  -- below the limits every scheduler is consistent
  pub Reachable-IsValid :
      (k : Kernel)
      → Reachable h c k
      → Everywhere HasRoom k.instances
      → Everywhere (λ i. IsValid i.scheduler) k.instances
  Reachable-IsValid k r room = below_limits k.instances (Reachable-AllOrderly k r) room
