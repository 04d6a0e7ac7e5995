-- ===== src/Runtime/Drive/Keeps.antt =====
-- A property of instances that the core step keeps and an arriving signal does not break: the driver
-- and `step` (runtime/kernel.rs) keep it on all instances, and do not panic.
use arkhe_kernel.Prelude.{
  Bool, Bool-cases, ◌&&◌, Option, Option-cases, none, some, List, [], ◌∷◌, Returns, Returns->>=,
  inl, inr, is_some, ltb, leb,
}
use arkhe_kernel.Order.{nat_ord}
use arkhe_kernel.BTreeMap
use arkhe_kernel.BTreeMap.{BTreeMap}
use arkhe_kernel.BTreeMap.Lookup.{Everywhere, insert-Everywhere, get-Everywhere}
use arkhe_kernel.Abi.{InstanceId, Tick}
use arkhe_kernel.Abi.Caps.{CapabilityMask}
use arkhe_kernel.State.Instance
use arkhe_kernel.State.Instance.{Instance}
use arkhe_kernel.Runtime.Stage.{StepStage, PendingSignal}
use arkhe_kernel.Runtime.Step.{StateHashing, StepCore, step_one_core}
use arkhe_kernel.Runtime.Registry.{ActionRegistry}
use arkhe_kernel.Runtime.Kernel.{Kernel}
use arkhe_kernel.Runtime.Drive.{
  InstanceStepResult, StepReport, route_signal, route_signals, Routing, receive, finish, run_core,
  log_result, process_instance_record, step_instance, step_instances, step,
}
use arkhe_kernel.Persist.Signature.{Crypto}

module _ (P : Instance → Type 0)
    (inbox : (from : InstanceId) (sig : PendingSignal) (i : Instance)
      → P i
      → P (receive from sig i))
    (h : StateHashing)
    (core : (m : Bool) (id : InstanceId) (i : Instance) (registry : ActionRegistry)
        (scratch : StepStage) (now : Tick) (caps : CapabilityMask)
      → P i
      → Returns (λ r. P r.1) (step_one_core h m id i registry scratch now caps)) where
  abbrev pub Each : BTreeMap InstanceId Instance → Type 0
  Each m = Everywhere P m

  route_signal-Each :
      (from : InstanceId) (m : BTreeMap InstanceId Instance) (sig : PendingSignal)
      → Each m
      → Each (route_signal from m sig).0
  unfolding route_signal
  route_signal-Each from m sig all = elim (Option-cases (BTreeMap.get sig.target m)) [
    | inl e ↦ rw (e, route_signal) all
    | inr (i, e) ↦
        elim (Bool-cases (
          ltb 0 i.config.max_inbox_per_route
          && leb i.config.max_inbox_per_route (Instance.inbox_len i sig.route))) [
            | inl full ↦ rw (e, route_signal, full) all
            | inr room ↦
                rw (e, route_signal, room)
                  (insert-Everywhere P sig.target _ m
                    (inbox from sig i (get-Everywhere P sig.target i m all e)) all)
          ]
  ]

  route_signals-Each :
      (from : InstanceId) (sigs : List PendingSignal) (s : Routing)
      → Each s.0
      → Each (route_signals from sigs s).0
  unfolding route_signals
  route_signals-Each from [] s all = all
  route_signals-Each from (sig ∷ sigs) (m, o) all =
      route_signals-Each from sigs _ (route_signal-Each from m sig all)

  run_core-Each :
      (k : Kernel) (id : InstanceId) (now : Tick) (core : Option StepCore)
      → Each k.instances
      → Each (run_core id now k core).1.instances
  unfolding run_core finish
  run_core-Each k id now none all = all
  run_core-Each k id now (some core) all = route_signals-Each id core.pending_signals _ all

  pub process_instance_record-Each :
      (k : Kernel) (id : InstanceId) (now : Tick) (caps : CapabilityMask) (measure : Bool)
      → Each k.instances
      → Returns (λ r. Each r.1.instances) (process_instance_record h k id now caps measure)
  unfolding process_instance_record
  process_instance_record-Each k id now caps measure all =
      elim (Option-cases (BTreeMap.get id k.instances)) [
        | inl missing ↦ rw (missing, process_instance_record) all
        | inr (i, found) ↦
            rw (found, process_instance_record)
              (Returns->>= (λ r. P r.1) (λ r. Each r.1.instances) _ _
                (core measure id i k.action_registry k.step_scratch now caps
                  (get-Everywhere P id i k.instances all found))
                (λ r l. run_core-Each _ id now r.0 (insert-Everywhere P id r.1 k.instances l all)))
      ]

  module _ (c : Crypto) where
    log_result-Each :
        (id : InstanceId) (now : Tick) (caps : CapabilityMask) (report : StepReport)
        (result : Option InstanceStepResult) (k : Kernel)
        → Each k.instances
        → Each (log_result c id now caps report result k).1.instances
    unfolding log_result
    log_result-Each id now caps report none k all = all
    log_result-Each id now caps report (some result) k all = all

    step_instance-Each :
        (id : InstanceId) (now : Tick) (caps : CapabilityMask) (measure : Bool)
        (s : StepReport × Kernel)
        → Each s.1.instances
        → Returns (λ r. Each r.1.instances) (step_instance h c id now caps measure s)
    unfolding step_instance
    step_instance-Each id now caps measure (report, k) all =
        Returns->>= (λ r. Each r.1.instances) (λ r. Each r.1.instances) _ _
          (process_instance_record-Each k id now caps measure all)
          (λ r l. log_result-Each id now caps report r.0 r.1 l)

    step_instances-Each :
        (ids : List InstanceId) (now : Tick) (caps : CapabilityMask) (measure : Bool)
        (s : StepReport × Kernel)
        → Each s.1.instances
        → Returns (λ r. Each r.1.instances) (step_instances h c ids now caps measure s)
    unfolding step_instances
    step_instances-Each [] now caps measure s all = all
    step_instances-Each (id ∷ ids) now caps measure s all =
        Returns->>= (λ r. Each r.1.instances) (λ r. Each r.1.instances)
          (step_instance h c id now caps measure s) (step_instances h c ids now caps measure)
          (step_instance-Each id now caps measure s all) (step_instances-Each ids now caps measure)

    pub step-Each :
        (k : Kernel) (now : Tick) (caps : CapabilityMask)
        → Each k.instances
        → Returns (λ r. Each r.1.instances) (step h c k now caps)
    unfolding step
    step-Each k now caps all =
        step_instances-Each (BTreeMap.keys k.instances) now caps (is_some k.wal) _ all
