-- ===== src/Runtime/Drive/Twins.antt =====
-- Two kernels with the same instances and actions under one call of the per-instance driver
-- (runtime/kernel.rs): their observers, their logs and their scratch stages may differ.
pub mod Process
use arkhe_kernel.Prelude.{
  subst, ◌≡◌, refl, sym, ◌∙◌, Bool, Bool-cases, ◌&&◌, Option, Option-cases, none, some, List, [],
  ◌∷◌, Both, Both->>=, Both-same, Result-cases, ap, Both-refl, Allows, Allows->>=, Allows-any, inl,
  inr, arith, ltb, leb,
}
use arkhe_kernel.Order.{nat_ord, eq_of_eqb}
use arkhe_kernel.BTreeMap
use arkhe_kernel.BTreeMap.{BTreeMap}
use arkhe_kernel.BTreeMap.Lookup.{get-insert}
use arkhe_kernel.Abi.{InstanceId, Tick}
use arkhe_kernel.Abi.Caps.{CapabilityMask}
use arkhe_kernel.State.Instance
use arkhe_kernel.State.Instance.{Instance}
use arkhe_kernel.State.Scheduler
use arkhe_kernel.State.Scheduler.{Scheduler, ScheduledEntry}
use arkhe_kernel.Runtime.Registry
use arkhe_kernel.Runtime.Registry.{ActionRegistry}
use arkhe_kernel.Runtime.Stage
use arkhe_kernel.Runtime.Stage.{StepStage, PendingSignal}
use arkhe_kernel.Runtime.Step.{
  StateHashing, StepCore, run_entry, run_popped, execute, step_one_core,
}
use arkhe_kernel.Runtime.Kernel.{Kernel}
use arkhe_kernel.Runtime.Drive.{
  InstanceStepResult, route_signal, route_signals, Routing, receive, finish, run_core,
  process_instance_record,
}

-- the same instance under every id
abbrev pub SameInstances : BTreeMap InstanceId Instance → BTreeMap InstanceId Instance → Type 0
SameInstances m n = (id : InstanceId) → BTreeMap.get id m ≡ BTreeMap.get id n

pub record Twins (k l : Kernel) : Type 0 where
  pub instances : SameInstances k.instances l.instances
  pub registry : k.action_registry ≡ l.action_registry

pub Twins-refl : (k : Kernel) → Twins k k
Twins-refl k = record { instances = λ id. refl; registry = refl }

pub Twins-trans : (k l m : Kernel) → Twins k l → Twins l m → Twins k m
Twins-trans k l m s t = record {
  instances = λ id. s.instances id ∙ t.instances id;
  registry = s.registry ∙ t.registry;
}

pub Twins-sym : (k l : Kernel) → Twins k l → Twins l k
Twins-sym k l t = record { instances = λ id. sym (t.instances id); registry = sym t.registry }

pub insert-SameInstances :
    (id : InstanceId) (i : Instance) (m n : BTreeMap InstanceId Instance)
    → SameInstances m n
    → SameInstances (BTreeMap.insert id i m) (BTreeMap.insert id i n)
insert-SameInstances id i m n same j =
    ground (arith, get-insert j id i m, get-insert j id i n, same j)

-- what stands under a key already may be put there again
pub reinsert-SameInstances :
    (id : InstanceId) (i : Instance) (m : BTreeMap InstanceId Instance)
    → BTreeMap.get id m ≡ some i
    → SameInstances m (BTreeMap.insert id i m)
reinsert-SameInstances id i m held j = ground (arith, get-insert j id i m, eq_of_eqb j id)

route_signal-SameInstances :
    (from : InstanceId) (sig : PendingSignal) (m n : BTreeMap InstanceId Instance)
    → SameInstances m n
    → SameInstances (route_signal from m sig).0 (route_signal from n sig).0
unfolding route_signal
route_signal-SameInstances from sig m n same = elim (Option-cases (BTreeMap.get sig.target m)) [
  | inl e ↦ rw (e, route_signal, sym (same sig.target) ∙ e) same
  | inr (i, e) ↦
      elim (Bool-cases (
        ltb 0 i.config.max_inbox_per_route
        && leb i.config.max_inbox_per_route (Instance.inbox_len i sig.route))) [
          | inl full ↦ rw (e, route_signal, sym (same sig.target) ∙ e, full) same
          | inr room ↦
              rw (e, route_signal, sym (same sig.target) ∙ e, room)
                (insert-SameInstances sig.target (receive from sig i) m n same)
        ]
]

route_signals-SameInstances :
    (from : InstanceId) (sigs : List PendingSignal) (s t : Routing)
    → SameInstances s.0 t.0
    → SameInstances (route_signals from sigs s).0 (route_signals from sigs t).0
unfolding route_signals
route_signals-SameInstances from [] s t same = same
route_signals-SameInstances from (sig ∷ sigs) (m, o) (n, p) same =
    route_signals-SameInstances from sigs _ _ (route_signal-SameInstances from sig m n same)

-- the same result, but for the evictions
unfoldable pub SameResult : Option InstanceStepResult → Option InstanceStepResult → Type 0
SameResult none none = Unit
SameResult (some a) (some b) =
    record a { observers_evicted = 0 } ≡ record b { observers_evicted = 0 }
SameResult _ _ = ⊥

abbrev pub TwinOutcomes :
    Option InstanceStepResult × Kernel → Option InstanceStepResult × Kernel → Type 0
TwinOutcomes a b = SameResult a.0 b.0 × Twins a.1 b.1

pub run_core-Twins :
    (id : InstanceId) (now : Tick) (core : Option StepCore) (k l : Kernel)
    → Twins k l
    → TwinOutcomes (run_core id now k core) (run_core id now l core)
unfolding run_core SameResult finish
run_core-Twins id now none k l t = (tt, t)
run_core-Twins id now (some core) k l t = (
  refl,
  record {
    instances = route_signals-SameInstances id core.pending_signals _ _ t.instances;
    registry = t.registry;
  },
)
