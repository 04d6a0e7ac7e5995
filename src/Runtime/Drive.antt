-- ===== src/Runtime/Drive.antt =====
-- runtime/kernel.rs: `process_instance_record`, which the live step and the replay share, and
-- `step`, which runs it for each instance in ascending order.
pub mod Keeps
pub mod Safety
pub mod Quotas
pub mod Observers
pub mod Twins
use arkhe_kernel.Prelude.{
  ℕ, Bool, true, false, ◌&&◌, Option, none, some, List, [], ◌∷◌, Checked, done, ◌>>=◌, sat_add32,
  is_some, ltb, leb, length, unwrap_or, u32_max, ◌%◌, ◌^◌, if◌then◌else◌,
}
use arkhe_kernel.Order.{nat_ord}
use arkhe_kernel.BTreeMap
use arkhe_kernel.BTreeMap.{BTreeMap}
use arkhe_kernel.Abi.{InstanceId, RouteId, Tick, TypeCode}
use arkhe_kernel.Abi.Caps.{CapabilityMask}
use arkhe_kernel.State.Instance
use arkhe_kernel.State.Instance.{Instance}
use arkhe_kernel.State.Scheduler.Key.{ScheduledActionId}
use arkhe_kernel.Runtime.Event.{
  KernelEvent, action_executed, signal_dropped, signal_delivered, queue_full, target_not_found,
}
use arkhe_kernel.Runtime.Observer.{ObserverRegistry, deliver}
use arkhe_kernel.Runtime.Stage.{PendingSignal}
use arkhe_kernel.Runtime.Step.{StateHashing, StepCore, step_one_core}
use arkhe_kernel.Runtime.Kernel.{Kernel}
use arkhe_kernel.Persist.Record.{Hash, StepVerdict, committed, auth_denied, budget_partial, skipped}
use arkhe_kernel.Persist.Signature.{Crypto}
use arkhe_kernel.Persist.Wal.{WalWriter, append_step}

pub record InstanceStepResult : Type 0 where
  pub popped_id : ScheduledActionId
  pub verdict : StepVerdict
  pub digest : Hash
  pub effects_applied : ℕ
  pub effects_denied : ℕ
  pub domain_events_emitted : ℕ
  pub observers_evicted : ℕ

-- delivers one event, and counts the observers that it evicts (`len() as u32`)
unfoldable pub deliver_counted : ObserverRegistry × ℕ → KernelEvent → ObserverRegistry × ℕ
deliver_counted (r, evicted) event =
    let (handles, r') = deliver r event in (r', sat_add32 evicted (length handles % 2 ^ 32))

-- the loop over the staged events
unfoldable pub deliver_events : List KernelEvent → ObserverRegistry × ℕ → ObserverRegistry × ℕ
unfolding deliver_counted
deliver_events [] s = s
deliver_events (e ∷ es) s = deliver_events es (deliver_counted s e)

-- `ActionExecuted` fires only if the action committed, whole or in part
unfoldable pub executed : StepVerdict → Bool
executed committed = true
executed (budget_partial n) = true
executed auth_denied = false
executed (skipped r) = false

-- the target of a signal with the signal in its inbox and one in-flight reference more
unfoldable pub receive : InstanceId → PendingSignal → Instance → Instance
receive from sig target =
    let delivered =
      (Instance.deliver_signal target sig.route
        (record { from = from; principal = sig.principal; payload = sig.payload; seq = 0 })).1 in
    record delivered {
      inflight_refs =
          BTreeMap.insert sig.route
            (sat_add32 (unwrap_or 0 (BTreeMap.get sig.route delivered.inflight_refs)) 1)
            delivered.inflight_refs;
    }

-- one signal: the new instances, and the event that says what became of it
unfoldable pub route_signal :
    InstanceId
    → BTreeMap InstanceId Instance
    → PendingSignal
    → BTreeMap InstanceId Instance × KernelEvent
unfolding receive
route_signal from instances sig = elim (BTreeMap.get sig.target instances) [
  | none ↦ (instances, signal_dropped sig.target sig.route target_not_found)
  | some target ↦
      if ltb 0 target.config.max_inbox_per_route
        && leb target.config.max_inbox_per_route (Instance.inbox_len target sig.route)
      then (instances, signal_dropped sig.target sig.route queue_full)
      else (
        BTreeMap.insert sig.target (receive from sig target) instances,
        signal_delivered from sig.target sig.route,
      )
]

-- the instances and the observers, with the count of evictions, while signals are routed
abbrev pub Routing : Type 0
Routing = BTreeMap InstanceId Instance × (ObserverRegistry × ℕ)

unfoldable pub route_signals : InstanceId → List PendingSignal → Routing → Routing
unfolding route_signal deliver_counted
route_signals from [] s = s
route_signals from (sig ∷ sigs) (instances, observing) =
    let (instances', event) = route_signal from instances sig in
    route_signals from sigs (instances', deliver_counted observing event)

-- observer delivery, then the signal router
unfoldable pub finish : InstanceId → Tick → Kernel → StepCore → InstanceStepResult × Kernel
unfolding deliver_events executed route_signals
finish inst_id now k core =
    let told = deliver_events core.events (k.observers, 0) in
    let told_all =
      if executed core.verdict
      then deliver_counted told (action_executed inst_id core.action_type now)
      else told in
    let (instances, observing) =
      route_signals inst_id core.pending_signals (k.instances, told_all) in
    (
      record {
        popped_id = core.popped_id;
        verdict = core.verdict;
        digest = core.digest;
        effects_applied = core.effects_applied;
        effects_denied = core.effects_denied;
        domain_events_emitted = core.domain_events_emitted;
        observers_evicted = observing.1;
      },
      record k { instances = instances; observers = observing.0 },
    )

-- the branch on what the core step has popped
unfoldable pub run_core :
    InstanceId → Tick → Kernel → Option StepCore → Option InstanceStepResult × Kernel
unfolding finish
run_core inst_id now k none = (none, k)
run_core inst_id now k (some core) =
    let (result, finished) = finish inst_id now k core in (some result, finished)

module _ (h : StateHashing) where
  -- an instance that is not there has nothing due
  unfoldable pub process_instance_record :
      Kernel
      → InstanceId
      → Tick
      → CapabilityMask
      → Bool
      → Checked (Option InstanceStepResult × Kernel)
  unfolding run_core
  process_instance_record k inst_id now session_caps measure_digest =
      elim (BTreeMap.get inst_id k.instances) [
        | none ↦ done (none, k)
        | some inst ↦
            step_one_core h measure_digest inst_id inst k.action_registry k.step_scratch now
              session_caps
            >>= λ r.
                let stepped : Kernel = record k {
                  instances = BTreeMap.insert inst_id r.1 k.instances;
                  step_scratch = r.2;
                } in
                done (run_core inst_id now stepped r.0)
      ]

pub record StepReport : Type 0 where
  pub actions_executed : ℕ
  pub effects_applied : ℕ
  pub effects_denied : ℕ
  pub observers_evicted : ℕ
  pub domain_events_emitted : ℕ

unfoldable pub add_result : StepReport → InstanceStepResult → StepReport
add_result s r = record {
  actions_executed = sat_add32 s.actions_executed 1;
  effects_applied = sat_add32 s.effects_applied r.effects_applied;
  effects_denied = sat_add32 s.effects_denied r.effects_denied;
  observers_evicted = sat_add32 s.observers_evicted r.observers_evicted;
  domain_events_emitted = sat_add32 s.domain_events_emitted r.domain_events_emitted;
}

-- An attached log gets one record of the step; its own errors are ignored.
unfoldable pub log_step :
    Crypto
    → Option WalWriter
    → InstanceId
    → Tick
    → CapabilityMask
    → InstanceStepResult
    → Option WalWriter
log_step c none inst_id now caps r = none
log_step c (some w) inst_id now caps r =
    some (append_step c w inst_id r.popped_id now caps r.verdict r.digest).1

-- the branch of `step` on what the instance has executed
unfoldable pub log_result :
    Crypto
    → InstanceId
    → Tick
    → CapabilityMask
    → StepReport
    → Option InstanceStepResult
    → Kernel
    → StepReport × Kernel
unfolding add_result log_step
log_result c inst_id now caps report none k = (report, k)
log_result c inst_id now caps report (some result) k =
    (add_result report result, record k { wal = log_step c k.wal inst_id now caps result })

module _ (h : StateHashing) (c : Crypto) where
  -- one round of the loop of `step`
  unfoldable pub step_instance :
      InstanceId
      → Tick
      → CapabilityMask
      → Bool
      → StepReport × Kernel
      → Checked (StepReport × Kernel)
  unfolding log_result
  step_instance inst_id now caps measure (report, k) =
      process_instance_record h k inst_id now caps measure >>= λ p.
      done (log_result c inst_id now caps report p.0 p.1)

  unfoldable pub step_instances :
      List InstanceId
      → Tick
      → CapabilityMask
      → Bool
      → StepReport × Kernel
      → Checked (StepReport × Kernel)
  unfolding step_instance
  step_instances [] now caps measure s = done s
  step_instances (id ∷ ids) now caps measure s =
      step_instance id now caps measure s >>= λ t. step_instances ids now caps measure t

  unfoldable pub step : Kernel → Tick → CapabilityMask → Checked (StepReport × Kernel)
  unfolding step_instances
  step k now caps = step_instances (BTreeMap.keys k.instances) now caps (is_some k.wal) (
    record {
      actions_executed = 0;
      effects_applied = 0;
      effects_denied = 0;
      observers_evicted = 0;
      domain_events_emitted = 0;
    },
    k,
  )
