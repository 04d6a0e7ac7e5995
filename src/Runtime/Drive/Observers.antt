-- ===== src/Runtime/Drive/Observers.antt =====
-- A step under two sets of observers (runtime/kernel.rs, runtime/observer.rs).
use arkhe_kernel.Prelude.{
  ℕ, ◌≡◌, refl, ap, ap₂, subst, Bool, Option, Option-cases, none, some, List, [], ◌∷◌, sat_add32,
  Both, Both->>=, Both-same, inl, inr, is_some,
}
use arkhe_kernel.Order.{nat_ord}
use arkhe_kernel.BTreeMap
use arkhe_kernel.BTreeMap.{BTreeMap}
use arkhe_kernel.Abi.{InstanceId, Tick}
use arkhe_kernel.Abi.Caps.{CapabilityMask}
use arkhe_kernel.State.Instance.{Instance}
use arkhe_kernel.Runtime.Observer
use arkhe_kernel.Runtime.Observer.{ObserverRegistry}
use arkhe_kernel.Runtime.Stage.{PendingSignal}
use arkhe_kernel.Runtime.Step.{StateHashing, StepCore, step_one_core}
use arkhe_kernel.Runtime.Kernel.{Kernel}
use arkhe_kernel.Runtime.Drive.{
  InstanceStepResult, StepReport, route_signals, finish, run_core, log_result, log_step, add_result,
  process_instance_record, step_instance, step_instances, step,
}
use arkhe_kernel.Persist.Signature.{Crypto}
use arkhe_kernel.Persist.Wal.{WalWriter}

-- a kernel without its observers, and a report without the count of evictions
unfoldable pub forget : StepReport × Kernel → StepReport × Kernel
forget (report, k) =
    (record report { observers_evicted = 0 }, record k { observers = Observer.new })

-- equal up to observers
abbrev pub Alike : StepReport × Kernel → StepReport × Kernel → Type 0
Alike a b = forget a ≡ forget b

-- another set of observers, and another count of evictions
abbrev pub observed_by : ObserverRegistry → ℕ → StepReport × Kernel → StepReport × Kernel
observed_by o e (report, k) = (record report { observers_evicted = e }, record k { observers = o })

route_signals-observers :
    (from : InstanceId) (sigs : List PendingSignal) (m : BTreeMap InstanceId Instance)
    (o p : ObserverRegistry × ℕ)
    → (route_signals from sigs (m, o)).0 ≡ (route_signals from sigs (m, p)).0
unfolding route_signals
route_signals-observers from [] m o p = refl
route_signals-observers from (sig ∷ sigs) m o p = route_signals-observers from sigs _ _ _

module _ (c : Crypto) (id : InstanceId) (now : Tick) (caps : CapabilityMask) where
  log_step-evictions :
      (w : Option WalWriter) (r : InstanceStepResult) (e : ℕ)
      → log_step c w id now caps r ≡ log_step c w id now caps (record r { observers_evicted = e })
  unfolding log_step
  log_step-evictions none r e = refl
  log_step-evictions (some w) r e = refl

  run_core-Alike :
      (report : StepReport) (k : Kernel) (core : Option StepCore) (o : ObserverRegistry) (e : ℕ)
      → Alike
          (log_result c id now caps report (run_core id now k core).0 (run_core id now k core).1)
          (log_result c id now caps
            (record report { observers_evicted = e })
            (run_core id now (record k { observers = o }) core).0
            (run_core id now (record k { observers = o }) core).1)
  unfolding log_result run_core forget finish add_result
  run_core-Alike report k none o e = refl
  run_core-Alike report k (some core) o e =
      ap₂
        (λ m w. (
          record report {
            actions_executed = sat_add32 report.actions_executed 1;
            effects_applied = sat_add32 report.effects_applied core.effects_applied;
            effects_denied = sat_add32 report.effects_denied core.effects_denied;
            observers_evicted = 0;
            domain_events_emitted =
                sat_add32 report.domain_events_emitted core.domain_events_emitted;
          },
          record k { instances = m; wal = w; observers = Observer.new },
        ))
        (route_signals-observers id core.pending_signals k.instances _ _)
        (log_step-evictions k.wal (finish id now k core).0
          (finish id now (record k { observers = o }) core).0.observers_evicted)

  -- two outcomes of a step that lead to alike reports and kernels
  abbrev AlikeLogged :
      StepReport
      → ℕ
      → Option InstanceStepResult × Kernel
      → Option InstanceStepResult × Kernel
      → Type 0
  AlikeLogged report e p q =
      Alike (log_result c id now caps report p.0 p.1)
        (log_result c id now caps (record report { observers_evicted = e }) q.0 q.1)

  module _ (h : StateHashing) where
    step_instance-Alike :
        (measure : Bool) (s : StepReport × Kernel) (o : ObserverRegistry) (e : ℕ)
        → Both Alike
            (step_instance h c id now caps measure s)
            (step_instance h c id now caps measure (observed_by o e s))
    unfolding step_instance process_instance_record log_result forget
    step_instance-Alike measure (report, k) o e =
        elim (Option-cases (BTreeMap.get id k.instances)) [
          | inl missing ↦ rw (missing, process_instance_record) refl
          | inr (i, found) ↦
              rw (found, process_instance_record)
                (Both->>= (AlikeLogged report e) Alike _ _ _ _
                  (Both-same (AlikeLogged report e)
                    (step_one_core h measure id i k.action_registry k.step_scratch now caps) _ _
                    (λ r. run_core-Alike report _ r.0 o e))
                  (λ p q a. a))
        ]

    -- the same, from two starts that are alike
    step_instance-Alike_of :
        (measure : Bool) (s t : StepReport × Kernel)
        → Alike s t
        → Both Alike
            (step_instance h c id now caps measure s)
            (step_instance h c id now caps measure t)
    unfolding forget
    step_instance-Alike_of measure s t a =
        subst
          (λ u.
            Both Alike (step_instance h c id now caps measure s)
              (step_instance h c id now caps measure u))
          (ap (observed_by t.1.observers t.0.observers_evicted) a)
          (step_instance-Alike measure s t.1.observers t.0.observers_evicted)

module _ (h : StateHashing) (c : Crypto) (now : Tick) (caps : CapabilityMask) (measure : Bool) where
  step_instances-Alike :
      (ids : List InstanceId) (s t : StepReport × Kernel)
      → Alike s t
      → Both Alike
          (step_instances h c ids now caps measure s)
          (step_instances h c ids now caps measure t)
  unfolding step_instances
  step_instances-Alike [] s t a = a
  step_instances-Alike (id ∷ ids) s t a =
      Both->>= Alike Alike (step_instance h c id now caps measure s)
        (step_instance h c id now caps measure t) _ _
        (step_instance-Alike_of c id now caps h measure s t a) (step_instances-Alike ids)

-- A kernel with other observers takes the same step: `step` panics on neither kernel or on both,
-- and if it returns, the kernels that it returns differ in nothing but their observers (also the
-- log is the same), and the reports in nothing but the number of evictions.
pub step-observers :
    (h : StateHashing) (c : Crypto) (k : Kernel) (o : ObserverRegistry) (now : Tick)
    (caps : CapabilityMask)
    → Both Alike (step h c k now caps) (step h c (record k { observers = o }) now caps)
unfolding step forget
step-observers h c k o now caps =
    step_instances-Alike h c now caps (is_some k.wal) (BTreeMap.keys k.instances) _ _ refl
