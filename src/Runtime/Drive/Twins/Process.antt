-- ===== src/Runtime/Drive/Twins/Process.antt =====
-- `process_instance_record` (runtime/kernel.rs) on two kernels with the same instances and actions,
-- and where nothing is due.
use arkhe_kernel.Prelude.{
  subst, ◌≡◌, refl, sym, ◌∙◌, Bool, Bool-cases, Option, Option-cases, none, some, Both, Both->>=,
  Both-same, Result-cases, ap, Both-refl, Allows, Allows->>=, Allows-any, inl, inr, ltb,
}
use arkhe_kernel.Order.{nat_ord}
use arkhe_kernel.BTreeMap
use arkhe_kernel.BTreeMap.{BTreeMap}
use arkhe_kernel.Abi.{InstanceId, Tick}
use arkhe_kernel.Abi.Caps.{CapabilityMask}
use arkhe_kernel.State.Instance.{Instance}
use arkhe_kernel.State.Scheduler
use arkhe_kernel.State.Scheduler.{Scheduler, ScheduledEntry}
use arkhe_kernel.Runtime.Registry
use arkhe_kernel.Runtime.Registry.{ActionRegistry}
use arkhe_kernel.Runtime.Stage
use arkhe_kernel.Runtime.Stage.{StepStage, PendingSignal}
use arkhe_kernel.Runtime.Step.{
  StateHashing, StepCore, run_entry, run_popped, execute, step_one_core,
}
use arkhe_kernel.Runtime.Kernel.{Kernel}
use arkhe_kernel.Runtime.Drive.{run_core, process_instance_record}
use arkhe_kernel.Runtime.Drive.Twins.{
  SameInstances, Twins, Twins-refl, insert-SameInstances, reinsert-SameInstances, SameResult,
  TwinOutcomes, run_core-Twins,
}

pop_due-idle :
    (s : Scheduler) (now : Tick) → Allows (λ p. p.0 ≡ none → p.1 ≡ s) (Scheduler.pop_due s now)
unfolding Scheduler.pop_due
pop_due-idle s now = elim (Option-cases (BTreeMap.first s.ready)) [
  | inl empty ↦ rw (empty, Scheduler.pop_due) (λ e. refl)
  | inr ((key, entry), least) ↦ elim (Bool-cases (ltb now key.at)) [
    | inl future ↦ rw (least, Scheduler.pop_due, future) (λ e. refl)
    | inr due ↦
        rw (least, Scheduler.pop_due, due)
          (Allows-any (λ (p : Option ScheduledEntry × Scheduler). p.0 ≡ none → p.1 ≡ s)
            (Scheduler.pop_key s key) _ (λ r e. absurd (cc)))
  ]
]

-- the same core and instance, whatever the scratch stages
abbrev SameCore {ℓ} : {A : Type ℓ} → A × Instance × StepStage → A × Instance × StepStage → Type ℓ
SameCore a b = (a.0 ≡ b.0) × (a.1 ≡ b.1)

module _ (h : StateHashing) (m : Bool) (id : InstanceId) (now : Tick) (caps : CapabilityMask) where
  run_entry-scratch :
      (i : Instance) (registry : ActionRegistry) (s t : StepStage) (entry : ScheduledEntry)
      → Both SameCore
          (run_entry h m id i registry s now caps entry)
          (run_entry h m id i registry t now caps entry)
  unfolding run_entry execute Stage.clear
  run_entry-scratch i registry s t entry =
      elim (Option-cases (Registry.get registry entry.action_type_code)) [
        | inl unknown ↦ rw (unknown, run_entry) (refl, refl)
        | inr (reg, known) ↦
            elim (Result-cases (reg.deserializer reg.schema_version entry.action_bytes)) [
              | inl (compute, decoded) ↦
                  rw (known, run_entry, decoded) (Both-refl SameCore _ (λ a. (refl, refl)))
              | inr (e, failed) ↦ rw (known, run_entry, failed) (refl, refl)
            ]
      ]

  run_popped-scratch :
      (i : Instance) (registry : ActionRegistry) (s t : StepStage)
      (popped : Option ScheduledEntry × Scheduler)
      → Both SameCore
          (run_popped h m id i registry s now caps popped)
          (run_popped h m id i registry t now caps popped)
  unfolding run_popped
  run_popped-scratch i registry s t (none, queue) = (refl, refl)
  run_popped-scratch i registry s t (some entry, queue) =
      Both->>= SameCore SameCore
        (run_entry h m id (record i { scheduler = queue }) registry s now caps entry)
        (run_entry h m id (record i { scheduler = queue }) registry t now caps entry) _ _
        (run_entry-scratch (record i { scheduler = queue }) registry s t entry)
        (λ a b e. (ap (λ x. some x) e.0, e.1))

  step_one_core-scratch :
      (i : Instance) (registry : ActionRegistry) (s t : StepStage)
      → Both SameCore
          (step_one_core h m id i registry s now caps)
          (step_one_core h m id i registry t now caps)
  unfolding step_one_core
  step_one_core-scratch i registry s t =
      Both-same SameCore (Scheduler.pop_due i.scheduler now) _ _ (run_popped-scratch i registry s t)

  -- Twins under the driver: what is executed is the same, and they are twins afterwards.
  pub process_instance_record-Twins :
      (k l : Kernel)
      → Twins k l
      → Both TwinOutcomes
          (process_instance_record h k id now caps m)
          (process_instance_record h l id now caps m)
  unfolding process_instance_record SameResult
  process_instance_record-Twins k l t = elim (Option-cases (BTreeMap.get id k.instances)) [
    | inl missing ↦ rw (missing, process_instance_record, sym (t.instances id) ∙ missing) (tt, t)
    | inr (i, found) ↦
        rw (found, process_instance_record, sym (t.instances id) ∙ found)
          (Both->>= SameCore TwinOutcomes
            (step_one_core h m id i k.action_registry k.step_scratch now caps)
            (step_one_core h m id i l.action_registry l.step_scratch now caps) _ _
            (subst
              (λ r.
                Both SameCore (step_one_core h m id i k.action_registry k.step_scratch now caps)
                  (step_one_core h m id i r l.step_scratch now caps))
              t.registry (step_one_core-scratch i k.action_registry k.step_scratch l.step_scratch))
            (λ a b e.
              subst
                (λ core.
                  TwinOutcomes
                    (run_core id now
                      (record k {
                        instances = BTreeMap.insert id a.1 k.instances;
                        step_scratch = a.2;
                      })
                      a.0)
                    (run_core id now
                      (record l {
                        instances = BTreeMap.insert id b.1 l.instances;
                        step_scratch = b.2;
                      })
                      core))
                e.0
                (run_core-Twins id now a.0 _ _ (record {
                  instances =
                      subst
                        (λ j.
                          SameInstances (BTreeMap.insert id a.1 k.instances)
                            (BTreeMap.insert id j l.instances))
                        e.1 (insert-SameInstances id a.1 k.instances l.instances t.instances);
                  registry = t.registry;
                }))))
  ]

  idle-Twins :
      (k : Kernel) (i : Instance) (s : StepStage)
      → BTreeMap.get id k.instances ≡ some i
      → Twins k
          (run_core id now
            (record k { instances = BTreeMap.insert id i k.instances; step_scratch = s })
            none).1
  unfolding run_core
  idle-Twins k i s held = record {
    instances = reinsert-SameInstances id i k.instances held;
    registry = refl;
  }

  -- the step of an instance with nothing due
  abbrev Idle : Instance → Option StepCore × Instance × StepStage → Type 0
  Idle i r = r.0 ≡ none → r.1 ≡ i

  run_popped-Idle :
      (i : Instance) (registry : ActionRegistry) (s : StepStage)
      (popped : Option ScheduledEntry × Scheduler)
      → (popped.0 ≡ none → popped.1 ≡ i.scheduler)
      → Allows (Idle i) (run_popped h m id i registry s now caps popped)
  unfolding run_popped
  run_popped-Idle i registry s (none, queue) same =
      λ e. ap (λ q. record i { scheduler = q }) (same refl)
  run_popped-Idle i registry s (some entry, queue) same =
      Allows-any (Idle i)
        (run_entry h m id (record i { scheduler = queue }) registry s now caps entry) _
        (λ r e. absurd (cc))

  step_one_core-Idle :
      (i : Instance) (registry : ActionRegistry) (s : StepStage)
      → Allows (Idle i) (step_one_core h m id i registry s now caps)
  unfolding step_one_core
  step_one_core-Idle i registry s =
      Allows->>= (λ (p : Option ScheduledEntry × Scheduler). p.0 ≡ none → p.1 ≡ i.scheduler)
        (Idle i) (Scheduler.pop_due i.scheduler now) _ (pop_due-idle i.scheduler now)
        (run_popped-Idle i registry s)

  run_core-none :
      (k : Kernel) (core : Option StepCore) → (run_core id now k core).0 ≡ none → core ≡ none
  unfolding run_core
  run_core-none k none e = refl
  run_core-none k (some core) e = absurd (cc)

  -- Where nothing is due, every instance is as it was.
  pub process_instance_record-idle :
      (k : Kernel)
      → Allows (λ p. p.0 ≡ none → Twins k p.1) (process_instance_record h k id now caps m)
  unfolding process_instance_record
  process_instance_record-idle k = elim (Option-cases (BTreeMap.get id k.instances)) [
    | inl missing ↦ rw (missing, process_instance_record) (λ e. Twins-refl k)
    | inr (i, found) ↦
        rw (found, process_instance_record)
          (Allows->>= (Idle i) (λ p. p.0 ≡ none → Twins k p.1)
            (step_one_core h m id i k.action_registry k.step_scratch now caps) _
            (step_one_core-Idle i k.action_registry k.step_scratch)
            (λ a idle e.
              let stepped : Kernel = record k {
                instances = BTreeMap.insert id a.1 k.instances;
                step_scratch = a.2;
              } in
              let nothing = run_core-none stepped a.0 e in
              subst (λ core. Twins k (run_core id now stepped core).1) (sym nothing)
                (idle-Twins k a.1 a.2
                  (subst (λ j. BTreeMap.get id k.instances ≡ some j) (sym (idle nothing)) found))))
  ]
