-- ===== src/Runtime/Step/Safety.antt =====
-- The `expect`s below `step_one_core` (runtime/kernel.rs) on linked tables of the scheduler.
use arkhe_kernel.Prelude.{
  ◌≡◌, ◌≤◌, u64_max, arith, refl, sym, subst, Bool, Option, Option-cases, none, some, List, [], ◌∷◌,
  done, ◌>>=◌, Returns, Returns->>=, Bool-cases, Result-cases, inl, inr, is_some,
}
use arkhe_kernel.Order.{nat_ord}
use arkhe_kernel.BTreeMap.{BTreeMap}
use arkhe_kernel.BTreeMap.Lookup.{Everywhere}
use arkhe_kernel.Abi.{InstanceId, Tick}
use arkhe_kernel.Abi.Caps.{CapabilityMask}
use arkhe_kernel.State.Instance
use arkhe_kernel.State.Instance.{Instance, entity_meta}
use arkhe_kernel.State.Scheduler
use arkhe_kernel.State.Scheduler.{Scheduler, ScheduledEntry}
use arkhe_kernel.State.Scheduler.Linked.{
  IsLinked, schedule_with_id-IsLinked, cancel-IsLinked, pop_due-IsLinked,
}
use arkhe_kernel.Runtime.Registry
use arkhe_kernel.Runtime.Registry.{ActionRegistry, ActionDyn}
use arkhe_kernel.Runtime.Stage.{StepStage, StagedStateDelta, ScheduledEntryDelta}
use arkhe_kernel.Runtime.Apply.{
  advance_counters, apply_state_op, apply_state_ops, apply_schedule_delta, apply_schedule_deltas,
  apply_stage,
}
use arkhe_kernel.Runtime.Gate.{GateState}
use arkhe_kernel.Runtime.Gate.Loop.{gate_ops-Gated}
use arkhe_kernel.Runtime.Step.{
  StateHashing, commit, conclude, execute, run_entry, run_popped, step_one_core,
}

apply_state_op-scheduler :
    (d : StagedStateDelta) (i : Instance) → (apply_state_op i d).scheduler ≡ i.scheduler
unfolding apply_state_op Instance.insert_entity Instance.remove_entity Instance.insert_component
    Instance.remove_component
apply_state_op-scheduler (StagedStateDelta.spawn_entity id meta) i = refl
apply_state_op-scheduler (StagedStateDelta.despawn_entity id) i = refl
apply_state_op-scheduler (StagedStateDelta.set_component entity tc bytes size) i =
    elim (Bool-cases (is_some (entity_meta i entity))) [ inl e ↦ rw e refl | inr e ↦ rw e refl ]
apply_state_op-scheduler (StagedStateDelta.remove_component entity tc size) i = refl

pub apply_state_ops-scheduler :
    (ds : List StagedStateDelta) (i : Instance) → (apply_state_ops ds i).scheduler ≡ i.scheduler
unfolding apply_state_ops
apply_state_ops-scheduler [] i = refl
apply_state_ops-scheduler (d ∷ ds) i =
    cc (apply_state_ops-scheduler ds (apply_state_op i d), apply_state_op-scheduler d i)

apply_state_op-id_counters :
    (d : StagedStateDelta) (i : Instance) → (apply_state_op i d).id_counters ≡ i.id_counters
unfolding apply_state_op Instance.insert_entity Instance.remove_entity Instance.insert_component
    Instance.remove_component
apply_state_op-id_counters (StagedStateDelta.spawn_entity id meta) i = refl
apply_state_op-id_counters (StagedStateDelta.despawn_entity id) i = refl
apply_state_op-id_counters (StagedStateDelta.set_component entity tc bytes size) i =
    elim (Bool-cases (is_some (entity_meta i entity))) [ inl e ↦ rw e refl | inr e ↦ rw e refl ]
apply_state_op-id_counters (StagedStateDelta.remove_component entity tc size) i = refl

pub apply_state_ops-id_counters :
    (ds : List StagedStateDelta) (i : Instance) → (apply_state_ops ds i).id_counters ≡ i.id_counters
unfolding apply_state_ops
apply_state_ops-id_counters [] i = refl
apply_state_ops-id_counters (d ∷ ds) i =
    cc (apply_state_ops-id_counters ds (apply_state_op i d), apply_state_op-id_counters d i)

apply_schedule_deltas-IsLinked :
    (ds : List ScheduledEntryDelta) (s : Scheduler)
    → IsLinked s
    → Returns IsLinked (apply_schedule_deltas ds s)
unfolding apply_schedule_deltas apply_schedule_delta
apply_schedule_deltas-IsLinked [] s l = l
apply_schedule_deltas-IsLinked (ScheduledEntryDelta.add e ∷ ds) s l =
    apply_schedule_deltas-IsLinked ds (Scheduler.schedule_with_id s e)
      (schedule_with_id-IsLinked s e l)
apply_schedule_deltas-IsLinked (ScheduledEntryDelta.remove id ∷ ds) s l =
    Returns->>= IsLinked IsLinked (Scheduler.cancel s id >>= λ r. done r.1)
      (apply_schedule_deltas ds)
      (Returns->>= (λ r. IsLinked r.1) IsLinked (Scheduler.cancel s id) (λ r. done r.1)
        (cancel-IsLinked s id l) (λ r h. h))
      (apply_schedule_deltas-IsLinked ds)

-- The tables of the instance's scheduler are linked, and its action counter is a `u64`.
abbrev pub IsSafe : Instance → Type 0
IsSafe i = IsLinked i.scheduler × (i.id_counters.next_scheduled ≤ u64_max)

-- every instance is safe
abbrev pub AllSafe : BTreeMap InstanceId Instance → Type 0
AllSafe m = Everywhere IsSafe m

pub apply_stage-IsSafe :
    (i : Instance) (stage : StepStage) → IsSafe i → Returns (λ r. IsSafe r.1) (apply_stage i stage)
unfolding apply_stage advance_counters Instance.advance_local_tick Instance.advance_wall_remainder
apply_stage-IsSafe i stage l =
    Returns->>= IsLinked _ _ _
      (apply_schedule_deltas-IsLinked stage.schedule_deltas _
        (subst IsLinked (sym (apply_state_ops-scheduler stage.state_ops _)) l.0))
      (λ s h. (
        h,
        subst (λ c. c.next_scheduled ≤ u64_max)
            (sym (apply_state_ops-id_counters stage.state_ops _)) (omega arith),
      ))

commit-IsSafe :
    (h : StateHashing) (m : Bool) (entry : ScheduledEntry) (i : Instance) (g : GateState)
    → IsSafe i
    → Returns (λ r. IsSafe r.1) (commit h m entry i g)
unfolding commit
commit-IsSafe h m entry i g l =
    Returns->>= (λ r. IsSafe r.1) _ _ _ (apply_stage-IsSafe i g.stage l) (λ r k. k)

conclude-IsSafe :
    (h : StateHashing) (m : Bool) (entry : ScheduledEntry) (i : Instance) (g : GateState)
    → IsSafe i
    → Returns (λ r. IsSafe r.1) (conclude h m entry i g)
unfolding conclude
conclude-IsSafe h m entry i g l = elim (Bool-cases g.any_denied) [
  | inl e ↦ rw e l
  | inr e ↦ rw e (commit-IsSafe h m entry i _ l)
]

execute-IsSafe :
    (h : StateHashing) (m : Bool) (id : InstanceId) (i : Instance) (scratch : StepStage)
    (now : Tick) (caps : CapabilityMask) (entry : ScheduledEntry) (compute : ActionDyn)
    → IsSafe i
    → Returns (λ r. IsSafe r.1) (execute h m id i scratch now caps entry compute)
unfolding execute
execute-IsSafe h m id i scratch now caps entry compute l =
    Returns->>= _ (λ r. IsSafe r.1) _ _ (gate_ops-Gated _ _ _)
      (λ g k. conclude-IsSafe h m entry i g l)

run_entry-IsSafe :
    (h : StateHashing) (m : Bool) (id : InstanceId) (i : Instance) (registry : ActionRegistry)
    (scratch : StepStage) (now : Tick) (caps : CapabilityMask) (entry : ScheduledEntry)
    → IsSafe i
    → Returns (λ r. IsSafe r.1) (run_entry h m id i registry scratch now caps entry)
unfolding run_entry
run_entry-IsSafe h m id i registry scratch now caps entry l =
    elim (Option-cases (Registry.get registry entry.action_type_code)) [
      | inl unknown ↦ rw (unknown, run_entry) l
      | inr (reg, known) ↦
          elim (Result-cases (reg.deserializer reg.schema_version entry.action_bytes)) [
            | inl (compute, decoded) ↦
                rw (known, run_entry, decoded)
                  (execute-IsSafe h m id i scratch now caps entry compute l)
            | inr (e, failed) ↦ rw (known, run_entry, failed) l
          ]
    ]

run_popped-IsSafe :
    (h : StateHashing) (m : Bool) (id : InstanceId) (i : Instance) (registry : ActionRegistry)
    (scratch : StepStage) (now : Tick) (caps : CapabilityMask) (popped : Option ScheduledEntry)
    (queue : Scheduler)
    → IsLinked queue × (i.id_counters.next_scheduled ≤ u64_max)
    → Returns (λ r. IsSafe r.1) (run_popped h m id i registry scratch now caps (popped, queue))
unfolding run_popped
run_popped-IsSafe h m id i registry scratch now caps none queue l = l
run_popped-IsSafe h m id i registry scratch now caps (some entry) queue l =
    Returns->>= (λ r. IsSafe r.1) (λ r. IsSafe r.1) _ _
      (run_entry-IsSafe h m id (record i { scheduler = queue }) registry scratch now caps entry l)
      (λ r k. k)

-- On a safe instance `step_one_core` does not panic, and the instance is safe afterwards.
pub step_one_core-IsSafe :
    (h : StateHashing) (m : Bool) (id : InstanceId) (i : Instance) (registry : ActionRegistry)
    (scratch : StepStage) (now : Tick) (caps : CapabilityMask)
    → IsSafe i
    → Returns (λ r. IsSafe r.1) (step_one_core h m id i registry scratch now caps)
unfolding step_one_core
step_one_core-IsSafe h m id i registry scratch now caps l =
    Returns->>= (λ r. IsLinked r.1) (λ r. IsSafe r.1) _ _ (pop_due-IsLinked i.scheduler now l.0)
      (λ popped k. run_popped-IsSafe h m id i registry scratch now caps popped.0 popped.1 (k, l.1))
