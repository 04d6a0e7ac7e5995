-- ===== src/Runtime/Step/Quotas.antt =====
-- The quotas of an instance (state/config.rs) over one action: what the gates of runtime/kernel.rs
-- let through is what runtime/apply.rs adds to the instance.
use arkhe_kernel.Prelude.{
  ℕ, Bool, ◌≡◌, ◌≤◌, ◌<◌, ◌+◌, refl, sym, subst, ◌∙◌, Bool-cases, Option, Option-cases,
  Result-cases, none, some, List, [], ◌∷◌, done, ◌>>=◌, inl, inr, arith, is_some, u32_max, Allows,
  Allows->>=, Allows-refl, Allows-value, zero, suc, Returns-Allows,
}
use arkhe_kernel.Order.{nat_ord}
use arkhe_kernel.BTreeMap.Size.{length-insert_le, length-remove_le}
use arkhe_kernel.Abi.{InstanceId, Tick}
use arkhe_kernel.Abi.Caps.{CapabilityMask}
use arkhe_kernel.State.Instance
use arkhe_kernel.State.Instance.{Instance, entities_len, entity_meta}
use arkhe_kernel.State.Scheduler
use arkhe_kernel.State.Scheduler.{Scheduler, ScheduledEntry}
use arkhe_kernel.State.Scheduler.Depth.{len-schedule_with_id, len-cancel, len-pop_due}
use arkhe_kernel.Runtime.Registry
use arkhe_kernel.Runtime.Registry.{ActionRegistry, ActionDyn}
use arkhe_kernel.Runtime.Stage
use arkhe_kernel.Runtime.Stage.{StepStage, StagedStateDelta, ScheduledEntryDelta}
use arkhe_kernel.Runtime.Apply.{
  advance_counters, apply_state_op, apply_state_ops, apply_schedule_delta, apply_schedule_deltas,
  apply_stage,
}
use arkhe_kernel.Runtime.Gate.{GateState}
use arkhe_kernel.Runtime.Gate.Tallies.{is_spawn, spawns, adds}
use arkhe_kernel.Runtime.Gate.Quotas.{Within, gate_ops-Within}
use arkhe_kernel.Runtime.Step.{
  StateHashing, commit, conclude, execute, gate_context, computed_ops, run_entry, run_popped,
  step_one_core,
}
use arkhe_kernel.Runtime.Step.Safety.{apply_state_ops-scheduler}

-- The quotas are `u32`, and the entities and the scheduled actions are within them; a quota of 0 is
-- no quota.
pub record InQuotas (i : Instance) : Type 0 where
  pub narrow_entities : i.config.max_entities ≤ u32_max
  pub narrow_scheduled : i.config.max_scheduled ≤ u32_max
  pub entities : 0 < i.config.max_entities → entities_len i ≤ i.config.max_entities
  pub scheduled : 0 < i.config.max_scheduled → Scheduler.len i.scheduler ≤ i.config.max_scheduled

-- what a list of state ops does to an instance: the configuration stays, and there are at most
-- `more` entities more
abbrev Grows : Instance → Instance → ℕ → Type 0
Grows i j more = (j.config ≡ i.config) × (entities_len j ≤ entities_len i + more)

apply_state_op-Grows :
    (i : Instance) (d : StagedStateDelta) → Grows i (apply_state_op i d) (is_spawn d)
unfolding apply_state_op entities_len Instance.insert_entity Instance.remove_entity
    Instance.insert_component Instance.remove_component
apply_state_op-Grows i (StagedStateDelta.spawn_entity id meta) =
    (refl, omega (arith, length-insert_le id meta i.entities))
apply_state_op-Grows i (StagedStateDelta.despawn_entity id) =
    (refl, omega (arith, length-remove_le id i.entities))
apply_state_op-Grows i (StagedStateDelta.set_component entity tc bytes size) =
    elim (Bool-cases (is_some (entity_meta i entity))) [
      | inl known ↦ rw known (refl, omega arith)
      | inr unknown ↦ rw unknown (refl, omega arith)
    ]
apply_state_op-Grows i (StagedStateDelta.remove_component entity tc size) = (refl, omega arith)

apply_state_ops-Grows :
    (ds : List StagedStateDelta) (i : Instance) → Grows i (apply_state_ops ds i) (spawns ds)
unfolding apply_state_ops
apply_state_ops-Grows [] i = (refl, omega arith)
apply_state_ops-Grows (d ∷ ds) i =
    let one = apply_state_op-Grows i d in
    let rest = apply_state_ops-Grows ds (apply_state_op i d) in
    (rest.0 ∙ one.0, omega (arith, one.1, rest.1))

apply_schedule_deltas-len :
    (limit : ℕ) (ds : List ScheduledEntryDelta) (s : Scheduler)
    → Scheduler.len s + adds ds ≤ limit
    → Allows (λ t. Scheduler.len t ≤ limit) (apply_schedule_deltas ds s)
unfolding apply_schedule_deltas apply_schedule_delta
apply_schedule_deltas-len limit [] s room = omega arith
apply_schedule_deltas-len limit (ScheduledEntryDelta.add e ∷ ds) s room =
    apply_schedule_deltas-len limit ds (Scheduler.schedule_with_id s e)
      (omega (arith, len-schedule_with_id s e))
apply_schedule_deltas-len limit (ScheduledEntryDelta.remove id ∷ ds) s room =
    Allows->>= (λ t. Scheduler.len t ≤ Scheduler.len s) (λ t. Scheduler.len t ≤ limit)
      (Scheduler.cancel s id >>= λ r. done r.1) (apply_schedule_deltas ds)
      (Allows->>= (λ r. Scheduler.len r.1 ≤ Scheduler.len s) _ (Scheduler.cancel s id)
        (λ r. done r.1) (len-cancel s id) (λ r k. k))
      (λ t k. apply_schedule_deltas-len limit ds t (omega arith))

-- the queue after a stage, under a quota or none
apply_schedule_deltas-quota :
    (quota : ℕ) (ds : List ScheduledEntryDelta) (s : Scheduler)
    → (0 < quota → Scheduler.len s + adds ds ≤ quota)
    → Allows (λ t. 0 < quota → Scheduler.len t ≤ quota) (apply_schedule_deltas ds s)
apply_schedule_deltas-quota zero ds s room =
    Allows-refl _ (apply_schedule_deltas ds s) (λ t e h. omega arith)
apply_schedule_deltas-quota (suc n) ds s room = Allows-refl _ (apply_schedule_deltas ds s) (λ t e h.
    Allows-value (λ t. Scheduler.len t ≤ suc n) (apply_schedule_deltas ds s) t
      (apply_schedule_deltas-len (suc n) ds s (room (omega arith))) e)

InQuotas-config :
    (i j : Instance)
    → InQuotas i
    → j.config ≡ i.config
    → (0 < i.config.max_entities → entities_len j ≤ i.config.max_entities)
    → (0 < i.config.max_scheduled → Scheduler.len j.scheduler ≤ i.config.max_scheduled)
    → InQuotas j
InQuotas-config i j q same fe fs = record {
  narrow_entities = subst (λ c. c.max_entities ≤ u32_max) (sym same) q.narrow_entities;
  narrow_scheduled = subst (λ c. c.max_scheduled ≤ u32_max) (sym same) q.narrow_scheduled;
  entities = subst (λ c. 0 < c.max_entities → entities_len j ≤ c.max_entities) (sym same) fe;
  scheduled =
      subst (λ c. 0 < c.max_scheduled → Scheduler.len j.scheduler ≤ c.max_scheduled) (sym same) fs;
}

apply_stage-InQuotas :
    (i : Instance) (stage : StepStage)
    → InQuotas i
    → Within i stage
    → Allows (λ r. InQuotas r.1) (apply_stage i stage)
unfolding apply_stage Instance.advance_local_tick Instance.advance_wall_remainder entities_len
apply_stage-InQuotas i stage q w =
    Allows->>= (λ t. 0 < i.config.max_scheduled → Scheduler.len t ≤ i.config.max_scheduled)
      (λ r. InQuotas r.1) _ _
      (subst
        (λ s.
          Allows (λ t. 0 < i.config.max_scheduled → Scheduler.len t ≤ i.config.max_scheduled)
            (apply_schedule_deltas stage.schedule_deltas s))
        (sym (apply_state_ops-scheduler stage.state_ops _))
        (apply_schedule_deltas-quota i.config.max_scheduled stage.schedule_deltas i.scheduler
          w.scheduled))
      (λ t room.
        let counted : Instance = record i {
          id_counters = advance_counters i.id_counters stage.id_counters;
        } in
        let grown = apply_state_ops-Grows stage.state_ops counted in
        InQuotas-config i _ q grown.0 (λ h. omega (arith, grown.1, w.entities h)) room)

-- nothing is staged yet
clear-Within : (i : Instance) (s : StepStage) → InQuotas i → Within i (Stage.clear s)
unfolding Stage.clear
clear-Within i s q = record {
  entities_counted = λ h. refl;
  entities = λ h. omega (arith, q.entities h);
  scheduled_counted = λ h. refl;
  scheduled = λ h. omega (arith, q.scheduled h);
}

module _ (h : StateHashing) (m : Bool) where
  conclude-InQuotas :
      (entry : ScheduledEntry) (i : Instance) (g : GateState)
      → InQuotas i
      → Within i g.stage
      → Allows (λ r. InQuotas r.1) (conclude h m entry i g)
  unfolding conclude commit
  conclude-InQuotas entry i g q w = elim (Bool-cases g.any_denied) [
    | inl bad ↦ rw bad q
    | inr good ↦ rw good (
        Allows->>= (λ r. InQuotas r.1) (λ r. InQuotas r.1) (apply_stage i g.stage) _
          (apply_stage-InQuotas i g.stage q w) (λ r k. k))
  ]

  module _ (id : InstanceId) (now : Tick) (caps : CapabilityMask) where
    execute-InQuotas :
        (i : Instance) (scratch : StepStage) (entry : ScheduledEntry) (compute : ActionDyn)
        → InQuotas i
        → Allows (λ r. InQuotas r.1) (execute h m id i scratch now caps entry compute)
    unfolding execute Stage.clear gate_context
    execute-InQuotas i scratch entry compute q =
        let c = gate_context id i now caps entry in
        Allows->>= (λ g. Within i g.stage) (λ r. InQuotas r.1) _ _
          (Returns-Allows (λ g. Within i g.stage) _
            (gate_ops-Within c (omega (arith, q.narrow_entities))
              (omega (arith, q.narrow_scheduled)) (computed_ops id i now entry compute) _
              (clear-Within i scratch q)))
          (λ g w. conclude-InQuotas entry i g q w)

    run_entry-InQuotas :
        (i : Instance) (registry : ActionRegistry) (scratch : StepStage) (entry : ScheduledEntry)
        → InQuotas i
        → Allows (λ r. InQuotas r.1) (run_entry h m id i registry scratch now caps entry)
    unfolding run_entry
    run_entry-InQuotas i registry scratch entry q =
        elim (Option-cases (Registry.get registry entry.action_type_code)) [
          | inl unknown ↦ rw (unknown, run_entry) q
          | inr (reg, known) ↦
              elim (Result-cases (reg.deserializer reg.schema_version entry.action_bytes)) [
                | inl (compute, decoded) ↦
                    rw (known, run_entry, decoded) (execute-InQuotas i scratch entry compute q)
                | inr (e, failed) ↦ rw (known, run_entry, failed) q
              ]
        ]

    run_popped-InQuotas :
        (i : Instance) (registry : ActionRegistry) (scratch : StepStage)
        (popped : Option ScheduledEntry) (queue : Scheduler)
        → InQuotas (record i { scheduler = queue })
        → Allows (λ r. InQuotas r.1) (run_popped h m id i registry scratch now caps (popped, queue))
    unfolding run_popped
    run_popped-InQuotas i registry scratch none queue q = q
    run_popped-InQuotas i registry scratch (some entry) queue q =
        Allows->>= (λ r. InQuotas r.1) (λ r. InQuotas r.1)
          (run_entry h m id (record i { scheduler = queue }) registry scratch now caps entry) _
          (run_entry-InQuotas (record i { scheduler = queue }) registry scratch entry q) (λ r k. k)

    pub step_one_core-InQuotas :
        (i : Instance) (registry : ActionRegistry) (scratch : StepStage)
        → InQuotas i
        → Allows (λ r. InQuotas r.1) (step_one_core h m id i registry scratch now caps)
    unfolding step_one_core entities_len
    step_one_core-InQuotas i registry scratch q =
        Allows->>= (λ r. Scheduler.len r.1 ≤ Scheduler.len i.scheduler) (λ r. InQuotas r.1)
          (Scheduler.pop_due i.scheduler now) _ (len-pop_due i.scheduler now)
          (λ r shorter. run_popped-InQuotas i registry scratch r.0 r.1 (
            InQuotas-config i (record i { scheduler = r.1 }) q refl q.entities
              (λ limited. omega (arith, shorter, q.scheduled limited))))
