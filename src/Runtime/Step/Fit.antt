-- ===== src/Runtime/Step/Fit.antt =====
-- The tables of an instance's scheduler and its action counter during `step_one_core`
-- (runtime/kernel.rs), as long as the 64-bit counters have not reached their limit.
use arkhe_kernel.Prelude.{
  ℕ, ◌≡◌, ◌≤◌, ◌<◌, u64_max, arith, sym, ap, ◌∙◌, subst, Bool, false, Bool-cases, Option,
  Option-cases, none, some, List, [], ◌∷◌, done, inl, inr, Returns-value, Allows, Allows->>=,
  Allows-refl, Allows-any, Allows-value, Returns-Allows, Result-cases, ltb,
}
use arkhe_kernel.Order.{nat_ord}
use arkhe_kernel.Abi.{InstanceId, Tick}
use arkhe_kernel.Abi.Caps.{CapabilityMask}
use arkhe_kernel.State.Instance
use arkhe_kernel.State.Instance.{Instance}
use arkhe_kernel.State.Scheduler
use arkhe_kernel.State.Scheduler.{Scheduler, ScheduledEntry}
use arkhe_kernel.State.Scheduler.Key.{sched_key_ord}
use arkhe_kernel.State.Scheduler.Consistent.{IsValid}
use arkhe_kernel.State.Scheduler.Consistent.Upkeep.{
  schedule_with_id-IsValid, pop_due-IsValid, pop_due-counters,
}
use arkhe_kernel.State.Scheduler.Consistent.Used.{fresh_above}
use arkhe_kernel.Runtime.Registry
use arkhe_kernel.Runtime.Registry.{ActionRegistry, ActionDyn}
use arkhe_kernel.Runtime.Stage
use arkhe_kernel.Runtime.Stage.{StepStage, ScheduledEntryDelta}
use arkhe_kernel.Runtime.Apply.{
  advance_counters, apply_state_ops, apply_schedule_delta, apply_schedule_deltas, apply_stage,
}
use arkhe_kernel.Runtime.Gate.{GateState, gate_ops}
use arkhe_kernel.Runtime.Gate.Ids.{Ascending, Numbered, InOrder, gate_ops-InOrder}
use arkhe_kernel.Runtime.Step.{
  StateHashing, gate_context, computed_ops, commit, conclude, execute, run_entry, run_popped,
  step_one_core,
}
use arkhe_kernel.Runtime.Step.Safety.{apply_state_ops-scheduler, apply_state_ops-id_counters}

-- below its limit, the sequence counter vouches for the tables, whose ids are at most `n`
abbrev pub FitsUp : Scheduler → ℕ → Type 0
FitsUp s n = s.next_seq < u64_max → IsValid s × (s.next_id ≤ n)

-- the same of an instance, below the limit of its action counter
abbrev pub IsFit : Instance → Type 0
IsFit i = i.id_counters.next_scheduled < u64_max → FitsUp i.scheduler i.id_counters.next_scheduled

-- an action under an id above all that were given
pub schedule_with_id-FitsUp :
    (s : Scheduler) (entry : ScheduledEntry) (n : ℕ)
    → FitsUp s n
    → n < entry.id
    → FitsUp (Scheduler.schedule_with_id s entry) entry.id
unfolding Scheduler.schedule_with_id
schedule_with_id-FitsUp s entry n f above room =
    let before : s.next_seq < u64_max = omega arith in
    let (valid, small) = f before in
    (
      schedule_with_id-IsValid s entry valid (fresh_above s entry.id valid (omega arith)) before,
      ground arith,
    )

apply_schedule_deltas-FitsUp :
    (ds : List ScheduledEntryDelta) (s : Scheduler) (lo hi : ℕ)
    → Ascending lo ds hi
    → FitsUp s lo
    → Allows (λ t. FitsUp t hi) (apply_schedule_deltas ds s)
unfolding apply_schedule_deltas apply_schedule_delta Ascending
apply_schedule_deltas-FitsUp [] s lo hi a f = λ room. ((f room).0, omega (arith, (f room).1))
apply_schedule_deltas-FitsUp (ScheduledEntryDelta.add e ∷ ds) s lo hi a f =
    apply_schedule_deltas-FitsUp ds (Scheduler.schedule_with_id s e) e.id hi a.1
      (schedule_with_id-FitsUp s e lo f a.0)
apply_schedule_deltas-FitsUp (ScheduledEntryDelta.remove id ∷ ds) s lo hi a f = absurd a

pop_due-FitsUp :
    (s : Scheduler) (now : Tick) (n : ℕ) (r : Option ScheduledEntry × Scheduler)
    → Scheduler.pop_due s now ≡ done r
    → FitsUp s n
    → FitsUp r.1 n
pop_due-FitsUp s now n r e f room =
    let (seq, ids) = Allows-value _ (Scheduler.pop_due s now) r (pop_due-counters s now) e in
    let (valid, small) = f (omega (arith, seq)) in
    (
      Returns-value (λ p. IsValid p.1) (Scheduler.pop_due s now) r (pop_due-IsValid s now valid) e,
      omega (arith, ids),
    )

apply_stage-IsFit :
    (i : Instance) (stage : StepStage) (next : ℕ)
    → Numbered i.id_counters.next_scheduled stage next
    → IsFit i
    → Allows (λ r. IsFit r.1) (apply_stage i stage)
unfolding apply_stage advance_counters Instance.advance_local_tick Instance.advance_wall_remainder
apply_stage-IsFit i stage next n f =
    let counted : Instance = record i {
      id_counters = advance_counters i.id_counters stage.id_counters;
    } in
    let counter : (apply_state_ops stage.state_ops counted).id_counters.next_scheduled ≡ next =
      ap (λ x. x.next_scheduled) (apply_state_ops-id_counters stage.state_ops counted)
      ∙ sym n.counter in
    elim (Bool-cases (ltb next u64_max)) [
      | inr full ↦
          Allows-any (λ r. IsFit r.1)
            (apply_schedule_deltas stage.schedule_deltas
              (apply_state_ops stage.state_ops counted).scheduler)
            _ (λ t limit. absurd (ground (arith, counter)))
      | inl below ↦
          let room : next < u64_max = ground arith in
          let before : i.id_counters.next_scheduled < u64_max = omega (arith, n.counter) in
          Allows->>= (λ t. FitsUp t next) (λ r. IsFit r.1)
            (apply_schedule_deltas stage.schedule_deltas
              (apply_state_ops stage.state_ops counted).scheduler)
            _
            (apply_schedule_deltas-FitsUp stage.schedule_deltas
              (apply_state_ops stage.state_ops counted).scheduler i.id_counters.next_scheduled next
              (n.ids room)
              (subst (λ x. FitsUp x i.id_counters.next_scheduled)
                (sym (apply_state_ops-scheduler stage.state_ops counted)) (f before)))
            (λ t g limit. subst (FitsUp t) (sym counter) g)
    ]

module _ (h : StateHashing) (m : Bool) (id : InstanceId) (now : Tick) (caps : CapabilityMask) where
  conclude-IsFit :
      (entry : ScheduledEntry) (i : Instance) (g : GateState)
      → Numbered i.id_counters.next_scheduled g.stage g.next_scheduled_id
      → IsFit i
      → Allows (λ r. IsFit r.1) (conclude h m entry i g)
  unfolding conclude commit
  conclude-IsFit entry i g n f = elim (Bool-cases g.any_denied) [
    | inl e ↦ rw e f
    | inr e ↦ rw e (
        Allows->>= (λ r. IsFit r.1) (λ r. IsFit r.1) (apply_stage i g.stage) _
          (apply_stage-IsFit i g.stage g.next_scheduled_id n f) (λ r k. k))
  ]

  execute-IsFit :
      (i : Instance) (scratch : StepStage) (entry : ScheduledEntry) (compute : ActionDyn)
      → i.id_counters.next_scheduled ≤ u64_max
      → IsFit i
      → Allows (λ r. IsFit r.1) (execute h m id i scratch now caps entry compute)
  unfolding execute Stage.clear Ascending
  execute-IsFit i scratch entry compute small f =
      let n = i.id_counters.next_scheduled in
      let fresh : GateState = record {
        stage = Stage.clear scratch;
        next_scheduled_id = n;
        any_denied = false;
        applied = 0;
        denied = 0;
      } in
      Allows->>= (InOrder n (gate_context id i now caps entry)) (λ r. IsFit r.1)
        (gate_ops (gate_context id i now caps entry) (computed_ops id i now entry compute) fresh) _
        (Returns-Allows (InOrder n (gate_context id i now caps entry)) _ (
          gate_ops-InOrder n (gate_context id i now caps entry)
            (computed_ops id i now entry compute) fresh
            (record { counter = omega arith; ids = λ below. omega arith })))
        (λ g n. conclude-IsFit entry i g n f)

  run_entry-IsFit :
      (i : Instance) (registry : ActionRegistry) (scratch : StepStage) (entry : ScheduledEntry)
      → i.id_counters.next_scheduled ≤ u64_max
      → IsFit i
      → Allows (λ r. IsFit r.1) (run_entry h m id i registry scratch now caps entry)
  unfolding run_entry
  run_entry-IsFit i registry scratch entry small f =
      elim (Option-cases (Registry.get registry entry.action_type_code)) [
        | inl unknown ↦ rw (unknown, run_entry) f
        | inr (reg, known) ↦
            elim (Result-cases (reg.deserializer reg.schema_version entry.action_bytes)) [
              | inl (compute, decoded) ↦
                  rw (known, run_entry, decoded) (execute-IsFit i scratch entry compute small f)
              | inr (e, failed) ↦ rw (known, run_entry, failed) f
            ]
      ]

  run_popped-IsFit :
      (i : Instance) (registry : ActionRegistry) (scratch : StepStage)
      (popped : Option ScheduledEntry) (queue : Scheduler)
      → i.id_counters.next_scheduled ≤ u64_max
      → IsFit (record i { scheduler = queue })
      → Allows (λ r. IsFit r.1) (run_popped h m id i registry scratch now caps (popped, queue))
  unfolding run_popped
  run_popped-IsFit i registry scratch none queue small f = f
  run_popped-IsFit i registry scratch (some entry) queue small f =
      Allows->>= (λ r. IsFit r.1) (λ r. IsFit r.1)
        (run_entry h m id (record i { scheduler = queue }) registry scratch now caps entry) _
        (run_entry-IsFit (record i { scheduler = queue }) registry scratch entry small f) (λ r k. k)

  pub step_one_core-IsFit :
      (i : Instance) (registry : ActionRegistry) (scratch : StepStage)
      → i.id_counters.next_scheduled ≤ u64_max
      → IsFit i
      → Allows (λ r. IsFit r.1) (step_one_core h m id i registry scratch now caps)
  unfolding step_one_core
  step_one_core-IsFit i registry scratch small f =
      Allows->>= (λ r. IsFit (record i { scheduler = r.1 })) (λ r. IsFit r.1)
        (Scheduler.pop_due i.scheduler now) _
        (Allows-refl _ (Scheduler.pop_due i.scheduler now)
          (λ r e limit. pop_due-FitsUp i.scheduler now i.id_counters.next_scheduled r e (f limit)))
        (λ r k. run_popped-IsFit i registry scratch r.0 r.1 small k)
