-- ===== src/Runtime/Apply.antt =====
-- runtime/apply.rs: the committed stage is applied to the instance, bucket by bucket, and the
-- outbound signals are handed back. The buckets that are applied are drained.
use arkhe_kernel.Prelude.{List, [], ◌∷◌, sat_add64, Checked, done, ◌>>=◌, is_some, if◌then◌else◌}
use arkhe_kernel.State.Instance
use arkhe_kernel.State.Instance.{Instance, IdCounters, entity_meta}
use arkhe_kernel.State.Ledger
use arkhe_kernel.State.Ledger.{ResourceLedger}
use arkhe_kernel.State.Scheduler
use arkhe_kernel.State.Scheduler.{Scheduler}
use arkhe_kernel.Runtime.Stage.{
  StepStage, StagedStateDelta, LedgerOp, ScheduledEntryDelta, PendingSignal, IdCountersDelta,
}

-- 1. the counters
unfoldable pub advance_counters : IdCounters → IdCountersDelta → IdCounters
advance_counters c d = record {
  next_entity = sat_add64 c.next_entity d.next_entity_advance;
  next_scheduled = sat_add64 c.next_scheduled d.next_scheduled_advance;
  next_source_seq = sat_add64 c.next_source_seq d.next_source_seq_advance;
}

-- 2. one entity or component mutation; a component of an unknown entity is not stored
unfoldable pub apply_state_op : Instance → StagedStateDelta → Instance
apply_state_op i (StagedStateDelta.spawn_entity id meta) = Instance.insert_entity i id meta
apply_state_op i (StagedStateDelta.despawn_entity id) = Instance.remove_entity i id
apply_state_op i (StagedStateDelta.set_component entity tc bytes size) =
    if is_some (entity_meta i entity) then Instance.insert_component i (entity, tc) bytes else i
apply_state_op i (StagedStateDelta.remove_component entity tc size) =
    Instance.remove_component i (entity, tc)

unfoldable pub apply_state_ops : List StagedStateDelta → Instance → Instance
unfolding apply_state_op
apply_state_ops [] i = i
apply_state_ops (op ∷ ops) i = apply_state_ops ops (apply_state_op i op)

-- 3. one ledger op
unfoldable pub apply_ledger_op : ResourceLedger → LedgerOp → ResourceLedger
apply_ledger_op l (LedgerOp.add_entity id) = (Ledger.add_entity l id).1
apply_ledger_op l (LedgerOp.remove_entity id) = (Ledger.remove_entity l id).1
apply_ledger_op l (LedgerOp.add_component entity tc size) =
    (Ledger.add_component l entity tc size).1
apply_ledger_op l (LedgerOp.remove_component entity tc size) =
    (Ledger.remove_component l entity tc size).1

unfoldable pub apply_ledger_ops : List LedgerOp → ResourceLedger → ResourceLedger
unfolding apply_ledger_op
apply_ledger_ops [] l = l
apply_ledger_ops (op ∷ ops) l = apply_ledger_ops ops (apply_ledger_op l op)

-- 4. one scheduler delta
unfoldable pub apply_schedule_delta : Scheduler → ScheduledEntryDelta → Checked Scheduler
apply_schedule_delta s (ScheduledEntryDelta.add entry) = done (Scheduler.schedule_with_id s entry)
apply_schedule_delta s (ScheduledEntryDelta.remove id) = Scheduler.cancel s id >>= λ r. done r.1

unfoldable pub apply_schedule_deltas : List ScheduledEntryDelta → Scheduler → Checked Scheduler
unfolding apply_schedule_delta
apply_schedule_deltas [] s = done s
apply_schedule_deltas (d ∷ ds) s = apply_schedule_delta s d >>= λ t. apply_schedule_deltas ds t

unfoldable pub apply_stage :
    Instance → StepStage → Checked (List PendingSignal × Instance × StepStage)
unfolding advance_counters apply_state_ops apply_ledger_ops apply_schedule_deltas
apply_stage instance0 stage =
    let counted = record instance0 {
      id_counters = advance_counters instance0.id_counters stage.id_counters;
    } in
    let stated = apply_state_ops stage.state_ops counted in
    let accounted = record stated { ledger = apply_ledger_ops stage.ledger_delta stated.ledger } in
    apply_schedule_deltas stage.schedule_deltas accounted.scheduler >>= λ scheduler.
    let ticked =
      Instance.advance_local_tick
        (Instance.advance_wall_remainder (record accounted { scheduler = scheduler })
          stage.wall_remainder_delta)
        stage.local_tick_delta in
    done (
      stage.pending_signals,
      ticked,
      record stage {
        state_ops = [];
        ledger_delta = [];
        schedule_deltas = [];
        pending_signals = [];
      },
    )
