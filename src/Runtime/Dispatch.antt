-- ===== src/Runtime/Dispatch.antt =====
-- runtime/dispatch.rs: an authorised effect becomes writes to the stage. The counter
-- `next_scheduled_id` is passed in and comes back.
use arkhe_kernel.Prelude.{ℕ, [], ◌∷◌, ◌++◌, sat_add64, Checked, done, expect, ◌>>=◌}
use arkhe_kernel.Abi.{InstanceId, Principal, Tick, new_id}
use arkhe_kernel.Abi.Caps.{CapabilityMask}
use arkhe_kernel.State.Op.{Op}
use arkhe_kernel.State.Authz.{Effect, authorized}
use arkhe_kernel.Runtime.Event.{KernelEvent, domain_event_emitted}
use arkhe_kernel.Runtime.Stage.{StepStage, StagedStateDelta, LedgerOp, ScheduledEntryDelta}

-- the bucket pushes
abbrev pub push_state : StepStage → StagedStateDelta → LedgerOp → StepStage
push_state s delta lop = record s {
  state_ops = s.state_ops ++ delta ∷ [];
  ledger_delta = s.ledger_delta ++ lop ∷ [];
}

abbrev push_event : StepStage → KernelEvent → StepStage
push_event s e = record s { events = s.events ++ e ∷ [] }

-- the `match` on the op
unfoldable pub dispatch_op :
    Op → InstanceId → Principal → StepStage → Tick → ℕ → CapabilityMask → Checked (StepStage × ℕ)
dispatch_op (Op.spawn_entity id owner) inst p s now next parent_caps =
    let pushed =
      push_state s (StagedStateDelta.spawn_entity id (record { owner = owner; created = now }))
        (LedgerOp.add_entity id) in
    done (
      record pushed {
        id_counters = record s.id_counters {
          next_entity_advance = sat_add64 s.id_counters.next_entity_advance 1;
        };
      },
      next,
    )
dispatch_op (Op.despawn_entity id) inst p s now next parent_caps =
    done (push_state s (StagedStateDelta.despawn_entity id) (LedgerOp.remove_entity id), next)
dispatch_op (Op.set_component entity tc bytes size) inst p s now next parent_caps = done (
  push_state s (StagedStateDelta.set_component entity tc bytes size)
      (LedgerOp.add_component entity tc size),
  next,
)
dispatch_op (Op.remove_component entity tc size) inst p s now next parent_caps = done (
  push_state s (StagedStateDelta.remove_component entity tc size)
      (LedgerOp.remove_component entity tc size),
  next,
)
dispatch_op (Op.emit_event actor tc bytes) inst p s now next parent_caps =
    done (push_event s (domain_event_emitted inst actor tc bytes), next)
dispatch_op (Op.schedule_action at actor tc bytes) inst p s now next parent_caps =
    expect (new_id (sat_add64 next 1)) >>= λ id. done (
      record s {
        schedule_deltas =
            s.schedule_deltas
            ++ ScheduledEntryDelta.add (record {
              id = id;
              at = at;
              actor = actor;
              principal = p;
              action_type_code = tc;
              action_bytes = bytes;
              caps_ceiling = parent_caps;
            })
              ∷ [];
        id_counters = record s.id_counters {
          next_scheduled_advance = sat_add64 s.id_counters.next_scheduled_advance 1;
        };
      },
      sat_add64 next 1,
    )
dispatch_op (Op.send_signal target route payload) inst p s now next parent_caps = done (
  record s {
    pending_signals =
        s.pending_signals
        ++ record { target = target; route = route; payload = payload; principal = p } ∷ [];
  },
  next,
)

unfoldable pub dispatch :
    Effect authorized → StepStage → Tick → ℕ → CapabilityMask → Checked (StepStage × ℕ)
unfolding dispatch_op
dispatch e stage now next_scheduled_id parent_caps =
    dispatch_op e.op e.instance_id e.principal stage now next_scheduled_id parent_caps
