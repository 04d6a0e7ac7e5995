-- ===== src/Runtime/Gate/Quotas.antt =====
-- The two quotas of an instance (runtime/kernel.rs) during the loop over the ops.
use arkhe_kernel.Prelude.{
  ℕ, refl, sym, ◌∙◌, ◌++◌, tally-append, ◌≡◌, ◌≤◌, ◌<◌, ◌+◌, false, Bool-cases, List, [], ◌∷◌,
  Returns, Returns->>=, Result-cases, inl, inr, arith, sat_add64, u64_max, some,
}
use arkhe_kernel.Abi.{Bytes, InstanceId, Principal, Tick, new_id}
use arkhe_kernel.Abi.Caps.{CapabilityMask}
use arkhe_kernel.State.Op.{Op}
use arkhe_kernel.State.Authz.{Effect, authorized, authorize}
use arkhe_kernel.State.Instance.{Instance, entities_len}
use arkhe_kernel.State.Scheduler
use arkhe_kernel.State.Scheduler.{ScheduledEntry}
use arkhe_kernel.Runtime.Stage.{StepStage, StagedStateDelta, ScheduledEntryDelta, LedgerOp}
use arkhe_kernel.Runtime.Dispatch.{dispatch, dispatch_op, push_state}
use arkhe_kernel.Runtime.Gate.Tallies.{is_spawn, is_add, spawns, adds}
use arkhe_kernel.Runtime.Gate.{
  GateContext, GateState, dispatch_gated, gate_authorized, gate_op, gate_ops, over_budget,
  over_entities, over_scheduled, deny,
}

-- The entities and the scheduled actions are within the quotas, with those of the stage, counted over
-- its buckets; and the stage's own counters, which the gates read, are these numbers. A quota of 0 is
-- no quota.
pub record Within (i : Instance) (s : StepStage) : Type 0 where
  pub entities_counted :
      0 < i.config.max_entities → s.id_counters.next_entity_advance ≡ spawns s.state_ops
  pub entities :
      0 < i.config.max_entities → entities_len i + spawns s.state_ops ≤ i.config.max_entities
  pub scheduled_counted :
      0 < i.config.max_scheduled → s.id_counters.next_scheduled_advance ≡ adds s.schedule_deltas
  pub scheduled :
      0 < i.config.max_scheduled
      → Scheduler.len i.scheduler + adds s.schedule_deltas ≤ i.config.max_scheduled

adds-snoc :
    (ds : List ScheduledEntryDelta) (e : ScheduledEntry)
    → adds (ds ++ ScheduledEntryDelta.add e ∷ []) ≡ adds ds + 1
adds-snoc ds e = omega (arith, tally-append is_add ds (ScheduledEntryDelta.add e ∷ []))

-- a state op that is no spawn, behind the others
Within-push :
    (i : Instance) (s : StepStage) (d : StagedStateDelta) (l : LedgerOp)
    → is_spawn d ≡ 0
    → Within i s
    → Within i (push_state s d l)
Within-push i s d l none_new w =
    let same : spawns (s.state_ops ++ d ∷ []) ≡ spawns s.state_ops =
      omega (arith, tally-append is_spawn s.state_ops (d ∷ []), none_new) in
    record {
      entities_counted = λ h. w.entities_counted h ∙ sym same;
      entities = λ h. omega (arith, w.entities h, same);
      scheduled_counted = w.scheduled_counted;
      scheduled = w.scheduled;
    }

-- an action that is staged, where the gate sees room for it
Within-add :
    (i : Instance) (s : StepStage) (e : ScheduledEntry)
    → (0 < i.config.max_scheduled
        → sat_add64 (Scheduler.len i.scheduler) s.id_counters.next_scheduled_advance
          < i.config.max_scheduled)
    → i.config.max_scheduled ≤ u64_max
    → Within i s
    → Within i (record s {
      schedule_deltas = s.schedule_deltas ++ ScheduledEntryDelta.add e ∷ [];
      id_counters = record s.id_counters {
        next_scheduled_advance = sat_add64 s.id_counters.next_scheduled_advance 1;
      };
    })
Within-add i s e room bs w = record {
  entities_counted = w.entities_counted;
  entities = w.entities;
  scheduled_counted = λ h.
      omega (arith, w.scheduled_counted h, w.scheduled h, room h, adds-snoc s.schedule_deltas e);
  scheduled = λ h.
      omega (arith, w.scheduled_counted h, w.scheduled h, room h, adds-snoc s.schedule_deltas e);
}

new_id_next : (n : ℕ) → new_id (sat_add64 n 1) ≡ some (sat_add64 n 1)
new_id_next n = ground arith

dispatch_op-Within :
    (op : Op) (inst : InstanceId) (p : Principal) (i : Instance) (s : StepStage) (now : Tick)
    (next : ℕ) (caps : CapabilityMask)
    → over_entities i s op ≡ false
    → over_scheduled i s op ≡ false
    → i.config.max_entities ≤ u64_max
    → i.config.max_scheduled ≤ u64_max
    → Within i s
    → Returns (λ r. Within i r.0) (dispatch_op op inst p s now next caps)
unfolding dispatch_op over_entities over_scheduled
dispatch_op-Within (Op.spawn_entity id owner) inst p i s now next caps fe fs be bs w =
    let more =
      tally-append is_spawn s.state_ops
        (StagedStateDelta.spawn_entity id (record { owner = owner; created = now }) ∷ []) in
    record {
      entities_counted = λ h. ground (arith, w.entities_counted h, w.entities h, more);
      entities = λ h. ground (arith, w.entities_counted h, w.entities h, more);
      scheduled_counted = w.scheduled_counted;
      scheduled = w.scheduled;
    }
dispatch_op-Within (Op.despawn_entity id) inst p i s now next caps fe fs be bs w =
    Within-push i s _ _ refl w
dispatch_op-Within (Op.set_component entity tc bytes size) inst p i s now next caps fe fs be bs w =
    Within-push i s _ _ refl w
dispatch_op-Within (Op.remove_component entity tc size) inst p i s now next caps fe fs be bs w =
    Within-push i s _ _ refl w
dispatch_op-Within (Op.emit_event actor tc bytes) inst p i s now next caps fe fs be bs w = record {
  entities_counted = w.entities_counted;
  entities = w.entities;
  scheduled_counted = w.scheduled_counted;
  scheduled = w.scheduled;
}
dispatch_op-Within (Op.schedule_action at actor tc bytes) inst p i s now next caps fe fs be bs w =
    rw (new_id_next next) (Within-add i s _ (λ h. ground arith) bs w)
dispatch_op-Within (Op.send_signal target route payload) inst p i s now next caps fe fs be bs w =
    record {
      entities_counted = w.entities_counted;
      entities = w.entities;
      scheduled_counted = w.scheduled_counted;
      scheduled = w.scheduled;
    }

module _ (c : GateContext) (be : c.inst.config.max_entities ≤ u64_max)
    (bs : c.inst.config.max_scheduled ≤ u64_max) where
  deny-Within :
      (g : GateState) (reason : Bytes)
      → Within c.inst g.stage
      → Within c.inst (deny c g reason).stage
  unfolding deny
  deny-Within g reason w = record {
    entities_counted = w.entities_counted;
    entities = w.entities;
    scheduled_counted = w.scheduled_counted;
    scheduled = w.scheduled;
  }

  gate_authorized-Within :
      (g : GateState) (e : Effect authorized)
      → Within c.inst g.stage
      → Returns (λ h. Within c.inst h.stage) (gate_authorized c g e)
  unfolding gate_authorized dispatch_gated dispatch
  gate_authorized-Within g e w = elim (Bool-cases (over_budget c.inst g.stage e.op)) [
    | inl over ↦ rw over (deny-Within g _ w)
    | inr fits ↦ elim (Bool-cases (over_entities c.inst g.stage e.op)) [
      | inl over ↦ rw (fits, over) (deny-Within g _ w)
      | inr few ↦ elim (Bool-cases (over_scheduled c.inst g.stage e.op)) [
        | inl over ↦ rw (fits, few, over) (deny-Within g _ w)
        | inr short ↦
            rw (fits, few, short)
              (Returns->>= (λ r. Within c.inst r.0) (λ (h : GateState). Within c.inst h.stage) _ _
                (dispatch_op-Within e.op e.instance_id e.principal c.inst g.stage c.now _ c.eff few
                  short be bs w)
                (λ r h. h))
      ]
    ]
  ]

  gate_op-Within :
      (g : GateState) (op : Op)
      → Within c.inst g.stage
      → Returns (λ h. Within c.inst h.stage) (gate_op c g op)
  unfolding gate_op
  gate_op-Within g op w =
      elim (Result-cases
        (authorize c.eff (record { instance_id = c.inst_id; principal = c.principal; op = op }))) [
          | inl (e, h) ↦ rw (h, gate_op) (gate_authorized-Within g e w)
          | inr (reason, h) ↦ rw (h, gate_op) w
        ]

  -- If the entities and scheduled actions of an instance are within its quotas with those of the
  -- stage, the loop over any list of ops does not panic, and they still are with what is staged
  -- afterwards. The quotas are 64-bit numbers.
  pub gate_ops-Within :
      (ops : List Op) (g : GateState)
      → Within c.inst g.stage
      → Returns (λ h. Within c.inst h.stage) (gate_ops c ops g)
  unfolding gate_ops
  gate_ops-Within [] g w = w
  gate_ops-Within (op ∷ ops) g w =
      Returns->>= (λ h. Within c.inst h.stage) (λ h. Within c.inst h.stage) (gate_op c g op)
        (gate_ops c ops) (gate_op-Within g op w) (gate_ops-Within ops)
