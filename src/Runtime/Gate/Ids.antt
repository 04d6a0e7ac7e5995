-- ===== src/Runtime/Gate/Ids.antt =====
-- The ids under which the ops of one action schedule (runtime/kernel.rs, runtime/dispatch.rs).
use arkhe_kernel.Prelude.{
  ℕ, ◌+◌, ◌≡◌, ◌≤◌, ◌<◌, Bool-cases, Result-cases, List, [], ◌∷◌, ◌++◌, Returns, Returns->>=, inl,
  inr, arith, sat_add64, u64_max,
}
use arkhe_kernel.Abi.{InstanceId, Principal, Tick, Bytes}
use arkhe_kernel.Abi.Caps.{CapabilityMask}
use arkhe_kernel.State.Op.{Op}
use arkhe_kernel.State.Authz.{Effect, authorized, authorize}
use arkhe_kernel.State.Scheduler.{ScheduledEntry}
use arkhe_kernel.Runtime.Stage.{StepStage, ScheduledEntryDelta}
use arkhe_kernel.Runtime.Dispatch.{dispatch, dispatch_op}
use arkhe_kernel.Runtime.Gate.{
  GateContext, GateState, dispatch_gated, gate_authorized, gate_op, gate_ops, over_budget,
  over_entities, over_scheduled, deny,
}
use arkhe_kernel.Runtime.Gate.Loop.{new_id_next}

-- entries are added under ascending ids, above `lo` and up to `hi`, and none is removed
unfoldable pub Ascending : ℕ → List ScheduledEntryDelta → ℕ → Type 0
Ascending lo [] hi = lo ≤ hi
Ascending lo (ScheduledEntryDelta.add e ∷ ds) hi = (lo < e.id) × Ascending e.id ds hi
Ascending lo (ScheduledEntryDelta.remove id ∷ ds) hi = ⊥

Ascending-snoc :
    (lo : ℕ) (ds : List ScheduledEntryDelta) (mid : ℕ) (e : ScheduledEntry)
    → Ascending lo ds mid
    → mid < e.id
    → Ascending lo (ds ++ ScheduledEntryDelta.add e ∷ []) e.id
unfolding Ascending
Ascending-snoc lo [] mid e a b = (omega arith, omega arith)
Ascending-snoc lo (ScheduledEntryDelta.add f ∷ ds) mid e a b =
    (a.0, Ascending-snoc f.id ds mid e a.1 b)
Ascending-snoc lo (ScheduledEntryDelta.remove id ∷ ds) mid e a b = absurd a

-- The counter is the one that the instance will have, and, below its limit, the ids ascend to it.
pub record Numbered (start : ℕ) (stage : StepStage) (next : ℕ) : Type 0 where
  pub counter : next ≡ sat_add64 start stage.id_counters.next_scheduled_advance
  pub ids : next < u64_max → Ascending start stage.schedule_deltas next

dispatch_op-Numbered :
    (start : ℕ) (op : Op) (i : InstanceId) (p : Principal) (s : StepStage) (now : Tick) (next : ℕ)
    (caps : CapabilityMask)
    → Numbered start s next
    → Returns (λ r. Numbered start r.0 r.1) (dispatch_op op i p s now next caps)
unfolding dispatch_op
dispatch_op-Numbered start (Op.schedule_action at actor tc bytes) i p s now next caps n =
    rw (new_id_next next) (record {
      counter = omega (arith, n.counter);
      ids = λ below.
          let room : next < u64_max = omega arith in
          let same : sat_add64 next 1 ≡ next + 1 = omega arith in
          Ascending-snoc start s.schedule_deltas next _ (n.ids room) (omega arith);
    })
dispatch_op-Numbered start (Op.spawn_entity id owner) i p s now next caps n = record {
  counter = n.counter;
  ids = n.ids;
}
dispatch_op-Numbered start (Op.despawn_entity id) i p s now next caps n = record {
  counter = n.counter;
  ids = n.ids;
}
dispatch_op-Numbered start (Op.set_component entity tc bytes size) i p s now next caps n = record {
  counter = n.counter;
  ids = n.ids;
}
dispatch_op-Numbered start (Op.remove_component entity tc size) i p s now next caps n = record {
  counter = n.counter;
  ids = n.ids;
}
dispatch_op-Numbered start (Op.emit_event actor tc bytes) i p s now next caps n = record {
  counter = n.counter;
  ids = n.ids;
}
dispatch_op-Numbered start (Op.send_signal target route payload) i p s now next caps n = record {
  counter = n.counter;
  ids = n.ids;
}

module _ (start : ℕ) (c : GateContext) where
  abbrev pub InOrder : GateState → Type 0
  InOrder g = Numbered start g.stage g.next_scheduled_id

  deny-InOrder : (g : GateState) (reason : Bytes) → InOrder g → InOrder (deny c g reason)
  unfolding deny
  deny-InOrder g reason n = record { counter = n.counter; ids = n.ids }

  dispatch_gated-InOrder :
      (g : GateState) (e : Effect authorized) → InOrder g → Returns InOrder (dispatch_gated c g e)
  unfolding dispatch_gated dispatch
  dispatch_gated-InOrder g e n =
      Returns->>= (λ r. Numbered start r.0 r.1) InOrder _ _
        (dispatch_op-Numbered start e.op e.instance_id e.principal g.stage c.now g.next_scheduled_id
          c.eff n)
        (λ r m. m)

  gate_authorized-InOrder :
      (g : GateState) (e : Effect authorized) → InOrder g → Returns InOrder (gate_authorized c g e)
  unfolding gate_authorized
  gate_authorized-InOrder g e n = elim (Bool-cases (over_budget c.inst g.stage e.op)) [
    | inl over ↦ rw over (deny-InOrder g _ n)
    | inr fits ↦ elim (Bool-cases (over_entities c.inst g.stage e.op)) [
      | inl over ↦ rw (fits, over) (deny-InOrder g _ n)
      | inr few ↦ elim (Bool-cases (over_scheduled c.inst g.stage e.op)) [
        | inl over ↦ rw (fits, few, over) (deny-InOrder g _ n)
        | inr short ↦ rw (fits, few, short) (dispatch_gated-InOrder g e n)
      ]
    ]
  ]

  gate_op-InOrder : (g : GateState) (op : Op) → InOrder g → Returns InOrder (gate_op c g op)
  unfolding gate_op
  gate_op-InOrder g op n =
      elim (Result-cases
        (authorize c.eff (record { instance_id = c.inst_id; principal = c.principal; op = op }))) [
          | inl (e, h) ↦ rw (h, gate_op) (gate_authorized-InOrder g e n)
          | inr (reason, h) ↦ rw (h, gate_op) (record { counter = n.counter; ids = n.ids })
        ]

  pub gate_ops-InOrder :
      (ops : List Op) (g : GateState) → InOrder g → Returns InOrder (gate_ops c ops g)
  unfolding gate_ops
  gate_ops-InOrder [] g n = n
  gate_ops-InOrder (op ∷ ops) g n =
      Returns->>= InOrder InOrder (gate_op c g op) (gate_ops c ops) (gate_op-InOrder g op n)
        (gate_ops-InOrder ops)
