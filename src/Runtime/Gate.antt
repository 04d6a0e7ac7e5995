-- ===== src/Runtime/Gate.antt =====
-- The loop of `step_one_core` (runtime/kernel.rs) over the ops of one action: each op passes the
-- authorisation, the byte budget and the two quotas, and is then dispatched to the stage.
pub mod Tallies
pub mod Quotas
pub mod Loop
pub mod Ids
use arkhe_kernel.Prelude.{
  ℕ, Bool, true, false, ◌&&◌, List, [], ◌∷◌, ◌++◌, Checked, done, ◌>>=◌, Result, ok, err, sat_add32,
  sat_add64, sat_sub, unwrap_or, ltb, leb, ascii, if◌then◌else◌,
}
use arkhe_kernel.Abi.{InstanceId, Principal, Tick, Bytes}
use arkhe_kernel.Abi.Caps.{CapabilityMask}
use arkhe_kernel.State.Op
use arkhe_kernel.State.Op.{Op}
use arkhe_kernel.State.Authz.{Effect, unverified, authorized, authorize}
use arkhe_kernel.State.Instance.{Instance, entities_len}
use arkhe_kernel.State.Ledger.{component_size}
use arkhe_kernel.State.Scheduler
use arkhe_kernel.Runtime.Event.{effect_failed}
use arkhe_kernel.Runtime.Stage.{StepStage, projected_component_bytes}
use arkhe_kernel.Runtime.Dispatch.{dispatch}

-- what the loop reads
pub record GateContext : Type 0 where
  pub inst_id : InstanceId
  pub inst : Instance
  pub now : Tick
  pub eff : CapabilityMask
  pub principal : Principal

-- what the loop writes
pub record GateState : Type 0 where
  pub stage : StepStage
  pub next_scheduled_id : ℕ
  pub any_denied : Bool
  pub applied : ℕ
  pub denied : ℕ

-- the projected total with the op that is being judged
unfoldable pub with_op : Instance → ℕ → Op → ℕ
with_op inst staged (Op.set_component entity tc bytes size) = sat_add64 staged size
with_op inst staged (Op.remove_component entity tc size) =
    sat_sub staged (unwrap_or 0 (component_size inst.ledger entity tc))
with_op inst staged _ = staged

unfoldable pub over_budget : Instance → StepStage → Op → Bool
unfolding with_op
over_budget inst stage op =
    ltb 0 inst.config.memory_budget_bytes
    && ltb inst.config.memory_budget_bytes
        (with_op inst (projected_component_bytes inst.ledger.total_bytes stage inst.ledger) op)

abbrev is_spawn : Op → Bool
is_spawn (Op.spawn_entity id owner) = true
is_spawn _ = false

abbrev is_schedule : Op → Bool
is_schedule (Op.schedule_action at actor tc bytes) = true
is_schedule _ = false

unfoldable pub over_entities : Instance → StepStage → Op → Bool
over_entities inst stage op =
    ltb 0 inst.config.max_entities
    && is_spawn op
    && leb inst.config.max_entities
        (sat_add64 (entities_len inst) stage.id_counters.next_entity_advance)

unfoldable pub over_scheduled : Instance → StepStage → Op → Bool
over_scheduled inst stage op =
    ltb 0 inst.config.max_scheduled
    && is_schedule op
    && leb inst.config.max_scheduled
        (sat_add64 (Scheduler.len inst.scheduler) stage.id_counters.next_scheduled_advance)

-- a per-op denial: counted, reported as an event, and no rollback
unfoldable pub deny : GateContext → GateState → Bytes → GateState
deny c g reason = record g {
  denied = sat_add32 g.denied 1;
  stage = record g.stage { events = g.stage.events ++ effect_failed c.inst_id reason ∷ [] };
}

-- an op that passed every gate
unfoldable pub dispatch_gated : GateContext → GateState → Effect authorized → Checked GateState
dispatch_gated c g e = dispatch e g.stage c.now g.next_scheduled_id c.eff >>= λ r.
    done (record g { stage = r.0; next_scheduled_id = r.1; applied = sat_add32 g.applied 1 })

-- the gates behind the authorisation
unfoldable pub gate_authorized : GateContext → GateState → Effect authorized → Checked GateState
gate_authorized c g e =
    if over_budget c.inst g.stage e.op
    then done (deny c g (ascii "budget_exceeded"))
    else if over_entities c.inst g.stage e.op
    then done (deny c g (ascii "entity_quota_exceeded"))
    else if over_scheduled c.inst g.stage e.op
    then done (deny c g (ascii "scheduled_quota_exceeded"))
    else dispatch_gated c g e

unfoldable pub gate_op : GateContext → GateState → Op → Checked GateState
gate_op c g op =
    elim (authorize c.eff (record { instance_id = c.inst_id; principal = c.principal; op = op })) [
      | ok e ↦ gate_authorized c g e
      | err reason ↦ done (record g { denied = sat_add32 g.denied 1; any_denied = true })
    ]

unfoldable pub gate_ops : GateContext → List Op → GateState → Checked GateState
gate_ops c [] g = done g
gate_ops c (op ∷ ops) g = gate_op c g op >>= λ h. gate_ops c ops h
