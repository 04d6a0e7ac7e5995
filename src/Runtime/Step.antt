-- ===== src/Runtime/Step.antt =====
-- `step_one_core` of runtime/kernel.rs: one due action of one instance is popped, decoded,
-- computed, gated and applied. `panic` is the panic of an `expect` below it.
pub mod Safety
pub mod Rollback
pub mod Fit
pub mod Quotas
use arkhe_kernel.Prelude.{
  ℕ, Bool, true, false, bit_and, Option, none, some, List, [], ◌∷◌, Checked, done, ◌>>=◌, Result,
  ok, err, ltb, ◌+◌, ◌%◌, ◌^◌, if◌then◌else◌,
}
use arkhe_kernel.Abi.{InstanceId, Tick, TypeCode, Bytes}
use arkhe_kernel.Abi.Caps.{CapabilityMask}
use arkhe_kernel.State.Op.{Op}
use arkhe_kernel.State.Authz.{effective_caps}
use arkhe_kernel.State.Instance.{Instance, InstanceSnapshot, to_snapshot}
use arkhe_kernel.State.Scheduler
use arkhe_kernel.State.Scheduler.{Scheduler, ScheduledEntry}
use arkhe_kernel.State.Scheduler.Key.{ScheduledActionId}
use arkhe_kernel.Runtime.Event.{KernelEvent, domain_event_emitted}
use arkhe_kernel.Runtime.Registry
use arkhe_kernel.Runtime.Registry.{ActionRegistry, ActionRegistration, ActionDyn}
use arkhe_kernel.Runtime.Stage
use arkhe_kernel.Runtime.Stage.{StepStage, PendingSignal}
use arkhe_kernel.Runtime.Apply.{apply_stage}
use arkhe_kernel.Runtime.Gate.{GateContext, GateState, gate_ops}
use arkhe_kernel.Persist.Record.{
  Hash, zero_hash, StepVerdict, committed, auth_denied, budget_partial, skipped, SkipReason,
  unregistered, deser_failed,
}

pub record StepCore : Type 0 where
  pub popped_id : ScheduledActionId
  pub action_type : TypeCode
  pub verdict : StepVerdict
  pub digest : Hash
  pub pending_signals : List PendingSignal
  pub events : List KernelEvent
  pub effects_applied : ℕ
  pub effects_denied : ℕ
  pub domain_events_emitted : ℕ

-- `postcard::to_allocvec` of a snapshot, which may fail, and `blake3::hash`
pub record StateHashing : Type 0 where
  pub encode_snapshot : InstanceSnapshot → Option Bytes
  pub hash : Bytes → Hash

-- `Instance::state_digest` (state/instance.rs)
unfoldable pub state_digest : StateHashing → Instance → Hash
state_digest h i = elim (h.encode_snapshot (to_snapshot i)) [
  | none ↦ zero_hash
  | some bytes ↦ h.hash bytes
]

-- the `DomainEventEmitted` among the staged events, counted as a `u32`
count_domain : List KernelEvent → ℕ
count_domain [] = 0
count_domain (domain_event_emitted i a t b ∷ es) = 1 + count_domain es
count_domain (e ∷ es) = count_domain es

-- a step without effects: skipped, or rolled back
unfoldable pub idle_core : ScheduledEntry → StepVerdict → Hash → ℕ → StepCore
idle_core entry verdict digest denied = record {
  popped_id = entry.id;
  action_type = entry.action_type_code;
  verdict = verdict;
  digest = digest;
  pending_signals = [];
  events = [];
  effects_applied = 0;
  effects_denied = denied;
  domain_events_emitted = 0;
}

-- the verdict of a step that commits
unfoldable pub commit_verdict : ℕ → StepVerdict
commit_verdict denied = if ltb 0 denied then budget_partial denied else committed

abbrev pub CoreResult : Type 0
CoreResult = StepCore × Instance × StepStage

-- what the loop over the ops reads: the effective capabilities are cut to the session's
unfoldable pub gate_context :
    InstanceId → Instance → Tick → CapabilityMask → ScheduledEntry → GateContext
gate_context inst_id inst now session_caps entry = record {
  inst_id = inst_id;
  inst = inst;
  now = now;
  eff =
      bit_and (effective_caps inst.config.default_caps entry.principal entry.caps_ceiling)
        session_caps;
  principal = entry.principal;
}

-- the ops that the action computes on the instance
unfoldable pub computed_ops : InstanceId → Instance → Tick → ScheduledEntry → ActionDyn → List Op
computed_ops inst_id inst now entry compute =
    compute (record { actor = entry.actor; now = now; instance_id = inst_id; target = inst })

module _ (h : StateHashing) (measure_digest : Bool) where
  -- the closure `digest_of`
  unfoldable pub digest_of : Instance → Hash
  digest_of i = if measure_digest then state_digest h i else zero_hash

  -- the commit path
  unfoldable pub commit : ScheduledEntry → Instance → GateState → Checked CoreResult
  unfolding count_domain
  commit entry inst g = apply_stage inst g.stage >>= λ r. done (
    record {
      popped_id = entry.id;
      action_type = entry.action_type_code;
      verdict = commit_verdict g.denied;
      digest = digest_of r.1;
      pending_signals = r.0;
      events = g.stage.events;
      effects_applied = g.applied;
      effects_denied = g.denied;
      domain_events_emitted = count_domain g.stage.events % 2 ^ 32;
    },
    r.1,
    r.2,
  )

  -- rollback if an op was not authorised, commit otherwise
  unfoldable pub conclude : ScheduledEntry → Instance → GateState → Checked CoreResult
  conclude entry inst g =
      if g.any_denied
      then done (idle_core entry auth_denied (digest_of inst) g.denied, inst, g.stage)
      else commit entry inst g

  -- from the decoded action to the result
  unfoldable pub execute :
      InstanceId
      → Instance
      → StepStage
      → Tick
      → CapabilityMask
      → ScheduledEntry
      → ActionDyn
      → Checked CoreResult
  execute inst_id inst scratch now session_caps entry compute =
      gate_ops (gate_context inst_id inst now session_caps entry)
        (computed_ops inst_id inst now entry compute)
        (record {
          stage = Stage.clear scratch;
          next_scheduled_id = inst.id_counters.next_scheduled;
          any_denied = false;
          applied = 0;
          denied = 0;
        })
      >>= λ g. conclude entry inst g

  -- the popped entry is looked up in the registry and decoded
  unfoldable pub run_entry :
      InstanceId
      → Instance
      → ActionRegistry
      → StepStage
      → Tick
      → CapabilityMask
      → ScheduledEntry
      → Checked CoreResult
  run_entry inst_id inst registry scratch now session_caps entry =
      elim (Registry.get registry entry.action_type_code) [
        | none ↦ done (idle_core entry (skipped unregistered) (digest_of inst) 0, inst, scratch)
        | some reg ↦ elim (reg.deserializer reg.schema_version entry.action_bytes) [
          | err e ↦ done (idle_core entry (skipped deser_failed) (digest_of inst) 0, inst, scratch)
          | ok compute ↦ execute inst_id inst scratch now session_caps entry compute
        ]
      ]

  -- the branch on the popped entry
  unfoldable pub run_popped :
      InstanceId
      → Instance
      → ActionRegistry
      → StepStage
      → Tick
      → CapabilityMask
      → Option ScheduledEntry × Scheduler
      → Checked (Option StepCore × Instance × StepStage)
  run_popped inst_id inst registry scratch now session_caps (none, queue) =
      done (none, record inst { scheduler = queue }, scratch)
  run_popped inst_id inst registry scratch now session_caps (some entry, queue) =
      run_entry inst_id (record inst { scheduler = queue }) registry scratch now session_caps entry
      >>= λ r. done (some r.0, r.1, r.2)

  unfoldable pub step_one_core :
      InstanceId
      → Instance
      → ActionRegistry
      → StepStage
      → Tick
      → CapabilityMask
      → Checked (Option StepCore × Instance × StepStage)
  unfolding run_popped
  step_one_core inst_id inst registry scratch now session_caps =
      Scheduler.pop_due inst.scheduler now
      >>= run_popped inst_id inst registry scratch now session_caps
