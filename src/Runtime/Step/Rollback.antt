-- ===== src/Runtime/Step/Rollback.antt =====
-- The two ends of an action in `step_one_core` (runtime/kernel.rs): rolled back, or committed.
use arkhe_kernel.Prelude.{ℕ, zero, suc, ◌≡◌, refl, ◌∙◌, Bool, true, [], Returns, Returns->>=, ◌+◌}
use arkhe_kernel.Abi.{InstanceId, Tick}
use arkhe_kernel.Abi.Caps.{CapabilityMask}
use arkhe_kernel.State.Instance.{Instance}
use arkhe_kernel.State.Scheduler.{ScheduledEntry}
use arkhe_kernel.Runtime.Registry.{ActionDyn}
use arkhe_kernel.Runtime.Stage
use arkhe_kernel.Runtime.Stage.{StepStage}
use arkhe_kernel.Runtime.Gate.{GateState}
use arkhe_kernel.Runtime.Gate.Tallies.{failures}
use arkhe_kernel.Runtime.Gate.Loop.{some_unauthorized, gate_ops-Gated}
use arkhe_kernel.Runtime.Step.{
  StateHashing, StepCore, CoreResult, conclude, execute, idle_core, gate_context, computed_ops,
}
use arkhe_kernel.Persist.Record.{StepVerdict, auth_denied, committed, budget_partial}

-- nothing of the action has happened
pub record RolledBack (before after : Instance) (core : StepCore) : Type 0 where
  pub unchanged : after ≡ before
  pub verdict : core.verdict ≡ auth_denied
  pub no_effects : core.effects_applied ≡ 0
  pub no_signals : core.pending_signals ≡ []
  pub no_events : core.events ≡ []

-- the verdict on a commit of which `failed` ops were left out
unfoldable pub verdict_of : ℕ → StepVerdict
verdict_of zero = committed
verdict_of (suc n) = budget_partial (suc n)

-- every one of `n` ops was applied, or denied on its own and reported
pub record Committed (n : ℕ) (core : StepCore) : Type 0 where
  pub verdict : core.verdict ≡ verdict_of (failures core.events)
  pub denied : core.effects_denied ≡ failures core.events
  pub applied : core.effects_applied + failures core.events ≡ n

conclude-RolledBack :
    (h : StateHashing) (m : Bool) (entry : ScheduledEntry) (i : Instance) (g : GateState)
    → g.any_denied ≡ true
    → Returns (λ r. RolledBack i r.1 r.0) (conclude h m entry i g)
unfolding conclude idle_core
conclude-RolledBack h m entry i g bad = rw bad (record {
  unchanged = refl;
  verdict = refl;
  no_effects = refl;
  no_signals = refl;
  no_events = refl;
})

module _ (h : StateHashing) (m : Bool) (id : InstanceId) (i : Instance) (scratch : StepStage)
    (now : Tick) (caps : CapabilityMask) (entry : ScheduledEntry) (compute : ActionDyn) where
  -- If the authorisation refuses one of the ops that an action computes, the execution returns, the
  -- instance is the one before, and nothing is emitted: no effect, no signal, no event.
  pub execute-RolledBack :
      some_unauthorized (gate_context id i now caps entry) (computed_ops id i now entry compute)
        ≡ true
      → Returns (λ r. RolledBack i r.1 r.0) (execute h m id i scratch now caps entry compute)
  unfolding execute
  execute-RolledBack bad =
      Returns->>= _ (λ (r : CoreResult). RolledBack i r.1 r.0) _ _ (gate_ops-Gated _ _ _)
        (λ g k. conclude-RolledBack h m entry i g (k.any_denied ∙ bad))
