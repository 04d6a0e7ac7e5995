-- ===== src/Runtime/Drive/Quotas.antt =====
-- The quotas of the instances over `step` (runtime/kernel.rs).
use arkhe_kernel.Prelude.{Returns, Returns-with}
use arkhe_kernel.Order.{nat_ord}
use arkhe_kernel.BTreeMap.Lookup.{Everywhere}
use arkhe_kernel.Abi.{InstanceId, Tick}
use arkhe_kernel.Abi.Caps.{CapabilityMask}
use arkhe_kernel.State.Instance
use arkhe_kernel.State.Instance.{Instance, entities_len}
use arkhe_kernel.Runtime.Stage.{PendingSignal}
use arkhe_kernel.Runtime.Step.{StateHashing}
use arkhe_kernel.Runtime.Step.Safety.{IsSafe, step_one_core-IsSafe}
use arkhe_kernel.Runtime.Step.Quotas.{InQuotas, step_one_core-InQuotas}
use arkhe_kernel.Runtime.Kernel.{Kernel}
use arkhe_kernel.Runtime.Drive.{receive, step}
use arkhe_kernel.Runtime.Drive.Keeps.{step-Each}
use arkhe_kernel.Runtime.Drive.Safety.{receive-IsSafe}
use arkhe_kernel.Persist.Signature.{Crypto}

abbrev pub IsGoverned : Instance → Type 0
IsGoverned i = IsSafe i × InQuotas i

receive-InQuotas :
    (from : InstanceId) (sig : PendingSignal) (i : Instance)
    → InQuotas i
    → InQuotas (receive from sig i)
unfolding receive Instance.deliver_signal entities_len
receive-InQuotas from sig i q = record {
  narrow_entities = q.narrow_entities;
  narrow_scheduled = q.narrow_scheduled;
  entities = q.entities;
  scheduled = q.scheduled;
}

-- No step takes an instance over its quotas. On a kernel whose instances are safe (linked tables of
-- the scheduler, an action counter that is a `u64`) and hold no more entities and no more waiting
-- actions than their 32-bit quotas, where 0 is no quota, `step` returns, whatever the registered
-- actions compute, and so they are afterwards.
pub step-InQuotas :
    (h : StateHashing) (c : Crypto) (k : Kernel) (now : Tick) (caps : CapabilityMask)
    → Everywhere IsGoverned k.instances
    → Returns (λ r. Everywhere IsGoverned r.1.instances) (step h c k now caps)
step-InQuotas h c =
    step-Each IsGoverned
      (λ from sig i g. (receive-IsSafe from sig i g.0, receive-InQuotas from sig i g.1)) h
      (λ m id i registry scratch now caps g.
        Returns-with (λ r. IsSafe r.1) (λ r. InQuotas r.1) _
          (step_one_core-IsSafe h m id i registry scratch now caps g.0)
          (step_one_core-InQuotas h m id now caps i registry scratch g.1))
      c
