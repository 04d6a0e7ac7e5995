-- ===== src/Runtime/Drive/Safety.antt =====
-- The panics of the driver and of `step` (runtime/kernel.rs) on safe instances.
use arkhe_kernel.Prelude.{Bool, Returns}
use arkhe_kernel.Abi.{InstanceId, Tick}
use arkhe_kernel.Abi.Caps.{CapabilityMask}
use arkhe_kernel.State.Instance
use arkhe_kernel.State.Instance.{Instance}
use arkhe_kernel.Runtime.Stage.{PendingSignal}
use arkhe_kernel.Runtime.Step.{StateHashing}
use arkhe_kernel.Runtime.Step.Safety.{IsSafe, AllSafe, step_one_core-IsSafe}
use arkhe_kernel.Runtime.Kernel.{Kernel}
use arkhe_kernel.Runtime.Drive.{receive, process_instance_record, step}
use arkhe_kernel.Runtime.Drive.Keeps.{process_instance_record-Each, step-Each}
use arkhe_kernel.Persist.Signature.{Crypto}

pub receive-IsSafe :
    (from : InstanceId) (sig : PendingSignal) (i : Instance)
    → IsSafe i
    → IsSafe (receive from sig i)
unfolding receive Instance.deliver_signal
receive-IsSafe from sig i l = l

module _ (h : StateHashing) where
  pub process_instance_record-AllSafe :
      (k : Kernel) (id : InstanceId) (now : Tick) (caps : CapabilityMask) (measure : Bool)
      → AllSafe k.instances
      → Returns (λ r. AllSafe r.1.instances) (process_instance_record h k id now caps measure)
  process_instance_record-AllSafe =
      process_instance_record-Each IsSafe receive-IsSafe h (step_one_core-IsSafe h)

  -- On a kernel whose instances are all safe, `step` does not panic, whatever the registered actions
  -- compute and the observers do, and the instances are safe afterwards.
  pub step-AllSafe :
      (c : Crypto) (k : Kernel) (now : Tick) (caps : CapabilityMask)
      → AllSafe k.instances
      → Returns (λ r. AllSafe r.1.instances) (step h c k now caps)
  step-AllSafe = step-Each IsSafe receive-IsSafe h (step_one_core-IsSafe h)
