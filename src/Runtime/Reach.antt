-- ===== src/Runtime/Reach.antt =====
-- The kernels that a program can reach through the public methods of runtime/kernel.rs, where a
-- kernel is restored only from a snapshot of such a kernel.
pub mod Safety
pub mod Log
pub mod Fit
use arkhe_kernel.Prelude.{ℕ, ◌≡◌, done, Result, ok}
use arkhe_kernel.Abi.{ArkheError, InstanceId, RouteId, Tick}
use arkhe_kernel.Abi.Caps.{CapabilityMask}
use arkhe_kernel.State.Config.{InstanceConfig}
use arkhe_kernel.State.Scheduler.Key.{ScheduledActionId}
use arkhe_kernel.Runtime.Event.{EventMask}
use arkhe_kernel.Runtime.Observer.{KernelObserver}
use arkhe_kernel.Runtime.Registry.{Action}
use arkhe_kernel.Runtime.Step.{StateHashing}
use arkhe_kernel.Runtime.Kernel
use arkhe_kernel.Runtime.Kernel.{Kernel, Submission}
use arkhe_kernel.Runtime.Drive
use arkhe_kernel.Runtime.Drive.{StepReport}
use arkhe_kernel.Persist.Record.{Hash}
use arkhe_kernel.Persist.Signature.{Crypto, SignatureClass}

pub data Reachable (h : StateHashing) (c : Crypto) : Kernel → Type 0 where
  fresh : Reachable h c Kernel.new
  fresh_with_wal :
      (world_id manifest_digest : Hash) (sig : SignatureClass)
      → Reachable h c (Kernel.new_with_wal_signed c world_id manifest_digest sig)
  registered :
      {k : Kernel} (a : Action) → Reachable h c k → Reachable h c (Kernel.register_action k a)
  observed :
      {k : Kernel} (obs : KernelObserver) (mask : EventMask)
      → Reachable h c k
      → Reachable h c (Kernel.register_observer_filtered k obs mask).1
  created :
      {k k' : Kernel} (config : InstanceConfig) (id : InstanceId)
      → Reachable h c k
      → Kernel.create_instance k config ≡ done (id, k')
      → Reachable h c k'
  submitted :
      {k k' : Kernel} (id : InstanceId) (s : Submission) (r : Result ArkheError ScheduledActionId)
      → Reachable h c k
      → Kernel.submit c k id s ≡ done (r, k')
      → Reachable h c k'
  unloaded :
      {k : Kernel} (route : RouteId) (caps : CapabilityMask)
      → Reachable h c k
      → Reachable h c (Kernel.force_unload k route caps).1
  restored :
      {k : Kernel} → Reachable h c k → Reachable h c (Kernel.from_snapshot (Kernel.snapshot k))
  stepped :
      {k k' : Kernel} (now : Tick) (caps : CapabilityMask) (report : StepReport)
      → Reachable h c k
      → Drive.step h c k now caps ≡ done (report, k')
      → Reachable h c k'
