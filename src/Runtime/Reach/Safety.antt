-- ===== src/Runtime/Reach/Safety.antt =====
-- The panics of the methods of runtime/kernel.rs on reachable kernels.
use arkhe_kernel.Prelude.{subst, sym, Returns, Returns-value, Returns-refl}
use arkhe_kernel.BTreeMap.Lookup.{Everywhere}
use arkhe_kernel.Abi.{InstanceId, Tick}
use arkhe_kernel.Abi.Caps.{CapabilityMask}
use arkhe_kernel.State.Config.{InstanceConfig}
use arkhe_kernel.Runtime.Step.{StateHashing}
use arkhe_kernel.Runtime.Step.Safety.{AllSafe}
use arkhe_kernel.Runtime.Kernel
use arkhe_kernel.Runtime.Kernel.{Kernel, Submission}
use arkhe_kernel.Runtime.Kernel.Admission.{
  create_instance-AllSafe, submit-AllSafe, force_unload-AllSafe,
}
use arkhe_kernel.Runtime.Kernel.Backpressure.{from_snapshot-snapshot}
use arkhe_kernel.Runtime.Drive
use arkhe_kernel.Runtime.Drive.Safety.{step-AllSafe}
use arkhe_kernel.Runtime.Reach.{
  Reachable, fresh, fresh_with_wal, registered, observed, created, submitted, unloaded, restored,
  stepped,
}
use arkhe_kernel.Persist.Signature.{Crypto}

module _ (h : StateHashing) (c : Crypto) where
  pub Reachable-AllSafe : (k : Kernel) → Reachable h c k → AllSafe k.instances
  unfolding Everywhere Kernel.new_with_wal_signed Kernel.register_action
      Kernel.register_observer_filtered
  Reachable-AllSafe _ fresh = tt
  Reachable-AllSafe _ (fresh_with_wal w m sig) = tt
  Reachable-AllSafe _ (registered {k} a r) = Reachable-AllSafe k r
  Reachable-AllSafe _ (observed {k} obs mask r) = Reachable-AllSafe k r
  Reachable-AllSafe _ (created {k} {k'} config id r e) =
      Returns-value (λ p. AllSafe p.1.instances) (Kernel.create_instance k config) (id, k')
        (create_instance-AllSafe k config (Reachable-AllSafe k r)) e
  Reachable-AllSafe _ (submitted {k} {k'} id s res r e) =
      Returns-value (λ p. AllSafe p.1.instances) (Kernel.submit c k id s) (res, k')
        (submit-AllSafe c k id s (Reachable-AllSafe k r)) e
  Reachable-AllSafe _ (unloaded {k} route caps r) =
      force_unload-AllSafe k route caps (Reachable-AllSafe k r)
  Reachable-AllSafe _ (restored {k} r) =
      subst (λ m. AllSafe m) (sym (from_snapshot-snapshot k).0) (Reachable-AllSafe k r)
  Reachable-AllSafe _ (stepped {k} {k'} now caps report r e) =
      Returns-value (λ p. AllSafe p.1.instances) (Drive.step h c k now caps) (report, k')
        (step-AllSafe h c k now caps (Reachable-AllSafe k r)) e

  -- On a reachable kernel, one that the public methods lead to from a new one, whatever actions and
  -- observers were registered, `step` returns: it never panics, and the kernel that it returns is reachable again.
  pub step-never_panics :
      (k : Kernel) (now : Tick) (caps : CapabilityMask)
      → Reachable h c k
      → Returns (λ r. Reachable h c r.1) (Drive.step h c k now caps)
  step-never_panics k now caps r =
      Returns-refl (λ p. AllSafe p.1.instances) _ _
        (step-AllSafe h c k now caps (Reachable-AllSafe k r)) (λ p e. stepped now caps p.0 r e)

  -- On a reachable kernel `submit` returns, accepted or refused, and so does `create_instance`; the
  -- kernels that they return are reachable again.
  pub submit-never_panics :
      (k : Kernel) (id : InstanceId) (s : Submission) (config : InstanceConfig)
      → Reachable h c k
      → Returns (λ r. Reachable h c r.1) (Kernel.submit c k id s)
        × Returns (λ r. Reachable h c r.1) (Kernel.create_instance k config)
  submit-never_panics k id s config r = (
    Returns-refl (λ p. AllSafe p.1.instances) _ _ (submit-AllSafe c k id s (Reachable-AllSafe k r))
        (λ p e. submitted id s p.0 r e),
    Returns-refl (λ p. AllSafe p.1.instances) _ _
        (create_instance-AllSafe k config (Reachable-AllSafe k r)) (λ p e. created config p.0 r e),
  )
