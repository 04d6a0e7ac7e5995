-- ===== src/Runtime/Reach/Log.antt =====
-- The log that a reachable kernel keeps (runtime/kernel.rs, persist/wal.rs).
use arkhe_kernel.Prelude.{
  ℕ, ◌≡◌, refl, Bool, Bool-cases, Option, Option-cases, none, some, List, [], ◌∷◌, Allows,
  Allows->>=, Allows-any, Allows-value, inl, inr, is_some, expect, sat_add64, ok, not, subst, sym,
}
use arkhe_kernel.Order.{nat_ord}
use arkhe_kernel.BTreeMap
use arkhe_kernel.Abi.{InstanceId, Tick, new_id}
use arkhe_kernel.State.Config.{InstanceConfig}
use arkhe_kernel.Abi.Caps.{CapabilityMask, contains, admin_unload}
use arkhe_kernel.State.Scheduler.Key.{ScheduledActionId}
use arkhe_kernel.Runtime.Step.{StateHashing, StepCore, step_one_core}
use arkhe_kernel.Runtime.Kernel
use arkhe_kernel.Runtime.Kernel.{Kernel, Submission, log_submit, is_full, admit, entry_of}
use arkhe_kernel.Runtime.Drive
use arkhe_kernel.Runtime.Drive.{
  StepReport, InstanceStepResult, finish, run_core, log_result, log_step, process_instance_record,
  step_instance, step_instances,
}
use arkhe_kernel.Runtime.Reach.{
  Reachable, fresh, fresh_with_wal, registered, observed, created, submitted, unloaded, restored,
  stepped,
}
use arkhe_kernel.Persist.Record.{Hash}
use arkhe_kernel.Persist.Signature.{Crypto, IsSound, SignatureClass}
use arkhe_kernel.Persist.Wal.{WalWriter, from_writer}
use arkhe_kernel.Persist.Wal.Sealed
use arkhe_kernel.Persist.Wal.Sealed.{Written, IsSealed, Written-IsSealed}
use arkhe_kernel.Persist.Verify.{verify_chain}
use arkhe_kernel.Persist.Verify.Accepts.{CanSign, verify_chain-Written}

module _ (c : Crypto) where
  -- no log, or one that a writer has sealed
  unfoldable Logged : Option WalWriter → Type 0
  Logged none = Unit
  Logged (some w) = (world : Hash) × (class : SignatureClass) × Written c world class w

  log_submit-Logged :
      (w : Option WalWriter) (id : InstanceId) (s : Submission) (a : ScheduledActionId)
      → Logged w
      → Logged (log_submit c w id s a)
  unfolding Logged log_submit
  log_submit-Logged none id s a l = tt
  log_submit-Logged (some w) id s a (world, class, ws) = (
    world,
    class,
    Sealed.submitted id s.principal s.actor s.caps s.at s.action_type_code s.action_bytes a ws,
  )

  log_step-Logged :
      (w : Option WalWriter) (id : InstanceId) (now : Tick) (caps : CapabilityMask)
      (r : InstanceStepResult)
      → Logged w
      → Logged (log_step c w id now caps r)
  unfolding Logged log_step
  log_step-Logged none id now caps r l = tt
  log_step-Logged (some w) id now caps r (world, class, ws) =
      (world, class, Sealed.stepped id r.popped_id now caps r.verdict r.digest ws)

  submit-Logged :
      (k : Kernel) (id : InstanceId) (s : Submission)
      → Logged k.wal
      → Allows (λ r. Logged r.1.wal) (Kernel.submit c k id s)
  unfolding Kernel.submit
  submit-Logged k id s l = elim (Option-cases (BTreeMap.get id k.instances)) [
    | inl missing ↦ rw (missing, Kernel.submit) l
    | inr (i, found) ↦ elim (Bool-cases (is_full i)) [
      | inl full ↦ rw (found, Kernel.submit, full) l
      | inr room ↦
          rw (found, Kernel.submit, room)
            (Allows-any (λ r. Logged r.1.wal) (admit i (entry_of s)) _
              (λ r. log_submit-Logged k.wal id s r.0 l))
    ]
  ]

  create_instance-Logged :
      (k : Kernel) (config : InstanceConfig)
      → Logged k.wal
      → Allows (λ r. Logged r.1.wal) (Kernel.create_instance k config)
  unfolding Kernel.create_instance
  create_instance-Logged k config l =
      Allows-any (λ r. Logged r.1.wal) (expect (new_id (sat_add64 k.next_instance_id 1))) _
        (λ id. l)

  force_unload-Logged :
      (k : Kernel) (route : ℕ) (caps : CapabilityMask)
      → Logged k.wal
      → Logged (Kernel.force_unload k route caps).1.wal
  unfolding Kernel.force_unload
  force_unload-Logged k route caps l = elim (Bool-cases (not (contains caps admin_unload))) [
    | inl denied ↦ rw denied l
    | inr allowed ↦ rw allowed l
  ]

  module _ (h : StateHashing) (now : Tick) (caps : CapabilityMask) where
    run_core-wal :
        (id : InstanceId) (k : Kernel) (core : Option StepCore)
        → (run_core id now k core).1.wal ≡ k.wal
    unfolding run_core finish
    run_core-wal id k none = refl
    run_core-wal id k (some core) = refl

    pub process_instance_record-wal :
        (id : InstanceId) (measure : Bool) (k : Kernel)
        → Allows (λ r. r.1.wal ≡ k.wal) (process_instance_record h k id now caps measure)
    unfolding process_instance_record
    process_instance_record-wal id measure k = elim (Option-cases (BTreeMap.get id k.instances)) [
      | inl missing ↦ rw (missing, process_instance_record) refl
      | inr (i, found) ↦
          rw (found, process_instance_record)
            (Allows-any (λ r. r.1.wal ≡ k.wal)
              (step_one_core h measure id i k.action_registry k.step_scratch now caps) _
              (λ r. run_core-wal id _ r.0))
    ]

    log_result-Logged :
        (id : InstanceId) (report : StepReport) (result : Option InstanceStepResult) (k : Kernel)
        → Logged k.wal
        → Logged (log_result c id now caps report result k).1.wal
    unfolding log_result
    log_result-Logged id report none k l = l
    log_result-Logged id report (some r) k l = log_step-Logged k.wal id now caps r l

    step_instances-Logged :
        (ids : List InstanceId) (measure : Bool) (s : StepReport × Kernel)
        → Logged s.1.wal
        → Allows (λ r. Logged r.1.wal) (step_instances h c ids now caps measure s)
    unfolding step_instances step_instance
    step_instances-Logged [] measure s l = l
    step_instances-Logged (id ∷ ids) measure (report, k) l =
        Allows->>= (λ r. Logged r.1.wal) (λ r. Logged r.1.wal) _ _
          (Allows->>= (λ r. r.1.wal ≡ k.wal) (λ r. Logged r.1.wal)
            (process_instance_record h k id now caps measure) _
            (process_instance_record-wal id measure k)
            (λ r e. log_result-Logged id report r.0 r.1 (subst Logged (sym e) l)))
          (λ t m. step_instances-Logged ids measure t m)

  module _ (h : StateHashing) where
    Reachable-Logged : (k : Kernel) → Reachable h c k → Logged k.wal
    unfolding Logged Kernel.new_with_wal_signed Kernel.register_action
        Kernel.register_observer_filtered Drive.step Kernel.from_snapshot
    Reachable-Logged _ fresh = tt
    Reachable-Logged _ (fresh_with_wal w m sig) = (w, sig, Sealed.opened m)
    Reachable-Logged _ (registered {k} a r) = Reachable-Logged k r
    Reachable-Logged _ (observed {k} obs mask r) = Reachable-Logged k r
    Reachable-Logged _ (created {k} {k'} config id r e) =
        Allows-value (λ p. Logged p.1.wal) (Kernel.create_instance k config) (id, k')
          (create_instance-Logged k config (Reachable-Logged k r)) e
    Reachable-Logged _ (submitted {k} {k'} id s res r e) =
        Allows-value (λ p. Logged p.1.wal) (Kernel.submit c k id s) (res, k')
          (submit-Logged k id s (Reachable-Logged k r)) e
    Reachable-Logged _ (unloaded {k} route caps r) =
        force_unload-Logged k route caps (Reachable-Logged k r)
    Reachable-Logged _ (restored {k} r) = tt
    Reachable-Logged _ (stepped {k} {k'} now caps report r e) =
        Allows-value (λ p. Logged p.1.wal) (Drive.step h c k now caps) (report, k')
          (step_instances-Logged h now caps (BTreeMap.keys k.instances) (is_some k.wal) _
            (Reachable-Logged k r))
          e

    pub Reachable-IsSealed :
        (k : Kernel) (w : WalWriter)
        → Reachable h c k
        → k.wal ≡ some w
        → (world : Hash) × (class : SignatureClass) × IsSealed c world class w
    unfolding Logged
    Reachable-IsSealed k w r e =
        let logged : Logged (some w) = subst Logged e (Reachable-Logged k r) in
        (logged.0, logged.1, Written-IsSealed c logged.0 logged.1 w logged.2)

    -- The log of a reachable kernel verifies under the world that its header names, in every
    -- signature class, if the algorithms are sound and the ML-DSA signer does not fail.
    pub exported_log-verifies :
        IsSound c
        → CanSign c
        → (k : Kernel) (w : WalWriter) → Reachable h c k
        → k.wal ≡ some w
        → verify_chain c (from_writer w) w.header.world_id ≡ ok tt
    unfolding Logged
    exported_log-verifies sound can k w r e =
        let logged : Logged (some w) = subst Logged e (Reachable-Logged k r) in
        let sealed = Written-IsSealed c logged.0 logged.1 w logged.2 in
        subst (λ x. verify_chain c (from_writer w) x ≡ ok tt) (sym sealed.same_world)
          (verify_chain-Written c sound can logged.0 logged.1 w logged.2)
