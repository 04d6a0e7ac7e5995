-- ===== src/Tests/Replays.antt =====
-- The theorems on replays and snapshots, applied.
use arkhe_kernel.Prelude.{
  ◌≡◌, ◌≢◌, ◌⊎◌, refl, some, none, ok, err, done, [], ◌∷◌, Returns, Allows, arith, subst,
}
use arkhe_kernel.Order.{nat_ord}
use arkhe_kernel.BTreeMap
use arkhe_kernel.Abi.{Bytes}
use arkhe_kernel.State.Scheduler
use arkhe_kernel.Runtime.Drive
use arkhe_kernel.Runtime.Drive.{StepReport}
use arkhe_kernel.Runtime.Drive.Twins.{Twins-refl}
use arkhe_kernel.Runtime.Kernel
use arkhe_kernel.Runtime.Kernel.{Kernel}
use arkhe_kernel.Runtime.Reach.Fit.{HasRoom}
use arkhe_kernel.Persist.Snapshot.Reload.{deserialize-serialize}
use arkhe_kernel.Runtime.Reach.Safety.{Reachable-AllSafe}
use arkhe_kernel.Runtime.Step
use arkhe_kernel.Runtime.Registry
use arkhe_kernel.State.Scheduler.Key.{sched_key_ord}
use arkhe_kernel.Persist.Record.{zero_hash}
use arkhe_kernel.Persist.Signature.{SignatureClass}
use arkhe_kernel.Persist.Wal.{WalWriter, from_writer, append_step, append_submit, with_signature}
use arkhe_kernel.Persist.Replay.{ReplayError, replay_into, replay_into_verified}
use arkhe_kernel.Persist.Replay.Safety.{FitsLog, replay_into-never_panics}
use arkhe_kernel.Persist.Replay.Gates.{Admissible, Accepted, replay_into-Accepted}
use arkhe_kernel.Persist.Snapshot
use arkhe_kernel.Persist.Snapshot.{SnapshotCodec, integrity_mismatch}
use arkhe_kernel.Persist.Snapshot.Loading.{
  Decodes, Typed, deserialize-never_panics, deserialize-snapshot, deserialize_verified-digest,
}
use arkhe_kernel.Runtime.Step.Safety.{AllSafe}
use arkhe_kernel.State.Instance
use arkhe_kernel.State.Scheduler.Consistent.{IsValid}
use arkhe_kernel.State.Scheduler.Consistent.Used
use arkhe_kernel.State.Scheduler.Consistent.Used.{Used-IsValid}
use arkhe_kernel.BTreeMap.Lookup.{Everywhere}
use arkhe_kernel.Persist.Replay.Append.{Encodes}
use arkhe_kernel.Persist.Replay.Session.{
  Session, begin, submitted, stepped, Reproduces, replay_into-Session,
}
use arkhe_kernel.Tests.Fixtures.{
  plain_crypto, plain_hashing, one_instance, one_action, first_submission, kernel_of,
}
use arkhe_kernel.Tests.Kernels.{one_instance-Reachable}
use arkhe_kernel.Tests.Logs.{plain_crypto-IsSound, plain_crypto-CanSign, opened_log, anchor}

plain_crypto-Encodes : Encodes plain_crypto
plain_crypto-Encodes content prev = (prev, refl)

-- a submission and a step
abbrev one_step : Kernel
one_step = kernel_of one_action (Drive.step plain_hashing plain_crypto one_action 0 1)

abbrev one_report : StepReport
one_report = record {
  actions_executed = 1;
  effects_applied = 0;
  effects_denied = 0;
  observers_evicted = 0;
  domain_events_emitted = 0;
}

abbrev session_log : WalWriter
session_log = elim one_step.wal [ none ↦ opened_log | some w ↦ w ]

one_step-Session : Session plain_hashing plain_crypto one_instance one_step
unfolding Kernel.create_instance Kernel.submit BTreeMap.get BTreeMap.insert nat_ord
    Kernel.new_with_wal_signed Kernel.is_full Kernel.admit Scheduler.len Drive.step
    Scheduler.pop_due BTreeMap.keys Drive.process_instance_record Step.step_one_core BTreeMap.first
    sched_key_ord Step.run_entry Registry.get Step.idle_core Scheduler.schedule_with_id
one_step-Session = stepped 0 1 one_report (submitted 1 first_submission (ok 1) begin refl) refl

replay_into-Session_example :
    Returns
      (Reproduces one_step session_log)
      (replay_into plain_crypto plain_hashing one_instance (from_writer session_log))
unfolding Kernel.create_instance Kernel.submit BTreeMap.get BTreeMap.insert nat_ord
    Kernel.new_with_wal_signed Kernel.is_full Kernel.admit Scheduler.len Drive.step
    Scheduler.pop_due BTreeMap.keys Drive.process_instance_record Step.step_one_core BTreeMap.first
    sched_key_ord Step.run_entry Registry.get Step.idle_core Scheduler.schedule_with_id
    Kernel.log_submit
replay_into-Session_example =
    replay_into-Session plain_hashing plain_crypto plain_crypto-Encodes zero_hash zero_hash
      (SignatureClass.hybrid [] []) one_instance plain_crypto-IsSound plain_crypto-CanSign refl
      one_instance refl (Twins-refl one_instance)
      (Reachable-AllSafe plain_hashing plain_crypto one_instance one_instance-Reachable) one_step
      session_log one_step-Session refl

session_log-Fits : FitsLog (from_writer session_log)
unfolding Kernel.create_instance Kernel.submit BTreeMap.get BTreeMap.insert nat_ord
    Kernel.new_with_wal_signed Kernel.is_full Kernel.admit Scheduler.len Drive.step
    Scheduler.pop_due BTreeMap.keys Drive.process_instance_record Step.step_one_core BTreeMap.first
    sched_key_ord Step.run_entry Registry.get Step.idle_core Scheduler.schedule_with_id
    Kernel.log_submit from_writer append_step append_submit with_signature
session_log-Fits = omega arith

replay_into-never_panics_example :
    Returns
      (λ r. AllSafe r.1.instances)
      (replay_into plain_crypto plain_hashing one_instance (from_writer session_log))
    × Returns
        (λ r. AllSafe r.1.instances)
        (replay_into_verified plain_crypto plain_hashing one_instance
          (from_writer session_log)
          zero_hash
          anchor)
replay_into-never_panics_example =
    replay_into-never_panics plain_crypto plain_hashing one_instance (from_writer session_log)
      zero_hash anchor session_log-Fits
      (Reachable-AllSafe plain_hashing plain_crypto one_instance one_instance-Reachable)

replay_into-Accepted_example :
    Allows
      (Accepted plain_crypto one_instance (from_writer session_log))
      (replay_into plain_crypto plain_hashing one_instance (from_writer session_log))
    × (¬ Admissible plain_crypto one_instance (from_writer session_log)
        → (e : ReplayError) × (replay_into plain_crypto plain_hashing one_instance
              (from_writer session_log)
            ≡ done (err e, one_instance)))
replay_into-Accepted_example =
    replay_into-Accepted plain_crypto plain_hashing one_instance (from_writer session_log)

-- a codec of one snapshot
abbrev one_snapshot : SnapshotCodec
one_snapshot = record {
  encode = λ s. some (1 ∷ []);
  decode = λ bytes. some (Kernel.snapshot one_instance);
  hash = λ bytes. bytes;
}

empty_snapshot : Everywhere (λ i. IsValid i.scheduler) one_instance.instances
unfolding Everywhere Kernel.create_instance Kernel.new_with_wal_signed BTreeMap.insert
empty_snapshot = (Used-IsValid Scheduler.new Used.empty, tt)

one_instance-HasRoom : Everywhere HasRoom one_instance.instances
unfolding Everywhere Kernel.create_instance Kernel.new_with_wal_signed BTreeMap.insert
one_instance-HasRoom = ((omega arith, omega arith), tt)

one_snapshot-Decodes : Decodes one_snapshot
unfolding Everywhere Kernel.snapshot Kernel.snapshot_all Kernel.create_instance
    Kernel.new_with_wal_signed BTreeMap.insert Instance.to_snapshot
one_snapshot-Decodes bytes s e =
    let same : Kernel.snapshot one_instance ≡ s = cc in
    subst (λ x. Everywhere Typed x.instances) same
      (((Used-IsValid Scheduler.new Used.empty).0, omega arith), tt)

deserialize-serialize_example :
    (s : Kernel.KernelSnapshot) × (Snapshot.deserialize one_snapshot (1 ∷ []) ≡ ok s)
    × (Snapshot.deserialize_verified one_snapshot (1 ∷ []) (Snapshot.digest one_snapshot (1 ∷ []))
        ≡ ok s)
    × ((Kernel.from_snapshot s).instances ≡ one_instance.instances)
    × ((Kernel.from_snapshot s).next_instance_id ≡ one_instance.next_instance_id)
unfolding Snapshot.serialize
deserialize-serialize_example =
    deserialize-serialize plain_hashing plain_crypto one_snapshot one_instance (1 ∷ [])
      one_instance-Reachable one_instance-HasRoom (λ e. refl) refl

one_instance_accepted :
    Snapshot.deserialize one_snapshot (1 ∷ []) ≡ ok (Kernel.snapshot one_instance)
one_instance_accepted = deserialize-snapshot one_snapshot one_instance (1 ∷ []) empty_snapshot refl

deserialize-never_panics_example :
    Returns
      (λ r. AllSafe r.1.instances)
      (Kernel.submit plain_crypto
        (Kernel.from_snapshot (Kernel.snapshot one_instance))
        1
        first_submission)
    × Returns
        (λ r. AllSafe r.1.instances)
        (Drive.step plain_hashing plain_crypto
          (Kernel.from_snapshot (Kernel.snapshot one_instance))
          0
          1)
unfolding Kernel.from_snapshot
deserialize-never_panics_example =
    deserialize-never_panics one_snapshot one_snapshot-Decodes (1 ∷ [])
      (Kernel.snapshot one_instance) one_instance_accepted plain_hashing plain_crypto [] 1
      first_submission 0 1

deserialize_verified-digest_example :
    ((s : Kernel.KernelSnapshot)
      → Snapshot.deserialize_verified one_snapshot (1 ∷ []) (Snapshot.digest one_snapshot (2 ∷ []))
        ≡ ok s
      → (Snapshot.deserialize one_snapshot (2 ∷ []) ≡ ok s)
        ⊎ (◌≢◌ {A = Bytes} (1 ∷ []) (2 ∷ [])
            × (one_snapshot.hash (1 ∷ []) ≡ one_snapshot.hash (2 ∷ []))))
    × (one_snapshot.hash (1 ∷ []) ≢ one_snapshot.hash (2 ∷ [])
        → Snapshot.deserialize_verified one_snapshot
            (1 ∷ [])
            (Snapshot.digest one_snapshot (2 ∷ []))
          ≡ err integrity_mismatch)
deserialize_verified-digest_example = deserialize_verified-digest one_snapshot (1 ∷ []) (2 ∷ [])
