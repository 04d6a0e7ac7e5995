-- ===== src/Persist/Replay/Live.antt =====
-- A kernel that keeps a log (runtime/kernel.rs), beside the replay of that log so far
-- (persist/replay.rs) on a second kernel with the same instances.
use arkhe_kernel.Prelude.{
  ℕ, ◌≡◌, ◌∙◌, refl, sym, subst, true, Bool-cases, Option, Option-cases, none, some, List, [], ◌∷◌,
  Checked, panic, done, ◌>>=◌, ok, sat_add64, Returns, Returns->>=, Both, Allows, is_some, inl, inr,
}
use arkhe_kernel.Order.{nat_ord}
use arkhe_kernel.BTreeMap
use arkhe_kernel.BTreeMap.Lookup.{insert-Everywhere, get-Everywhere}
use arkhe_kernel.Abi.{InstanceId, Tick}
use arkhe_kernel.Abi.Caps.{CapabilityMask}
use arkhe_kernel.State.Instance.{Instance}
use arkhe_kernel.State.Scheduler.Key.{ScheduledActionId}
use arkhe_kernel.Runtime.Step.{StateHashing}
use arkhe_kernel.Runtime.Step.Safety.{IsSafe, AllSafe}
use arkhe_kernel.Runtime.Kernel.{
  Kernel, Submission, submit, is_full, admit_with_id, entry_of, log_submit,
}
use arkhe_kernel.Runtime.Kernel.Admission.{admit-IsSafe}
use arkhe_kernel.Runtime.Drive.{
  InstanceStepResult, StepReport, process_instance_record, log_result, log_step, step_instance,
  step_instances, step,
}
use arkhe_kernel.Runtime.Drive.Safety.{process_instance_record-AllSafe}
use arkhe_kernel.Runtime.Drive.Twins.{
  Twins, Twins-trans, Twins-sym, TwinOutcomes, insert-SameInstances,
}
use arkhe_kernel.Runtime.Drive.Twins.Process.{
  process_instance_record-Twins, process_instance_record-idle,
}
use arkhe_kernel.Runtime.Reach.Log.{process_instance_record-wal}
use arkhe_kernel.Persist.Record.{Hash, WalRecordContent}
use arkhe_kernel.Persist.Signature.{Crypto, SignatureClass}
use arkhe_kernel.Persist.Wal.{WalHeader, WalWriter}
use arkhe_kernel.Persist.Wal.Sealed.{Written}
use arkhe_kernel.Persist.Replay.{
  Replaying, ReplayReport, start, replay_all, replay_record, count_submit, count_step,
}
use arkhe_kernel.Persist.Replay.Append.{Encodes, Synced, Appended, append-Appended, replay_all-snoc}
use arkhe_kernel.Persist.Replay.Records.{
  admit-admit_with_id, submit_content, step_content, log_submit-append, log_step-append,
  Written-submitted, Written-stepped, replay_submit-same, replay_step-same,
}

abbrev zero_report : StepReport
zero_report = record {
  actions_executed = 0;
  effects_applied = 0;
  effects_denied = 0;
  observers_evicted = 0;
  domain_events_emitted = 0;
}

module _ (c : Crypto) (h : StateHashing) (enc : Encodes c) (origin : Kernel) (header : WalHeader)
    (world : Hash) (class : SignatureClass) where
  -- the kernel's log, replayed from the origin without an error
  pub record Tracked (k : Kernel) : Type 0 where
    pub writer : WalWriter
    pub logged : k.wal ≡ some writer
    pub written : Written c world class writer
    pub same_header : writer.header ≡ header
    pub state : Replaying
    pub replayed : replay_all c h writer.records (start c origin header) ≡ done (ok tt, state)
    pub synced : Synced c writer state.writer
    pub twins : Twins k state.kernel
    pub safe : AllSafe k.instances

  -- one record more on both sides
  extend :
      (k k' l : Kernel) (t : Tracked k) (content : ℕ → WalRecordContent)
      (count : ReplayReport → ReplayReport) (a : Appended c t.writer t.state.writer content)
      → k'.wal ≡ some a.live
      → Written c world class a.live
      → replay_record c h t.state (content (sat_add64 t.writer.next_seq 1))
        ≡ done (
          ok tt,
          record t.state { kernel = l; writer = a.measured; report = count t.state.report },
        )
      → Twins k' l
      → AllSafe k'.instances
      → Tracked k'
  extend k k' l t content count a logged written replayed twins safe =
      let u : Replaying = record t.state {
        kernel = l;
        writer = a.measured;
        report = count t.state.report;
      } in
      record {
        writer = a.live;
        logged = logged;
        written = written;
        same_header = a.header ∙ t.same_header;
        state = u;
        replayed = rw (a.records) (
            replay_all-snoc c h t.writer.records a.last (start c origin header) t.state u
              (rw (a.last_content) replayed) t.replayed);
        synced = a.synced;
        twins = twins;
        safe = safe;
      }

  admitted-Tracked :
      (k : Kernel) (id : InstanceId) (s : Submission) (i : Instance) (t : Tracked k)
      (action : ScheduledActionId)
      → BTreeMap.get id k.instances ≡ some i
      → IsSafe (admit_with_id i s action)
      → Tracked (record k {
        instances = BTreeMap.insert id (admit_with_id i s action) k.instances;
        wal = log_submit c k.wal id s action;
      })
  admitted-Tracked k id s i t action found safe =
      let a = append-Appended c enc t.writer t.state.writer (submit_content id s action) t.synced in
      extend k _ _ t (submit_content id s action) count_submit a
        (rw (t.logged) (log_submit-append c h t.writer a.live id s action a.live_eq))
        (Written-submitted c h world class t.writer a.live id s action a.live_eq t.written)
        (replay_submit-same c h id s action _ i t.state a.measured
          (sym (t.twins.instances id) ∙ found) a.measured_eq)
        (record {
          instances =
              insert-SameInstances id _ k.instances t.state.kernel.instances t.twins.instances;
          registry = t.twins.registry;
        })
        (insert-Everywhere IsSafe id _ k.instances safe t.safe)

  -- the same instances are re-admitted under the recorded ids
  pub submit-Tracked :
      (k : Kernel) (id : InstanceId) (s : Submission)
      → Tracked k
      → Returns (λ p. Tracked p.1) (submit c k id s)
  unfolding submit
  submit-Tracked k id s t = elim (Option-cases (BTreeMap.get id k.instances)) [
    | inl missing ↦ rw (missing, submit) t
    | inr (i, found) ↦ elim (Bool-cases (is_full i)) [
      | inl full ↦ rw (found, submit, full) t
      | inr room ↦
          let held = get-Everywhere IsSafe id i k.instances t.safe found in
          let same = admit-admit_with_id i s held.1 in
          rw (found, submit, room, same)
            (admitted-Tracked k id s i t _ found
              (subst (Returns (λ r. IsSafe r.1)) same (admit-IsSafe i (entry_of s) held)))
    ]
  ]

  -- an action that was executed, which gets a record
  executed-Tracked :
      (id : InstanceId) (now : Tick) (caps : CapabilityMask) (k k1 : Kernel)
      (r : InstanceStepResult) (t : Tracked k)
      → k1.wal ≡ k.wal
      → AllSafe k1.instances
      → Both TwinOutcomes
          (done (some r, k1))
          (process_instance_record h t.state.kernel id now caps true)
      → Tracked (record k1 { wal = log_step c k1.wal id now caps r })
  executed-Tracked id now caps k k1 r t same_wal safe both =
      let a = append-Appended c enc t.writer t.state.writer (step_content id now caps r) t.synced in
      let replayed =
        replay_step-same c h id now caps r (sat_add64 t.writer.next_seq 1) t.state a.measured _ k1
          refl both a.measured_eq in
      extend k _ replayed.0 t (step_content id now caps r) (count_step r) a
        (rw (same_wal ∙ t.logged) (log_step-append c h t.writer a.live id now caps r a.live_eq))
        (Written-stepped c h world class t.writer a.live id now caps r a.live_eq t.written)
        replayed.2 (record { instances = replayed.1.instances; registry = replayed.1.registry })
        safe

  log_outcome-Tracked :
      (id : InstanceId) (now : Tick) (caps : CapabilityMask) (k : Kernel) (report : StepReport)
      (t : Tracked k) (m : Checked (Option InstanceStepResult × Kernel))
      → Returns (λ p. AllSafe p.1.instances) m
      → Allows (λ p. p.1.wal ≡ k.wal) m
      → Allows (λ p. p.0 ≡ none → Twins k p.1) m
      → Both TwinOutcomes m (process_instance_record h t.state.kernel id now caps true)
      → Returns (λ p. Tracked p.1) (m >>= λ p. done (log_result c id now caps report p.0 p.1))
  unfolding log_result
  log_outcome-Tracked id now caps k report t panic safe wal idle both = absurd safe
  log_outcome-Tracked id now caps k report t (done (none, k1)) safe wal idle both = record {
    writer = t.writer;
    logged = wal ∙ t.logged;
    written = t.written;
    same_header = t.same_header;
    state = t.state;
    replayed = t.replayed;
    synced = t.synced;
    twins = Twins-trans k1 k t.state.kernel (Twins-sym k k1 (idle refl)) t.twins;
    safe = safe;
  }
  log_outcome-Tracked id now caps k report t (done (some r, k1)) safe wal idle both =
      executed-Tracked id now caps k k1 r t wal safe both

  step_instances-Tracked :
      (ids : List InstanceId) (now : Tick) (caps : CapabilityMask) (s : StepReport × Kernel)
      → Tracked s.1
      → Returns (λ p. Tracked p.1) (step_instances h c ids now caps true s)
  unfolding step_instances step_instance
  step_instances-Tracked [] now caps s t = t
  step_instances-Tracked (id ∷ ids) now caps (report, k) t =
      Returns->>= (λ p. Tracked p.1) (λ p. Tracked p.1)
        (step_instance h c id now caps true (report, k)) _
        (log_outcome-Tracked id now caps k report t (process_instance_record h k id now caps true)
          (process_instance_record-AllSafe h k id now caps true t.safe)
          (process_instance_record-wal c h now caps id true k)
          (process_instance_record-idle h true id now caps k)
          (process_instance_record-Twins h true id now caps k t.state.kernel t.twins))
        (λ q u. step_instances-Tracked ids now caps q u)

  pub step-Tracked :
      (k : Kernel) (now : Tick) (caps : CapabilityMask)
      → Tracked k
      → Returns (λ p. Tracked p.1) (step h c k now caps)
  unfolding step
  step-Tracked k now caps t =
      subst
        (λ w.
          Returns (λ p. Tracked p.1)
            (step_instances h c (BTreeMap.keys k.instances) now caps (is_some w) (zero_report, k)))
        (sym t.logged)
        (step_instances-Tracked (BTreeMap.keys k.instances) now caps (zero_report, k) t)
