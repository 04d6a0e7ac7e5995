-- ===== src/Persist/Replay.antt =====
-- persist/replay.rs: a verified log is run again on a kernel whose instances are there already. A
-- failing replay leaves the kernel as far as it came, so every outcome carries the kernel.
pub mod Append
pub mod Live
pub mod Records
pub mod Session
pub mod Safety
pub mod Gates
use arkhe_kernel.Prelude.{
  ℕ, Bool, true, false, not, Option, none, some, List, [], ◌∷◌, Checked, done, ◌>>=◌, Result, ok,
  err, and_then, sat_add32, bytes_eq, ◌==◌, ◌&&◌, if◌then◌else◌,
}
use arkhe_kernel.Abi.{ArkheError, InstanceId}
use arkhe_kernel.State.Scheduler.Key.{ScheduledActionId}
use arkhe_kernel.Runtime.Step.{StateHashing}
use arkhe_kernel.Runtime.Kernel.{Kernel, Submission, submit_with_id}
use arkhe_kernel.Runtime.Drive.{InstanceStepResult, process_instance_record}
use arkhe_kernel.Persist.Record
use arkhe_kernel.Persist.Record.{
  Hash, zeros, StepVerdict, committed, auth_denied, budget_partial, skipped, SkipReason,
  unregistered, deser_failed, WalRecord, WalRecordContent, Submit, Step,
}
use arkhe_kernel.Persist.Signature.{Crypto}
use arkhe_kernel.Persist.Wal
use arkhe_kernel.Persist.Wal.{
  Wal, WalError, WalHeader, WalWriter, rebuild_from_header, append_submit, append_step, chain_tip,
  magic_bytes, current_kernel_semver, current_abi_version, postcard_major, blake3_major,
}
use arkhe_kernel.Persist.Verify.{TrustAnchor, verify_chain, verify_chain_anchored}

pub record ReplayReport : Type 0 where
  pub submits_replayed : ℕ
  pub steps_replayed : ℕ
  pub total_effects_applied : ℕ
  pub total_effects_denied : ℕ
  pub final_chain_tip : Hash

-- Pairs of values are what is expected and what was got.
pub data ReplayError : Type 0 where
  header_incompatible : ReplayError
  kernel_semver_mismatch : ℕ × ℕ × ℕ → ℕ × ℕ × ℕ → ReplayError
  abi_version_mismatch : ℕ × ℕ → ℕ × ℕ → ReplayError
  postcard_version_mismatch : ℕ → ℕ → ReplayError
  blake3_version_mismatch : ℕ → ℕ → ReplayError
  wal_corrupted : WalError → ReplayError
  submit_failed : ArkheError → ReplayError
  step_underflow : InstanceId → ReplayError
  -- seq
  popped_id_divergence : ℕ → ReplayError
  -- seq, expected, got
  verdict_divergence : ℕ → StepVerdict → StepVerdict → ReplayError
  -- seq
  state_digest_divergence : ℕ → ReplayError
  -- expected, measured
  chain_tip_divergence : Hash → Hash → ReplayError
  -- expected, got
  manifest_digest_mismatch : Hash → Hash → ReplayError

-- the derived equalities
unfoldable pub reason_eq : SkipReason → SkipReason → Bool
reason_eq unregistered unregistered = true
reason_eq deser_failed deser_failed = true
reason_eq _ _ = false

unfoldable pub verdict_eq : StepVerdict → StepVerdict → Bool
unfolding reason_eq
verdict_eq committed committed = true
verdict_eq auth_denied auth_denied = true
verdict_eq (budget_partial m) (budget_partial n) = m == n
verdict_eq (skipped r) (skipped s) = reason_eq r s
verdict_eq _ _ = false

abbrev pub Verdict : Type 0
Verdict = Result {0, 0} ReplayError (Unit {0})

-- the five gates, in their order
unfoldable pub check_header_gates : WalHeader → Verdict
check_header_gates h =
    if not (bytes_eq h.magic magic_bytes)
    then err header_incompatible
    else if not (h.kernel_semver.0 == current_kernel_semver.0)
    then err (kernel_semver_mismatch current_kernel_semver h.kernel_semver)
    else if not
        (h.abi_version.0 == current_abi_version.0 && h.abi_version.1 == current_abi_version.1)
    then err (abi_version_mismatch current_abi_version h.abi_version)
    else if not (h.postcard_version == postcard_major)
    then err (postcard_version_mismatch postcard_major h.postcard_version)
    else if not (h.blake3_version == blake3_major)
    then err (blake3_version_mismatch blake3_major h.blake3_version)
    else ok tt

-- what the loop over the records changes: the kernel, the writer that measures, and the report
pub record Replaying : Type 0 where
  pub kernel : Kernel
  pub writer : WalWriter
  pub report : ReplayReport

-- An error of the measuring writer stops the replay.
abbrev pub written : Result WalError (Unit {0}) × WalWriter → Replaying → Verdict × Replaying
written (ok u, w) s = (ok tt, record s { writer = w })
written (err e, w) s = (err (wal_corrupted e), record s { writer = w })

-- a submission of the log
abbrev pub submission_of : Submit → Submission
submission_of r = record {
  principal = r.principal;
  actor = r.actor;
  caps = r.caps_at_submit;
  at = r.at;
  action_type_code = r.action_type_code;
  action_bytes = r.action_bytes;
}

-- the report, as it is counted after the writer has taken the record
abbrev pub counted : Verdict × Replaying → (ReplayReport → ReplayReport) → Verdict × Replaying
counted (ok u, s) f = (ok u, record s { report = f s.report })
counted (err e, s) f = (err e, s)

abbrev pub count_submit : ReplayReport → ReplayReport
count_submit p = record p { submits_replayed = sat_add32 p.submits_replayed 1 }

abbrev pub count_step : InstanceStepResult → ReplayReport → ReplayReport
count_step r p = record p {
  steps_replayed = sat_add32 p.steps_replayed 1;
  total_effects_applied = sat_add32 p.total_effects_applied r.effects_applied;
  total_effects_denied = sat_add32 p.total_effects_denied r.effects_denied;
}

-- the report or the error, and the kernel as it is left
abbrev pub Outcome : Type 0
Outcome = Result {0, 0} ReplayError ReplayReport × Kernel

-- goes on, unless the verdict is an error
abbrev pub unless_failed :
    (Replaying → Checked (Verdict × Replaying))
    → Verdict × Replaying
    → Checked (Verdict × Replaying)
unless_failed f (ok u, s) = f s
unless_failed f (err e, s) = done (err e, s)

-- the measured tip against the sealed one
unfoldable pub check_tip : Wal → Verdict × Replaying → Outcome
check_tip w (err e, s) = (err e, s.kernel)
check_tip w (ok u, s) =
    if not (bytes_eq s.writer.prev_hash (chain_tip w))
    then (err (chain_tip_divergence (chain_tip w) s.writer.prev_hash), s.kernel)
    else (ok (record s.report { final_chain_tip = s.writer.prev_hash }), s.kernel)

-- a gate before the replay
abbrev pub gated : Kernel → Verdict → Checked Outcome → Checked Outcome
gated k (ok u) rest = rest
gated k (err e) rest = done (err e, k)

abbrev pub of_log : Result WalError (Unit {0}) → Verdict
of_log (ok u) = ok u
of_log (err e) = err (wal_corrupted e)

unfoldable pub check_manifest : Kernel → WalHeader → Verdict
check_manifest k header =
    if not (bytes_eq header.manifest_digest k.manifest_digest)
    then err (manifest_digest_mismatch header.manifest_digest k.manifest_digest)
    else ok tt

module _ (c : Crypto) where
  unfoldable pub replay_submit : Replaying → Submit → Verdict × Replaying
  replay_submit s r =
      elim (submit_with_id s.kernel r.instance_id (submission_of r) r.allocated_id) [
        | err e ↦ (err (submit_failed e), s)
        | ok k ↦
            counted
              (written
                (append_submit c s.writer r.instance_id r.principal r.actor r.caps_at_submit r.at
                  r.action_type_code r.action_bytes r.allocated_id)
                (record s { kernel = k }))
              count_submit
      ]

  -- the tripwires, and the record for the writer
  unfoldable pub check_result : Replaying → Step → InstanceStepResult → Verdict × Replaying
  unfolding verdict_eq
  check_result s r result =
      if not (result.popped_id == r.popped_id)
      then (err (popped_id_divergence r.seq), s)
      else if not (verdict_eq result.verdict r.verdict)
      then (err (verdict_divergence r.seq r.verdict result.verdict), s)
      else if not (bytes_eq result.digest r.post_state_digest)
      then (err (state_digest_divergence r.seq), s)
      else counted
          (written
            (append_step c s.writer r.instance_id r.popped_id r.now r.session_caps r.verdict
              r.post_state_digest)
            s)
          (count_step result)

  -- the branch on what the instance has executed
  unfoldable pub check_popped : Replaying → Step → Option InstanceStepResult → Verdict × Replaying
  unfolding check_result
  check_popped s r none = (err (step_underflow r.instance_id), s)
  check_popped s r (some result) = check_result s r result

  -- before the first record: nothing counted, and an unsigned writer for the same world
  unfoldable pub start : Kernel → WalHeader → Replaying
  start k header = record {
    kernel = k;
    writer = rebuild_from_header c header;
    report = record {
      submits_replayed = 0;
      steps_replayed = 0;
      total_effects_applied = 0;
      total_effects_denied = 0;
      final_chain_tip = zeros 32;
    };
  }

  module _ (h : StateHashing) where
    unfoldable pub replay_step : Replaying → Step → Checked (Verdict × Replaying)
    unfolding check_popped
    replay_step s r =
        process_instance_record h s.kernel r.instance_id r.now r.session_caps true >>= λ p.
        done (check_popped (record s { kernel = p.1 }) r p.0)

    -- the `match` on the content
    unfoldable pub replay_record : Replaying → WalRecordContent → Checked (Verdict × Replaying)
    unfolding replay_submit replay_step
    replay_record s (Record.submit r) = done (replay_submit s r)
    replay_record s (Record.step r) = replay_step s r

    -- the loop, which stops at the first error
    unfoldable pub replay_all : List WalRecord → Replaying → Checked (Verdict × Replaying)
    unfolding replay_record
    replay_all [] s = done (ok tt, s)
    replay_all (r ∷ rs) s = replay_record s r.content >>= unless_failed (replay_all rs)

    unfoldable pub replay_records : Kernel → Wal → Checked Outcome
    unfolding replay_all start check_tip
    replay_records k w = replay_all w.records (start k w.header) >>= λ p. done (check_tip w p)

    unfoldable pub replay_into : Kernel → Wal → Checked Outcome
    unfolding check_header_gates check_manifest replay_records
    replay_into k w = gated k (check_header_gates w.header) (
        gated k (check_manifest k w.header)
          (gated k (of_log (verify_chain c w w.header.world_id)) (replay_records k w)))

    unfoldable pub replay_into_verified : Kernel → Wal → Hash → TrustAnchor → Checked Outcome
    unfolding check_header_gates replay_records
    replay_into_verified k w world_id anchor =
        gated k (check_header_gates w.header)
          (gated k (of_log (verify_chain_anchored c w world_id anchor)) (replay_records k w))
