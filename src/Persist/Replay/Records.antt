-- ===== src/Persist/Replay/Records.antt =====
-- One record of a session: what the live kernel writes (runtime/kernel.rs, persist/wal.rs), and what a
-- replay that is in step with it does with that (persist/replay.rs).
use arkhe_kernel.Prelude.{
  ℕ, ◌≡◌, refl, subst, ap, true, Option, none, some, Checked, panic, done, ok, sat_add64,
  if◌then◌else◌, ltb, ◌≤◌, u64_max, Both, arith, bytes_eq_self, ◌==◌,
}
use arkhe_kernel.Order.{nat_ord}
use arkhe_kernel.BTreeMap
use arkhe_kernel.Abi.{InstanceId, Tick}
use arkhe_kernel.Abi.Caps.{CapabilityMask}
use arkhe_kernel.State.Instance.{Instance}
use arkhe_kernel.State.Scheduler.Key.{ScheduledActionId}
use arkhe_kernel.Runtime.Step.{StateHashing}
use arkhe_kernel.Runtime.Kernel.{
  Kernel, Submission, submit_with_id, admit, admit_with_id, entry_of, log_submit,
}
use arkhe_kernel.Runtime.Kernel.Admission.{new_id_next}
use arkhe_kernel.Runtime.Drive.{InstanceStepResult, process_instance_record, log_step}
use arkhe_kernel.Runtime.Drive.Twins.{Twins, TwinOutcomes, SameResult}
use arkhe_kernel.Persist.Record
use arkhe_kernel.Persist.Record.{
  Hash, StepVerdict, committed, auth_denied, budget_partial, skipped, unregistered, deser_failed,
  WalRecordContent, Submit, Step,
}
use arkhe_kernel.Persist.Signature.{Crypto, SignatureClass}
use arkhe_kernel.Persist.Wal.{WalWriter, append_submit, append_step}
use arkhe_kernel.Persist.Wal.Sealed
use arkhe_kernel.Persist.Wal.Sealed.{Written}
use arkhe_kernel.Persist.Replay.{
  Replaying, replay_record, replay_submit, replay_step, check_popped, check_result, verdict_eq,
  count_submit, count_step,
}
use arkhe_kernel.Persist.Replay.Append.{append}

verdict_eq_self : (v : StepVerdict) → verdict_eq v v ≡ true
unfolding verdict_eq
verdict_eq_self committed = refl
verdict_eq_self auth_denied = refl
verdict_eq_self (budget_partial n) = ground arith
verdict_eq_self (skipped unregistered) = refl
verdict_eq_self (skipped deser_failed) = refl

eq_self : (n : ℕ) → n == n ≡ true
eq_self n = ground arith

-- a submission that is admitted: live, and under its recorded id
pub admit-admit_with_id :
    (i : Instance) (s : Submission)
    → i.id_counters.next_scheduled ≤ u64_max
    → admit i (entry_of s)
      ≡ done (
        sat_add64 i.id_counters.next_scheduled 1,
        admit_with_id i s (sat_add64 i.id_counters.next_scheduled 1),
      )
unfolding admit admit_with_id
admit-admit_with_id i s fits =
    let next = sat_add64 i.id_counters.next_scheduled 1 in
    let newer : (if ltb i.id_counters.next_scheduled next
          then next
          else i.id_counters.next_scheduled)
        ≡ next =
      ground arith in
    rw (new_id_next i.id_counters.next_scheduled, newer) refl

pub submit_with_id-found :
    (k : Kernel) (id : InstanceId) (s : Submission) (action : ScheduledActionId) (i : Instance)
    → BTreeMap.get id k.instances ≡ some i
    → submit_with_id k id s action
      ≡ ok (record k { instances = BTreeMap.insert id (admit_with_id i s action) k.instances })
unfolding submit_with_id
submit_with_id-found k id s action i found = rw (found, submit_with_id) refl

-- the submission under its number in the log
abbrev pub submit_content : InstanceId → Submission → ScheduledActionId → ℕ → WalRecordContent
submit_content id s action n = Record.submit (record {
  seq = n;
  instance_id = id;
  principal = s.principal;
  actor = s.actor;
  caps_at_submit = s.caps;
  at = s.at;
  action_type_code = s.action_type_code;
  action_bytes = s.action_bytes;
  allocated_id = action;
})

abbrev pub step_of : InstanceId → Tick → CapabilityMask → InstanceStepResult → ℕ → Step
step_of id now caps r n = record {
  seq = n;
  instance_id = id;
  popped_id = r.popped_id;
  now = now;
  session_caps = caps;
  verdict = r.verdict;
  post_state_digest = r.digest;
}

abbrev pub step_content :
    InstanceId → Tick → CapabilityMask → InstanceStepResult → ℕ → WalRecordContent
step_content id now caps r n = Record.step (step_of id now caps r n)

module _ (c : Crypto) (h : StateHashing) where
  pub log_submit-append :
      (w v : WalWriter) (id : InstanceId) (s : Submission) (action : ScheduledActionId)
      → append c w (submit_content id s action) ≡ (ok tt, v)
      → log_submit c (some w) id s action ≡ some v
  unfolding log_submit append_submit
  log_submit-append w v id s action e = ap (λ p. some p.1) e

  pub replay_submit-same :
      (id : InstanceId) (sub : Submission) (action : ScheduledActionId) (n : ℕ) (i : Instance)
      (s : Replaying) (v : WalWriter)
      → BTreeMap.get id s.kernel.instances ≡ some i
      → append c s.writer (submit_content id sub action) ≡ (ok tt, v)
      → replay_record c h s (submit_content id sub action n)
        ≡ done (
          ok tt,
          record s {
            kernel = record s.kernel {
              instances = BTreeMap.insert id (admit_with_id i sub action) s.kernel.instances;
            };
            writer = v;
            report = count_submit s.report;
          },
        )
  unfolding replay_record replay_submit append_submit
  replay_submit-same id sub action n i s v found w =
      let admitted = submit_with_id-found s.kernel id sub action i found in
      rw (admitted, replay_submit, w) refl

  check_result-same :
      (id : InstanceId) (now : Tick) (caps : CapabilityMask) (r q : InstanceStepResult) (n : ℕ)
      (s : Replaying) (v : WalWriter)
      → SameResult (some r) (some q)
      → append c s.writer (step_content id now caps r) ≡ (ok tt, v)
      → check_result c s (step_of id now caps r n) q
        ≡ (ok tt, record s { writer = v; report = count_step r s.report })
  unfolding check_result SameResult append_step
  check_result-same id now caps r q n s v e w =
      subst
        (λ x.
          check_result c s (step_of id now caps r n) x
          ≡ (ok tt, record s { writer = v; report = count_step r s.report }))
        e (rw (eq_self r.popped_id, verdict_eq_self r.verdict, bytes_eq_self r.digest, w) refl)

  -- one instance that has executed an action
  pub replay_step-same :
      (id : InstanceId) (now : Tick) (caps : CapabilityMask) (r : InstanceStepResult) (n : ℕ)
      (s : Replaying) (v : WalWriter) (outcome : Checked (Option InstanceStepResult × Kernel))
      (k1 : Kernel)
      → process_instance_record h s.kernel id now caps true ≡ outcome
      → Both TwinOutcomes (done (some r, k1)) outcome
      → append c s.writer (step_content id now caps r) ≡ (ok tt, v)
      → (l : Kernel) × Twins k1 l
        × (replay_record c h s (step_content id now caps r n)
            ≡ done (ok tt, record s { kernel = l; writer = v; report = count_step r s.report }))
  unfolding replay_record replay_step check_popped SameResult
  replay_step-same id now caps r n s v panic k1 e b w = absurd b
  replay_step-same id now caps r n s v (done (none, l)) k1 e b w = absurd b.0
  replay_step-same id now caps r n s v (done (some q, l)) k1 e b w = (
    l,
    b.1,
    rw e (ap (λ x. done x) (check_result-same id now caps r q n (record s { kernel = l }) v b.0 w)),
  )

  pub log_step-append :
      (w v : WalWriter) (id : InstanceId) (now : Tick) (caps : CapabilityMask)
      (r : InstanceStepResult)
      → append c w (step_content id now caps r) ≡ (ok tt, v)
      → log_step c (some w) id now caps r ≡ some v
  unfolding log_step append_step
  log_step-append w v id now caps r e = ap (λ p. some p.1) e

  pub Written-submitted :
      (world : Hash) (class : SignatureClass) (w v : WalWriter) (id : InstanceId) (s : Submission)
      (action : ScheduledActionId)
      → append c w (submit_content id s action) ≡ (ok tt, v)
      → Written c world class w
      → Written c world class v
  unfolding append_submit
  Written-submitted world class w v id s action e ws =
      subst (Written c world class) (ap (λ p. p.1) e) (
        Sealed.submitted id s.principal s.actor s.caps s.at s.action_type_code s.action_bytes action
          ws)

  pub Written-stepped :
      (world : Hash) (class : SignatureClass) (w v : WalWriter) (id : InstanceId) (now : Tick)
      (caps : CapabilityMask) (r : InstanceStepResult)
      → append c w (step_content id now caps r) ≡ (ok tt, v)
      → Written c world class w
      → Written c world class v
  unfolding append_step
  Written-stepped world class w v id now caps r e ws =
      subst (Written c world class) (ap (λ p. p.1) e)
        (Sealed.stepped id r.popped_id now caps r.verdict r.digest ws)
