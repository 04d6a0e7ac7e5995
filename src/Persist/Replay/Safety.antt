-- ===== src/Persist/Replay/Safety.antt =====
-- What a replay does to a kernel, whatever the log says (persist/replay.rs).
use arkhe_kernel.Prelude.{
  ◌≤◌, true, Bool-cases, Option, none, some, List, [], ◌∷◌, Result, Result-cases, Checked, ok, err,
  inl, inr, arith, u64_max, Returns, Returns->>=, All, bytes_eq, ◌==◌,
}
use arkhe_kernel.Runtime.Step.{StateHashing}
use arkhe_kernel.Runtime.Step.Safety.{AllSafe}
use arkhe_kernel.Runtime.Kernel.{Kernel, submit_with_id}
use arkhe_kernel.Runtime.Kernel.Admission.{submit_with_id-AllSafe}
use arkhe_kernel.Runtime.Drive.{InstanceStepResult, process_instance_record}
use arkhe_kernel.Runtime.Drive.Safety.{process_instance_record-AllSafe}
use arkhe_kernel.Persist.Record
use arkhe_kernel.Persist.Record.{Hash, Submit, Step, WalRecord, WalRecordContent}
use arkhe_kernel.Persist.Signature.{Crypto}
use arkhe_kernel.Persist.Wal.{Wal, WalError, WalWriter, append_submit, append_step}
use arkhe_kernel.Persist.Verify.{TrustAnchor, verify_chain, verify_chain_anchored}
use arkhe_kernel.Persist.Replay.{
  Replaying, ReplayReport, Verdict, Outcome, start, replay_submit, replay_step, replay_record,
  replay_all, replay_records, replay_into, replay_into_verified, check_header_gates, check_manifest,
  check_tip, check_popped, check_result, written, counted, gated, of_log, submission_of, verdict_eq,
  unless_failed, count_submit, count_step,
}

-- the ids of a log are `u64`
abbrev FitsContent : WalRecordContent → Type 0
FitsContent (Record.submit r) = r.allocated_id ≤ u64_max
FitsContent (Record.step r) = Unit

abbrev pub FitsLog : Wal → Type 0
FitsLog w = All (λ r. FitsContent r.content) w.records

abbrev Safe : Verdict × Replaying → Type 0
Safe p = AllSafe p.1.kernel.instances

written_counted-Safe :
    (p : Result WalError (Unit {0}) × WalWriter) (s : Replaying) (f : ReplayReport → ReplayReport)
    → AllSafe s.kernel.instances
    → Safe (counted (written p s) f)
written_counted-Safe (ok u, w) s f safe = safe
written_counted-Safe (err e, w) s f safe = safe

module _ (c : Crypto) (h : StateHashing) where
  replay_submit-Safe :
      (s : Replaying) (r : Submit)
      → r.allocated_id ≤ u64_max
      → AllSafe s.kernel.instances
      → Safe (replay_submit c s r)
  unfolding replay_submit
  replay_submit-Safe s r fits safe =
      elim (Result-cases (submit_with_id s.kernel r.instance_id (submission_of r) r.allocated_id)) [
        | inr (e, failed) ↦ rw (failed, replay_submit) safe
        | inl (k, admitted) ↦
            rw (admitted, replay_submit)
              (written_counted-Safe
                (append_submit c s.writer r.instance_id r.principal r.actor r.caps_at_submit r.at
                  r.action_type_code r.action_bytes r.allocated_id)
                (record s { kernel = k }) count_submit
                (submit_with_id-AllSafe s.kernel k r.instance_id (submission_of r) r.allocated_id
                  fits safe admitted))
      ]

  check_result-Safe :
      (s : Replaying) (r : Step) (result : InstanceStepResult)
      → AllSafe s.kernel.instances
      → Safe (check_result c s r result)
  unfolding check_result
  check_result-Safe s r result safe = elim (Bool-cases (result.popped_id == r.popped_id)) [
    | inr other ↦ rw other safe
    | inl same ↦ elim (Bool-cases (verdict_eq result.verdict r.verdict)) [
      | inr other ↦ rw (same, other) safe
      | inl agree ↦ elim (Bool-cases (bytes_eq result.digest r.post_state_digest)) [
        | inr other ↦ rw (same, agree, other) safe
        | inl equal ↦
            rw (same, agree, equal)
              (written_counted-Safe
                (append_step c s.writer r.instance_id r.popped_id r.now r.session_caps r.verdict
                  r.post_state_digest)
                s (count_step result) safe)
      ]
    ]
  ]

  check_popped-Safe :
      (s : Replaying) (r : Step) (result : Option InstanceStepResult)
      → AllSafe s.kernel.instances
      → Safe (check_popped c s r result)
  unfolding check_popped
  check_popped-Safe s r none safe = safe
  check_popped-Safe s r (some result) safe = check_result-Safe s r result safe

  replay_record-Safe :
      (s : Replaying) (content : WalRecordContent)
      → FitsContent content
      → AllSafe s.kernel.instances
      → Returns Safe (replay_record c h s content)
  unfolding replay_record replay_step
  replay_record-Safe s (Record.submit r) fits safe = replay_submit-Safe s r fits safe
  replay_record-Safe s (Record.step r) fits safe =
      Returns->>= (λ p. AllSafe p.1.instances) Safe
        (process_instance_record h s.kernel r.instance_id r.now r.session_caps true) _
        (process_instance_record-AllSafe h s.kernel r.instance_id r.now r.session_caps true safe)
        (λ p l. check_popped-Safe (record s { kernel = p.1 }) r p.0 l)

  rest_Safe :
      (p : Verdict × Replaying) (f : Replaying → Checked (Verdict × Replaying))
      → Safe p
      → ((t : Replaying) → AllSafe t.kernel.instances → Returns Safe (f t))
      → Returns Safe (unless_failed f p)
  rest_Safe (ok u, t) f l rest = rest t l
  rest_Safe (err e, t) f l rest = l

  replay_all-Safe :
      (rs : List WalRecord) (s : Replaying)
      → All (λ r. FitsContent r.content) rs
      → AllSafe s.kernel.instances
      → Returns Safe (replay_all c h rs s)
  unfolding replay_all
  replay_all-Safe [] s fits safe = safe
  replay_all-Safe (r ∷ rs) s fits safe =
      Returns->>= Safe Safe (replay_record c h s r.content) _
        (replay_record-Safe s r.content fits.0 safe)
        (λ p l. rest_Safe p (replay_all c h rs) l (λ t m. replay_all-Safe rs t fits.1 m))

  check_tip-Safe :
      (w : Wal) (p : Verdict × Replaying) → Safe p → AllSafe (check_tip w p).1.instances
  unfolding check_tip
  check_tip-Safe w (err e, s) safe = safe
  check_tip-Safe w (ok u, s) safe = ground arith

  gated-Safe :
      (k : Kernel) (v : Verdict) (rest : Checked Outcome)
      → AllSafe k.instances
      → Returns (λ r. AllSafe r.1.instances) rest
      → Returns (λ r. AllSafe r.1.instances) (gated k v rest)
  gated-Safe k (ok u) rest safe l = l
  gated-Safe k (err e) rest safe l = safe

  replay_records-Safe :
      (k : Kernel) (w : Wal)
      → FitsLog w
      → AllSafe k.instances
      → Returns (λ r. AllSafe r.1.instances) (replay_records c h k w)
  unfolding replay_records start
  replay_records-Safe k w fits safe =
      Returns->>= Safe (λ r. AllSafe r.1.instances) (replay_all c h w.records (start c k w.header))
        _ (replay_all-Safe w.records (start c k w.header) fits safe) (λ p l. check_tip-Safe w p l)

  -- A replay never panics, whatever the log says, forged or not: on a kernel whose instances are
  -- safe, `replay_into` and `replay_into_verified` return, with a report or an error, and the
  -- instances are safe afterwards. The ids in the log are 64-bit numbers.
  pub replay_into-never_panics :
      (k : Kernel) (w : Wal) (world : Hash) (anchor : TrustAnchor)
      → FitsLog w
      → AllSafe k.instances
      → Returns (λ r. AllSafe r.1.instances) (replay_into c h k w)
        × Returns (λ r. AllSafe r.1.instances) (replay_into_verified c h k w world anchor)
  unfolding replay_into replay_into_verified
  replay_into-never_panics k w world anchor fits safe =
      let replayed = replay_records-Safe k w fits safe in
      (
        gated-Safe k (check_header_gates w.header) _ safe (
            gated-Safe k (check_manifest k w.header) _ safe
              (gated-Safe k (of_log (verify_chain c w w.header.world_id)) _ safe replayed)),
        gated-Safe k (check_header_gates w.header) _ safe
            (gated-Safe k (of_log (verify_chain_anchored c w world anchor)) _ safe replayed),
      )
