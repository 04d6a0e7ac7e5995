-- ===== src/Lib.antt =====
-- ArkheKernel: a deterministic microkernel in Rust, whose state changes only by actions that pass
-- a capability check, and are logged in a hash chain that can be verified and replayed.
--
-- How the program works, and which file models what (paths from the repository's root, in
-- arkhe-kernel/src):
--   A kernel holds instances. An application submits an action to an instance, with a capability
--   ceiling; the action waits in the instance's scheduler. A step pops one due action of each
--   instance, computes its list of ops on a read-only view, passes each op through the
--   authorisation, a byte budget and two quotas, collects the writes in a stage, and applies the
--   stage, or drops it if an op was not authorised. Then the observers are told, signals are put in
--   the inboxes of other instances, and an attached log gets one record.
-- - Prelude: shared helpers. Prelude.Fallible has `Checked`, where `panic` is a Rust panic, and
--   `Result`; Prelude.Words the saturating arithmetic of u32, u64 and u128 on native numbers.
-- - Order, BTreeMap: std's `BTreeMap` and `BTreeSet` as ascending lists over a lawful comparison.
-- - Abi: abi/ids.rs, principal.rs, error.rs. Abi.Caps: abi/caps.rs.
-- - State.Op, State.Config: state/op.rs, config.rs. State.Authz: state/authz.rs (`effective_caps`,
--   `authorize`). State.Quota: state/quota.rs. State.Scheduler: state/scheduler.rs.
--   State.Ledger: state/ledger.rs. State.Instance: state/instance.rs.
-- - Runtime.Event, Observer, Stage, Dispatch, Apply, Registry: the files of runtime/ of these
--   names. Runtime.Gate, Step, Drive, Kernel: runtime/kernel.rs, namely the loop over the ops, the
--   rest of `step_one_core`, `process_instance_record` with `step`, and the other methods.
-- - Runtime.View: runtime/view.rs. Runtime.Export: what a kernel shows of its log.
-- - Persist.Record, Wal, Verify, Archive: persist/wal.rs. Persist.Signature: persist/signature.rs.
--   Persist.Replay: persist/replay.rs. Persist.Snapshot: persist/snapshot.rs.
--   State.Scheduler.Validate: `Scheduler::validate`.
-- - Runtime.Reach: the kernels that the public methods lead to, as a data type.
--   Persist.Replay.Session: the sessions whose log is replayed. Runtime.Drive.Twins: two kernels
--   that agree in all that a step reads, the live one and the one of the replay.
-- - State.Scheduler.Consistent: what the three tables of the scheduler mean together, and the map
--   from ids to entries that they implement.
-- - Tests: concrete kernels and logs, and the theorems applied to them.
-- A method that mutates takes the state and returns the new one, beside its result. The child
-- modules named for what they prove hold the theorems.
--
-- Parameters: the operations of `Crypto` (postcard, BLAKE3, Ed25519, ML-DSA 65), of `StateHashing`,
-- of `SnapshotCodec` and of `WalCodec`, with what they document as hypotheses (`IsSound`,
-- `HashSize`, `CanSign`, `Encodes`, `Decodes`; and that a decoder undoes its encoder); the decoder
-- and the `compute` of an action, any function of its context that returns; an observer, any
-- function of the events that it has received, which says whether it panics.
--
-- Bounds: numbers are natural numbers, and every operation that saturates or narrows in the source
-- is written out at its width. `usize` has 64 bits. All loops are structural: no fuel is used.
--
-- Not modelled: key generation, Display, the derive macros, the example and the benchmarks. A log
-- does not hold the methods that write no record (`create_instance`, `register_action`,
-- `force_unload`), so that a session that is replayed has them before its first record.
pub mod Prelude
pub mod Order
pub mod BTreeMap
pub mod Abi
pub mod State
pub mod Persist
pub mod Runtime
pub mod Tests
