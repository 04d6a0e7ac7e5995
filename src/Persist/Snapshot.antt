-- ===== src/Persist/Snapshot.antt =====
-- persist/snapshot.rs: the bytes of a kernel snapshot, and what is checked when they are read back.
-- postcard and BLAKE3 are other crates: their operations are the fields of `SnapshotCodec`.
pub mod Loading
pub mod Reload
use arkhe_kernel.Prelude.{
  ℕ, not, Option, none, some, List, [], ◌∷◌, Result, ok, err, and_then, length, bytes_eq,
  if◌then◌else◌,
}
use arkhe_kernel.BTreeMap
use arkhe_kernel.BTreeMap.{BTreeMap}
use arkhe_kernel.Abi.{InstanceId, Bytes}
use arkhe_kernel.State.Instance.{InstanceSnapshot}
use arkhe_kernel.State.Scheduler.{Scheduler}
use arkhe_kernel.State.Scheduler.Validate.{Inconsistency, Check, validate}
use arkhe_kernel.Runtime.Kernel.{KernelSnapshot}
use arkhe_kernel.Persist.Record.{Hash}

pub record SnapshotCodec : Type 0 where
  -- `postcard::to_allocvec` and `postcard::from_bytes`
  pub encode : KernelSnapshot → Option Bytes
  pub decode : Bytes → Option KernelSnapshot
  -- `blake3::hash`
  pub hash : Bytes → Hash

-- Where the source formats a message, it carries what the message names.
pub data SnapshotError : Type 0 where
  serialize_failed deserialize_failed integrity_mismatch : SnapshotError
  inconsistent : InstanceId → Inconsistency → SnapshotError

abbrev pub Validated : Type 0
Validated = Result {0, 0} SnapshotError (Unit {0})

-- `map_err`
abbrev pub of_check : InstanceId → Check → Validated
of_check id (ok u) = ok tt
of_check id (err reason) = err (inconsistent id reason)

-- the loop of `validate_structure`
unfoldable pub validate_instances : BTreeMap InstanceId InstanceSnapshot → Validated
validate_instances [] = ok tt
validate_instances ((id, inst) ∷ m) =
    and_then (of_check id (validate inst.scheduler)) λ _. validate_instances m

unfoldable pub validate_structure : KernelSnapshot → Validated
unfolding validate_instances
validate_structure s = validate_instances s.instances

-- `instance_count` and `instance_ids`
unfoldable pub instance_count : KernelSnapshot → ℕ
instance_count s = length s.instances

unfoldable pub instance_ids : KernelSnapshot → List InstanceId
instance_ids s = BTreeMap.keys s.instances

module _ (d : SnapshotCodec) where
  unfoldable pub serialize : KernelSnapshot → Result SnapshotError Bytes
  serialize s = elim (d.encode s) [ none ↦ err serialize_failed | some bytes ↦ ok bytes ]

  unfoldable pub deserialize : Bytes → Result SnapshotError KernelSnapshot
  unfolding validate_structure
  deserialize bytes = elim (d.decode bytes) [
    | none ↦ err deserialize_failed
    | some snap ↦ and_then (validate_structure snap) λ _. ok snap
  ]

  unfoldable pub digest : Bytes → Hash
  digest bytes = d.hash bytes

  unfoldable pub deserialize_verified : Bytes → Hash → Result SnapshotError KernelSnapshot
  unfolding deserialize
  deserialize_verified bytes expected =
      if not (bytes_eq (d.hash bytes) expected) then err integrity_mismatch else deserialize bytes
