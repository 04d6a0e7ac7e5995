-- ===== src/Persist/Snapshot/Loading.antt =====
-- Kernels that are restored from the bytes of a snapshot (persist/snapshot.rs, runtime/kernel.rs).
use arkhe_kernel.Prelude.{
  ◌≡◌, ◌≢◌, ◌≤◌, ◌⊎◌, ◌∙◌, refl, ap, subst, Bool-cases, false, Option-cases, some, [], ◌∷◌, Result,
  ok, err, inl, inr, u64_max, arith, Returns, bytes_eq, bytes_eq_self, eq_of_bytes_eq, ok-injective,
  and_then-ok,
}
use arkhe_kernel.Order.{nat_ord}
use arkhe_kernel.BTreeMap.{BTreeMap}
use arkhe_kernel.BTreeMap.Lookup.{Everywhere}
use arkhe_kernel.Abi.{InstanceId, Tick, Bytes}
use arkhe_kernel.Abi.Caps.{CapabilityMask}
use arkhe_kernel.State.Instance
use arkhe_kernel.State.Instance.{Instance, InstanceSnapshot}
use arkhe_kernel.State.Scheduler.Validate.{Check, validate}
use arkhe_kernel.State.Scheduler.Consistent.{IsOrdered, IsValid}
use arkhe_kernel.State.Scheduler.Consistent.Exact.{validate-IsConsistent, IsConsistent-IsLinked}
use arkhe_kernel.Runtime.Registry.{ActionRegistry}
use arkhe_kernel.Runtime.Step.{StateHashing}
use arkhe_kernel.Runtime.Step.Safety.{IsSafe, AllSafe}
use arkhe_kernel.Runtime.Kernel
use arkhe_kernel.Runtime.Kernel.{Kernel, KernelSnapshot, Submission}
use arkhe_kernel.Runtime.Kernel.Admission.{submit-AllSafe}
use arkhe_kernel.Runtime.Drive
use arkhe_kernel.Runtime.Drive.Safety.{step-AllSafe}
use arkhe_kernel.Persist.Signature.{Crypto}
use arkhe_kernel.Persist.Snapshot.{
  SnapshotCodec, SnapshotError, deserialize_failed, integrity_mismatch, of_check,
  validate_instances, validate_structure, serialize, deserialize, digest, deserialize_verified,
}

-- What a decoded value has by its type alone: ordered maps, and counters that are `u64`.
abbrev pub Typed : InstanceSnapshot → Type 0
Typed i = IsOrdered i.scheduler × (i.id_counters.next_scheduled ≤ u64_max)

abbrev pub Decodes : SnapshotCodec → Type 0
Decodes d =
    (bytes : Bytes) (s : KernelSnapshot) → d.decode bytes ≡ some s → Everywhere Typed s.instances

-- A scheduler that passes is safe for the kernel.
validate-IsSafe :
    (i : InstanceSnapshot)
    → Typed i
    → validate i.scheduler ≡ ok tt
    → IsSafe (Instance.from_snapshot i)
unfolding Instance.from_snapshot
validate-IsSafe i typed h = (
  IsConsistent-IsLinked i.scheduler typed.0 ((validate-IsConsistent i.scheduler typed.0).0 h),
  typed.1,
)

of_check-ok : (id : InstanceId) (c : Check) → of_check id c ≡ ok tt → c ≡ ok tt
of_check-ok id (ok u) h = refl
of_check-ok id (err reason) h = absurd (cc)

validate_instances-AllSafe :
    (m : BTreeMap InstanceId InstanceSnapshot)
    → Everywhere Typed m
    → validate_instances m ≡ ok tt
    → AllSafe (Kernel.restore_all m)
unfolding validate_instances Kernel.restore_all Everywhere
validate_instances-AllSafe [] typed h = tt
validate_instances-AllSafe ((id, i) ∷ m) typed h =
    let (u, first, rest) =
      and_then-ok (of_check id (validate i.scheduler)) (λ _. validate_instances m) tt h in
    (
      validate-IsSafe i typed.0 (of_check-ok id (validate i.scheduler) first),
      validate_instances-AllSafe m typed.1 rest,
    )

-- the snapshot that is accepted, and that it has passed
deserialize-accepted :
    (d : SnapshotCodec) (bytes : Bytes) (s : KernelSnapshot)
    → deserialize d bytes ≡ ok s
    → (d.decode bytes ≡ some s) × (validate_structure s ≡ ok tt)
unfolding deserialize
deserialize-accepted d bytes s h = elim (Option-cases (d.decode bytes)) [
  | inl failed ↦ absurd (
      let e : ◌≡◌ {A = Result SnapshotError KernelSnapshot} (err deserialize_failed) (ok s) =
        rw (failed, deserialize) at h in
      cc)
  | inr (t, decoded) ↦
      let (u, valid, same) =
        and_then-ok (validate_structure t) (λ _. ok t) s (rw (decoded, deserialize) at h) in
      let one : t ≡ s = ok-injective same in
      (decoded ∙ ap (λ x. some x) one, subst (λ x. validate_structure x ≡ ok tt) one valid)
]

module _ (d : SnapshotCodec) (decodes : Decodes d) (bytes : Bytes) (s : KernelSnapshot)
    (accepted : deserialize d bytes ≡ ok s) where
  deserialize-AllSafe : AllSafe (Kernel.from_snapshot s).instances
  unfolding Kernel.from_snapshot validate_structure
  deserialize-AllSafe =
      let (decoded, valid) = deserialize-accepted d bytes s accepted in
      validate_instances-AllSafe s.instances (decodes bytes s decoded) valid

  -- Whatever bytes `deserialize` accepts, forged ones too: on the kernel that is restored from them
  -- `submit` and `step` return without a panic, with whatever actions are registered and whatever
  -- they compute, and leave every instance safe again. Decoding yields ordered maps and 64-bit counters.
  pub deserialize-never_panics :
      (h : StateHashing) (c : Crypto) (actions : ActionRegistry) (id : InstanceId)
      (sub : Submission) (now : Tick) (caps : CapabilityMask)
      → Returns
          (λ r. AllSafe r.1.instances)
          (Kernel.submit c (record (Kernel.from_snapshot s) { action_registry = actions }) id sub)
        × Returns
            (λ r. AllSafe r.1.instances)
            (Drive.step h c
              (record (Kernel.from_snapshot s) { action_registry = actions })
              now
              caps)
  deserialize-never_panics h c actions id sub now caps = (
    submit-AllSafe c (record (Kernel.from_snapshot s) { action_registry = actions }) id sub
        deserialize-AllSafe,
    step-AllSafe h c (record (Kernel.from_snapshot s) { action_registry = actions }) now caps
        deserialize-AllSafe,
  )

validate_instances-snapshot_all :
    (m : BTreeMap InstanceId Instance)
    → Everywhere (λ i. IsValid i.scheduler) m
    → validate_instances (Kernel.snapshot_all m) ≡ ok tt
unfolding validate_instances Kernel.snapshot_all Everywhere Instance.to_snapshot
validate_instances-snapshot_all [] valid = refl
validate_instances-snapshot_all ((id, i) ∷ m) valid =
    rw ((validate-IsConsistent i.scheduler valid.0.0).1 valid.0.1)
      (validate_instances-snapshot_all m valid.1)

pub serialize-encode :
    (d : SnapshotCodec) (s : KernelSnapshot) (bytes : Bytes)
    → serialize d s ≡ ok bytes
    → d.encode s ≡ some bytes
unfolding serialize
serialize-encode d s bytes h = ground arith

pub deserialize-snapshot :
    (d : SnapshotCodec) (k : Kernel) (bytes : Bytes)
    → Everywhere (λ i. IsValid i.scheduler) k.instances
    → d.decode bytes ≡ some (Kernel.snapshot k)
    → deserialize d bytes ≡ ok (Kernel.snapshot k)
unfolding deserialize validate_structure Kernel.snapshot
deserialize-snapshot d k bytes valid decoded =
    rw (decoded, deserialize, validate_instances-snapshot_all k.instances valid) refl

bytes_ne : (a b : Bytes) → bytes_eq a b ≡ false → a ≢ b
bytes_ne a b h e = cc (h, bytes_eq_self a, ap (λ x. bytes_eq a x) e)

-- What `deserialize_verified` accepts under the digest of the bytes that were written, is what those
-- bytes say, unless BLAKE3 gives other bytes the same digest; and if the digests differ, it fails
-- with `IntegrityMismatch`.
pub deserialize_verified-digest :
    (d : SnapshotCodec) (bytes written : Bytes)
    → ((s : KernelSnapshot)
        → deserialize_verified d bytes (digest d written) ≡ ok s
        → (deserialize d written ≡ ok s) ⊎ ((bytes ≢ written) × (d.hash bytes ≡ d.hash written)))
      × (d.hash bytes ≢ d.hash written
          → deserialize_verified d bytes (digest d written) ≡ err integrity_mismatch)
unfolding deserialize_verified digest
deserialize_verified-digest d bytes written = (
  λ s h. elim (Bool-cases (bytes_eq (d.hash bytes) (d.hash written))) [
    | inr differ ↦ absurd (
        let e : ◌≡◌ {A = Result SnapshotError KernelSnapshot} (err integrity_mismatch) (ok s) =
          rw (differ, deserialize_verified) at h in
        cc)
    | inl same ↦
        let accepted : deserialize d bytes ≡ ok s = rw (same, deserialize_verified) at h in
        elim (Bool-cases (bytes_eq bytes written)) [
          | inl equal ↦
              inl
                (subst (λ b. deserialize d b ≡ ok s) (eq_of_bytes_eq bytes written equal) accepted)
          | inr other ↦
              inr
                (bytes_ne bytes written other, eq_of_bytes_eq (d.hash bytes) (d.hash written) same)
        ]
  ],
  λ differ. elim (Bool-cases (bytes_eq (d.hash bytes) (d.hash written))) [
    | inl same ↦ absurd (differ (eq_of_bytes_eq (d.hash bytes) (d.hash written) same))
    | inr other ↦ rw other refl
  ],
)
