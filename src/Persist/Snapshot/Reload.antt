-- ===== src/Persist/Snapshot/Reload.antt =====
-- Reachable kernels through the bytes of their snapshots (persist/snapshot.rs).
use arkhe_kernel.Prelude.{◌≡◌, some, ok, bytes_eq_self}
use arkhe_kernel.Order.{nat_ord}
use arkhe_kernel.BTreeMap.Lookup.{Everywhere}
use arkhe_kernel.Abi.{Bytes}
use arkhe_kernel.Runtime.Step.{StateHashing}
use arkhe_kernel.Runtime.Kernel
use arkhe_kernel.Runtime.Kernel.{Kernel, KernelSnapshot}
use arkhe_kernel.Runtime.Kernel.Backpressure.{from_snapshot-snapshot}
use arkhe_kernel.Runtime.Reach.{Reachable}
use arkhe_kernel.Runtime.Reach.Fit.{HasRoom, Reachable-IsValid}
use arkhe_kernel.Persist.Signature.{Crypto}
use arkhe_kernel.Persist.Snapshot.{
  SnapshotCodec, serialize, deserialize, digest, deserialize_verified,
}
use arkhe_kernel.Persist.Snapshot.Loading.{serialize-encode, deserialize-snapshot}

-- A reachable kernel survives its own bytes, as long as no 64-bit counter of an instance has reached
-- its limit: what `serialize` writes of its snapshot `deserialize` accepts, and `deserialize_verified`
-- under the digest of the bytes, and the kernel that is restored has its instances and its instance
-- counter. Decoding undoes encoding on that snapshot.
pub deserialize-serialize :
    (h : StateHashing) (c : Crypto) (d : SnapshotCodec) (k : Kernel) (bytes : Bytes)
    → Reachable h c k
    → Everywhere HasRoom k.instances
    → (d.encode (Kernel.snapshot k) ≡ some bytes → d.decode bytes ≡ some (Kernel.snapshot k))
    → serialize d (Kernel.snapshot k) ≡ ok bytes
    → (s : KernelSnapshot) × (deserialize d bytes ≡ ok s)
      × (deserialize_verified d bytes (digest d bytes) ≡ ok s)
      × ((Kernel.from_snapshot s).instances ≡ k.instances)
      × ((Kernel.from_snapshot s).next_instance_id ≡ k.next_instance_id)
unfolding digest deserialize_verified
deserialize-serialize h c d k bytes reached room undo written =
    let accepted =
      deserialize-snapshot d k bytes (Reachable-IsValid h c k reached room)
        (undo (serialize-encode d (Kernel.snapshot k) bytes written)) in
    (
      Kernel.snapshot k,
      accepted,
      rw (bytes_eq_self (d.hash bytes)) accepted,
      (from_snapshot-snapshot k).0,
      (from_snapshot-snapshot k).1,
    )
