-- ===== src/Runtime/Export/Pinned.antt =====
-- An exported log against the anchor that its kernel's user can write down (runtime/kernel.rs,
-- persist/wal.rs).
use arkhe_kernel.Prelude.{◌≡◌, refl, sym, ap, subst, arith, Option, none, some, ok, length}
use arkhe_kernel.Abi.{Bytes}
use arkhe_kernel.Runtime.Step.{StateHashing}
use arkhe_kernel.Runtime.Kernel.{Kernel}
use arkhe_kernel.Runtime.Export.{writer_tip, wal_chain_tip, wal_record_count, export_wal}
use arkhe_kernel.Runtime.Reach.{Reachable}
use arkhe_kernel.Runtime.Reach.Log.{Reachable-IsSealed, exported_log-verifies}
use arkhe_kernel.Persist.Record.{Hash}
use arkhe_kernel.Persist.Signature.{
  Crypto, IsSound, SignatureClass, verifying_key_bytes, verifying_key_pqc_bytes,
}
use arkhe_kernel.Persist.Wal.{Wal, WalWriter, WalHeader, from_writer, chain_tip, record_count}
use arkhe_kernel.Persist.Wal.Sealed.{IsSealed}
use arkhe_kernel.Persist.Archive.{WalCodec, serialize, deserialize}
use arkhe_kernel.Persist.Verify.{
  SignatureTier, TrustAnchor, header_tier, tier_of_slots, verify_chain, verify_chain_anchored,
}
use arkhe_kernel.Persist.Verify.Accepts.{CanSign}
use arkhe_kernel.Persist.Verify.Anchored.{Meets, MeetsFloor, Trusted-verify_chain_anchored}

-- the tier of the logs that a signature class writes
unfoldable pub tier_of_class : SignatureClass → SignatureTier
tier_of_class SignatureClass.unsigned = SignatureTier.unsigned
tier_of_class (SignatureClass.ed25519 sk) = SignatureTier.ed25519
tier_of_class (SignatureClass.hybrid sk pqc) = SignatureTier.hybrid

Meets-self : (o : Option Bytes) → Meets o o
unfolding Meets
Meets-self none = tt
Meets-self (some b) = refl

module _ (c : Crypto) where
  -- what the user of a kernel with this writer knows: the tier and the keys of the signatures that
  -- were chosen, and the tip that the kernel shows
  unfoldable pub anchor_of : WalWriter → TrustAnchor
  unfolding tier_of_class writer_tip
  anchor_of w = record {
    min_tier = some (tier_of_class w.sig_class);
    ed25519_verifying_key = verifying_key_bytes c w.sig_class;
    mldsa_verifying_key = verifying_key_pqc_bytes c w.sig_class;
    expected_manifest_digest = some w.header.manifest_digest;
    expected_chain_tip = some (writer_tip w);
  }

  header_tier-class :
      (class : SignatureClass) (h : WalHeader)
      → h.verifying_key ≡ verifying_key_bytes c class
      → h.verifying_key_pqc ≡ verifying_key_pqc_bytes c class
      → header_tier h ≡ ok (tier_of_class class)
  unfolding header_tier tier_of_slots tier_of_class verifying_key_bytes verifying_key_pqc_bytes
  header_tier-class SignatureClass.unsigned h e f = rw (e, f) refl
  header_tier-class (SignatureClass.ed25519 sk) h e f = rw (e, f) refl
  header_tier-class (SignatureClass.hybrid sk pqc) h e f = rw (e, f) refl

  IsSealed-anchored :
      (world : Hash) (class : SignatureClass) (w : WalWriter)
      → IsSealed c world class w
      → verify_chain c (from_writer w) w.header.world_id ≡ ok tt
      → verify_chain_anchored c (from_writer w) w.header.world_id (anchor_of w) ≡ ok tt
  unfolding anchor_of from_writer chain_tip writer_tip MeetsFloor Meets
  IsSealed-anchored world class w s chain =
      let key : w.header.verifying_key ≡ verifying_key_bytes c w.sig_class =
        cc (s.key, s.same_class) in
      let key_pqc : w.header.verifying_key_pqc ≡ verifying_key_pqc_bytes c w.sig_class =
        cc (s.key_pqc, s.same_class) in
      Trusted-verify_chain_anchored c (from_writer w) w.header.world_id (anchor_of w) (record {
        tier = tier_of_class w.sig_class;
        has_tier = header_tier-class w.sig_class w.header key key_pqc;
        floor = omega arith;
        key = subst (Meets (verifying_key_bytes c w.sig_class)) (sym key) (Meets-self _);
        key_pqc =
            subst (Meets (verifying_key_pqc_bytes c w.sig_class)) (sym key_pqc) (Meets-self _);
        manifest = refl;
        chain = chain;
        tip = ap (λ t. some t) (sym s.tip);
      })

  serialize-encode :
      (d : WalCodec) (log : Wal) (bytes : Bytes)
      → serialize d log ≡ ok bytes
      → d.encode log ≡ some bytes
  unfolding serialize
  serialize-encode d log bytes e = ground arith

  deserialize-log :
      (d : WalCodec) (log : Wal) (bytes : Bytes)
      → (d.encode log ≡ some bytes → d.decode bytes ≡ some log)
      → serialize d log ≡ ok bytes
      → deserialize d bytes ≡ ok log
  unfolding deserialize
  deserialize-log d log bytes undo e = rw (undo (serialize-encode d log bytes e), deserialize) refl

  -- The log that a reachable kernel exports survives its own bytes, has as many records and the tip
  -- that the kernel shows, and passes against the anchor of its writer: the tier and the keys of the
  -- signatures that were chosen, the manifest digest of the header, and that tip. The algorithms are
  -- sound, the ML-DSA signer does not fail, and decoding undoes encoding on this log.
  pub export_wal-Pinned :
      (h : StateHashing) (d : WalCodec)
      → IsSound c
      → CanSign c
      → (k : Kernel) (w : WalWriter) (bytes : Bytes) → Reachable h c k
      → k.wal ≡ some w
      → (d.encode (from_writer w) ≡ some bytes → d.decode bytes ≡ some (from_writer w))
      → serialize d (from_writer w) ≡ ok bytes
      → (log : Wal) × (export_wal k ≡ some log)
        × (deserialize d bytes ≡ ok log)
        × (wal_record_count k ≡ some (length log.records))
        × (wal_chain_tip k ≡ some (chain_tip log))
        × (verify_chain_anchored c log log.header.world_id (anchor_of w) ≡ ok tt)
  unfolding export_wal wal_record_count wal_chain_tip from_writer record_count writer_tip chain_tip
  export_wal-Pinned h d sound can k w bytes r e undo written =
      let sealed = Reachable-IsSealed c h k w r e in
      (
        from_writer w,
        rw e refl,
        deserialize-log d (from_writer w) bytes undo written,
        rw e refl,
        rw e (ap (λ t. some t) sealed.2.tip),
        IsSealed-anchored sealed.0 sealed.1 w sealed.2
            (exported_log-verifies c h sound can k w r e),
      )
