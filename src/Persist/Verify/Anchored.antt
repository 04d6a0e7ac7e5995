-- ===== src/Persist/Verify/Anchored.antt =====
-- Verification against a trust anchor (persist/wal.rs): what the header claims about itself is
-- compared with what the verifier expects.
use arkhe_kernel.Prelude.{
  ◌≡◌, ◌≤◌, refl, Option, none, some, inl, inr, arith, ok, err, Result-cases, and_then,
  eq_of_bytes_eq, bytes_eq_self,
}
use arkhe_kernel.Abi.{Bytes}
use arkhe_kernel.Persist.Record.{Hash}
use arkhe_kernel.Persist.Signature.{Crypto}
use arkhe_kernel.Persist.Wal.{Wal, WalError, chain_tip}
use arkhe_kernel.Persist.Verify.{
  TrustAnchor, SignatureTier, tier_rank, header_tier, check_floor, check_pinned, verify_chain,
  verify_chain_anchored, Verdict,
}

-- an expectation, if there is one, is met
unfoldable pub Meets : Option Bytes → Option Bytes → Type 0
Meets none actual = Unit
Meets (some expected) actual = actual ≡ some expected

unfoldable pub MeetsFloor : Option SignatureTier → SignatureTier → Type 0
MeetsFloor none tier = Unit
MeetsFloor (some floor) tier = tier_rank floor ≤ tier_rank tier

-- what the anchor asks of a log
pub record Trusted (c : Crypto) (w : Wal) (world_id : Hash) (a : TrustAnchor) : Type 0 where
  pub tier : SignatureTier
  pub has_tier : header_tier w.header ≡ ok tier
  pub floor : MeetsFloor a.min_tier tier
  pub key : Meets a.ed25519_verifying_key w.header.verifying_key
  pub key_pqc : Meets a.mldsa_verifying_key w.header.verifying_key_pqc
  pub manifest : Meets a.expected_manifest_digest (some w.header.manifest_digest)
  pub chain : verify_chain c w world_id ≡ ok tt
  pub tip : Meets a.expected_chain_tip (some (chain_tip w))

check_pinned-Meets :
    (e : WalError) (expected actual : Option Bytes)
    → check_pinned e expected actual ≡ ok tt
    → Meets expected actual
unfolding check_pinned Meets
check_pinned-Meets e none actual h = tt
check_pinned-Meets e (some x) none h = ground arith
check_pinned-Meets e (some x) (some k) h = ground (arith, eq_of_bytes_eq k x)

Meets-check_pinned :
    (e : WalError) (expected actual : Option Bytes)
    → Meets expected actual
    → check_pinned e expected actual ≡ ok tt
unfolding check_pinned Meets
Meets-check_pinned e none actual h = refl
Meets-check_pinned e (some x) none h = ground arith
Meets-check_pinned e (some x) (some k) h = ground (arith, bytes_eq_self x)

check_floor-MeetsFloor :
    (floor : Option SignatureTier) (tier : SignatureTier)
    → check_floor floor tier ≡ ok tt
    → MeetsFloor floor tier
unfolding check_floor MeetsFloor
check_floor-MeetsFloor none tier h = tt
check_floor-MeetsFloor (some f) tier h = ground arith

MeetsFloor-check_floor :
    (floor : Option SignatureTier) (tier : SignatureTier)
    → MeetsFloor floor tier
    → check_floor floor tier ≡ ok tt
unfolding check_floor MeetsFloor
MeetsFloor-check_floor none tier h = refl
MeetsFloor-check_floor (some f) tier h = ground arith

-- the first of two verdicts
and_then-first :
    (v : Verdict) (f : Unit {0} → Verdict) → and_then v f ≡ ok tt → (v ≡ ok tt) × (f tt ≡ ok tt)
and_then-first (ok u) f h = (refl, h)
and_then-first (err e) f h = ground arith

-- A log that passes against an anchor is trusted: it has the tier it is asked for at least, the
-- keys, the manifest digest and the chain tip that are expected, and its chain verifies.
pub verify_chain_anchored-Trusted :
    (c : Crypto) (w : Wal) (world_id : Hash) (a : TrustAnchor)
    → verify_chain_anchored c w world_id a ≡ ok tt
    → Trusted c w world_id a
unfolding verify_chain_anchored
verify_chain_anchored-Trusted c w world_id a h = elim (Result-cases (header_tier w.header)) [
  | inr (e, odd) ↦ ground arith
  | inl (tier, has) ↦
      let s0 = and_then-first _ _ (rw (has, verify_chain_anchored) at h) in
      let s1 = and_then-first _ _ s0.1 in
      let s2 = and_then-first _ _ s1.1 in
      let s3 = and_then-first _ _ s2.1 in
      let s4 = and_then-first _ _ s3.1 in
      record {
        tier = tier;
        has_tier = has;
        floor = check_floor-MeetsFloor a.min_tier tier s0.0;
        key = check_pinned-Meets _ a.ed25519_verifying_key w.header.verifying_key s1.0;
        key_pqc = check_pinned-Meets _ a.mldsa_verifying_key w.header.verifying_key_pqc s2.0;
        manifest =
            check_pinned-Meets _ a.expected_manifest_digest (some w.header.manifest_digest) s3.0;
        chain = s4.0;
        tip = check_pinned-Meets _ a.expected_chain_tip (some (chain_tip w)) s4.1;
      }
]

-- A trusted log passes against the anchor.
pub Trusted-verify_chain_anchored :
    (c : Crypto) (w : Wal) (world_id : Hash) (a : TrustAnchor)
    → Trusted c w world_id a
    → verify_chain_anchored c w world_id a ≡ ok tt
unfolding verify_chain_anchored
Trusted-verify_chain_anchored c w world_id a t = rw (
  t.has_tier,
  MeetsFloor-check_floor a.min_tier t.tier t.floor,
  Meets-check_pinned WalError.verifying_key_mismatch a.ed25519_verifying_key w.header.verifying_key
      t.key,
  Meets-check_pinned WalError.verifying_key_mismatch a.mldsa_verifying_key
      w.header.verifying_key_pqc t.key_pqc,
  Meets-check_pinned WalError.manifest_digest_mismatch a.expected_manifest_digest
      (some w.header.manifest_digest) t.manifest,
  t.chain,
  Meets-check_pinned WalError.chain_tip_mismatch a.expected_chain_tip (some (chain_tip w)) t.tip,
)
