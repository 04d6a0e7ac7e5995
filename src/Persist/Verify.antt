-- ===== src/Persist/Verify.antt =====
-- persist/wal.rs: verification of a sealed log, by itself and against a trust anchor.
pub mod Accepts
pub mod Anchored
pub mod Integrity
use arkhe_kernel.Prelude.{
  ℕ, suc, Bool, true, false, not, Option, none, some, List, [], ◌∷◌, ◌++◌, Result, ok, err,
  and_then, is_some, bytes_eq, ltb, if◌then◌else◌,
}
use arkhe_kernel.Abi.{Bytes}
use arkhe_kernel.Persist.Record.{Hash, zero_hash, WalRecord}
use arkhe_kernel.Persist.Signature
use arkhe_kernel.Persist.Signature.{
  Crypto, VerifierClass, VerifierInitError, from_header_bytes, verify_ed25519, verify_hybrid,
}
use arkhe_kernel.Persist.Wal
use arkhe_kernel.Persist.Wal.{Wal, WalHeader, WalError, chain_hash, build_chain_key, chain_tip}

pub data SignatureTier : Type 0 where
  unsigned ed25519 hybrid : SignatureTier

-- the derived order
abbrev pub tier_rank : SignatureTier → ℕ
tier_rank SignatureTier.unsigned = 0
tier_rank SignatureTier.ed25519 = 1
tier_rank SignatureTier.hybrid = 2

pub record TrustAnchor : Type 0 where
  pub min_tier : Option SignatureTier
  pub ed25519_verifying_key : Option Hash
  pub mldsa_verifying_key : Option Bytes
  pub expected_manifest_digest : Option Hash
  pub expected_chain_tip : Option Hash

abbrev pub Verdict : Type 0
Verdict = Result {0, 0} WalError (Unit {0})

-- an error of the signature layer becomes one of the log
abbrev pub with_error {ℓ} :
    {E : Type 0} {A : Type ℓ} → (E → WalError) → Result E A → Result WalError A
with_error f (ok a) = ok a
with_error f (err e) = err (f e)

unfoldable pub init_error : VerifierInitError → WalError
init_error Signature.invalid_ed25519_key = WalError.invalid_verifying_key
init_error Signature.invalid_pqc_key = WalError.invalid_verifying_key
init_error Signature.pqc_without_ed25519 = WalError.pqc_without_ed25519

-- `ok_or`
abbrev or_error {ℓ} : {A : Type ℓ} → WalError → Option A → Result WalError A
or_error e none = err e
or_error e (some a) = ok a

module _ (c : Crypto) where
  -- the `match` on the verifier, for record `i`
  unfoldable pub check_signature : VerifierClass → ℕ → WalRecord → Bytes → Verdict
  check_signature VerifierClass.unsigned i rec body = ok tt
  check_signature (VerifierClass.ed25519 vk) i rec body =
      and_then (or_error (WalError.missing_signature i) rec.signature)
        λ sig. with_error (λ _. WalError.signature_mismatch i) (verify_ed25519 c vk body sig)
  check_signature (VerifierClass.hybrid vk pqc) i rec body =
      and_then (or_error (WalError.missing_signature i) rec.signature) λ sig.
        and_then (or_error (WalError.missing_pqc_signature i) rec.signature_pqc) λ sig_pqc.
          with_error (λ _. WalError.pqc_signature_mismatch i)
            (verify_hybrid c vk pqc body sig sig_pqc)

  -- one round of the loop: the hash of the record, if it is accepted
  unfoldable pub check_record :
      Hash → VerifierClass → ℕ → Hash → WalRecord → Result {0, 0} WalError Hash
  unfolding check_signature
  check_record key verifier i prev rec =
      if not (bytes_eq rec.prev_chain_hash prev)
      then err (WalError.chain_broken i)
      else elim (c.encode_body rec.content prev) [
        | none ↦ err WalError.serialize_failed
        | some body ↦
            let computed = chain_hash c key prev body in
            if not (bytes_eq computed rec.this_chain_hash)
            then err (WalError.hash_mismatch i)
            else and_then (check_signature verifier i rec body) λ _. ok computed
      ]

  unfoldable pub check_records : Hash → VerifierClass → ℕ → Hash → List WalRecord → Verdict
  unfolding check_record
  check_records key verifier i prev [] = ok tt
  check_records key verifier i prev (rec ∷ recs) =
      and_then (check_record key verifier i prev rec)
        λ computed. check_records key verifier (suc i) computed recs

  unfoldable pub verify_chain : Wal → Hash → Verdict
  unfolding check_records init_error
  verify_chain w world_id =
      and_then
        (with_error init_error
          (from_header_bytes c w.header.verifying_key w.header.verifying_key_pqc))
        λ verifier. check_records (build_chain_key c world_id) verifier 0 zero_hash w.records

-- the `match` on the two key slots
unfoldable pub tier_of_slots : Bool → Bool → Result {0, 0} WalError SignatureTier
tier_of_slots false false = ok SignatureTier.unsigned
tier_of_slots true false = ok SignatureTier.ed25519
tier_of_slots true true = ok SignatureTier.hybrid
tier_of_slots false true = err WalError.pqc_without_ed25519

unfoldable pub header_tier : WalHeader → Result {0, 0} WalError SignatureTier
unfolding tier_of_slots
header_tier h = tier_of_slots (is_some h.verifying_key) (is_some h.verifying_key_pqc)

-- the tier floor
unfoldable pub check_floor : Option SignatureTier → SignatureTier → Verdict
check_floor none tier = ok tt
check_floor (some floor) tier =
    if ltb (tier_rank tier) (tier_rank floor) then err WalError.tier_downgrade else ok tt

-- an expected value against the one that is there
unfoldable pub check_pinned : WalError → Option Bytes → Option Bytes → Verdict
check_pinned e none actual = ok tt
check_pinned e (some expected) none = err e
check_pinned e (some expected) (some k) = if bytes_eq k expected then ok tt else err e

unfoldable pub verify_chain_anchored : Crypto → Wal → Hash → TrustAnchor → Verdict
unfolding header_tier check_floor check_pinned
verify_chain_anchored c w world_id anchor = and_then (header_tier w.header) λ tier.
    and_then (check_floor anchor.min_tier tier) λ _.
      and_then
        (check_pinned WalError.verifying_key_mismatch anchor.ed25519_verifying_key
          w.header.verifying_key)
        λ _.
          and_then
            (check_pinned WalError.verifying_key_mismatch anchor.mldsa_verifying_key
              w.header.verifying_key_pqc)
            λ _.
              and_then
                (check_pinned WalError.manifest_digest_mismatch anchor.expected_manifest_digest
                  (some w.header.manifest_digest))
                λ _. and_then (verify_chain c w world_id) λ _.
                  check_pinned WalError.chain_tip_mismatch anchor.expected_chain_tip
                    (some (chain_tip w))
