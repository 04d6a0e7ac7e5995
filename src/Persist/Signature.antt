-- ===== src/Persist/Signature.antt =====
-- persist/signature.rs: what signs a record and what verifies it. The algorithms (postcard, BLAKE3,
-- Ed25519, ML-DSA 65) are other crates: their operations are the fields of `Crypto`.
use arkhe_kernel.Prelude.{
  Bool, true, not, Option, none, some, ◌++◌, length, Result, ok, err, and_then, ascii, ◌==◌, ◌≡◌,
  if◌then◌else◌,
}
use arkhe_kernel.Abi.{Bytes}
use arkhe_kernel.Persist.Record.{Hash, WalRecordContent}

pub record Crypto : Type 0 where
  -- `postcard::to_allocvec` of a record body: its content and the previous chain hash
  pub encode_body : WalRecordContent → Hash → Option Bytes
  -- `blake3::derive_key` and `blake3::Hasher::new_keyed`
  pub derive_key : Bytes → Hash → Hash
  pub keyed_hash : Hash → Bytes → Hash
  -- the public key of a signing key, as bytes
  pub ed25519_public : Bytes → Hash
  pub ed25519_sign : Bytes → Bytes → Bytes
  -- whether `VerifyingKey::from_bytes` accepts the bytes
  pub ed25519_parses : Hash → Bool
  -- `verify_strict`: key, message, signature
  pub ed25519_verify : Hash → Bytes → Bytes → Bool
  pub mldsa_public : Bytes → Bytes
  -- a provider may fail
  pub mldsa_sign : Bytes → Bytes → Option Bytes
  -- whether `Signature::decode` and then `verify` accept: key, message, signature
  pub mldsa_verify : Bytes → Bytes → Bytes → Bool

-- What the algorithms document: a signature verifies under its own key, and sizes are fixed.
pub record IsSound (c : Crypto) : Type 0 where
  pub parses_public : (sk : Bytes) → c.ed25519_parses (c.ed25519_public sk) ≡ true
  pub sign_size : (sk msg : Bytes) → length (c.ed25519_sign sk msg) ≡ 64
  pub verifies :
      (sk msg : Bytes) → c.ed25519_verify (c.ed25519_public sk) msg (c.ed25519_sign sk msg) ≡ true
  pub mldsa_key_size : (sk : Bytes) → length (c.mldsa_public sk) ≡ 1952
  pub mldsa_sign_size : (sk msg sig : Bytes) → c.mldsa_sign sk msg ≡ some sig → length sig ≡ 3309
  pub mldsa_verifies :
      (sk msg sig : Bytes)
      → c.mldsa_sign sk msg ≡ some sig
      → c.mldsa_verify (c.mldsa_public sk) msg sig ≡ true

-- The verifying keys follow from the signing keys, and are not stored beside them.
pub data SignatureClass : Type 0 where
  unsigned : SignatureClass
  -- signing_key
  ed25519 : Bytes → SignatureClass
  -- ed25519_signing_key, pqc_signer
  hybrid : Bytes → Bytes → SignatureClass

pub data VerifierInitError : Type 0 where
  invalid_ed25519_key invalid_pqc_key pqc_without_ed25519 : VerifierInitError

pub data SignatureVerifyError : Type 0 where
  wrong_length mismatch : SignatureVerifyError

-- A verifier holds keys whose bytes have parsed.
pub data VerifierClass : Type 0 where
  unsigned : VerifierClass
  ed25519 : Hash → VerifierClass
  hybrid : Hash → Bytes → VerifierClass

-- `WAL_SIG_DOMAIN || body_bytes`
unfoldable pub domain_separated : Bytes → Bytes
domain_separated body = ascii "arkhe-kernel v0.14 WAL record signature domain" ++ body

module _ (c : Crypto) where
  unfoldable pub verifying_key_bytes : SignatureClass → Option Hash
  verifying_key_bytes SignatureClass.unsigned = none
  verifying_key_bytes (SignatureClass.ed25519 sk) = some (c.ed25519_public sk)
  verifying_key_bytes (SignatureClass.hybrid sk pqc) = some (c.ed25519_public sk)

  unfoldable pub verifying_key_pqc_bytes : SignatureClass → Option Bytes
  verifying_key_pqc_bytes (SignatureClass.hybrid sk pqc) = some (c.mldsa_public pqc)
  verifying_key_pqc_bytes _ = none

  unfoldable pub sign : SignatureClass → Bytes → Option Bytes
  sign SignatureClass.unsigned body = none
  sign (SignatureClass.ed25519 sk) body = some (c.ed25519_sign sk (domain_separated body))
  sign (SignatureClass.hybrid sk pqc) body = some (c.ed25519_sign sk (domain_separated body))

  -- the Ed25519 and the ML-DSA 65 signature
  unfoldable pub sign_hybrid : SignatureClass → Bytes → Option (Bytes × Bytes)
  sign_hybrid (SignatureClass.hybrid sk pqc) body =
      elim (c.mldsa_sign pqc (domain_separated body)) [
        | none ↦ none
        | some sig ↦ some (c.ed25519_sign sk (domain_separated body), sig)
      ]
  sign_hybrid _ body = none

  -- `SoftwareMlDsa65Verifier::from_bytes` fails on the length alone.
  unfoldable pub from_header_bytes :
      Option Hash → Option Bytes → Result VerifierInitError VerifierClass
  from_header_bytes none none = ok VerifierClass.unsigned
  from_header_bytes (some vk) none =
      if c.ed25519_parses vk then ok (VerifierClass.ed25519 vk) else err invalid_ed25519_key
  from_header_bytes (some vk) (some pqc) =
      if not (c.ed25519_parses vk)
      then err invalid_ed25519_key
      else if length pqc == 1952
      then ok (VerifierClass.hybrid vk pqc)
      else err invalid_pqc_key
  from_header_bytes none (some pqc) = err pqc_without_ed25519

  unfoldable pub verify_ed25519 : Hash → Bytes → Bytes → Result SignatureVerifyError (Unit {0})
  verify_ed25519 vk body sig =
      if not (length sig == 64)
      then err wrong_length
      else if c.ed25519_verify vk (domain_separated body) sig
      then ok tt
      else err mismatch

  -- `SoftwareMlDsa65Verifier::verify`; the caller folds both failures into one
  unfoldable pub verify_mldsa : Bytes → Bytes → Bytes → Result SignatureVerifyError (Unit {0})
  verify_mldsa key msg sig =
      if not (length sig == 3309)
      then err wrong_length
      else if c.mldsa_verify key msg sig
      then ok tt
      else err mismatch

  -- the arm of `verify_hybrid` for a hybrid verifier: both signatures must pass
  unfoldable pub verify_hybrid :
      Hash → Bytes → Bytes → Bytes → Bytes → Result SignatureVerifyError (Unit {0})
  verify_hybrid vk pqc body sig sig_pqc = and_then (verify_ed25519 vk body sig) λ _.
      elim (verify_mldsa pqc (domain_separated body) sig_pqc) [ ok u ↦ ok u | err e ↦ err mismatch ]
