-- ===== src/Persist/Verify/Accepts.antt =====
-- The verification of persist/wal.rs on the logs that a writer has sealed.
use arkhe_kernel.Prelude.{ℕ, suc, ◌≡◌, refl, ap, ◌∙◌, some, List, [], ◌∷◌, ok, bytes_eq_self}
use arkhe_kernel.Abi.{Bytes}
use arkhe_kernel.Persist.Record.{Hash, zero_hash, WalRecord}
use arkhe_kernel.Persist.Signature.{
  Crypto, IsSound, domain_separated, SignatureClass, VerifierClass, from_header_bytes, sign,
  sign_hybrid, verify_ed25519, verify_hybrid, verify_mldsa, verifying_key_bytes,
  verifying_key_pqc_bytes,
}
use arkhe_kernel.Persist.Wal.{WalWriter, from_writer, signatures, build_chain_key, chain_hash}
use arkhe_kernel.Persist.Wal.Sealed.{SealedBy, Chained, Written, Written-IsSealed}
use arkhe_kernel.Persist.Verify.{check_signature, check_record, check_records, verify_chain}

-- the ML-DSA provider has never failed
abbrev pub CanSign : Crypto → Type 0
CanSign c = (sk msg : Bytes) → (sig : Bytes) × (c.mldsa_sign sk msg ≡ some sig)

module _ (c : Crypto) (sound : IsSound c) where
  -- the verifier of a class
  abbrev pub verifier_of : SignatureClass → VerifierClass
  verifier_of SignatureClass.unsigned = VerifierClass.unsigned
  verifier_of (SignatureClass.ed25519 sk) = VerifierClass.ed25519 (c.ed25519_public sk)
  verifier_of (SignatureClass.hybrid sk pqc) =
      VerifierClass.hybrid (c.ed25519_public sk) (c.mldsa_public pqc)

  from_header_bytes-verifier_of :
      (class : SignatureClass)
      → from_header_bytes c (verifying_key_bytes c class) (verifying_key_pqc_bytes c class)
        ≡ ok (verifier_of class)
  unfolding from_header_bytes verifying_key_bytes verifying_key_pqc_bytes
  from_header_bytes-verifier_of SignatureClass.unsigned = refl
  from_header_bytes-verifier_of (SignatureClass.ed25519 sk) = rw (sound.parses_public sk)
  from_header_bytes-verifier_of (SignatureClass.hybrid sk pqc) =
      rw (sound.parses_public sk, sound.mldsa_key_size pqc)

  hybrid_signatures :
      (sk pqc body sig : Bytes)
      → c.mldsa_sign pqc (domain_separated body) ≡ some sig
      → signatures c (SignatureClass.hybrid sk pqc) body
        ≡ (some (c.ed25519_sign sk (domain_separated body)), some sig)
  unfolding signatures sign_hybrid
  hybrid_signatures sk pqc body sig signs = rw (signs, signatures)

  check_signature-signed :
      CanSign c
      → (class : SignatureClass) (i : ℕ) (r : WalRecord) (body : Bytes)
      → (r.signature, r.signature_pqc) ≡ signatures c class body
      → check_signature c (verifier_of class) i r body ≡ ok tt
  unfolding check_signature signatures sign sign_hybrid verify_ed25519 verify_hybrid verify_mldsa
  check_signature-signed can SignatureClass.unsigned i r body e = refl
  check_signature-signed can (SignatureClass.ed25519 sk) i r body e =
      rw (ap (λ p. p.0) e, sound.sign_size sk _, sound.verifies sk _)
  check_signature-signed can (SignatureClass.hybrid sk pqc) i r body e =
      let (sig, signs) = can pqc (domain_separated body) in
      let both = e ∙ hybrid_signatures sk pqc body sig signs in
      rw (
        ap (λ p. p.0) both,
        ap (λ p. p.1) both,
        sound.sign_size sk (domain_separated body),
        sound.verifies sk (domain_separated body),
        sound.mldsa_sign_size pqc (domain_separated body) sig signs,
        sound.mldsa_verifies pqc (domain_separated body) sig signs,
      )

  check_record-SealedBy :
      CanSign c
      → (class : SignatureClass) (key : Hash) (i : ℕ) (prev : Hash) (r : WalRecord)
      → SealedBy c key class prev r
      → check_record c key (verifier_of class) i prev r ≡ ok r.this_chain_hash
  unfolding check_record
  check_record-SealedBy can class key i prev r s = rw (
    s.encoded,
    check_signature-signed can class i r s.body s.signed,
    s.linked,
    bytes_eq_self prev,
    s.hashed,
    bytes_eq_self (chain_hash c key prev s.body),
  )

  check_records-Chained :
      CanSign c
      → (class : SignatureClass) (key : Hash) (rs : List WalRecord) (i : ℕ) (prev : Hash)
      → Chained c key class prev rs
      → check_records c key (verifier_of class) i prev rs ≡ ok tt
  unfolding check_records Chained
  check_records-Chained can class key [] i prev ch = refl
  check_records-Chained can class key (r ∷ rs) i prev (s, ch) =
      rw (check_record-SealedBy can class key i prev r s)
        (check_records-Chained can class key rs (suc i) r.this_chain_hash ch)

  -- The log of a writer verifies under its own world, whichever records were appended and under
  -- any of the three signature classes, if the algorithms are sound and the ML-DSA signer has not
  -- failed.
  pub verify_chain-Written :
      CanSign c
      → (world_id : Hash) (class : SignatureClass) (w : WalWriter) → Written c world_id class w
      → verify_chain c (from_writer w) world_id ≡ ok tt
  unfolding verify_chain from_writer
  verify_chain-Written can world_id class w ws =
      let s = Written-IsSealed c world_id class w ws in
      rw (s.key, s.key_pqc, from_header_bytes-verifier_of class)
        (check_records-Chained can class (build_chain_key c world_id) w.records 0 zero_hash
          s.chained)
