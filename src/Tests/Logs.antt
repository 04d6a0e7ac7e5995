-- ===== src/Tests/Logs.antt =====
-- The theorems on the log, applied.
use arkhe_kernel.Prelude.{
  ◌∷◌, ◌≡◌, ◌⊎◌, refl, subst, some, none, unwrap_or, ap, [], length, ok, arith,
}
use arkhe_kernel.Order.{nat_ord}
use arkhe_kernel.BTreeMap
use arkhe_kernel.State.Scheduler
use arkhe_kernel.Runtime.Kernel
use arkhe_kernel.Runtime.Reach.Log.{exported_log-verifies}
use arkhe_kernel.Runtime.Export.{export_wal, wal_chain_tip, wal_record_count}
use arkhe_kernel.Runtime.Export.Pinned.{anchor_of, export_wal-Pinned}
use arkhe_kernel.Persist.Archive
use arkhe_kernel.Persist.Archive.{WalCodec}
use arkhe_kernel.Persist.Record.{zeros, zero_hash}
use arkhe_kernel.Persist.Signature.{
  IsSound, SignatureClass, verifying_key_bytes, verifying_key_pqc_bytes,
}
use arkhe_kernel.Persist.Wal.{
  Wal, chain_tip, WalWriter, from_writer, append_step, with_signature, build_chain_key,
}
use arkhe_kernel.Persist.Wal.Sealed.{Written, opened, stepped}
use arkhe_kernel.Persist.Verify
use arkhe_kernel.Persist.Verify.{TrustAnchor, verify_chain, verify_chain_anchored}
use arkhe_kernel.Persist.Verify.Accepts.{CanSign, verify_chain-Written}
use arkhe_kernel.Persist.Verify.Anchored.{
  Meets, MeetsFloor, Trusted, verify_chain_anchored-Trusted, Trusted-verify_chain_anchored,
}
use arkhe_kernel.Persist.Verify.Integrity.{
  Collision, HashChain, bodies, verify_chain-HashChain, verify_chain-tamper_evident,
}
use arkhe_kernel.Tests.Fixtures.{plain_crypto, plain_hashing}
use arkhe_kernel.Tests.Kernels.{one_action-Reachable}
use arkhe_kernel.Tests.Fixtures.{one_action}
use arkhe_kernel.Persist.Record.{committed}

pub plain_crypto-IsSound : IsSound plain_crypto
plain_crypto-IsSound = record {
  parses_public = λ sk. refl;
  sign_size = λ sk msg. refl;
  verifies = λ sk msg. refl;
  mldsa_key_size = λ sk. refl;
  mldsa_sign_size = λ sk msg sig e. subst (λ s. length s ≡ 3309) (ap (λ o. unwrap_or [] o) e) refl;
  mldsa_verifies = λ sk msg sig e. refl;
}

pub plain_crypto-CanSign : CanSign plain_crypto
plain_crypto-CanSign sk msg = (zeros 3309, refl)

-- a log of two steps
abbrev pub opened_log : WalWriter
opened_log = with_signature plain_crypto zero_hash zero_hash (SignatureClass.ed25519 [])

abbrev two_steps : WalWriter
two_steps =
    (append_step plain_crypto (append_step plain_crypto opened_log 1 1 0 1 committed zero_hash).1 1
      2 0 1 committed zero_hash).1

two_steps-Written : Written plain_crypto zero_hash (SignatureClass.ed25519 []) two_steps
two_steps-Written =
    stepped 1 2 0 1 committed zero_hash (stepped 1 1 0 1 committed zero_hash (opened zero_hash))

two_steps-verifies : verify_chain plain_crypto (from_writer two_steps) zero_hash ≡ ok tt
two_steps-verifies =
    verify_chain-Written plain_crypto plain_crypto-IsSound plain_crypto-CanSign zero_hash
      (SignatureClass.ed25519 []) two_steps two_steps-Written

abbrev logged : WalWriter
logged = elim one_action.wal [ none ↦ opened_log | some w ↦ w ]

exported_log-verifies_example :
    verify_chain plain_crypto (from_writer logged) logged.header.world_id ≡ ok tt
unfolding Kernel.create_instance Kernel.submit BTreeMap.get BTreeMap.insert nat_ord
    Kernel.new_with_wal_signed Kernel.is_full Kernel.admit Scheduler.len Kernel.log_submit
exported_log-verifies_example =
    exported_log-verifies plain_crypto plain_hashing plain_crypto-IsSound plain_crypto-CanSign
      one_action logged one_action-Reachable refl

-- postcard, on this one log
abbrev one_log : WalCodec
one_log = record { encode = λ log. some (1 ∷ []); decode = λ bytes. some (from_writer logged) }

export_wal-Pinned_example :
    (log : Wal) × (export_wal one_action ≡ some log)
    × (Archive.deserialize one_log (1 ∷ []) ≡ ok log)
    × (wal_record_count one_action ≡ some (length log.records))
    × (wal_chain_tip one_action ≡ some (chain_tip log))
    × (verify_chain_anchored plain_crypto log log.header.world_id (anchor_of plain_crypto logged)
        ≡ ok tt)
unfolding Kernel.create_instance Kernel.submit BTreeMap.get BTreeMap.insert nat_ord
    Kernel.new_with_wal_signed Kernel.is_full Kernel.admit Scheduler.len Kernel.log_submit
    Archive.serialize
export_wal-Pinned_example =
    export_wal-Pinned plain_crypto plain_hashing one_log plain_crypto-IsSound plain_crypto-CanSign
      one_action logged (1 ∷ []) one_action-Reachable refl (λ e. refl) refl

verify_chain-HashChain_example :
    HashChain plain_crypto
      (build_chain_key plain_crypto zero_hash)
      zero_hash
      (from_writer two_steps).records
verify_chain-HashChain_example =
    verify_chain-HashChain plain_crypto (from_writer two_steps) zero_hash two_steps-verifies

verify_chain-tamper_evident_example :
    (bodies plain_crypto zero_hash (from_writer two_steps).records
      ≡ bodies plain_crypto zero_hash (from_writer two_steps).records)
    ⊎ Collision plain_crypto (build_chain_key plain_crypto zero_hash)
verify_chain-tamper_evident_example =
    verify_chain-tamper_evident plain_crypto (λ key m. refl) (from_writer two_steps)
      (from_writer two_steps) zero_hash two_steps-verifies two_steps-verifies refl refl

-- an anchor that asks for a signature and the manifest digest
abbrev pub anchor : TrustAnchor
anchor = record {
  min_tier = some Verify.SignatureTier.ed25519;
  ed25519_verifying_key = some zero_hash;
  mldsa_verifying_key = none;
  expected_manifest_digest = some zero_hash;
  expected_chain_tip = none;
}

two_steps-Trusted : Trusted plain_crypto (from_writer two_steps) zero_hash anchor
unfolding Meets MeetsFloor Verify.header_tier with_signature from_writer append_step
    verifying_key_bytes verifying_key_pqc_bytes
two_steps-Trusted = record {
  tier = Verify.SignatureTier.ed25519;
  has_tier = refl;
  floor = omega arith;
  key = refl;
  key_pqc = tt;
  manifest = refl;
  chain = two_steps-verifies;
  tip = tt;
}

Trusted-verify_chain_anchored_example :
    verify_chain_anchored plain_crypto (from_writer two_steps) zero_hash anchor ≡ ok tt
Trusted-verify_chain_anchored_example =
    Trusted-verify_chain_anchored plain_crypto (from_writer two_steps) zero_hash anchor
      two_steps-Trusted

verify_chain_anchored-Trusted_example :
    Trusted plain_crypto (from_writer two_steps) zero_hash anchor
verify_chain_anchored-Trusted_example =
    verify_chain_anchored-Trusted plain_crypto (from_writer two_steps) zero_hash anchor (
      Trusted-verify_chain_anchored plain_crypto (from_writer two_steps) zero_hash anchor
        two_steps-Trusted)
