-- ===== src/Persist/Wal.antt =====
-- persist/wal.rs: the header, and the writer that seals one record after another.
pub mod Sealed
use arkhe_kernel.Prelude.{
  ℕ, Option, none, some, List, [], ◌∷◌, ◌++◌, length, Result, ok, err, and_then, sat_add64, ascii,
}
use arkhe_kernel.Abi.{EntityId, InstanceId, Principal, Tick, TypeCode, Bytes}
use arkhe_kernel.State.Scheduler.Key.{ScheduledActionId}
use arkhe_kernel.Persist.Record.{
  Hash, zero_hash, WalRecord, WalRecordContent, submit, step, StepVerdict,
}
use arkhe_kernel.Persist.Signature.{
  Crypto, SignatureClass, sign, sign_hybrid, verifying_key_bytes, verifying_key_pqc_bytes,
}

pub record TypeRegistryPin : Type 0 where
  pub type_code : TypeCode
  pub schema_hash : Hash

pub record WalHeader : Type 0 where
  pub magic : Bytes
  -- major, minor, patch
  pub kernel_semver : ℕ × ℕ × ℕ
  pub postcard_version : ℕ
  pub blake3_version : ℕ
  pub domain_separation_context : Bytes
  pub world_id : Hash
  -- major, minor
  pub abi_version : ℕ × ℕ
  pub manifest_digest : Hash
  pub type_registry_pins : List TypeRegistryPin
  pub verifying_key : Option Hash
  pub verifying_key_pqc : Option Bytes

-- `WalHeader::MAGIC`
abbrev pub magic_bytes : Bytes
magic_bytes = ascii "ARKHEWAL"

-- `WalHeader::CURRENT_KERNEL_SEMVER`
abbrev pub current_kernel_semver : ℕ × ℕ × ℕ
current_kernel_semver = (0, 15, 0)

-- `WalHeader::ABI_VERSION`
abbrev pub current_abi_version : ℕ × ℕ
current_abi_version = (0, 15)

-- `WalHeader::POSTCARD_MAJOR` and `WalHeader::BLAKE3_MAJOR`
abbrev pub postcard_major : ℕ
postcard_major = 1

abbrev pub blake3_major : ℕ
blake3_major = 1

-- `WalHeader::DOMAIN_CTX`
abbrev pub domain_ctx : Bytes
domain_ctx = ascii "arkhe-kernel v0.15 WAL chain domain separation context"

-- Where an error names a record, it carries its index.
pub data WalError : Type 0 where
  serialize_failed deserialize_failed header_incompatible invalid_verifying_key : WalError
  pqc_without_ed25519 tier_downgrade : WalError
  verifying_key_mismatch manifest_digest_mismatch chain_tip_mismatch : WalError
  chain_broken hash_mismatch missing_signature signature_mismatch : ℕ → WalError
  missing_pqc_signature pqc_signature_mismatch : ℕ → WalError

pub record WalWriter : Type 0 where
  pub header : WalHeader
  pub records : List WalRecord
  pub next_seq : ℕ
  pub prev_hash : Hash
  pub chain_key : Hash
  pub sig_class : SignatureClass

-- a sealed log
pub record Wal : Type 0 where
  pub header : WalHeader
  pub records : List WalRecord

abbrev pub last_hash : Hash → List WalRecord → Hash
last_hash h [] = h
last_hash h (r ∷ rs) = last_hash r.this_chain_hash rs

-- `Wal::chain_tip`
unfoldable pub chain_tip : Wal → Hash
chain_tip w = last_hash zero_hash w.records

-- `Wal::from_writer`
unfoldable pub from_writer : WalWriter → Wal
from_writer w = record { header = w.header; records = w.records }

module _ (c : Crypto) where
  unfoldable pub build_chain_key : Hash → Hash
  build_chain_key world_id = c.derive_key domain_ctx world_id

  unfoldable pub with_signature : Hash → Hash → SignatureClass → WalWriter
  unfolding build_chain_key
  with_signature world_id manifest_digest sig_class = record {
    header = record {
      magic = magic_bytes;
      kernel_semver = current_kernel_semver;
      postcard_version = postcard_major;
      blake3_version = blake3_major;
      domain_separation_context = domain_ctx;
      world_id = world_id;
      abi_version = current_abi_version;
      manifest_digest = manifest_digest;
      type_registry_pins = [];
      verifying_key = verifying_key_bytes c sig_class;
      verifying_key_pqc = verifying_key_pqc_bytes c sig_class;
    };
    records = [];
    next_seq = 0;
    prev_hash = zero_hash;
    chain_key = build_chain_key world_id;
    sig_class = sig_class;
  }

  unfoldable pub rebuild_from_header : WalHeader → WalWriter
  unfolding build_chain_key
  rebuild_from_header header = record {
    header = header;
    records = [];
    next_seq = 0;
    prev_hash = zero_hash;
    chain_key = build_chain_key header.world_id;
    sig_class = SignatureClass.unsigned;
  }

  -- the two signature slots of a record
  unfoldable pub signatures : SignatureClass → Bytes → Option Bytes × Option Bytes
  signatures class body = elim (sign_hybrid c class body) [
    | some hyb ↦ (some hyb.0, some hyb.1)
    | none ↦ (sign c class body, none)
  ]

  -- the chain hash over the previous hash and the body
  abbrev pub chain_hash : Hash → Hash → Bytes → Hash
  chain_hash key prev body = c.keyed_hash key (prev ++ body)

  unfoldable pub seal :
      WalWriter → WalRecordContent → Result WalError (Hash × Option Bytes × Option Bytes)
  unfolding signatures
  seal w content = elim (c.encode_body content w.prev_hash) [
    | none ↦ err serialize_failed
    | some body ↦
        let sigs = signatures w.sig_class body in
        ok (chain_hash w.chain_key w.prev_hash body, sigs.0, sigs.1)
  ]

  -- On an error the writer keeps its records and its tip.
  unfoldable pub push_sealed : WalWriter → WalRecordContent → Result WalError (Unit {0}) × WalWriter
  unfolding seal
  push_sealed w content = elim (seal w content) [
    | err e ↦ (err e, w)
    | ok parts ↦ (
      ok tt,
      record w {
        records =
            w.records
            ++ record {
              content = content;
              prev_chain_hash = w.prev_hash;
              this_chain_hash = parts.0;
              signature = parts.1;
              signature_pqc = parts.2;
            }
              ∷ [];
        prev_hash = parts.0;
      },
    )
  ]

  -- the first two lines of `append_submit` and `append_step`
  abbrev pub numbered : WalWriter → WalWriter
  numbered w = record w { next_seq = sat_add64 w.next_seq 1 }

  unfoldable pub append_submit :
      WalWriter
      → InstanceId
      → Principal
      → Option EntityId
      → ℕ
      → Tick
      → TypeCode
      → Bytes
      → ScheduledActionId
      → Result WalError (Unit {0}) × WalWriter
  unfolding push_sealed
  append_submit w inst principal actor caps at tc bytes id = push_sealed (numbered w) (
      submit (record {
        seq = sat_add64 w.next_seq 1;
        instance_id = inst;
        principal = principal;
        actor = actor;
        caps_at_submit = caps;
        at = at;
        action_type_code = tc;
        action_bytes = bytes;
        allocated_id = id;
      }))

  unfoldable pub append_step :
      WalWriter
      → InstanceId
      → ScheduledActionId
      → Tick
      → ℕ
      → StepVerdict
      → Hash
      → Result WalError (Unit {0}) × WalWriter
  unfolding push_sealed
  append_step w inst popped now caps verdict digest = push_sealed (numbered w) (
      step (record {
        seq = sat_add64 w.next_seq 1;
        instance_id = inst;
        popped_id = popped;
        now = now;
        session_caps = caps;
        verdict = verdict;
        post_state_digest = digest;
      }))

-- `WalWriter::record_count`
unfoldable pub record_count : WalWriter → ℕ
record_count w = length w.records
