-- ===== src/Persist/Archive.antt =====
-- persist/wal.rs: the bytes of a whole log. postcard is another crate: its two operations are the
-- fields of `WalCodec`.
use arkhe_kernel.Prelude.{Option, none, some, Result, ok, err}
use arkhe_kernel.Abi.{Bytes}
use arkhe_kernel.Persist.Wal.{Wal, WalError}

pub record WalCodec : Type 0 where
  -- `postcard::to_allocvec` and `postcard::from_bytes`
  pub encode : Wal → Option Bytes
  pub decode : Bytes → Option Wal

module _ (d : WalCodec) where
  unfoldable pub serialize : Wal → Result WalError Bytes
  serialize log = elim (d.encode log) [
    | none ↦ err WalError.serialize_failed
    | some bytes ↦ ok bytes
  ]

  unfoldable pub deserialize : Bytes → Result WalError Wal
  deserialize bytes = elim (d.decode bytes) [
    | none ↦ err WalError.deserialize_failed
    | some log ↦ ok log
  ]
