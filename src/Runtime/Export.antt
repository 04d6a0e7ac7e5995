-- ===== src/Runtime/Export.antt =====
-- runtime/kernel.rs: what a kernel tells of its log, and the log that it hands out in the end.
pub mod Pinned
use arkhe_kernel.Prelude.{ℕ, Option, none, some}
use arkhe_kernel.Persist.Record.{Hash}
use arkhe_kernel.Persist.Wal.{Wal, WalWriter, from_writer, record_count}
use arkhe_kernel.Runtime.Kernel.{Kernel}

-- `WalWriter::chain_tip`
unfoldable pub writer_tip : WalWriter → Hash
writer_tip w = w.prev_hash

unfoldable pub wal_chain_tip : Kernel → Option Hash
unfolding writer_tip
wal_chain_tip k = elim k.wal [ none ↦ none | some w ↦ some (writer_tip w) ]

unfoldable pub wal_record_count : Kernel → Option ℕ
unfolding record_count
wal_record_count k = elim k.wal [ none ↦ none | some w ↦ some (record_count w) ]

unfoldable pub export_wal : Kernel → Option Wal
unfolding from_writer
export_wal k = elim k.wal [ none ↦ none | some w ↦ some (from_writer w) ]
