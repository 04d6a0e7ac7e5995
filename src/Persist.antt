-- ===== src/Persist.antt =====
-- arkhe-kernel/src/persist: the write-ahead log, its signatures, its verification and its replay.
pub mod Record
pub mod Signature
pub mod Wal
pub mod Verify
pub mod Archive
pub mod Replay
pub mod Snapshot
