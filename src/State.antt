-- ===== src/State.antt =====
-- arkhe-kernel/src/state: what one instance holds, and the rules on what an action may do to it.
pub mod Config
pub mod Op
pub mod Authz
pub mod Quota
pub mod Scheduler
pub mod Ledger
pub mod Instance
