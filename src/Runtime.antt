-- ===== src/Runtime.antt =====
-- arkhe-kernel/src/runtime: events, observers, the staged step, and the kernel.
pub mod Event
pub mod Observer
pub mod Stage
pub mod Dispatch
pub mod Apply
pub mod Registry
pub mod Gate
pub mod Step
pub mod Kernel
pub mod Drive
pub mod Export
pub mod Reach
pub mod View
