-- ===== src/Tests.antt =====
-- Fixtures, and the theorems applied to concrete inputs.
pub mod Fixtures
mod Kernels
mod Logs
mod Replays
mod Schedulers
mod States
