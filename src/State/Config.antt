-- ===== src/State/Config.antt =====
-- state/config.rs and the policy type of state/quota.rs
use arkhe_kernel.Prelude.{ℕ, Option}
use arkhe_kernel.Abi.{InstanceId}
use arkhe_kernel.Abi.Caps.{CapabilityMask}

pub data QuotaReductionPolicy : Type 0 where
  reject grandfather_existing throttle_proportional : QuotaReductionPolicy

-- A bound of 0 means no bound.
pub record InstanceConfig : Type 0 where
  pub default_caps : CapabilityMask
  pub max_entities : ℕ
  pub max_scheduled : ℕ
  pub max_inbox_per_route : ℕ
  pub memory_budget_bytes : ℕ
  pub parent : Option InstanceId
  pub quota_reduction : QuotaReductionPolicy
