-- ===== src/State/Quota.antt =====
-- state/quota.rs: the new quota of each child when a parent's quota shrinks. `u128` products of
-- two `u64` values never saturate, and the model keeps the saturating sums of the source.
pub mod Shares
use arkhe_kernel.Prelude.{
  ℕ, zero, suc, ◌+◌, ◌-◌, ◌*◌, ◌/◌, min, List, [], ◌∷◌, Bool, ◌||◌, Result, ok, err, ◌==◌, leb, ltb,
  sat_add64, sat_add128, sat_sub, u64_max, u128_max, if◌then◌else◌,
}
use arkhe_kernel.Abi.{InstanceId}
use arkhe_kernel.State.Config.{
  QuotaReductionPolicy, reject, grandfather_existing, throttle_proportional,
}

abbrev pub Children : Type 0
Children = List (InstanceId × ℕ)

pub data QuotaReductionError : Type 0 where
  -- current_usage, new_quota
  would_violate_children : ℕ → ℕ → QuotaReductionError

-- `fold(0, u64::saturating_add)`
sum_usage : ℕ → Children → ℕ
sum_usage acc [] = acc
sum_usage acc ((id, usage) ∷ cs) = sum_usage (sat_add64 acc usage) cs

-- `current * target / total` in `u128`, narrowed to `u64`
scale : ℕ → ℕ → ℕ → ℕ
scale current target total = min (current * target) u128_max / total

-- the loop that scales: the scaled children, and the running `allocated`
scale_all : ℕ → ℕ → ℕ → Children → Children × ℕ
unfolding scale
scale_all target total allocated [] = ([], allocated)
scale_all target total allocated ((id, current) ∷ cs) =
    let scaled = scale current target total in
    let (rest, sum) = scale_all target total (sat_add128 allocated scaled) cs in
    ((id, min scaled u64_max) ∷ rest, sum)

-- the loop that hands out the remainder, one to each child until it is used up
distribute : ℕ → Children → Children
distribute remainder [] = []
distribute zero (c ∷ cs) = c ∷ cs
distribute (suc r) ((id, v) ∷ cs) = (id, sat_add64 v 1) ∷ distribute r cs

-- `children.is_empty()`
abbrev is_empty : Children → Bool
is_empty [] = Bool.true
is_empty (c ∷ cs) = Bool.false

throttle : ℕ → ℕ → Children → Children
unfolding scale_all distribute
throttle current_total new_quota children =
    if is_empty children || current_total == 0 || leb current_total new_quota
    then children
    else (let (out, allocated) = scale_all new_quota current_total 0 children in
        distribute (sat_sub new_quota allocated) out)

unfoldable pub apply_quota_reduction :
    QuotaReductionPolicy → ℕ → Children → Result QuotaReductionError Children
unfolding sum_usage throttle
apply_quota_reduction reject new_quota children =
    let current_total = sum_usage 0 children in
    if ltb new_quota current_total
    then err (would_violate_children current_total new_quota)
    else ok children
apply_quota_reduction grandfather_existing new_quota children = ok children
apply_quota_reduction throttle_proportional new_quota children =
    ok (throttle (sum_usage 0 children) new_quota children)
