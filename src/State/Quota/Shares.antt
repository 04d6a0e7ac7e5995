-- ===== src/State/Quota/Shares.antt =====
-- What a reduction of the quota leaves the children (state/quota.rs).
use arkhe_kernel.Prelude.{
  ℕ, zero, suc, ◌≡◌, refl, sym, subst, ◌+◌, ◌*◌, ◌/◌, ◌≤◌, ◌<◌, ◌↔◌, false, [], ◌∷◌, arith, ok, err,
  u64_max, u128_max, sat_sub, length, min, sat_add64, ltb, Bool-cases, inl, inr,
}
use native.Mathlib.Nat.{
  le_of_mul-le-mul_right, div-mul-le_self, mul-le-mul_left, mul-le-mul_right, le_trans,
  lt-div-mul-add, mul_comm, add-mul, min-eq_left,
}
use arkhe_kernel.State.Quota.{
  Children, would_violate_children, sum_usage, scale, scale_all, distribute, throttle, is_empty,
  apply_quota_reduction,
}
use arkhe_kernel.State.Config.{
  QuotaReductionPolicy, reject, grandfather_existing, throttle_proportional,
}

-- the sum of the usages, without a bound
unfoldable pub usage : Children → ℕ
usage [] = 0
usage ((id, u) ∷ cs) = u + usage cs

sum_usage-usage :
    (cs : Children) (acc : ℕ) → acc + usage cs ≤ u64_max → sum_usage acc cs ≡ acc + usage cs
unfolding sum_usage usage
sum_usage-usage [] acc h = omega arith
sum_usage-usage ((id, u) ∷ cs) acc h = ground (arith, sum_usage-usage cs (acc + u))

sum_usage_lem : (cs : Children) → usage cs ≤ u64_max → sum_usage 0 cs ≡ usage cs
sum_usage_lem cs fits = let e = sum_usage-usage cs 0 (omega arith) in omega (arith, e)

-- `distribute` hands out the whole remainder if there are as many children
distribute-usage :
    (r : ℕ) (cs : Children)
    → r ≤ length cs
    → usage cs + r ≤ u64_max
    → usage (distribute r cs) ≡ usage cs + r
unfolding distribute usage
distribute-usage zero [] n h = omega arith
distribute-usage (suc r) [] n h = omega arith
distribute-usage zero (c ∷ cs) n h = omega arith
distribute-usage (suc r) ((id, v) ∷ cs) n h = ground (arith, distribute-usage r cs)

-- the exact shares, rounded down
unfoldable pub floors : ℕ → ℕ → Children → ℕ
floors target total [] = 0
floors target total ((id, u) ∷ cs) = u * target / total + floors target total cs

-- a share is at most the usage it shrinks, if the quota is at most the total
share-le_usage : (u target total : ℕ) → 0 < total → target ≤ total → u * target / total ≤ u
share-le_usage u target total pos h =
    le_of_mul-le-mul_right (le_trans (div-mul-le_self (u * target) total) (mul-le-mul_left u h)) pos

-- the products fit in 128 bits
product-fits : (u target : ℕ) → u ≤ u64_max → target ≤ u64_max → u * target ≤ u128_max
product-fits u target h k =
    le_trans (mul-le-mul_left u k) (le_trans (mul-le-mul_right u64_max h) (omega arith))

scale_lem :
    (u target total : ℕ)
    → u ≤ u64_max
    → target ≤ u64_max
    → scale u target total ≡ u * target / total
unfolding scale
scale_lem u target total h k = rw (min-eq_left (product-fits u target h k))

floors-lower :
    (target total : ℕ) (cs : Children) → floors target total cs * total ≤ usage cs * target
unfolding floors usage
floors-lower target total [] = omega arith
floors-lower target total ((id, u) ∷ cs) =
    rw (add-mul (u * target / total) (floors target total cs) total, add-mul u (usage cs) target)
      (let head = div-mul-le_self (u * target) total in
        let rest = floors-lower target total cs in omega (arith, head, rest))

floors-upper :
    (target total : ℕ) (cs : Children)
    → 0 < total
    → usage cs * target ≤ (floors target total cs + length cs) * total
unfolding floors usage
floors-upper target total [] pos = omega arith
floors-upper target total ((id, u) ∷ cs) pos =
    (let head = lt-div-mul-add {a = u * target} {b = total} pos in
      let rest = floors-upper target total cs pos in
      let split = add-mul u (usage cs) target in
      let whole = add-mul (u * target / total + floors target total cs) (suc (length cs)) total in
      let part = add-mul (u * target / total) (floors target total cs) total in
      let more = add-mul (floors target total cs) (length cs) total in
      rw (split, whole) (omega (arith, head, rest, part, more)))

-- the loop that scales computes the exact shares, and their sum
scale_all_lem :
    (target total : ℕ) (cs : Children) (allocated : ℕ)
    → 0 < total
    → total ≤ u64_max
    → target ≤ total
    → usage cs ≤ total
    → allocated + usage cs ≤ u128_max
    → ((scale_all target total allocated cs).1 ≡ allocated + floors target total cs)
      × (usage (scale_all target total allocated cs).0 ≡ floors target total cs)
      × (length (scale_all target total allocated cs).0 ≡ length cs)
unfolding scale_all usage floors
scale_all_lem target total [] allocated pos b k h fits = (omega arith, refl, refl)
scale_all_lem target total ((id, u) ∷ cs) allocated pos b k h fits =
    let exact = scale_lem u target total (omega arith) (omega arith) in
    let small = share-le_usage u target total pos k in
    let rest =
      scale_all_lem target total cs (allocated + u * target / total) pos b k (omega arith)
        (omega arith) in
    (
      ground (arith, exact, small, rest.0),
      ground (arith, exact, small, rest.1),
      ground (arith, rest.2),
    )

usage-nonempty : (cs : Children) → 0 < usage cs → is_empty cs ≡ false
unfolding usage
usage-nonempty [] h = ground arith
usage-nonempty (c ∷ cs) h = refl

-- what is left to hand out, at most one for each child
remainder :
    (target : ℕ) (cs : Children)
    → 0 < usage cs
    → (floors target (usage cs) cs ≤ target) × (target ≤ floors target (usage cs) cs + length cs)
remainder target cs pos = (
  le_of_mul-le-mul_right
      (let lower = floors-lower target (usage cs) cs in
        let turn = mul_comm (usage cs) target in omega (arith, lower, turn))
      pos,
  le_of_mul-le-mul_right
      (let upper = floors-upper target (usage cs) cs pos in
        let turn = mul_comm (usage cs) target in omega (arith, upper, turn))
      pos,
)

throttle-usage :
    (new_quota : ℕ) (cs : Children)
    → usage cs ≤ u64_max
    → new_quota < usage cs
    → usage (throttle (usage cs) new_quota cs) ≡ new_quota
unfolding throttle
throttle-usage new_quota cs fits less =
    let shares =
      scale_all_lem new_quota (usage cs) cs 0 (omega arith) fits (omega arith) (omega arith)
        (omega arith) in
    let bounds = remainder new_quota cs (omega arith) in
    let spread =
      distribute-usage (sat_sub new_quota (scale_all new_quota (usage cs) 0 cs).1)
        (scale_all new_quota (usage cs) 0 cs).0
        (ground (arith, shares.0, shares.2, bounds.0, bounds.1))
        (ground (arith, shares.0, shares.1, bounds.0, bounds.1)) in
    let some_child = usage-nonempty cs (omega arith) in
    ground (arith, spread, some_child, shares.0, shares.1, bounds.0)

-- If the children use more than the new quota, and their usages fit in 64 bits together, the
-- proportional throttle succeeds, and what the children have afterwards is the new quota exactly.
pub throttle-exact :
    (new_quota : ℕ) (cs : Children)
    → usage cs ≤ u64_max
    → new_quota < usage cs
    → (out : Children) × (apply_quota_reduction throttle_proportional new_quota cs ≡ ok out)
      × (usage out ≡ new_quota)
unfolding apply_quota_reduction
throttle-exact new_quota cs fits less = (
  throttle (sum_usage 0 cs) new_quota cs,
  refl,
  subst (λ t. usage (throttle t new_quota cs) ≡ new_quota) (sym (sum_usage_lem cs fits))
      (throttle-usage new_quota cs fits less),
)

-- Children that fit in the new quota keep their shares under every policy, if their usages fit in
-- 64 bits together.
pub apply_quota_reduction-fits :
    (policy : QuotaReductionPolicy) (new_quota : ℕ) (cs : Children)
    → usage cs ≤ u64_max
    → usage cs ≤ new_quota
    → apply_quota_reduction policy new_quota cs ≡ ok cs
unfolding apply_quota_reduction throttle
apply_quota_reduction-fits reject new_quota cs fits h = ground (arith, sum_usage-usage cs 0)
apply_quota_reduction-fits grandfather_existing new_quota cs fits h = refl
apply_quota_reduction-fits throttle_proportional new_quota cs fits h =
    ground (arith, sum_usage-usage cs 0)

-- the saturating sum, at any usage
sum_usage-min :
    (cs : Children) (acc : ℕ) → acc ≤ u64_max → sum_usage acc cs ≡ min (acc + usage cs) u64_max
unfolding sum_usage usage
sum_usage-min [] acc h = omega arith
sum_usage-min ((id, u) ∷ cs) acc h = ground (arith, sum_usage-min cs (sat_add64 acc u))

-- `reject` decides exactly whether the children fit, whatever they use, and leaves them as they are
-- if they do: below the greatest quota, it accepts exactly if their usages sum to at most the new
-- quota, and refuses exactly if they sum to more, with that sum, saturated at 64 bits, and the new
-- quota.
pub reject-exact :
    (new_quota : ℕ) (cs : Children)
    → new_quota < u64_max
    → (apply_quota_reduction reject new_quota cs ≡ ok cs ↔ usage cs ≤ new_quota)
      × (apply_quota_reduction reject new_quota cs
            ≡ err (would_violate_children (min (usage cs) u64_max) new_quota)
          ↔ new_quota < usage cs)
unfolding apply_quota_reduction
reject-exact new_quota cs below =
    let sum : sum_usage 0 cs ≡ min (usage cs) u64_max = ground (arith, sum_usage-min cs 0) in
    elim (Bool-cases (ltb new_quota (min (usage cs) u64_max))) [
      | inl more ↦
          rw (sum, more) ((λ e. absurd (cc e), λ h. ground arith), (λ e. ground arith, λ h. refl))
      | inr fits ↦
          rw (sum, fits) ((λ e. ground arith, λ h. refl), (λ e. absurd (cc e), λ h. ground arith))
    ]
