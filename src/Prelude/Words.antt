-- ===== src/Prelude/Words.antt =====
-- Rust's unsigned integers as natural numbers, with the saturating operations written out.
use Prim.Native.Nat.{ℕ, ◌+◌, ◌-◌, ◌^◌, min}

abbrev pub u32_max : ℕ
u32_max = 2 ^ 32 - 1

abbrev pub u64_max : ℕ
u64_max = 2 ^ 64 - 1

abbrev pub u128_max : ℕ
u128_max = 2 ^ 128 - 1

-- `u32::saturating_add`
abbrev pub sat_add32 : ℕ → ℕ → ℕ
sat_add32 a b = min (a + b) u32_max

-- `u64::saturating_add`
abbrev pub sat_add64 : ℕ → ℕ → ℕ
sat_add64 a b = min (a + b) u64_max

-- `u128::saturating_add`
abbrev pub sat_add128 : ℕ → ℕ → ℕ
sat_add128 a b = min (a + b) u128_max

-- `saturating_sub`, at any width
abbrev pub sat_sub : ℕ → ℕ → ℕ
sat_sub a b = a - b
