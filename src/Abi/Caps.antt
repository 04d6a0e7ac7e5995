-- ===== src/Abi/Caps.antt =====
-- abi/caps.rs: the capability mask, a `u64` of flags, and the laws of `contains` and `&`.
use arkhe_kernel.Prelude.{
  ℕ, zero, suc, ◌/◌, ◌≤◌, bit_and, ◌≡◌, refl, Bool, true, arith, ◌==◌, ==_iff,
}
use Prim.Native.Nat.{bit_and-bitwise}
use arkhe_kernel.Prelude.Bits.{bit_and-halves}

abbrev pub CapabilityMask : Type 0
CapabilityMask = ℕ

-- the flag `SYSTEM`, bit 0
abbrev pub system_cap : CapabilityMask
system_cap = 1

-- the flag `ADMIN_UNLOAD`, bit 1
abbrev pub admin_unload : CapabilityMask
admin_unload = 2

-- the flag `OBSERVER_REGISTER`, bit 2
abbrev pub observer_register : CapabilityMask
observer_register = 4

-- the flag `INTROSPECT`, bit 3
abbrev pub introspect : CapabilityMask
introspect = 8

-- `caps.contains(flags)`: every bit of `flags` is set in `caps`
unfoldable pub contains : CapabilityMask → CapabilityMask → Bool
contains caps flags = bit_and caps flags == flags

half-bit_and : (a b : ℕ) → bit_and a b / 2 ≡ bit_and (a / 2) (b / 2)
half-bit_and a b = omega (arith, bit_and-halves a b)

-- One round of the digit recursion, for `c` inside `a & b`.
inside_halves :
    (a b c : ℕ) → bit_and (bit_and a b) c ≡ c → bit_and (bit_and (a / 2) (b / 2)) (c / 2) ≡ c / 2
inside_halves a b c h = rw (← half-bit_and a b) (omega (arith, bit_and-halves (bit_and a b) c))

bit_and-zero : (n a : ℕ) → a ≤ n → bit_and a 0 ≡ 0
bit_and-zero n zero h = refl
bit_and-zero zero (suc a) h = absurd (omega arith)
bit_and-zero (suc n) (suc a) h =
    omega (arith, bit_and-halves (suc a) 0, bit_and-zero n (suc a / 2) (omega arith))

-- Every bit of `a & b` is one of `a` and one of `b`.
bits_of_and :
    (n a b c : ℕ) → c ≤ n → bit_and (bit_and a b) c ≡ c → (bit_and a c ≡ c) × (bit_and b c ≡ c)
bits_of_and zero a b zero p h = (bit_and-zero a a (omega arith), bit_and-zero b b (omega arith))
bits_of_and zero a b (suc c) p h = absurd (omega arith)
bits_of_and (suc n) a b zero p h = (bit_and-zero a a (omega arith), bit_and-zero b b (omega arith))
bits_of_and (suc n) a b (suc c) p h =
    let ih =
      bits_of_and n (a / 2) (b / 2) (suc c / 2) (omega arith) (inside_halves a b (suc c) h) in
    omega (
      arith,
      ih,
      bit_and-halves (bit_and a b) (suc c),
      bit_and-halves a b,
      bit_and-halves a (suc c),
      bit_and-halves b (suc c),
    )

pub contains-and :
    (a b c : CapabilityMask)
    → contains (bit_and a b) c ≡ true
    → (contains a c ≡ true) × (contains b c ≡ true)
unfolding contains
contains-and a b c h =
    let bits = bits_of_and c a b c (omega arith) ((==_iff _ c).0 h) in
    ((==_iff _ c).1 bits.0, (==_iff _ c).1 bits.1)

-- The empty mask contains no flags but none.
pub contains-empty : (flags : CapabilityMask) → contains 0 flags ≡ true → flags ≡ 0
unfolding contains
contains-empty flags h = omega (arith, (==_iff _ flags).0 h, bit_and-bitwise 0 flags)
