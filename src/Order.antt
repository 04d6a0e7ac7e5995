-- ===== src/Order.antt =====
-- Rust's `Ord`: a total order given by a comparison, and the orders of the keys in use.
use arkhe_kernel.Prelude.{
  ℕ, Ordering, compare, ◌≡◌, ap, ◌≢◌, ◌⊎◌, inl, inr, Bool, true, false, Bool-cases, arith,
}
use Prim.Native.Nat.Ordering.{lt, eq, gt}

abbrev pub flip : Ordering → Ordering
flip lt = gt
flip eq = eq
flip gt = lt

pub record Ord {ℓ} (K : Type ℓ) : Type ℓ where
  pub cmp : K → K → Ordering
  pub cmp_self : (a : K) → cmp a a ≡ eq
  pub eq_of_cmp : (a b : K) → cmp a b ≡ eq → a ≡ b
  pub cmp_flip : (a b : K) → cmp b a ≡ flip (cmp a b)
  pub cmp_trans : (a b c : K) → cmp a b ≡ lt → cmp b c ≡ lt → cmp a c ≡ lt

pub compare_trans : (a b c : ℕ) → compare a b ≡ lt → compare b c ≡ lt → compare a c ≡ lt
compare_trans a b c p q = ground arith

pub compare-flip : (a b : ℕ) → compare b a ≡ flip (compare a b)
compare-flip a b = ground arith

pub compare_self : (a : ℕ) → compare a a ≡ eq
compare_self a = ground arith

pub eq_of_compare : (a b : ℕ) → compare a b ≡ eq → a ≡ b
eq_of_compare a b p = ground arith

instance unfoldable pub nat_ord : Ord ℕ
nat_ord = record {
  cmp = compare;
  cmp_self = compare_self;
  eq_of_cmp = eq_of_compare;
  cmp_flip = compare-flip;
  cmp_trans = compare_trans;
}

-- the first comparison decides, the second breaks a tie
abbrev pub then_with : Ordering → Ordering → Ordering
then_with eq d = d
then_with lt d = lt
then_with gt d = gt

-- Tuples of two compare lexicographically.
module _ {ℓ κ} {A : Type ℓ} {B : Type κ} ⦃a : Ord A⦄ ⦃b : Ord B⦄ where
  abbrev pub lex : A × B → A × B → Ordering
  lex x y = then_with (a.cmp x.0 y.0) (b.cmp x.1 y.1)

  pub lex_self : (x : A × B) → lex x x ≡ eq
  lex_self x = ground (arith, a.cmp_self x.0, b.cmp_self x.1)

  pub eq_of_lex : (x y : A × B) → lex x y ≡ eq → x ≡ y
  eq_of_lex x y p = ground (arith, a.eq_of_cmp x.0 y.0, b.eq_of_cmp x.1 y.1)

  pub lex-flip : (x y : A × B) → lex y x ≡ flip (lex x y)
  lex-flip x y = ground (arith, a.cmp_flip x.0 y.0, b.cmp_flip x.1 y.1)

  pub lex_trans : (x y z : A × B) → lex x y ≡ lt → lex y z ≡ lt → lex x z ≡ lt
  lex_trans x y z p q = ground (
    arith,
    a.eq_of_cmp x.0 y.0,
    a.eq_of_cmp y.0 z.0,
    a.cmp_trans x.0 y.0 z.0,
    b.cmp_trans x.1 y.1 z.1,
  )

  instance unfoldable pub pair_ord : Ord (A × B)
  pair_ord = record {
    cmp = lex;
    cmp_self = lex_self;
    eq_of_cmp = eq_of_lex;
    cmp_flip = lex-flip;
    cmp_trans = lex_trans;
  }

abbrev is_eq : Ordering → Bool
is_eq eq = true
is_eq lt = false
is_eq gt = false

module _ {ℓ} {K : Type ℓ} ⦃o : Ord K⦄ where
  abbrev pub eqb : K → K → Bool
  eqb a b = is_eq (o.cmp a b)

  pub eqb_self : (a : K) → eqb a a ≡ true
  eqb_self a = ground (arith, o.cmp_self a)

  pub eq_of_eqb : (a b : K) → eqb a b ≡ true → a ≡ b
  eq_of_eqb a b h = ground (arith, o.eq_of_cmp a b)

  pub eqb_ne : (a b : K) → a ≢ b → eqb a b ≡ false
  eqb_ne a b h = ground (arith, o.eq_of_cmp a b)

  -- Keys can be told apart.
  pub eqb_cases : (a b : K) → (a ≡ b) ⊎ ((a ≢ b) × (eqb a b ≡ false))
  eqb_cases a b = elim (Bool-cases (eqb a b)) [
    | inl same ↦ inl (eq_of_eqb a b same)
    | inr other ↦ inr (λ e. cc (other, eqb_self b, ap (λ x. eqb x b) e), other)
  ]
