-- ===== src/Prelude/Fallible.antt =====
-- What may fail: a panic (Rust's `expect` on a value that is not there), and Rust's `Result`.
use mathlib.Core.Option.{Option, none, some}
use mathlib.Core.Path.{◌≡◌, refl, ap, subst}
use mathlib.Core.Logic.{◌⊎◌, inl, inr}

-- `panic` ends the program
pub data Checked {ℓ} (A : Type ℓ) : Type ℓ where
  panic : Checked A
  done : A → Checked A

infixl 5 ◌>>=◌
abbrev pub ◌>>=◌ {ℓ κ} : {A : Type ℓ} {B : Type κ} → Checked A → (A → Checked B) → Checked B
panic >>= f = panic
done a >>= f = f a

-- `Option::expect`
abbrev pub expect {ℓ} : {A : Type ℓ} → Option A → Checked A
expect none = panic
expect (some a) = done a

pub data Result {ℓ κ} (E : Type ℓ) (A : Type κ) : Type (ℓ ⊔ κ) where
  ok : A → Result E A
  err : E → Result E A

-- the `?` operator
abbrev pub and_then {ℓ κ ν} :
    {E : Type ℓ} {A : Type κ} {B : Type ν} → Result E A → (A → Result E B) → Result E B
and_then (ok a) f = f a
and_then (err e) f = err e

-- the computation does not panic, and its value satisfies `P`
abbrev pub Returns {ℓ} : {A : Type ℓ} → (A → Type 0) → Checked A → Type 0
Returns P panic = ⊥
Returns P (done a) = P a

pub Returns->>= {ℓ κ} :
    {A : Type ℓ} {B : Type κ} (P : A → Type 0) (Q : B → Type 0) (m : Checked A) (f : A → Checked B)
    → Returns P m
    → ((a : A) → P a → Returns Q (f a))
    → Returns Q (m >>= f)
Returns->>= P Q panic f h k = h
Returns->>= P Q (done a) f h k = k a h

pub Returns-imp {ℓ} :
    {A : Type ℓ} (P Q : A → Type 0) (m : Checked A)
    → Returns P m
    → ((a : A) → P a → Q a)
    → Returns Q m
Returns-imp P Q panic h k = h
Returns-imp P Q (done a) h k = k a h

pub Result-cases {ℓ κ} :
    {E : Type ℓ} {A : Type κ} (r : Result E A) → ((a : A) × (r ≡ ok a)) ⊎ ((e : E) × (r ≡ err e))
Result-cases (ok a) = inl (a, refl)
Result-cases (err e) = inr (e, refl)

-- the value of an `ok`, or `d`
unwrap_ok {ℓ κ} : {E : Type ℓ} {A : Type κ} → A → Result E A → A
unwrap_ok d (ok a) = a
unwrap_ok d (err e) = d

pub ok-injective {ℓ κ} :
    {E : Type ℓ} {A : Type κ} {a b : A} → ◌≡◌ {A = Result E A} (ok a) (ok b) → a ≡ b
unfolding unwrap_ok
ok-injective {a = a} p = ap (unwrap_ok a) p

-- the value of a `done`, or `d`
unwrap_done {ℓ} : {A : Type ℓ} → A → Checked A → A
unwrap_done d (done a) = a
unwrap_done d panic = d

done-injective {ℓ} : {A : Type ℓ} {a b : A} → done a ≡ done b → a ≡ b
unfolding unwrap_done
done-injective {a = a} p = ap (unwrap_done a) p

-- what a computation returns satisfies the predicate of `Returns`
pub Returns-value {ℓ} :
    {A : Type ℓ} (P : A → Type 0) (m : Checked A) (a : A) → Returns P m → m ≡ done a → P a
Returns-value P panic a h e = absurd h
Returns-value P (done b) a h e = subst P (done-injective e) h

-- a computation that returns, returns the value it is equal to
pub Returns-refl {ℓ} :
    {A : Type ℓ} (P Q : A → Type 0) (m : Checked A)
    → Returns P m
    → ((a : A) → m ≡ done a → Q a)
    → Returns Q m
Returns-refl P Q panic h k = h
Returns-refl P Q (done a) h k = k a refl

-- two computations both panic, or both return, related values
abbrev pub Both {ℓ κ} :
    {A : Type ℓ} {B : Type κ} → (A → B → Type 0) → Checked A → Checked B → Type 0
Both R panic panic = Unit
Both R panic (done b) = ⊥
Both R (done a) panic = ⊥
Both R (done a) (done b) = R a b

pub Both->>= {ℓ κ ν μ} :
    {A : Type ℓ} {B : Type κ} {C : Type ν} {D : Type μ} (R : A → B → Type 0) (S : C → D → Type 0)
    (m : Checked A) (n : Checked B) (f : A → Checked C) (g : B → Checked D)
    → Both R m n
    → ((a : A) (b : B) → R a b → Both S (f a) (g b))
    → Both S (m >>= f) (n >>= g)
Both->>= R S panic panic f g h k = tt
Both->>= R S panic (done b) f g h k = absurd h
Both->>= R S (done a) panic f g h k = absurd h
Both->>= R S (done a) (done b) f g h k = k a b h

-- one computation, followed by two
pub Both-same {ℓ κ ν} :
    {A : Type ℓ} {C : Type κ} {D : Type ν} (S : C → D → Type 0) (m : Checked A) (f : A → Checked C)
    (g : A → Checked D)
    → ((a : A) → Both S (f a) (g a))
    → Both S (m >>= f) (m >>= g)
Both-same S panic f g k = tt
Both-same S (done a) f g k = k a

-- one computation, twice
pub Both-refl {ℓ} :
    {A : Type ℓ} (R : A → A → Type 0) (m : Checked A) → ((a : A) → R a a) → Both R m m
Both-refl R panic k = tt
Both-refl R (done a) k = k a

-- the computation panics, or its value satisfies `P`
abbrev pub Allows {ℓ} : {A : Type ℓ} → (A → Type 0) → Checked A → Type 0
Allows P panic = Unit
Allows P (done a) = P a

pub Allows->>= {ℓ κ} :
    {A : Type ℓ} {B : Type κ} (P : A → Type 0) (Q : B → Type 0) (m : Checked A) (f : A → Checked B)
    → Allows P m
    → ((a : A) → P a → Allows Q (f a))
    → Allows Q (m >>= f)
Allows->>= P Q panic f h k = tt
Allows->>= P Q (done a) f h k = k a h

pub Allows-any {ℓ κ} :
    {A : Type ℓ} {B : Type κ} (Q : B → Type 0) (m : Checked A) (f : A → Checked B)
    → ((a : A) → Allows Q (f a))
    → Allows Q (m >>= f)
Allows-any Q panic f k = tt
Allows-any Q (done a) f k = k a

pub Allows-value {ℓ} :
    {A : Type ℓ} (P : A → Type 0) (m : Checked A) (a : A) → Allows P m → m ≡ done a → P a
Allows-value P panic a h e = absurd (cc)
Allows-value P (done b) a h e = subst P (done-injective e) h

-- a chain that ends well has begun well
pub and_then-ok {ℓ κ ν} :
    {E : Type ℓ} {A : Type κ} {B : Type ν} (r : Result E A) (f : A → Result E B) (b : B)
    → and_then r f ≡ ok b
    → (a : A) × (r ≡ ok a) × (f a ≡ ok b)
and_then-ok (ok a) f b h = (a, refl, h)
and_then-ok (err e) f b h = absurd (cc)

pub Returns-both {ℓ} :
    {A : Type ℓ} (P Q : A → Type 0) (m : Checked A)
    → Returns P m
    → Returns Q m
    → Returns (λ a. P a × Q a) m
Returns-both P Q panic p q = p
Returns-both P Q (done a) p q = (p, q)

pub Allows-refl {ℓ} :
    {A : Type ℓ} (P : A → Type 0) (m : Checked A) → ((a : A) → m ≡ done a → P a) → Allows P m
Allows-refl P panic k = tt
Allows-refl P (done a) k = k a refl

pub Returns-Allows {ℓ} : {A : Type ℓ} (P : A → Type 0) (m : Checked A) → Returns P m → Allows P m
Returns-Allows P panic h = absurd h
Returns-Allows P (done a) h = h

pub Returns-with {ℓ} :
    {A : Type ℓ} (P Q : A → Type 0) (m : Checked A)
    → Returns P m
    → Allows Q m
    → Returns (λ a. P a × Q a) m
Returns-with P Q panic p q = p
Returns-with P Q (done a) p q = (p, q)
