-- ===== src/BTreeMap/Injection.antt =====
-- Two maps, and a function that takes each key of the first to a key of the second, no two to the
-- same: the second is at least as large, and if it is not larger, every key of it is taken.
use arkhe_kernel.Order.{Ord, eqb, eqb_self, eq_of_eqb}
use arkhe_kernel.Prelude.{
  ◌≤◌, ◌≡◌, refl, sym, true, false, some, [], ◌∷◌, arith, length, is_some, Bool-cases, inl, inr,
}
use arkhe_kernel.BTreeMap.{BTreeMap, get, remove}
use arkhe_kernel.BTreeMap.Sorted.{IsSorted, get-Above, remove-IsSorted}
use arkhe_kernel.BTreeMap.Lookup.{get-remove}
use arkhe_kernel.BTreeMap.Size.{length-remove}

module _ {ℓ κ} {K : Type ℓ} {V : Type κ} ⦃o : Ord K⦄ where
  get_later :
      (k j : K) (v w : V) (m : BTreeMap K V)
      → IsSorted ((k, v) ∷ m)
      → get j m ≡ some w
      → (get j ((k, v) ∷ m) ≡ some w) × (eqb j k ≡ false)
  unfolding get
  get_later k j v w m s h = ground (arith, get-Above k m s.0, eq_of_eqb j k)

  get_now : (k : K) (v : V) (m : BTreeMap K V) → get k ((k, v) ∷ m) ≡ some v
  unfolding get
  get_now k v m = rw (eqb_self k) refl

module _ {ℓ κ ν μ} {K : Type ℓ} {V : Type κ} {J : Type ν} {W : Type μ} ⦃o : Ord K⦄ ⦃p : Ord J⦄
    (g : K → V → J) where
  pub record Injects (m : BTreeMap K V) (n : BTreeMap J W) : Type (ℓ ⊔ κ ⊔ ν) where
    pub lands : (k : K) (v : V) → get k m ≡ some v → is_some (get (g k v) n) ≡ true
    pub injective :
        (k k' : K) (v v' : V) → get k m ≡ some v → get k' m ≡ some v' → g k v ≡ g k' v' → k ≡ k'

  Injects-tail :
      (k : K) (v : V) (m : BTreeMap K V) (n : BTreeMap J W)
      → IsSorted ((k, v) ∷ m)
      → Injects ((k, v) ∷ m) n
      → Injects m (remove (g k v) n)
  Injects-tail k v m n s i = record {
    lands = λ j w h.
        let later = get_later k j v w m s h in
        elim (Bool-cases (eqb (g j w) (g k v))) [
          | inl same ↦
              let e =
                i.injective j k w v later.0 (get_now k v m) (eq_of_eqb (g j w) (g k v) same) in
              absurd (cc (later.1, e, eqb_self k))
          | inr other ↦ rw (get-remove (g j w) (g k v) n, other) (i.lands j w later.0)
        ];
    injective = λ j j' w w' h h' e.
        i.injective j j' w w' (get_later k j v w m s h).0 (get_later k j' v w' m s h').0 e;
  }

  pub length-Injects :
      (m : BTreeMap K V) (n : BTreeMap J W)
      → IsSorted m
      → IsSorted n
      → Injects m n
      → length m ≤ length n
  length-Injects [] n s t i = omega arith
  length-Injects ((k, v) ∷ m) n s t i =
      let rest =
        length-Injects m (remove (g k v) n) s.1 (remove-IsSorted (g k v) n t)
          (Injects-tail k v m n s i) in
      ground (arith, length-remove (g k v) n t, i.lands k v (get_now k v m))

  pub Injects-onto :
      (m : BTreeMap K V) (n : BTreeMap J W)
      → IsSorted m
      → IsSorted n
      → Injects m n
      → length n ≤ length m
      → (j : J) (w : W) → get j n ≡ some w
      → (k : K) × (v : V) × (get k m ≡ some v) × (g k v ≡ j)
  unfolding get
  Injects-onto [] [] s t i size j w h = absurd (cc)
  Injects-onto [] (e ∷ n) s t i size j w h = absurd (omega arith)
  Injects-onto ((k, v) ∷ m) n s t i size j w h = elim (Bool-cases (eqb j (g k v))) [
    | inl here ↦ (k, v, get_now k v m, sym (eq_of_eqb j (g k v) here))
    | inr there ↦
        let rest =
          Injects-onto m (remove (g k v) n) s.1 (remove-IsSorted (g k v) n t)
            (Injects-tail k v m n s i)
            (ground (arith, length-remove (g k v) n t, i.lands k v (get_now k v m))) j w
            (rw (get-remove j (g k v) n, there) h) in
        (rest.0, rest.1, (get_later k rest.0 v rest.1 m s rest.2).0, rest.3)
  ]
