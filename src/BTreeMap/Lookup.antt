-- ===== src/BTreeMap/Lookup.antt =====
-- What `get` finds after `insert` and `remove`, for every list of entries.
use arkhe_kernel.Order.{Ord, eqb, eqb_self, eq_of_eqb, eqb_ne}
use arkhe_kernel.Prelude.{
  ◌≡◌, ◌≢◌, inl, inr, refl, subst, Bool-cases, none, some, [], ◌∷◌, arith, if◌then◌else◌,
}
use arkhe_kernel.BTreeMap.{BTreeMap, get, insert, remove}

module _ {ℓ κ} {K : Type ℓ} {V : Type κ} ⦃o : Ord K⦄ where
  pub get-insert :
      (j k : K) (v : V) (m : BTreeMap K V)
      → get j (insert k v m) ≡ (if eqb j k then some v else get j m)
  unfolding get insert
  get-insert j k v [] = refl
  get-insert j k v ((i, w) ∷ m) = ground (
    arith,
    get-insert j k v m,
    o.eq_of_cmp k i,
    o.eq_of_cmp j k,
    o.eq_of_cmp j i,
    o.cmp_self j,
    o.cmp_self k,
  )

  pub get-remove :
      (j k : K) (m : BTreeMap K V) → get j (remove k m) ≡ (if eqb j k then none else get j m)
  unfolding get remove
  get-remove j k [] = ground arith
  get-remove j k ((i, w) ∷ m) = ground (
    arith,
    get-remove j k m,
    o.eq_of_cmp k i,
    o.eq_of_cmp j k,
    o.eq_of_cmp j i,
    o.cmp_self j,
    o.cmp_self k,
  )

  pub get-insert_self : (k : K) (v : V) (m : BTreeMap K V) → get k (insert k v m) ≡ some v
  get-insert_self k v m = rw (get-insert k k v m, eqb_self k)

  pub get-insert_ne : (j k : K) (v : V) (m : BTreeMap K V) → j ≢ k → get j (insert k v m) ≡ get j m
  get-insert_ne j k v m h = rw (get-insert j k v m, eqb_ne j k h)

  pub get-remove_self : (k : K) (m : BTreeMap K V) → get k (remove k m) ≡ none
  get-remove_self k m = rw (get-remove k k m, eqb_self k)

  pub get-remove_ne : (j k : K) (m : BTreeMap K V) → j ≢ k → get j (remove k m) ≡ get j m
  get-remove_ne j k m h = rw (get-remove j k m, eqb_ne j k h)

  -- What is found after a removal was there before, under another key.
  pub get_of_get-remove :
      (j k : K) (v : V) (m : BTreeMap K V)
      → get j (remove k m) ≡ some v
      → (j ≢ k) × (get j m ≡ some v)
  get_of_get-remove j k v m h =
      grind (arith, get-remove j k m, eqb_self k, Bool-cases (eqb j k), eq_of_eqb j k)

  -- every value of the map satisfies `P`
  unfoldable pub Everywhere : (V → Type 0) → BTreeMap K V → Type 0
  Everywhere P [] = Unit
  Everywhere P ((k, v) ∷ m) = P v × Everywhere P m

  pub insert-Everywhere :
      (P : V → Type 0) (k : K) (v : V) (m : BTreeMap K V)
      → P v
      → Everywhere P m
      → Everywhere P (insert k v m)
  unfolding Everywhere insert
  insert-Everywhere P k v [] p all = (p, tt)
  insert-Everywhere P k v ((j, w) ∷ m) p all = ground (arith, insert-Everywhere P k v m p all.1)

  pub get-Everywhere :
      (P : V → Type 0) (k : K) (v : V) (m : BTreeMap K V) → Everywhere P m → get k m ≡ some v → P v
  unfolding Everywhere get
  get-Everywhere P k v [] all h = absurd (cc)
  get-Everywhere P k v ((j, w) ∷ m) all h = elim (Bool-cases (eqb k j)) [
    | inl here ↦ (let same : w ≡ v = ground arith in subst P same all.0)
    | inr there ↦ get-Everywhere P k v m all.1 (ground arith)
  ]
