-- ===== src/BTreeMap/Size.antt =====
-- How `insert` and `remove` change the number of entries and the sum of the values.
use arkhe_kernel.Order.{Ord}
use arkhe_kernel.Prelude.{
  ℕ, suc, ◌+◌, ◌≤◌, ◌≡◌, refl, Option, none, some, [], ◌∷◌, arith, length, unwrap_or,
}
use arkhe_kernel.BTreeMap.{BTreeMap, get, insert, remove}
use arkhe_kernel.BTreeMap.Sorted.{IsSorted, get-Above, get_before, get_at}

abbrev pub count_of {ℓ} : {V : Type ℓ} → Option V → ℕ
count_of none = 0
count_of (some v) = 1

module _ {ℓ} {K : Type ℓ} where
  -- the sum of the values
  abbrev pub total : BTreeMap K ℕ → ℕ
  total [] = 0
  total ((k, v) ∷ m) = v + total m

module _ {ℓ κ} {K : Type ℓ} {V : Type κ} ⦃o : Ord K⦄ where
  remove_absent : (k : K) (m : BTreeMap K V) → get k m ≡ none → remove k m ≡ m
  unfolding get remove
  remove_absent k [] h = refl
  remove_absent k ((j, w) ∷ m) h = ground (arith, remove_absent k m)

  pub length-remove :
      (k : K) (m : BTreeMap K V) → IsSorted m → length (remove k m) + count_of (get k m) ≡ length m
  unfolding get remove
  length-remove k [] s = refl
  length-remove k ((j, w) ∷ m) s =
      ground (arith, length-remove k m s.1, o.eq_of_cmp k j, get-Above j m s.0, remove_absent k m)

  pub length-insert :
      (k : K) (v : V) (m : BTreeMap K V)
      → IsSorted m
      → length (insert k v m) + count_of (get k m) ≡ length m + 1
  unfolding get insert
  length-insert k v [] s = omega arith
  length-insert k v ((j, w) ∷ m) s =
      ground (arith, length-insert k v m s.1, get_before k j m, get_at k j m, o.eq_of_cmp k j)

  -- of any map, in order or not
  pub length-insert_le : (k : K) (v : V) (m : BTreeMap K V) → length (insert k v m) ≤ suc (length m)
  unfolding insert
  length-insert_le k v [] = omega arith
  length-insert_le k v ((j, w) ∷ m) = ground (arith, length-insert_le k v m)

  pub length-remove_le : (k : K) (m : BTreeMap K V) → length (remove k m) ≤ length m
  unfolding remove
  length-remove_le k [] = omega arith
  length-remove_le k ((j, w) ∷ m) = ground (arith, length-remove_le k m)

module _ {ℓ} {K : Type ℓ} ⦃o : Ord K⦄ where
  pub total-remove :
      (k : K) (m : BTreeMap K ℕ) → IsSorted m → total (remove k m) + unwrap_or 0 (get k m) ≡ total m
  unfolding get remove
  total-remove k [] s = refl
  total-remove k ((j, w) ∷ m) s =
      ground (arith, total-remove k m s.1, o.eq_of_cmp k j, get-Above j m s.0, remove_absent k m)

  pub total-insert :
      (k : K) (v : ℕ) (m : BTreeMap K ℕ)
      → IsSorted m
      → total (insert k v m) + unwrap_or 0 (get k m) ≡ total m + v
  unfolding get insert
  total-insert k v [] s = omega arith
  total-insert k v ((j, w) ∷ m) s =
      ground (arith, total-insert k v m s.1, get_before k j m, get_at k j m, o.eq_of_cmp k j)
