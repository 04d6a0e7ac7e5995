-- ===== src/BTreeMap/Sorted.antt =====
-- The order of the entries of a map under `insert`, `remove` and `first`.
use Prim.Native.Nat.Ordering.{lt}
use arkhe_kernel.Order.{Ord}
use arkhe_kernel.Prelude.{◌≡◌, ◌⊎◌, refl, none, some, [], ◌∷◌, arith}
use arkhe_kernel.BTreeMap.{BTreeMap, get, insert, remove, first}

module _ {ℓ κ} {K : Type ℓ} {V : Type κ} ⦃o : Ord K⦄ where
  -- every key of the map is greater than `k`
  abbrev pub Above : K → BTreeMap K V → Type 0
  Above k [] = Unit {0}
  Above k ((j, w) ∷ m) = (o.cmp k j ≡ lt) × Above k m

  -- keys strictly ascend
  abbrev pub IsSorted : BTreeMap K V → Type 0
  IsSorted [] = Unit {0}
  IsSorted ((k, v) ∷ m) = Above k m × IsSorted m

  Above-trans : (i k : K) (m : BTreeMap K V) → o.cmp i k ≡ lt → Above k m → Above i m
  Above-trans i k [] p h = tt
  Above-trans i k ((j, w) ∷ m) p h = (o.cmp_trans i k j p h.0, Above-trans i k m p h.1)

  pub get-Above : (k : K) (m : BTreeMap K V) → Above k m → get k m ≡ none
  unfolding get
  get-Above k [] h = refl
  get-Above k ((j, w) ∷ m) h = ground (arith, get-Above k m h.1)

  -- A key below the least one, or equal to a key left of the map, is not in the map.
  pub get_before : (k j : K) (m : BTreeMap K V) → o.cmp k j ≡ lt → Above j m → get k m ≡ none
  get_before k j m p h = get-Above k m (Above-trans k j m p h)

  pub get_at : (k j : K) (m : BTreeMap K V) → k ≡ j → Above j m → get k m ≡ none
  get_at k j m e h = rw e (get-Above j m h)

  Above-insert :
      (i k : K) (v : V) (m : BTreeMap K V) → o.cmp i k ≡ lt → Above i m → Above i (insert k v m)
  unfolding insert
  Above-insert i k v [] p h = (p, tt)
  Above-insert i k v ((j, w) ∷ m) p h = ground (arith, Above-insert i k v m p h.1)

  pub insert-IsSorted : (k : K) (v : V) (m : BTreeMap K V) → IsSorted m → IsSorted (insert k v m)
  unfolding insert
  insert-IsSorted k v [] s = (tt, tt)
  insert-IsSorted k v ((j, w) ∷ m) s = ground (
    arith,
    o.cmp_flip k j,
    o.eq_of_cmp k j,
    insert-IsSorted k v m s.1,
    Above-trans k j m,
    Above-insert j k v m,
  )

  Above-remove : (i k : K) (m : BTreeMap K V) → Above i m → Above i (remove k m)
  unfolding remove
  Above-remove i k [] h = tt
  Above-remove i k ((j, w) ∷ m) h = ground (arith, Above-remove i k m h.1)

  pub remove-IsSorted : (k : K) (m : BTreeMap K V) → IsSorted m → IsSorted (remove k m)
  unfolding remove
  remove-IsSorted k [] s = tt
  remove-IsSorted k ((j, w) ∷ m) s = ground (arith, remove-IsSorted k m s.1, Above-remove j k m s.0)

  pub lt_of_get :
      (k j : K) (w : V) (m : BTreeMap K V) → Above k m → get j m ≡ some w → o.cmp k j ≡ lt
  unfolding get
  lt_of_get k j w [] a h = absurd (cc)
  lt_of_get k j w ((i, x) ∷ m) a h = ground (arith, lt_of_get k j w m a.1, o.eq_of_cmp j i)

  -- Nothing stands below the first key of a sorted map.
  pub first-least :
      (k j : K) (v w : V) (m : BTreeMap K V)
      → IsSorted m
      → first m ≡ some (k, v)
      → get j m ≡ some w
      → (j ≡ k) ⊎ (o.cmp k j ≡ lt)
  unfolding first get
  first-least k j v w [] s f h = absurd (cc)
  first-least k j v w ((i, x) ∷ m) s f h = ground (arith, o.eq_of_cmp j i, lt_of_get i j w m s.0)

  pub get-first : (k : K) (v : V) (m : BTreeMap K V) → first m ≡ some (k, v) → get k m ≡ some v
  unfolding first get
  get-first k v [] f = absurd (cc)
  get-first k v ((i, x) ∷ m) f = ground (arith, o.cmp_self k)

  pub get_of_first-none : (k : K) (m : BTreeMap K V) → first m ≡ none → get k m ≡ none
  unfolding first get
  get_of_first-none k [] h = refl
  get_of_first-none k (e ∷ m) h = absurd (cc)
