-- ===== src/Runtime/View/Query.antt =====
-- What the queries of runtime/view.rs return.
use arkhe_kernel.Prelude.{◌≡◌, refl, subst, Bool-cases, [], ◌∷◌, ◌==◌, inl, inr, arith}
use arkhe_kernel.Order.{nat_ord, pair_ord}
use arkhe_kernel.BTreeMap
use arkhe_kernel.BTreeMap.{BTreeMap}
use arkhe_kernel.BTreeMap.Sorted.{IsSorted, Above}
use arkhe_kernel.Abi.{EntityId, TypeCode, Bytes}
use arkhe_kernel.State.Ledger.{ComponentKey}
use arkhe_kernel.State.Instance
use arkhe_kernel.Runtime.View.{InstanceView, component, with_type, components_by_type}

Above-with_type :
    (tc : TypeCode) (e : EntityId) (m : BTreeMap ComponentKey Bytes)
    → Above (e, tc) m
    → Above e (with_type tc m)
unfolding with_type nat_ord pair_ord
Above-with_type tc e [] a = tt
Above-with_type tc e (((f, uc), b) ∷ m) a = elim (Bool-cases (uc == tc)) [
  | inl same ↦ rw same (ground arith, Above-with_type tc e m a.1)
  | inr other ↦ rw other (Above-with_type tc e m a.1)
]

with_type-IsSorted :
    (tc : TypeCode) (m : BTreeMap ComponentKey Bytes) → IsSorted m → IsSorted (with_type tc m)
unfolding with_type
with_type-IsSorted tc [] s = tt
with_type-IsSorted tc (((f, uc), b) ∷ m) s = elim (Bool-cases (uc == tc)) [
  | inl same ↦
      let one : uc ≡ tc = ground arith in
      rw same
        (Above-with_type tc f m (subst (λ x. Above (f, x) m) one s.0), with_type-IsSorted tc m s.1)
  | inr other ↦ rw other (with_type-IsSorted tc m s.1)
]

get-with_type :
    (tc : TypeCode) (e : EntityId) (m : BTreeMap ComponentKey Bytes)
    → BTreeMap.get e (with_type tc m) ≡ BTreeMap.get (e, tc) m
unfolding with_type BTreeMap.get nat_ord pair_ord
get-with_type tc e [] = refl
get-with_type tc e (((f, uc), b) ∷ m) = elim (Bool-cases (uc == tc)) [
  | inl same ↦ rw same (ground (arith, get-with_type tc e m))
  | inr other ↦ rw other (ground (arith, get-with_type tc e m))
]

-- `components_by_type` of a view answers exactly: its list is in strictly ascending order of the
-- entities, without a repetition, and it has an entity with some bytes just if `component` finds
-- those bytes for the entity and the type. The component table is an ordered map.
pub components_by_type-component :
    (v : InstanceView) (tc : TypeCode)
    → IsSorted v.instance.components
    → IsSorted (components_by_type v tc)
      × ((e : EntityId) → BTreeMap.get e (components_by_type v tc) ≡ component v e tc)
unfolding components_by_type component Instance.component
components_by_type-component v tc s =
    (with_type-IsSorted tc v.instance.components s, λ e. get-with_type tc e v.instance.components)
