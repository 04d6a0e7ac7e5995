-- ===== src/Runtime/Observer/Eviction.antt =====
-- Eviction at the first panic, and the calls of the observers that live (runtime/observer.rs).
use arkhe_kernel.Prelude.{
  ◌≡◌, refl, sym, subst, ◌∙◌, Bool, true, false, not, ◌||◌, Bool-cases, inl, inr, Option,
  Option-cases, none, some, List, [], ◌∷◌, arith, if◌then◌else◌,
}
use arkhe_kernel.Order.{nat_ord, eqb, eq_of_eqb, eqb_self}
use arkhe_kernel.BTreeMap
use arkhe_kernel.BTreeMap.{BTreeMap}
use arkhe_kernel.BTreeMap.Sorted.{Above, IsSorted}
use arkhe_kernel.BTreeMap.Lookup.{get-insert, get-remove}
use arkhe_kernel.Runtime.Event.{KernelEvent, ObserverHandle, matches}
use arkhe_kernel.Runtime.Observer.{
  ObserverRegistry, ObserverSlot, call_slot, deliver_to, deliver_all, deliver, is_evicted,
}

-- one round of `deliver` at its own handle and at another
deliver_to-evicted :
    (h j : ObserverHandle) (e : KernelEvent) (r : ObserverRegistry)
    → is_evicted (deliver_to h e r).1 j ≡ (
        if eqb j h then (if (deliver_to h e r).0 then true else is_evicted r j) else is_evicted r j)
unfolding deliver_to call_slot is_evicted BTreeMap.contains
deliver_to-evicted h j e r = ground (arith, get-insert j h tt r.evicted)

deliver_to-slots :
    (h j : ObserverHandle) (e : KernelEvent) (r : ObserverRegistry)
    → eqb j h ≡ false
    → BTreeMap.get j (deliver_to h e r).1.slots ≡ BTreeMap.get j r.slots
unfolding deliver_to call_slot BTreeMap.contains
deliver_to-slots h j e r n = elim (Option-cases (BTreeMap.get h r.slots)) [
  | inl gone ↦ ground arith
  | inr (slot, held) ↦ ground (
    arith,
    get-insert j h (record slot { received = e ∷ slot.received }) r.slots,
    get-remove j h r.slots,
  )
]

-- whether a handle is in a list
unfoldable pub elem : ObserverHandle → List ObserverHandle → Bool
elem j [] = false
elem j (h ∷ hs) = eqb j h || elem j hs

deliver_all-evicted :
    (hs : List ObserverHandle) (j : ObserverHandle) (e : KernelEvent) (r : ObserverRegistry)
    → is_evicted (deliver_all hs e r).1 j ≡ (is_evicted r j || elem j (deliver_all hs e r).0)
unfolding deliver_all elem
deliver_all-evicted [] j e r = ground arith
deliver_all-evicted (h ∷ hs) j e r =
    ground (arith, deliver_all-evicted hs j e (deliver_to h e r).1, deliver_to-evicted h j e r)

-- After the delivery of an event an observer is evicted exactly if it was evicted before, or is
-- among the handles that the delivery returns: none comes back, and none is lost.
pub deliver-evicted :
    (r : ObserverRegistry) (e : KernelEvent) (j : ObserverHandle)
    → is_evicted (deliver r e).1 j ≡ (is_evicted r j || elem j (deliver r e).0)
unfolding deliver
deliver-evicted r e j = deliver_all-evicted (BTreeMap.keys r.slots) j e r

deliver_all-absent :
    (hs : List ObserverHandle) (j : ObserverHandle) (e : KernelEvent) (r : ObserverRegistry)
    → elem j hs ≡ false
    → BTreeMap.get j (deliver_all hs e r).1.slots ≡ BTreeMap.get j r.slots
unfolding deliver_all elem
deliver_all-absent [] j e r n = refl
deliver_all-absent (h ∷ hs) j e r n =
    deliver_all-absent hs j e (deliver_to h e r).1 (ground arith)
    ∙ deliver_to-slots h j e r (ground arith)

-- what one delivery does to a live observer, by itself
unfoldable pub call : ObserverSlot → KernelEvent → Option ObserverSlot
call slot e =
    if not (matches slot.mask e)
    then some slot
    else if slot.observer slot.received e
    then none
    else some (record slot { received = e ∷ slot.received })

deliver_to-call :
    (j : ObserverHandle) (slot : ObserverSlot) (e : KernelEvent) (r : ObserverRegistry)
    → BTreeMap.get j r.slots ≡ some slot
    → is_evicted r j ≡ false
    → BTreeMap.get j (deliver_to j e r).1.slots ≡ call slot e
unfolding deliver_to call_slot is_evicted call
deliver_to-call j slot e r held live = ground (
  arith,
  eqb_self j,
  get-insert j j (record slot { received = e ∷ slot.received }) r.slots,
  get-remove j j r.slots,
)

Above-keys :
    (j : ObserverHandle) (m : BTreeMap ObserverHandle ObserverSlot)
    → Above j m
    → elem j (BTreeMap.keys m) ≡ false
unfolding BTreeMap.keys elem
Above-keys j [] a = refl
Above-keys j ((h, s) ∷ m) a =
    ground (arith, Above-keys j m a.1, nat_ord.eq_of_cmp j h, nat_ord.cmp_self j, eq_of_eqb j h)

deliver_all-call :
    (m : BTreeMap ObserverHandle ObserverSlot) (j : ObserverHandle) (slot : ObserverSlot)
    (e : KernelEvent) (r : ObserverRegistry)
    → IsSorted m
    → elem j (BTreeMap.keys m) ≡ true
    → BTreeMap.get j r.slots ≡ some slot
    → is_evicted r j ≡ false
    → BTreeMap.get j (deliver_all (BTreeMap.keys m) e r).1.slots ≡ call slot e
unfolding BTreeMap.keys elem deliver_all
deliver_all-call [] j slot e r s listed held live = ground arith
deliver_all-call ((h, t) ∷ m) j slot e r (above, s) listed held live = elim (Bool-cases (eqb j h)) [
  | inl here ↦
      (let same = eq_of_eqb j h here in
        subst
          (λ x.
            BTreeMap.get j (deliver_all (BTreeMap.keys m) e (deliver_to x e r).1).1.slots
            ≡ call slot e)
          same
          (deliver_all-absent (BTreeMap.keys m) j e (deliver_to j e r).1
              (Above-keys j m (subst (λ x. Above x m) (sym same) above))
            ∙ deliver_to-call j slot e r held live))
  | inr later ↦
      deliver_all-call m j slot e (deliver_to h e r).1 s (ground arith)
        (deliver_to-slots h j e r later ∙ held) (deliver_to-evicted h j e r ∙ rw (later, live) refl)
]

get-keys :
    (j : ObserverHandle) (slot : ObserverSlot) (m : BTreeMap ObserverHandle ObserverSlot)
    → BTreeMap.get j m ≡ some slot
    → elem j (BTreeMap.keys m) ≡ true
unfolding BTreeMap.keys BTreeMap.get elem
get-keys j slot [] h = absurd (cc)
get-keys j slot ((i, s) ∷ m) h = ground (arith, get-keys j slot m)

-- Observers do not disturb one another: whatever the others do, a live observer is called exactly
-- once if its mask matches, is taken out if it panics, and keeps its slot otherwise. The slots are
-- in the order of their handles.
pub deliver-call :
    (r : ObserverRegistry) (e : KernelEvent) (j : ObserverHandle) (slot : ObserverSlot)
    → IsSorted r.slots
    → BTreeMap.get j r.slots ≡ some slot
    → is_evicted r j ≡ false
    → BTreeMap.get j (deliver r e).1.slots ≡ call slot e
unfolding deliver
deliver-call r e j slot s held live =
    deliver_all-call r.slots j slot e r s (get-keys j slot r.slots held) held live
