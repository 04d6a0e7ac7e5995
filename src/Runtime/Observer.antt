-- ===== src/Runtime/Observer.antt =====
-- runtime/observer.rs: the registry of observers, which evicts one at its first panic. An observer
-- is code of the application: a function that says whether it panics on an event, given the
-- events that it has received before, which stand for its interior state.
pub mod Eviction
use arkhe_kernel.Prelude.{
  ℕ, Bool, not, Option, none, some, List, [], ◌∷◌, sat_add64, length, if◌then◌else◌,
}
use arkhe_kernel.Order.{nat_ord}
use arkhe_kernel.BTreeMap
use arkhe_kernel.BTreeMap.{BTreeMap, BTreeSet}
use arkhe_kernel.Runtime.Event.{KernelEvent, ObserverHandle, EventMask, matches, all_events}

abbrev pub KernelObserver : Type 0
KernelObserver = List KernelEvent → KernelEvent → Bool

pub record ObserverSlot : Type 0 where
  pub observer : KernelObserver
  pub mask : EventMask
  -- what `on_event` was called with, newest first
  pub received : List KernelEvent

pub record ObserverRegistry : Type 0 where
  pub slots : BTreeMap ObserverHandle ObserverSlot
  pub evicted : BTreeSet ObserverHandle
  pub next_handle : ℕ

abbrev pub new : ObserverRegistry
new = record { slots = []; evicted = []; next_handle = 0 }

unfoldable pub register_filtered :
    ObserverRegistry → KernelObserver → EventMask → ObserverHandle × ObserverRegistry
register_filtered r obs mask = (
  r.next_handle,
  record r {
    slots =
        BTreeMap.insert r.next_handle (record { observer = obs; mask = mask; received = [] })
          r.slots;
    next_handle = sat_add64 r.next_handle 1;
  },
)

unfoldable pub register : ObserverRegistry → KernelObserver → ObserverHandle × ObserverRegistry
unfolding register_filtered
register r obs = register_filtered r obs all_events

-- calls the observer of one slot, and evicts it if it panics
call_slot : ObserverHandle → ObserverSlot → KernelEvent → ObserverRegistry → Bool × ObserverRegistry
call_slot handle slot event r =
    if slot.observer slot.received event
    then (
      Bool.true,
      record r {
        evicted = BTreeMap.insert handle tt r.evicted;
        slots = BTreeMap.remove handle r.slots;
      },
    )
    else (
      Bool.false,
      record r {
        slots = BTreeMap.insert handle (record slot { received = event ∷ slot.received }) r.slots;
      },
    )

-- one round of the loop of `deliver`: whether the handle was newly evicted
deliver_to : ObserverHandle → KernelEvent → ObserverRegistry → Bool × ObserverRegistry
unfolding call_slot
deliver_to handle event r =
    if BTreeMap.contains handle r.evicted
    then (Bool.false, r)
    else elim (BTreeMap.get handle r.slots) [
      | none ↦ (Bool.false, r)
      | some slot ↦
          if not (matches slot.mask event) then (Bool.false, r) else call_slot handle slot event r
    ]

deliver_all :
    List ObserverHandle → KernelEvent → ObserverRegistry → List ObserverHandle × ObserverRegistry
unfolding deliver_to
deliver_all [] event r = ([], r)
deliver_all (h ∷ hs) event r =
    let (evicted, r') = deliver_to h event r in
    let (rest, r'') = deliver_all hs event r' in (if evicted then h ∷ rest else rest, r'')

unfoldable pub deliver : ObserverRegistry → KernelEvent → List ObserverHandle × ObserverRegistry
unfolding deliver_all
deliver r event = deliver_all (BTreeMap.keys r.slots) event r

unfoldable pub is_evicted : ObserverRegistry → ObserverHandle → Bool
is_evicted r h = BTreeMap.contains h r.evicted

unfoldable pub len : ObserverRegistry → ℕ
len r = length r.slots
