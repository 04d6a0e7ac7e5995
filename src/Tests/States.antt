-- ===== src/Tests/States.antt =====
-- The theorems on the state of an instance and the observers, applied.
use arkhe_kernel.Prelude.{
  ◌≡◌, ◌≢◌, ◌+◌, ◌||◌, ◌↔◌, ◌≤◌, ◌<◌, min, u64_max, refl, true, false, none, [], ◌∷◌, Returns, ok,
  err, arith, if◌then◌else◌,
}
use arkhe_kernel.Order.{nat_ord, pair_ord, eqb}
use arkhe_kernel.BTreeMap
use arkhe_kernel.Abi.{unauthenticated, system, TypeCode, EntityId}
use arkhe_kernel.Abi.Caps.{contains}
use arkhe_kernel.State.Op
use arkhe_kernel.State.Authz.{Effect, unverified, authorized, authorize, effective_caps}
use arkhe_kernel.State.Authz.Narrowing.{Needs, authorize_sound, effective_caps-contains}
use arkhe_kernel.State.Config.{reject, throttle_proportional}
use arkhe_kernel.State.Quota.{Children, apply_quota_reduction, would_violate_children}
use arkhe_kernel.State.Quota.Shares.{
  usage, throttle-exact, apply_quota_reduction-fits, reject-exact,
}
use arkhe_kernel.State.Ledger
use arkhe_kernel.State.Ledger.{ResourceLedger, component_size}
use arkhe_kernel.State.Ledger.Balance.{
  IsBalanced, new-IsBalanced, add_entity-IsBalanced, add_component-IsBalanced,
  remove_component-IsBalanced, remove_entity-IsBalanced, remove_entity_frees,
}
use arkhe_kernel.State.Instance
use arkhe_kernel.State.Instance.{Instance, entity_meta, component}
use arkhe_kernel.State.Instance.Cascade.{remove_entity_lem}
use arkhe_kernel.State.Scheduler
use arkhe_kernel.State.Scheduler.{Scheduler}
use arkhe_kernel.State.Scheduler.Key.{sched_key_ord}
use arkhe_kernel.State.Scheduler.Linked.{IsLinked, schedule_with_id-IsLinked, cancel-IsLinked}
use arkhe_kernel.State.Scheduler.Order.{Popped, pop_due-Popped}
use arkhe_kernel.Runtime.Event.{all_events, module_force_unloaded}
use arkhe_kernel.Runtime.Observer
use arkhe_kernel.Runtime.Observer.{ObserverRegistry, ObserverSlot, deliver, is_evicted}
use arkhe_kernel.Runtime.Observer.Eviction.{elem, call, deliver-evicted, deliver-call}
use arkhe_kernel.Runtime.Kernel.Admission.{new-IsSafe}
use arkhe_kernel.BTreeMap.Sorted.{IsSorted}
use arkhe_kernel.Runtime.View
use arkhe_kernel.Runtime.View.{InstanceView, components_by_type}
use arkhe_kernel.Runtime.View.Query.{components_by_type-component}
use arkhe_kernel.Tests.Fixtures.{small_instance, small_config, guest_entry, system_entry}

abbrev spawn_effect : Effect unverified
spawn_effect = record { instance_id = 1; principal = system; op = Op.spawn_entity 7 system }

abbrev spawn_authorized : Effect authorized
spawn_authorized = record { instance_id = 1; principal = system; op = Op.spawn_entity 7 system }

authorize_sound_example :
    (system ≢ unauthenticated)
    × Needs (Op.spawn_entity 7 system) 1
    × (spawn_authorized.instance_id ≡ 1)
    × (spawn_authorized.principal ≡ system)
    × (spawn_authorized.op ≡ Op.spawn_entity 7 system)
unfolding authorize contains
authorize_sound_example = authorize_sound 1 spawn_effect spawn_authorized refl

effective_caps-contains_example :
    (contains 3 1 ≡ true) × (contains 5 1 ≡ true) × (system ≢ unauthenticated)
unfolding effective_caps contains
effective_caps-contains_example = effective_caps-contains 3 5 1 system (omega arith) refl

-- two entries, the second due before the first
abbrev two_entries : Scheduler
two_entries =
    Scheduler.schedule_with_id
      (Scheduler.schedule_with_id Scheduler.new (record guest_entry { at = 5 }))
      (record system_entry { id = 2; at = 3 })

two_entries-IsLinked : IsLinked two_entries
two_entries-IsLinked =
    schedule_with_id-IsLinked
      (Scheduler.schedule_with_id Scheduler.new (record guest_entry { at = 5 }))
      (record system_entry { id = 2; at = 3 })
      (schedule_with_id-IsLinked Scheduler.new (record guest_entry { at = 5 })
        (new-IsSafe 1 small_config).0)

pop_due-Popped_example : Returns (Popped two_entries 4) (Scheduler.pop_due two_entries 4)
pop_due-Popped_example = pop_due-Popped two_entries 4 two_entries-IsLinked.sorted

cancel-IsLinked_example : Returns (λ r. IsLinked r.1) (Scheduler.cancel two_entries 1)
cancel-IsLinked_example = cancel-IsLinked two_entries 1 two_entries-IsLinked

-- one entity
abbrev one_entity : ResourceLedger
one_entity = (Ledger.add_entity Ledger.new 7).1

one_entity-IsBalanced : IsBalanced one_entity
one_entity-IsBalanced = add_entity-IsBalanced Ledger.new 7 new-IsBalanced

abbrev one_component : ResourceLedger
one_component = (Ledger.add_component one_entity 7 3 40).1

add_component-IsBalanced_example : IsBalanced (Ledger.add_component one_entity 7 3 40).1
unfolding Ledger.add_entity component_size BTreeMap.get
add_component-IsBalanced_example =
    add_component-IsBalanced one_entity 7 3 40 (omega arith) (omega arith) one_entity-IsBalanced

one_component-IsBalanced : IsBalanced one_component
unfolding Ledger.add_entity component_size BTreeMap.get
one_component-IsBalanced =
    add_component-IsBalanced one_entity 7 3 40 (omega arith) (omega arith) one_entity-IsBalanced

remove_component-IsBalanced_example : IsBalanced (Ledger.remove_component one_component 7 3 0).1
remove_component-IsBalanced_example =
    remove_component-IsBalanced one_component 7 3 0 one_component-IsBalanced

remove_entity-IsBalanced_example : IsBalanced (Ledger.remove_entity one_component 7).1
remove_entity-IsBalanced_example = remove_entity-IsBalanced one_component 7 one_component-IsBalanced

remove_entity_frees_example :
    ((Ledger.remove_entity one_component 7).0 + (Ledger.remove_entity one_component 7).1.total_bytes
      ≡ one_component.total_bytes)
    × ((tc : TypeCode) → component_size (Ledger.remove_entity one_component 7).1 7 tc ≡ none)
remove_entity_frees_example = remove_entity_frees one_component 7 one_component-IsBalanced

abbrev populated : Instance
populated =
    Instance.insert_component
      (Instance.insert_entity small_instance 7 (record { owner = system; created = 0 })) (7, 3)
      (1 ∷ [])

remove_entity_lem_example :
    (entity_meta (Instance.remove_entity populated 7) 7
      ≡ (if eqb ⦃o = nat_ord⦄ 7 7 then none else entity_meta populated 7))
    × (component (Instance.remove_entity populated 7) 7 3
        ≡ (if eqb ⦃o = nat_ord⦄ 7 7 then none else component populated 7 3))
remove_entity_lem_example = remove_entity_lem populated 7 7 3 (omega arith)

-- one observer that panics, and one that does not
abbrev two_observers : ObserverRegistry
two_observers =
    (Observer.register (Observer.register Observer.new (λ seen event. true)).1
      (λ seen event. false)).1

deliver-evicted_example :
    is_evicted (deliver two_observers (module_force_unloaded 4 0)).1 0
    ≡ (is_evicted two_observers 0 || elem 0 (deliver two_observers (module_force_unloaded 4 0)).0)
deliver-evicted_example = deliver-evicted two_observers (module_force_unloaded 4 0) 0

abbrev second_slot : ObserverSlot
second_slot = record { observer = λ seen event. false; mask = all_events; received = [] }

deliver-call_example :
    BTreeMap.get 1 (deliver two_observers (module_force_unloaded 4 0)).1.slots
    ≡ call second_slot (module_force_unloaded 4 0)
unfolding Observer.register BTreeMap.get BTreeMap.insert is_evicted nat_ord BTreeMap.contains
deliver-call_example =
    deliver-call two_observers (module_force_unloaded 4 0) 1 second_slot ((refl, tt), (tt, tt)) refl
      refl

abbrev three_children : Children
three_children = (1, 50) ∷ (2, 30) ∷ (3, 0) ∷ []

throttle-exact_example :
    (out : Children) × (apply_quota_reduction throttle_proportional 33 three_children ≡ ok out)
    × (usage out ≡ 33)
unfolding usage
throttle-exact_example = throttle-exact 33 three_children (omega arith) (omega arith)

apply_quota_reduction-fits_example :
    apply_quota_reduction reject 80 three_children ≡ ok three_children
unfolding usage
apply_quota_reduction-fits_example =
    apply_quota_reduction-fits reject 80 three_children (omega arith) (omega arith)

reject-exact_example :
    (apply_quota_reduction reject 79 three_children ≡ ok three_children ↔ usage three_children ≤ 79)
    × (apply_quota_reduction reject 79 three_children
          ≡ err (would_violate_children (min (usage three_children) u64_max) 79)
        ↔ 79 < usage three_children)
reject-exact_example = reject-exact 79 three_children (omega arith)

-- a child without usage is given a unit of the remainder
throttle_inflates :
    apply_quota_reduction throttle_proportional 3 ((1, 0) ∷ (2, 4) ∷ (3, 3) ∷ [])
    ≡ ok ((1, 1) ∷ (2, 1) ∷ (3, 1) ∷ [])
unfolding apply_quota_reduction
throttle_inflates = refl

-- two entities, with components of two types
abbrev stocked : InstanceView
stocked = record {
  instance = record small_instance {
    components = ((7, 1), 5 ∷ []) ∷ ((7, 2), 6 ∷ []) ∷ ((8, 1), []) ∷ [];
  };
}

components_by_type-component_example :
    IsSorted (components_by_type stocked 1)
    × ((e : EntityId) → BTreeMap.get e (components_by_type stocked 1) ≡ View.component stocked e 1)
unfolding nat_ord pair_ord
components_by_type-component_example =
    components_by_type-component stocked 1 ((refl, (refl, tt)), ((refl, tt), (tt, tt)))
