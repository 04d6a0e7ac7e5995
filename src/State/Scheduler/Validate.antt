-- ===== src/State/Scheduler/Validate.antt =====
-- `Scheduler::validate` of state/scheduler.rs, which a decoded snapshot must pass.
use arkhe_kernel.Prelude.{
  Bool, false, not, Option, none, some, List, [], ◌∷◌, Result, ok, err, and_then, ltb, leb, length,
  ◌==◌, if◌then◌else◌,
}
use arkhe_kernel.Order.{nat_ord, eqb}
use arkhe_kernel.BTreeMap
use arkhe_kernel.BTreeMap.{BTreeMap, BTreeSet}
use arkhe_kernel.Abi.{EntityId}
use arkhe_kernel.State.Scheduler.Key.{SchedKey, sched_key_ord, ScheduledActionId}
use arkhe_kernel.State.Scheduler.{ScheduledEntry, Scheduler, ActorIndex}

-- the reasons, one for each message
pub data Inconsistency : Type 0 where
  size_mismatch entry_id_mismatch by_id_mismatch empty_actor_set unknown_actor_id : Inconsistency
  actor_mismatch missing_from_actor_index next_seq_not_monotonic : Inconsistency
  next_id_not_monotonic : Inconsistency

abbrev pub Check : Type 0
Check = Result {0, 0} Inconsistency (Unit {0})

-- a loop that returns at the first reason
abbrev pub for_each {ℓ} : {A : Type ℓ} → (A → Check) → List A → Check
for_each f [] = ok tt
for_each f (x ∷ xs) = and_then (f x) λ _. for_each f xs

-- `Some(k) if *k == *key`
abbrev pub is_key : SchedKey → Option SchedKey → Bool
is_key key none = false
is_key key (some k) = eqb k key

-- `Some(entry) if entry.actor == Some(*actor)`
abbrev pub names_actor : EntityId → Option ScheduledEntry → Bool
names_actor actor none = false
names_actor actor (some entry) = elim entry.actor [ none ↦ false | some a ↦ a == actor ]

-- the loop on `ready`: its keys against the entries and `by_id`
unfoldable pub check_entry : BTreeMap ScheduledActionId SchedKey → SchedKey × ScheduledEntry → Check
check_entry by_id (key, entry) =
    if not (entry.id == key.id)
    then err entry_id_mismatch
    else if is_key key (BTreeMap.get entry.id by_id)
    then ok tt
    else err by_id_mismatch

-- an id of an actor's set
unfoldable pub check_actor_id : Scheduler → EntityId → ScheduledActionId × Unit {0} → Check
check_actor_id s actor (id, u) = elim (BTreeMap.get id s.by_id) [
  | none ↦ err unknown_actor_id
  | some key ↦ if names_actor actor (BTreeMap.get key s.ready) then ok tt else err actor_mismatch
]

unfoldable pub check_actor : Scheduler → EntityId × BTreeSet ScheduledActionId → Check
unfolding check_actor_id
check_actor s (actor, []) = err empty_actor_set
check_actor s (actor, id ∷ ids) = for_each (check_actor_id s actor) (id ∷ ids)

-- the reverse direction: an entry that names an actor is in that actor's set
unfoldable pub check_indexed : ActorIndex → SchedKey × ScheduledEntry → Check
check_indexed by_actor (key, entry) = elim entry.actor [
  | none ↦ ok tt
  | some actor ↦ elim (BTreeMap.get actor by_actor) [
    | none ↦ err missing_from_actor_index
    | some set ↦ if BTreeMap.contains entry.id set then ok tt else err missing_from_actor_index
  ]
]

-- the counters against a live key
unfoldable pub check_counters : Scheduler → SchedKey × ScheduledEntry → Check
check_counters s (key, entry) =
    if leb s.next_seq key.seq
    then err next_seq_not_monotonic
    else if ltb s.next_id key.id
    then err next_id_not_monotonic
    else ok tt

unfoldable pub validate : Scheduler → Check
unfolding check_entry check_actor check_indexed check_counters
validate s =
    if not (length s.ready == length s.by_id)
    then err size_mismatch
    else and_then (for_each (check_entry s.by_id) s.ready) λ _.
      and_then (for_each (check_actor s) s.by_actor) λ _.
        and_then (for_each (check_indexed s.by_actor) s.ready)
          λ _. for_each (check_counters s) s.ready
