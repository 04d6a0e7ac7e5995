-- ===== src/State/Scheduler/Linked.antt =====
-- The part of the agreement of the tables that `cancel` and `pop_due` rely on (state/scheduler.rs):
-- `by_id` points into `ready`, every entry has the id of its key, and the queue is in order. It
-- allows that an id is scheduled twice.
use arkhe_kernel.Prelude.{
  ℕ, ◌≡◌, refl, sym, true, is_some, Option, some, Option-cases, inl, inr, List, [], ◌∷◌, arith,
  Returns, Returns->>=, sat_add64, ◌<◌, ltb, Bool-cases,
}
use arkhe_kernel.Order.{nat_ord, eqb_self, eq_of_eqb}
use arkhe_kernel.BTreeMap
use arkhe_kernel.BTreeMap.{BTreeMap}
use arkhe_kernel.BTreeMap.Lookup.{get-insert, get-remove}
use arkhe_kernel.BTreeMap.Sorted.{IsSorted, insert-IsSorted, remove-IsSorted, get-first}
use arkhe_kernel.Abi.{EntityId, Tick, TypeCode, Bytes, Principal, new_id}
use arkhe_kernel.Abi.Caps.{CapabilityMask}
use arkhe_kernel.State.Scheduler.Key.{SchedKey, sched_key_ord, ScheduledActionId}
use arkhe_kernel.State.Scheduler.{
  ScheduledEntry, Scheduler, schedule, schedule_with_id, cancel, cancel_ids, cancel_by_actor,
  pop_key, pop_due,
}

pub record Linked (ready : BTreeMap SchedKey ScheduledEntry)
    (by_id : BTreeMap ScheduledActionId SchedKey) : Type 0 where
  pub key_id :
      (id : ScheduledActionId) (key : SchedKey) → BTreeMap.get id by_id ≡ some key → key.id ≡ id
  pub present :
      (id : ScheduledActionId) (key : SchedKey)
      → BTreeMap.get id by_id ≡ some key
      → is_some (BTreeMap.get key ready) ≡ true
  pub entry_id :
      (key : SchedKey) (e : ScheduledEntry) → BTreeMap.get key ready ≡ some e → e.id ≡ key.id
  pub sorted : IsSorted ready

module _ (ready : BTreeMap SchedKey ScheduledEntry) (by_id : BTreeMap ScheduledActionId SchedKey)
    (l : Linked ready by_id) where
  insert-Linked :
      (key : SchedKey) (entry : ScheduledEntry)
      → entry.id ≡ key.id
      → Linked (BTreeMap.insert key entry ready) (BTreeMap.insert entry.id key by_id)
  insert-Linked key entry same = record {
    key_id = λ id k h.
        ground (arith, get-insert id entry.id key by_id, eq_of_eqb id entry.id, l.key_id id k);
    present = λ id k h. ground (
      arith,
      get-insert id entry.id key by_id,
      get-insert k key entry ready,
      eqb_self key,
      l.present id k,
    );
    entry_id =
        λ k e h. ground (arith, get-insert k key entry ready, eq_of_eqb k key, l.entry_id k e);
    sorted = insert-IsSorted key entry ready l.sorted;
  }

  remove-Linked :
      (key : SchedKey) (id : ScheduledActionId)
      → id ≡ key.id
      → Linked (BTreeMap.remove key ready) (BTreeMap.remove id by_id)
  remove-Linked key id same = record {
    key_id = λ i k h. ground (arith, get-remove i id by_id, l.key_id i k);
    present = λ i k h. ground (
      arith,
      get-remove i id by_id,
      get-remove k key ready,
      eq_of_eqb k key,
      eqb_self id,
      l.key_id i k,
      l.present i k,
    );
    entry_id = λ k e h. ground (arith, get-remove k key ready, l.entry_id k e);
    sorted = remove-IsSorted key ready l.sorted;
  }

new_id_pos : (v : ℕ) → 0 < v → new_id v ≡ some v
new_id_pos v h = ground arith

-- the two tables of a scheduler
abbrev pub IsLinked : Scheduler → Type 0
IsLinked s = Linked s.ready s.by_id

pub schedule_with_id-IsLinked :
    (s : Scheduler) (entry : ScheduledEntry) → IsLinked s → IsLinked (schedule_with_id s entry)
unfolding schedule_with_id
schedule_with_id-IsLinked s entry l = insert-Linked s.ready s.by_id l _ entry refl

-- On linked tables `cancel` does not panic, and leaves them linked.
pub cancel-IsLinked :
    (s : Scheduler) (id : ScheduledActionId)
    → IsLinked s
    → Returns (λ r. IsLinked r.1) (cancel s id)
unfolding cancel
cancel-IsLinked s id l = elim (Option-cases (BTreeMap.get id s.by_id)) [
  | inl missing ↦ rw (missing, cancel) l
  | inr (key, found) ↦ elim (Option-cases (BTreeMap.get key s.ready)) [
    | inl lost ↦ absurd (cc (lost, l.present id key found))
    | inr (entry, held) ↦
        rw (found, cancel, held)
          (remove-Linked s.ready s.by_id l key id (sym (l.key_id id key found)))
  ]
]

pop_key-IsLinked :
    (s : Scheduler) (key : SchedKey) (entry : ScheduledEntry)
    → BTreeMap.get key s.ready ≡ some entry
    → IsLinked s
    → Returns (λ r. IsLinked r.1 × (r.0 ≡ entry)) (pop_key s key)
unfolding pop_key
pop_key-IsLinked s key entry held l =
    rw held (remove-Linked s.ready s.by_id l key entry.id (l.entry_id key entry held), refl)

-- `pop_due` does not panic either.
pub pop_due-IsLinked :
    (s : Scheduler) (now : Tick) → IsLinked s → Returns (λ r. IsLinked r.1) (pop_due s now)
unfolding pop_due
pop_due-IsLinked s now l = elim (Option-cases (BTreeMap.first s.ready)) [
  | inl empty ↦ rw (empty, pop_due) l
  | inr ((key, entry), least) ↦ elim (Bool-cases (ltb now key.at)) [
    | inl future ↦ rw (least, pop_due, future) l
    | inr due ↦
        rw (least, pop_due, due)
          (Returns->>= _ (λ r. IsLinked r.1) (pop_key s key) _
            (pop_key-IsLinked s key entry (get-first key entry s.ready least) l) (λ r h. h.0))
  ]
]

cancel_ids-IsLinked :
    (ids : List ScheduledActionId) (s : Scheduler) → IsLinked s → IsLinked (cancel_ids ids s).1
unfolding cancel_ids
cancel_ids-IsLinked [] s l = l
cancel_ids-IsLinked (id ∷ ids) s l = elim (Option-cases (BTreeMap.get id s.by_id)) [
  | inl missing ↦ rw (missing, cancel_ids) (cancel_ids-IsLinked ids s l)
  | inr (key, found) ↦ elim (Option-cases (BTreeMap.get key s.ready)) [
    | inl lost ↦ absurd (cc (lost, l.present id key found))
    | inr (entry, held) ↦
        rw (found, cancel_ids, held)
          (cancel_ids-IsLinked ids
            (record s { ready = BTreeMap.remove key s.ready; by_id = BTreeMap.remove id s.by_id })
            (remove-Linked s.ready s.by_id l key id (sym (l.key_id id key found))))
  ]
]

pub cancel_by_actor-IsLinked :
    (s : Scheduler) (actor : EntityId) → IsLinked s → IsLinked (cancel_by_actor s actor).1
unfolding cancel_by_actor
cancel_by_actor-IsLinked s actor l = elim (Option-cases (BTreeMap.get actor s.by_actor)) [
  | inl missing ↦ rw (missing, cancel_by_actor) l
  | inr (ids, found) ↦
      rw (found, cancel_by_actor)
        (cancel_ids-IsLinked (BTreeMap.keys ids)
          (record s { by_actor = BTreeMap.remove actor s.by_actor }) l)
]

-- `schedule` does not panic: the id that it takes is never zero.
pub schedule-IsLinked :
    (s : Scheduler) (at : Tick) (actor : Option EntityId) (principal : Principal)
    (ceiling : CapabilityMask) (tc : TypeCode) (bytes : Bytes)
    → IsLinked s
    → Returns
        (λ r. IsLinked r.1 × (r.0 ≡ sat_add64 s.next_id 1))
        (schedule s at actor principal ceiling tc bytes)
unfolding schedule
schedule-IsLinked s at actor principal ceiling tc bytes l =
    rw (new_id_pos (sat_add64 s.next_id 1) (omega arith))
      (insert-Linked s.ready s.by_id l _ _ refl, refl)
