-- ===== src/State/Scheduler/Consistent/Upkeep.antt =====
-- The operations of state/scheduler.rs on consistent tables.
use arkhe_kernel.Prelude.{
  ◌≡◌, ◌<◌, sym, subst, Bool-cases, Option-cases, none, arith, inl, inr, refl, Allows, Returns,
  u64_max, ltb, if◌then◌else◌,
}
use arkhe_kernel.Order.{nat_ord}
use arkhe_kernel.BTreeMap
use arkhe_kernel.BTreeMap.{BTreeMap}
use arkhe_kernel.BTreeMap.Sorted.{get-first}
use arkhe_kernel.Abi.{Tick}
use arkhe_kernel.State.Scheduler.Key.{sched_key_ord, ScheduledActionId}
use arkhe_kernel.State.Scheduler.{
  ScheduledEntry, Scheduler, unindex_actor, enqueue, schedule_with_id, cancel, pop_key, pop_due,
}
use arkhe_kernel.State.Scheduler.Consistent.{IsValid}
use arkhe_kernel.State.Scheduler.Consistent.Added.{added-IsValid}
use arkhe_kernel.State.Scheduler.Consistent.Without.{without-IsValid}

-- An action is scheduled under an id that is not in use, and the sequence counter has room.
pub schedule_with_id-IsValid :
    (s : Scheduler) (entry : ScheduledEntry)
    → IsValid s
    → BTreeMap.get entry.id s.by_id ≡ none
    → s.next_seq < u64_max
    → IsValid (schedule_with_id s entry)
unfolding schedule_with_id enqueue
schedule_with_id-IsValid s entry v fresh room =
    added-IsValid s v entry (if ltb s.next_id entry.id then entry.id else s.next_id) fresh room
      (ground arith) (ground arith)

pub cancel-IsValid :
    (s : Scheduler) (id : ScheduledActionId) → IsValid s → Returns (λ r. IsValid r.1) (cancel s id)
unfolding cancel
cancel-IsValid s id v = elim (Option-cases (BTreeMap.get id s.by_id)) [
  | inl missing ↦ rw (missing, cancel) v
  | inr (key, found) ↦ elim (Option-cases (BTreeMap.get key s.ready)) [
    | inl lost ↦ absurd (cc (lost, v.1.present id key found))
    | inr (entry, held) ↦
        rw (found, cancel, held)
          (subst
            (λ i. IsValid (record s {
              ready = BTreeMap.remove key s.ready;
              by_id = BTreeMap.remove i s.by_id;
              by_actor = unindex_actor entry.actor i s.by_actor;
            }))
            (v.1.key_id id key found) (without-IsValid s v key entry held))
  ]
]

pub pop_due-IsValid :
    (s : Scheduler) (now : Tick) → IsValid s → Returns (λ r. IsValid r.1) (pop_due s now)
unfolding pop_due pop_key
pop_due-IsValid s now v = elim (Option-cases (BTreeMap.first s.ready)) [
  | inl empty ↦ rw (empty, pop_due) v
  | inr ((key, entry), least) ↦ elim (Bool-cases (ltb now key.at)) [
    | inl future ↦ rw (least, pop_due, future) v
    | inr due ↦
        let held = get-first key entry s.ready least in
        rw (least, pop_due, due, held)
          (subst
            (λ i. IsValid (record s {
              ready = BTreeMap.remove key s.ready;
              by_id = BTreeMap.remove i s.by_id;
              by_actor = unindex_actor entry.actor i s.by_actor;
            }))
            (sym (v.1.entry_id key entry held)) (without-IsValid s v key entry held))
  ]
]

-- `pop_due` leaves the counters alone
pub pop_due-counters :
    (s : Scheduler) (now : Tick)
    → Allows (λ r. (r.1.next_seq ≡ s.next_seq) × (r.1.next_id ≡ s.next_id)) (pop_due s now)
unfolding pop_due pop_key
pop_due-counters s now = elim (Option-cases (BTreeMap.first s.ready)) [
  | inl empty ↦ rw (empty, pop_due) (refl, refl)
  | inr ((key, entry), least) ↦ elim (Bool-cases (ltb now key.at)) [
    | inl future ↦ rw (least, pop_due, future) (refl, refl)
    | inr due ↦ rw (least, pop_due, due, get-first key entry s.ready least) (refl, refl)
  ]
]
