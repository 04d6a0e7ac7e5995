-- ===== src/State/Scheduler/Consistent/Used.antt =====
-- The schedulers that the operations of state/scheduler.rs lead to, and what `validate` says of them.
use arkhe_kernel.Prelude.{
  ◌≡◌, ◌<◌, Option, Option-cases, none, some, done, ok, arith, inl, inr, Returns, Returns-value,
  sat_add64, u64_max,
}
use arkhe_kernel.Order.{nat_ord}
use arkhe_kernel.BTreeMap
use arkhe_kernel.Abi.{EntityId, Tick, TypeCode, Bytes, Principal, new_id}
use arkhe_kernel.Abi.Caps.{CapabilityMask}
use arkhe_kernel.State.Scheduler.Key.{sched_key_ord, ScheduledActionId}
use arkhe_kernel.State.Scheduler
use arkhe_kernel.State.Scheduler.{
  ScheduledEntry, Scheduler, schedule, schedule_with_id, enqueue, cancel, pop_due,
}
use arkhe_kernel.State.Scheduler.Validate.{validate}
use arkhe_kernel.State.Scheduler.Consistent.Exact.{validate-IsConsistent}
use arkhe_kernel.State.Scheduler.Consistent.{IsValid}
use arkhe_kernel.State.Scheduler.Consistent.Added.{added-IsValid}
use arkhe_kernel.State.Scheduler.Consistent.Upkeep.{
  schedule_with_id-IsValid, cancel-IsValid, pop_due-IsValid,
}

-- The counters are below their limit, and no id is scheduled while it is in use.
pub data Used : Scheduler → Type 0 where
  empty : Used Scheduler.new
  scheduled :
      {s t : Scheduler} (at : Tick) (actor : Option EntityId) (principal : Principal)
      (ceiling : CapabilityMask) (tc : TypeCode) (bytes : Bytes) (id : ScheduledActionId)
      → Used s
      → s.next_id < u64_max
      → s.next_seq < u64_max
      → schedule s at actor principal ceiling tc bytes ≡ done (id, t)
      → Used t
  scheduled_with_id :
      {s : Scheduler} (entry : ScheduledEntry)
      → Used s
      → BTreeMap.get entry.id s.by_id ≡ none
      → s.next_seq < u64_max
      → Used (schedule_with_id s entry)
  cancelled :
      {s t : Scheduler} (id : ScheduledActionId) (entry : Option ScheduledEntry)
      → Used s
      → cancel s id ≡ done (entry, t)
      → Used t
  popped :
      {s t : Scheduler} (now : Tick) (entry : Option ScheduledEntry)
      → Used s
      → pop_due s now ≡ done (entry, t)
      → Used t

pub new-IsValid : IsValid Scheduler.new
unfolding BTreeMap.get
new-IsValid = (
  record { ready = tt; by_id = tt; by_actor = tt; sets = unfold BTreeMap.Lookup.Everywhere in tt },
  record {
    entry_id = λ key e h. absurd (cc);
    inverse = λ key e h. absurd (cc);
    key_id = λ id key h. absurd (cc);
    present = λ id key h. absurd (cc);
    nonempty = λ actor set h. absurd (cc);
    named = λ actor id h. absurd (cc);
    indexed = λ key e actor h names. absurd (cc);
    seq_ahead = λ key e h. absurd (cc);
    id_ahead = λ key e h. absurd (cc);
  },
)

-- an id above the counter is not in use
pub fresh_above :
    (s : Scheduler) (id : ScheduledActionId)
    → IsValid s
    → s.next_id < id
    → BTreeMap.get id s.by_id ≡ none
fresh_above s id v above = elim (Option-cases (BTreeMap.get id s.by_id)) [
  | inl absent ↦ absent
  | inr (key, found) ↦ elim (Option-cases (BTreeMap.get key s.ready)) [
    | inl lost ↦ absurd (cc (lost, v.1.present id key found))
    | inr (e, held) ↦ absurd (omega (arith, v.1.id_ahead key e held, v.1.key_id id key found))
  ]
]

schedule-IsValid :
    (s : Scheduler) (at : Tick) (actor : Option EntityId) (principal : Principal)
    (ceiling : CapabilityMask) (tc : TypeCode) (bytes : Bytes)
    → IsValid s
    → s.next_id < u64_max
    → s.next_seq < u64_max
    → Returns (λ r. IsValid r.1) (schedule s at actor principal ceiling tc bytes)
unfolding schedule enqueue
schedule-IsValid s at actor principal ceiling tc bytes v ids room =
    let next = sat_add64 s.next_id 1 in
    let nonzero : new_id next ≡ some next = ground arith in
    rw nonzero (
      added-IsValid s v
        (record {
          id = next;
          at = at;
          actor = actor;
          principal = principal;
          action_type_code = tc;
          action_bytes = bytes;
          caps_ceiling = ceiling;
        })
        next (fresh_above s next v (omega arith)) room (omega arith) (omega arith))

pub Used-IsValid : (s : Scheduler) → Used s → IsValid s
Used-IsValid _ empty = new-IsValid
Used-IsValid _ (scheduled {s} {t} at actor principal ceiling tc bytes id u ids room e) =
    Returns-value (λ r. IsValid r.1) (schedule s at actor principal ceiling tc bytes) (id, t)
      (schedule-IsValid s at actor principal ceiling tc bytes (Used-IsValid s u) ids room) e
Used-IsValid _ (scheduled_with_id {s} entry u fresh room) =
    schedule_with_id-IsValid s entry (Used-IsValid s u) fresh room
Used-IsValid _ (cancelled {s} {t} id entry u e) =
    Returns-value (λ r. IsValid r.1) (cancel s id) (entry, t)
      (cancel-IsValid s id (Used-IsValid s u)) e
Used-IsValid _ (popped {s} {t} now entry u e) =
    Returns-value (λ r. IsValid r.1) (pop_due s now) (entry, t)
      (pop_due-IsValid s now (Used-IsValid s u)) e

-- Every scheduler that `schedule`, `schedule_with_id`, `cancel` and `pop_due` lead to from the empty
-- one passes `validate`, if no id was scheduled while it was in use, and the counters had not
-- reached their limit when an action was scheduled.
pub Used-validate : (s : Scheduler) → Used s → validate s ≡ ok tt
Used-validate s u = let v = Used-IsValid s u in (validate-IsConsistent s v.0).1 v.1
