-- ===== src/State/Scheduler.antt =====
-- state/scheduler.rs: the queue of scheduled actions, three tables kept in step. A method takes
-- the scheduler and returns the new one beside its result; `panic` is the source's `expect`.
pub mod Key
pub mod Linked
pub mod Order
pub mod Validate
pub mod Consistent
pub mod Depth
use Key.{SchedKey, sched_key_ord, ScheduledActionId}
use arkhe_kernel.Prelude.{
  ℕ, Option, none, some, List, [], ◌∷◌, Checked, panic, done, expect, ◌>>=◌, sat_add64, ltb, length,
  if◌then◌else◌,
}
use arkhe_kernel.Order.{nat_ord}
use arkhe_kernel.BTreeMap
use arkhe_kernel.BTreeMap.{BTreeMap, BTreeSet}
use arkhe_kernel.Abi.{EntityId, Tick, TypeCode, Bytes, Principal, new_id}
use arkhe_kernel.Abi.Caps.{CapabilityMask}

pub record ScheduledEntry : Type 0 where
  pub id : ScheduledActionId
  pub at : Tick
  pub actor : Option EntityId
  pub principal : Principal
  pub action_type_code : TypeCode
  pub action_bytes : Bytes
  pub caps_ceiling : CapabilityMask

abbrev pub ActorIndex : Type 0
ActorIndex = BTreeMap EntityId (BTreeSet ScheduledActionId)

pub record Scheduler : Type 0 where
  pub ready : BTreeMap SchedKey ScheduledEntry
  pub by_id : BTreeMap ScheduledActionId SchedKey
  pub by_actor : ActorIndex
  pub next_seq : ℕ
  pub next_id : ℕ

abbrev pub new : Scheduler
new = record { ready = []; by_id = []; by_actor = []; next_seq = 0; next_id = 0 }

-- `set.is_empty()`
abbrev pub or_absent : BTreeSet ScheduledActionId → Option (BTreeSet ScheduledActionId)
or_absent [] = none
or_absent (e ∷ es) = some (e ∷ es)

-- `by_actor.entry(actor).or_default().insert(id)`, if the entry names an actor
pub index_actor : Option EntityId → ScheduledActionId → ActorIndex → ActorIndex
index_actor none id index = index
index_actor (some actor) id index = elim (BTreeMap.get actor index) [
  | none ↦ BTreeMap.insert actor ((id, tt) ∷ []) index
  | some set ↦ BTreeMap.insert actor (BTreeMap.insert id tt set) index
]

-- takes `id` out of its actor's set, and the set out of the index if that was its last
pub unindex_actor : Option EntityId → ScheduledActionId → ActorIndex → ActorIndex
unindex_actor none id index = index
unindex_actor (some actor) id index = elim (BTreeMap.get actor index) [
  | none ↦ index
  | some set ↦ elim (or_absent (BTreeMap.remove id set)) [
    | none ↦ BTreeMap.remove actor index
    | some rest ↦ BTreeMap.insert actor rest index
  ]
]

-- the last lines of `schedule` and `schedule_with_id`: a sequence number, a key, three inserts
pub enqueue : Scheduler → ScheduledEntry → Scheduler
unfolding index_actor
enqueue s entry =
    let key : SchedKey = record { at = entry.at; seq = s.next_seq; id = entry.id } in
    record s {
      ready = BTreeMap.insert key entry s.ready;
      by_id = BTreeMap.insert entry.id key s.by_id;
      by_actor = index_actor entry.actor entry.id s.by_actor;
      next_seq = sat_add64 s.next_seq 1;
    }

unfoldable pub schedule :
    Scheduler
    → Tick
    → Option EntityId
    → Principal
    → CapabilityMask
    → TypeCode
    → Bytes
    → Checked (ScheduledActionId × Scheduler)
unfolding enqueue
schedule s at actor principal caps_ceiling type_code bytes =
    let next = sat_add64 s.next_id 1 in
    expect (new_id next) >>= λ id. done (
      id,
      enqueue (record s { next_id = next })
          (record {
            id = id;
            at = at;
            actor = actor;
            principal = principal;
            action_type_code = type_code;
            action_bytes = bytes;
            caps_ceiling = caps_ceiling;
          }),
    )

-- The arguments of the source's method, in a record: the entry to be committed under its own id.
unfoldable pub schedule_with_id : Scheduler → ScheduledEntry → Scheduler
unfolding enqueue
schedule_with_id s entry =
    enqueue (record s { next_id = if ltb s.next_id entry.id then entry.id else s.next_id }) entry

unfoldable pub cancel : Scheduler → ScheduledActionId → Checked (Option ScheduledEntry × Scheduler)
unfolding unindex_actor
cancel s id = elim (BTreeMap.get id s.by_id) [
  | none ↦ done (none, s)
  | some key ↦ expect (BTreeMap.get key s.ready) >>= λ entry. done (
    some entry,
    record s {
      ready = BTreeMap.remove key s.ready;
      by_id = BTreeMap.remove id s.by_id;
      by_actor = unindex_actor entry.actor id s.by_actor;
    },
  )
]

-- the loop of `cancel_by_actor`, over the ids of the actor's set in ascending order
cancel_ids : List ScheduledActionId → Scheduler → List ScheduledEntry × Scheduler
cancel_ids [] s = ([], s)
cancel_ids (id ∷ ids) s =
    let without_id : Scheduler = record s { by_id = BTreeMap.remove id s.by_id } in
    elim (BTreeMap.get id s.by_id) [
      | none ↦ cancel_ids ids s
      | some key ↦ elim (BTreeMap.get key s.ready) [
        | none ↦ cancel_ids ids without_id
        | some entry ↦
            let (cancelled, t) =
              cancel_ids ids (record without_id { ready = BTreeMap.remove key s.ready }) in
            (entry ∷ cancelled, t)
      ]
    ]

unfoldable pub cancel_by_actor : Scheduler → EntityId → List ScheduledEntry × Scheduler
unfolding cancel_ids
cancel_by_actor s actor = elim (BTreeMap.get actor s.by_actor) [
  | none ↦ ([], s)
  | some ids ↦
      cancel_ids (BTreeMap.keys ids) (record s { by_actor = BTreeMap.remove actor s.by_actor })
]

-- takes the entry of the first key out of the three tables
pub pop_key : Scheduler → SchedKey → Checked (ScheduledEntry × Scheduler)
unfolding unindex_actor
pop_key s key = expect (BTreeMap.get key s.ready) >>= λ entry. done (
  entry,
  record s {
    ready = BTreeMap.remove key s.ready;
    by_id = BTreeMap.remove entry.id s.by_id;
    by_actor = unindex_actor entry.actor entry.id s.by_actor;
  },
)

unfoldable pub pop_due : Scheduler → Tick → Checked (Option ScheduledEntry × Scheduler)
unfolding pop_key
pop_due s now = elim (BTreeMap.first s.ready) [
  | none ↦ done (none, s)
  | some (key, first_entry) ↦
      if ltb now key.at then done (none, s) else pop_key s key >>= λ r. done (some r.0, r.1)
]

unfoldable pub len : Scheduler → ℕ
len s = length s.ready
