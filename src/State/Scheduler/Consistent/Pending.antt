-- ===== src/State/Scheduler/Consistent/Pending.antt =====
-- The scheduler of state/scheduler.rs as what it means: for each id that waits, its key and entry.
use arkhe_kernel.Prelude.{
  ◌≡◌, ◌≤◌, ◌<◌, ◌⊎◌, refl, sym, subst, Bool-cases, false, Option, Option-cases, none, some,
  Returns, arith, inl, inr, ltb, if◌then◌else◌,
}
use Prim.Native.Nat.Ordering.{lt}
use arkhe_kernel.Order.{nat_ord, eqb, eqb_self, eq_of_eqb}
use arkhe_kernel.BTreeMap
use arkhe_kernel.BTreeMap.{BTreeMap}
use arkhe_kernel.BTreeMap.Lookup.{get-insert, get-remove}
use arkhe_kernel.BTreeMap.Sorted.{get-first, first-least, get_of_first-none}
use arkhe_kernel.Abi.{Tick}
use arkhe_kernel.State.Scheduler.Key.{SchedKey, sched_key_ord, cmp_key, ScheduledActionId}
use arkhe_kernel.State.Scheduler.{
  ScheduledEntry, Scheduler, unindex_actor, schedule_with_id, enqueue, cancel, pop_due, pop_key,
}
use arkhe_kernel.State.Scheduler.Order.{at-le}
use arkhe_kernel.State.Scheduler.Consistent.{IsValid}
use arkhe_kernel.State.Scheduler.Consistent.Without.{without}

-- the abstract queue
abbrev pub Queue : Type 0
Queue = ScheduledActionId → Option (SchedKey × ScheduledEntry)

abbrev with_key : SchedKey → Option ScheduledEntry → Option (SchedKey × ScheduledEntry)
with_key key none = none
with_key key (some e) = some (key, e)

abbrev queued :
    BTreeMap SchedKey ScheduledEntry → Option SchedKey → Option (SchedKey × ScheduledEntry)
queued ready none = none
queued ready (some key) = with_key key (BTreeMap.get key ready)

abbrev pub pending : Scheduler → Queue
pending s id = queued s.ready (BTreeMap.get id s.by_id)

-- What an operation does to the abstract queue: one entry more under its id, or an id less.
abbrev pub Added : Queue → SchedKey → ScheduledEntry → Queue → Type 0
Added q key entry r =
    (j : ScheduledActionId) → r j ≡ (if eqb j entry.id then some (key, entry) else q j)

abbrev pub Dropped : Queue → ScheduledActionId → Queue → Type 0
Dropped q id r = (j : ScheduledActionId) → r j ≡ (if eqb j id then none else q j)

-- the least entry of all, which is due; or none that is due
abbrev pub Least : Queue → Tick → SchedKey → ScheduledEntry → Type 0
Least q now key e =
    (q e.id ≡ some (key, e))
    × (key.at ≤ now)
    × ((j : ScheduledActionId) (k : SchedKey) (f : ScheduledEntry)
        → q j ≡ some (k, f)
        → (k ≡ key) ⊎ (cmp_key key k ≡ lt))

abbrev pub Idle : Queue → Tick → Type 0
Idle q now =
    (j : ScheduledActionId) (k : SchedKey) (f : ScheduledEntry) → q j ≡ some (k, f) → now < k.at

abbrev pub Pops : Queue → Tick → Option ScheduledEntry → Queue → Type 0
Pops q now none r = Idle q now × ((j : ScheduledActionId) → r j ≡ q j)
Pops q now (some e) r = (key : SchedKey) × Least q now key e × Dropped q e.id r

-- the entry without its key
abbrev pub entry_at : Option (SchedKey × ScheduledEntry) → Option ScheduledEntry
entry_at none = none
entry_at (some (key, e)) = some e

module _ (s : Scheduler) (v : IsValid s) where
  queued-insert :
      (j : ScheduledActionId) (found : Option SchedKey)
      → BTreeMap.get j s.by_id ≡ found
      → (key : SchedKey) (entry : ScheduledEntry) → eqb j key.id ≡ false
      → queued (BTreeMap.insert key entry s.ready) found ≡ queued s.ready found
  queued-insert j none e key entry other = refl
  queued-insert j (some k) e key entry other =
      let apart : eqb k key ≡ false =
        ground (arith, eq_of_eqb k key, v.1.key_id j k e, eqb_self j) in
      rw (get-insert k key entry s.ready, apart) refl

  queued-remove :
      (j : ScheduledActionId) (found : Option SchedKey)
      → BTreeMap.get j s.by_id ≡ found
      → (key : SchedKey) → eqb j key.id ≡ false
      → queued (BTreeMap.remove key s.ready) found ≡ queued s.ready found
  queued-remove j none e key other = refl
  queued-remove j (some k) e key other =
      let apart : eqb k key ≡ false =
        ground (arith, eq_of_eqb k key, v.1.key_id j k e, eqb_self j) in
      rw (get-remove k key s.ready, apart) refl

  queued-ready :
      (j : ScheduledActionId) (k : SchedKey)
      → BTreeMap.get j s.by_id ≡ some k
      → (held : Option ScheduledEntry) → BTreeMap.get k s.ready ≡ held
      → {key : SchedKey} {e : ScheduledEntry} → with_key k held ≡ some (key, e)
      → (BTreeMap.get key s.ready ≡ some e) × (key.id ≡ j)
  queued-ready j k found none held h = absurd (cc)
  queued-ready j k found (some f) held h = ground (arith, v.1.key_id j k found)

  -- what waits is in the queue under its key
  pub pending-ready :
      (j : ScheduledActionId) (key : SchedKey) (e : ScheduledEntry)
      → pending s j ≡ some (key, e)
      → (BTreeMap.get key s.ready ≡ some e) × (key.id ≡ j)
  pending-ready j key e h = elim (Option-cases (BTreeMap.get j s.by_id)) [
    | inl absent ↦ absurd (
        let lost : ◌≡◌ {A = Option (SchedKey × ScheduledEntry)} none (some (key, e)) =
          rw absent at h in
        cc)
    | inr (k, found) ↦ queued-ready j k found (BTreeMap.get k s.ready) refl (rw found at h)
  ]

  ready-pending :
      (key : SchedKey) (e : ScheduledEntry)
      → BTreeMap.get key s.ready ≡ some e
      → pending s key.id ≡ some (key, e)
  ready-pending key e h = rw (v.1.inverse key e h) (rw h refl)

  pub schedule_with_id-pending :
      (entry : ScheduledEntry)
      → BTreeMap.get entry.id s.by_id ≡ none
      → Added
          (pending s)
          (record { at = entry.at; seq = s.next_seq; id = entry.id })
          entry
          (pending (schedule_with_id s entry))
  unfolding schedule_with_id enqueue
  schedule_with_id-pending entry fresh j =
      let key : SchedKey = record { at = entry.at; seq = s.next_seq; id = entry.id } in
      elim (Bool-cases (eqb j entry.id)) [
        | inl same ↦
            rw (get-insert j entry.id key s.by_id, same)
              (rw (get-insert key key entry s.ready, eqb_self key) refl)
        | inr other ↦
            rw (get-insert j entry.id key s.by_id, other)
              (queued-insert j (BTreeMap.get j s.by_id) refl key entry other)
      ]

  without-Drops :
      (key : SchedKey) (entry : ScheduledEntry) (held : BTreeMap.get key s.ready ≡ some entry)
      → Dropped (pending s) key.id (pending (without s v key entry held))
  without-Drops key entry held j = elim (Bool-cases (eqb j key.id)) [
    | inl same ↦ rw (get-remove j key.id s.by_id, same) refl
    | inr other ↦
        rw (get-remove j key.id s.by_id, other)
          (queued-remove j (BTreeMap.get j s.by_id) refl key other)
  ]

  pub cancel-pending :
      (id : ScheduledActionId)
      → Returns
          (λ r. (r.0 ≡ entry_at (pending s id)) × Dropped (pending s) id (pending r.1))
          (cancel s id)
  unfolding cancel
  cancel-pending id = elim (Option-cases (BTreeMap.get id s.by_id)) [
    | inl missing ↦
        rw (missing, cancel)
          (
            refl,
            λ j. elim (Bool-cases (eqb j id)) [
              | inl same ↦ rw (same, eq_of_eqb j id same, missing) refl
              | inr other ↦ rw other refl
            ],
          )
    | inr (key, found) ↦ elim (Option-cases (BTreeMap.get key s.ready)) [
      | inl lost ↦ absurd (cc (lost, v.1.present id key found))
      | inr (entry, held) ↦
          rw (found, cancel, held)
            (
              refl,
              subst
                  (λ i. Dropped (pending s) i (
                    pending (record s {
                      ready = BTreeMap.remove key s.ready;
                      by_id = BTreeMap.remove i s.by_id;
                      by_actor = unindex_actor entry.actor i s.by_actor;
                    })))
                  (v.1.key_id id key found) (without-Drops key entry held),
            )
    ]
  ]

  pub pop_due-pending :
      (now : Tick) → Returns (λ r. Pops (pending s) now r.0 (pending r.1)) (pop_due s now)
  unfolding pop_due pop_key sched_key_ord
  pop_due-pending now = elim (Option-cases (BTreeMap.first s.ready)) [
    | inl empty ↦
        rw (empty, pop_due)
          (
            λ j k f h. absurd (cc ((pending-ready j k f h).0, get_of_first-none k s.ready empty)),
            λ j. refl,
          )
    | inr ((key, entry), least) ↦
        let below =
          λ (j : ScheduledActionId) (k : SchedKey) (f : ScheduledEntry)
              (h : pending s j ≡ some (k, f)).
            first-least key k entry f s.ready v.0.ready least (pending-ready j k f h).0 in
        elim (Bool-cases (ltb now key.at)) [
          | inl future ↦
              rw (least, pop_due, future)
                (λ j k f h. at-le key k now (below j k f h) (ground arith), λ j. refl)
          | inr due ↦
              let held = get-first key entry s.ready least in
              let same = v.1.entry_id key entry held in
              rw (least, pop_due, due, held)
                (
                  key,
                  (
                    subst (λ i. pending s i ≡ some (key, entry)) (sym same)
                        (ready-pending key entry held),
                    ground arith,
                    below,
                  ),
                  subst
                      (λ i. Dropped (pending s) i (
                        pending (record s {
                          ready = BTreeMap.remove key s.ready;
                          by_id = BTreeMap.remove i s.by_id;
                          by_actor = unindex_actor entry.actor i s.by_actor;
                        })))
                      (sym same) (without-Drops key entry held),
                )
        ]
  ]

-- The three tables implement one map from the ids that wait to their keys and entries. On a
-- consistent scheduler, `schedule_with_id` under an id that does not wait adds just that entry,
-- behind all that are due at the same tick; `cancel` returns what waits under the id, and drops just
-- that; `pop_due` takes the least of all entries if that is due, and drops just that, and otherwise
-- no entry is due and nothing changes. None of them panics.
pub Scheduler-refines :
    (s : Scheduler) (entry : ScheduledEntry) (id : ScheduledActionId) (now : Tick)
    → IsValid s
    → BTreeMap.get entry.id s.by_id ≡ none
    → Added
        (pending s)
        (record { at = entry.at; seq = s.next_seq; id = entry.id })
        entry
        (pending (schedule_with_id s entry))
      × Returns
          (λ r. (r.0 ≡ entry_at (pending s id)) × Dropped (pending s) id (pending r.1))
          (cancel s id)
      × Returns (λ r. Pops (pending s) now r.0 (pending r.1)) (pop_due s now)
Scheduler-refines s entry id now v fresh =
    (schedule_with_id-pending s v entry fresh, cancel-pending s v id, pop_due-pending s v now)
