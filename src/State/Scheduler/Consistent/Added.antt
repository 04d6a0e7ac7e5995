-- ===== src/State/Scheduler/Consistent/Added.antt =====
-- Consistent tables (state/scheduler.rs) with one entry more.
use arkhe_kernel.Prelude.{
  ℕ, ◌≡◌, ◌≢◌, ◌≤◌, ◌<◌, ◌&&◌, ap, true, false, Bool-cases, none, some, arith, inl, inr, ◌⊎◌,
  sat_add64, u64_max,
}
use arkhe_kernel.Order.{nat_ord, eqb, eqb_self, eq_of_eqb}
use arkhe_kernel.BTreeMap
use arkhe_kernel.BTreeMap.{BTreeMap}
use arkhe_kernel.BTreeMap.Lookup.{get-insert}
use arkhe_kernel.BTreeMap.Sorted.{insert-IsSorted}
use arkhe_kernel.Abi.{EntityId}
use arkhe_kernel.State.Scheduler.Key.{SchedKey, sched_key_ord, ScheduledActionId}
use arkhe_kernel.State.Scheduler.{ScheduledEntry, Scheduler, index_actor}
use arkhe_kernel.State.Scheduler.Validate.{names_actor}
use arkhe_kernel.State.Scheduler.Consistent.{IsConsistent, IsValid, holds}
use arkhe_kernel.State.Scheduler.Consistent.Index.{
  names_actor-names, names, holds-index_actor, index_actor-AllNonempty, index_actor-IsSorted,
}

-- one entry more, under an id that is not there and a key with the next sequence number
module _ (s : Scheduler) (v : IsValid s) (entry : ScheduledEntry) (next_id : ℕ)
    (fresh : BTreeMap.get entry.id s.by_id ≡ none) (room : s.next_seq < u64_max)
    (ahead : entry.id ≤ next_id) (grows : s.next_id ≤ next_id) where
  abbrev pub new_key : SchedKey
  new_key = record { at = entry.at; seq = s.next_seq; id = entry.id }

  abbrev pub added : Scheduler
  added = record {
    ready = BTreeMap.insert new_key entry s.ready;
    by_id = BTreeMap.insert entry.id new_key s.by_id;
    by_actor = index_actor entry.actor entry.id s.by_actor;
    next_seq = sat_add64 s.next_seq 1;
    next_id = next_id;
  }

  -- a key of the queue is the new one, or was there
  added-ready :
      (k : SchedKey) (e : ScheduledEntry)
      → BTreeMap.get k added.ready ≡ some e
      → ((k ≡ new_key) × (e ≡ entry)) ⊎ ((k.id ≢ entry.id) × (BTreeMap.get k s.ready ≡ some e))
  added-ready k e h = elim (Bool-cases (eqb k new_key)) [
    | inl here ↦ inl (eq_of_eqb k new_key here, ground (arith, get-insert k new_key entry s.ready))
    | inr there ↦
        let old : BTreeMap.get k s.ready ≡ some e =
          ground (arith, get-insert k new_key entry s.ready) in
        inr (λ same. absurd (cc (v.1.inverse k e old, same, fresh)), old)
  ]

  added-inverse :
      (k : SchedKey) (e : ScheduledEntry)
      → BTreeMap.get k added.ready ≡ some e
      → BTreeMap.get k.id added.by_id ≡ some k
  added-inverse k e h = elim (added-ready k e h) [
    | inl new ↦ ground (arith, get-insert k.id entry.id new_key s.by_id, eqb_self entry.id, new.0)
    | inr old ↦ ground (
      arith,
      get-insert k.id entry.id new_key s.by_id,
      eq_of_eqb k.id entry.id,
      v.1.inverse k e old.1,
    )
  ]

  added-named :
      (actor : EntityId) (id : ScheduledActionId)
      → holds (BTreeMap.get actor added.by_actor) id ≡ true
      → (k : SchedKey) × (BTreeMap.get id added.by_id ≡ some k)
        × (names_actor actor (BTreeMap.get k added.ready) ≡ true)
  added-named actor id h = elim (Bool-cases (names entry.actor actor && eqb id entry.id)) [
    | inl new ↦ (
      new_key,
      ground (arith, get-insert id entry.id new_key s.by_id),
      rw (get-insert new_key new_key entry s.ready, eqb_self new_key)
          (ground (arith, names_actor-names entry actor)),
    )
    | inr old ↦
        let (k, found, named) =
          v.1.named actor id
            (ground (arith, holds-index_actor entry.actor entry.id s.by_actor actor id)) in
        let other : eqb id entry.id ≡ false = ground (arith, eq_of_eqb id entry.id, found, fresh) in
        let apart : eqb k new_key ≡ false =
          ground (arith, eq_of_eqb k new_key, v.1.key_id id k found, eqb_self id) in
        (
          k,
          rw (get-insert id entry.id new_key s.by_id, other) found,
          rw (get-insert k new_key entry s.ready, apart) named,
        )
  ]

  added-indexed :
      (k : SchedKey) (e : ScheduledEntry) (actor : EntityId)
      → BTreeMap.get k added.ready ≡ some e
      → e.actor ≡ some actor
      → holds (BTreeMap.get actor added.by_actor) e.id ≡ true
  added-indexed k e actor h named = elim (added-ready k e h) [
    | inl new ↦
        rw (holds-index_actor entry.actor entry.id s.by_actor actor e.id)
          (ground (arith, new.1, eqb_self actor, eqb_self entry.id))
    | inr old ↦
        rw (holds-index_actor entry.actor entry.id s.by_actor actor e.id)
          (ground (arith, v.1.indexed k e actor old.1 named))
  ]

  added-IsConsistent : IsConsistent added
  added-IsConsistent = record {
    entry_id = λ k e h. elim (added-ready k e h) [
      | inl new ↦ cc (new.0, new.1)
      | inr old ↦ v.1.entry_id k e old.1
    ];
    inverse = added-inverse;
    key_id = λ id k h.
        ground
          (arith, get-insert id entry.id new_key s.by_id, eq_of_eqb id entry.id, v.1.key_id id k);
    present = λ id k h. ground (
      arith,
      get-insert id entry.id new_key s.by_id,
      get-insert k new_key entry s.ready,
      eqb_self new_key,
      v.1.present id k,
    );
    nonempty = index_actor-AllNonempty entry.actor entry.id s.by_actor v.1.nonempty;
    named = added-named;
    indexed = added-indexed;
    seq_ahead = λ k e h. elim (added-ready k e h) [
      | inl new ↦ omega (arith, ap (λ x. x.seq) new.0)
      | inr old ↦ omega (arith, v.1.seq_ahead k e old.1)
    ];
    id_ahead = λ k e h. elim (added-ready k e h) [
      | inl new ↦ omega (arith, ap (λ x. x.id) new.0)
      | inr old ↦ omega (arith, v.1.id_ahead k e old.1)
    ];
  }

  pub added-IsValid : IsValid added
  added-IsValid =
      let index = index_actor-IsSorted entry.actor entry.id s.by_actor (v.0.by_actor, v.0.sets) in
      (
        record {
          ready = insert-IsSorted new_key entry s.ready v.0.ready;
          by_id = insert-IsSorted entry.id new_key s.by_id v.0.by_id;
          by_actor = index.0;
          sets = index.1;
        },
        added-IsConsistent,
      )
