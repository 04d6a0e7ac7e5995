-- ===== src/State/Scheduler/Consistent/Without.antt =====
-- Consistent tables (state/scheduler.rs) with one entry less.
use arkhe_kernel.Prelude.{
  ◌≡◌, ◌&&◌, sym, subst, ◌∙◌, true, false, Bool-cases, not, some, arith, inl, inr,
}
use arkhe_kernel.Order.{nat_ord, eqb, eqb_self, eq_of_eqb}
use arkhe_kernel.BTreeMap
use arkhe_kernel.BTreeMap.{BTreeMap}
use arkhe_kernel.BTreeMap.Lookup.{get-remove, get_of_get-remove}
use arkhe_kernel.BTreeMap.Sorted.{remove-IsSorted}
use arkhe_kernel.Abi.{EntityId}
use arkhe_kernel.State.Scheduler.Key.{SchedKey, sched_key_ord, ScheduledActionId}
use arkhe_kernel.State.Scheduler.{ScheduledEntry, Scheduler, unindex_actor}
use arkhe_kernel.State.Scheduler.Validate.{names_actor}
use arkhe_kernel.State.Scheduler.Consistent.{IsConsistent, IsValid, holds}
use arkhe_kernel.State.Scheduler.Consistent.Index.{
  names_actor-names, names, holds-unindex_actor, unindex_actor-AllNonempty, unindex_actor-IsSorted,
}

-- one entry less
module _ (s : Scheduler) (v : IsValid s) (key : SchedKey) (entry : ScheduledEntry)
    (held : BTreeMap.get key s.ready ≡ some entry) where
  abbrev pub without : Scheduler
  without = record s {
    ready = BTreeMap.remove key s.ready;
    by_id = BTreeMap.remove key.id s.by_id;
    by_actor = unindex_actor entry.actor key.id s.by_actor;
  }

  -- an entry that stays has another id
  without-ready :
      (k : SchedKey) (e : ScheduledEntry)
      → BTreeMap.get k without.ready ≡ some e
      → (eqb k.id key.id ≡ false) × (BTreeMap.get k s.ready ≡ some e)
  without-ready k e h =
      let (apart, old) = get_of_get-remove k key e s.ready h in
      (
        elim (Bool-cases (eqb k.id key.id)) [
          | inl same ↦ absurd (
              apart
                (cc (v.1.inverse k e old, v.1.inverse key entry held, eq_of_eqb k.id key.id same)))
          | inr other ↦ other
        ],
        old,
      )

  without-named :
      (actor : EntityId) (id : ScheduledActionId)
      → holds (BTreeMap.get actor without.by_actor) id ≡ true
      → (k : SchedKey) × (BTreeMap.get id without.by_id ≡ some k)
        × (names_actor actor (BTreeMap.get k without.ready) ≡ true)
  without-named actor id h =
      let kept : not (names entry.actor actor && eqb id key.id)
            && holds (BTreeMap.get actor s.by_actor) id
          ≡ true =
        rw (← holds-unindex_actor entry.actor key.id s.by_actor actor id) h in
      let (k, found, named) = v.1.named actor id (ground arith) in
      elim (Bool-cases (eqb id key.id)) [
        | inl same ↦
            let one : k ≡ key = cc (found, v.1.inverse key entry held, eq_of_eqb id key.id same) in
            let his : names entry.actor actor ≡ true =
              sym (names_actor-names entry actor)
              ∙ subst (λ x. names_actor actor x ≡ true) held
                  (subst (λ j. names_actor actor (BTreeMap.get j s.ready) ≡ true) one named) in
            absurd (ground arith)
        | inr other ↦
            let apart : eqb k key ≡ false =
              ground (arith, eq_of_eqb k key, v.1.key_id id k found, eqb_self id) in
            (
              k,
              rw (get-remove id key.id s.by_id, other) found,
              rw (get-remove k key s.ready, apart) named,
            )
      ]

  without-IsConsistent : IsConsistent without
  without-IsConsistent = record {
    entry_id = λ k e h. v.1.entry_id k e (without-ready k e h).1;
    inverse = λ k e h.
        let (other, old) = without-ready k e h in
        rw (get-remove k.id key.id s.by_id, other) (v.1.inverse k e old);
    key_id = λ id k h. v.1.key_id id k (get_of_get-remove id key.id k s.by_id h).1;
    present = λ id k h.
        let (apart, found) = get_of_get-remove id key.id k s.by_id h in
        ground (
          arith,
          get-remove k key s.ready,
          eq_of_eqb k key,
          v.1.key_id id k found,
          v.1.present id k found,
        );
    nonempty = unindex_actor-AllNonempty entry.actor key.id s.by_actor v.1.nonempty;
    named = without-named;
    indexed = λ k e actor h named.
        let (other, old) = without-ready k e h in
        rw (holds-unindex_actor entry.actor key.id s.by_actor actor e.id)
          (ground (arith, v.1.indexed k e actor old named, v.1.entry_id k e old));
    seq_ahead = λ k e h. v.1.seq_ahead k e (without-ready k e h).1;
    id_ahead = λ k e h. v.1.id_ahead k e (without-ready k e h).1;
  }

  pub without-IsValid : IsValid without
  without-IsValid =
      let index = unindex_actor-IsSorted entry.actor key.id s.by_actor (v.0.by_actor, v.0.sets) in
      (
        record {
          ready = remove-IsSorted key s.ready v.0.ready;
          by_id = remove-IsSorted key.id s.by_id v.0.by_id;
          by_actor = index.0;
          sets = index.1;
        },
        without-IsConsistent,
      )
