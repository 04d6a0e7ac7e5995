-- ===== src/State/Scheduler/Consistent/Exact.antt =====
-- `Scheduler::validate` (state/scheduler.rs) against the meaning of its tests.
use arkhe_kernel.Prelude.{
  ◌≡◌, ◌≤◌, ◌↔◌, sym, subst, ap, ◌∙◌, true, is_some, Option-cases, some, ok, arith, inl, inr,
  length,
}
use arkhe_kernel.Order.{nat_ord}
use arkhe_kernel.BTreeMap
use arkhe_kernel.BTreeMap.{BTreeSet}
use arkhe_kernel.BTreeMap.Lookup.{get-Everywhere}
use arkhe_kernel.BTreeMap.Sorted.{IsSorted}
use arkhe_kernel.BTreeMap.Injection.{Injects, length-Injects, Injects-onto}
use arkhe_kernel.Abi.{EntityId}
use arkhe_kernel.State.Scheduler.Key.{SchedKey, sched_key_ord, ScheduledActionId}
use arkhe_kernel.State.Scheduler.{ScheduledEntry, Scheduler}
use arkhe_kernel.State.Scheduler.Linked.{IsLinked}
use arkhe_kernel.State.Scheduler.Validate.{
  check_entry, check_actor_id, check_actor, check_indexed, check_counters, validate,
}
use arkhe_kernel.State.Scheduler.Consistent.{
  IsOrdered, IsConsistent, Passes, for_each-get, for_each-all, validate-Passes, Passes-validate,
  entry-inverse, inverse-entry, actor_id-named, named-actor_id, actor-nonempty, nonempty-actor,
  indexed_entry, check_indexed-none, check_indexed-some, counters-ahead, ahead-counters,
}

contains-get :
    (id : ScheduledActionId) (set : BTreeSet ScheduledActionId)
    → BTreeMap.contains id set ≡ true
    → BTreeMap.get id set ≡ some tt
unfolding BTreeMap.contains
contains-get id set h = elim (Option-cases (BTreeMap.get id set)) [
  | inl absent ↦ absurd (cc)
  | inr (u, found) ↦ found
]

get-contains :
    (id : ScheduledActionId) (u : Unit {0}) (set : BTreeSet ScheduledActionId)
    → BTreeMap.get id set ≡ some u
    → BTreeMap.contains id set ≡ true
unfolding BTreeMap.contains
get-contains id u set h = cc

module _ (s : Scheduler) (o : IsOrdered s) where
  -- from the queue to the ids
  ready-Injects :
      ((key : SchedKey) (e : ScheduledEntry)
        → BTreeMap.get key s.ready ≡ some e
        → BTreeMap.get key.id s.by_id ≡ some key)
      → Injects (λ (key : SchedKey) (e : ScheduledEntry). key.id) s.ready s.by_id
  ready-Injects inverse = record {
    lands = λ key e h. cc (ap is_some (inverse key e h));
    injective = λ j k d e h g same.
        cc (inverse j d h, inverse k e g, ap (λ i. BTreeMap.get i s.by_id) same);
  }

  -- every id is reached, if there are not more ids than entries
  ready_onto :
      ((key : SchedKey) (e : ScheduledEntry)
        → BTreeMap.get key s.ready ≡ some e
        → BTreeMap.get key.id s.by_id ≡ some key)
      → length s.by_id ≤ length s.ready
      → (id : ScheduledActionId) (key : SchedKey) → BTreeMap.get id s.by_id ≡ some key
      → (key.id ≡ id) × (is_some (BTreeMap.get key s.ready) ≡ true)
  ready_onto inverse size id key h =
      let (k, e, held, same) =
        Injects-onto (λ (key : SchedKey) (e : ScheduledEntry). key.id) s.ready s.by_id o.ready
          o.by_id (ready-Injects inverse) size id key h in
      let one : k ≡ key = cc (inverse k e held, ap (λ i. BTreeMap.get i s.by_id) same, h) in
      (ap (λ x. x.id) (sym one) ∙ same, cc (one, held))

  Passes-IsConsistent : Passes s → IsConsistent s
  Passes-IsConsistent p =
      let entry = λ (key : SchedKey) (e : ScheduledEntry) (h : BTreeMap.get key s.ready ≡ some e).
        entry-inverse s o key e (for_each-get (check_entry s.by_id) key e s.ready p.entries h) in
      let back = λ (key : SchedKey) (e : ScheduledEntry) (h : BTreeMap.get key s.ready ≡ some e).
        subst (λ i. BTreeMap.get i s.by_id ≡ some key) (entry key e h).0 (entry key e h).1 in
      let ahead = λ (key : SchedKey) (e : ScheduledEntry) (h : BTreeMap.get key s.ready ≡ some e).
        counters-ahead s o key e (for_each-get (check_counters s) key e s.ready p.counters h) in
      let set_of =
        λ (actor : EntityId) (set : BTreeSet ScheduledActionId)
            (h : BTreeMap.get actor s.by_actor ≡ some set).
          actor-nonempty s o actor set
            (for_each-get (check_actor s) actor set s.by_actor p.actors h) in
      let onto =
        λ (id : ScheduledActionId) (key : SchedKey) (h : BTreeMap.get id s.by_id ≡ some key).
          ready_onto back (omega (arith, p.sizes)) id key h in
      record {
        entry_id = λ key e h. (entry key e h).0;
        inverse = back;
        key_id = λ id key h. (onto id key h).0;
        present = λ id key h. (onto id key h).1;
        nonempty = λ actor set h. (set_of actor set h).0;
        named = λ actor id held. elim (Option-cases (BTreeMap.get actor s.by_actor)) [
          | inl absent ↦ absurd (ground arith)
          | inr (set, h) ↦ actor_id-named s o actor id tt (
              for_each-get (check_actor_id s actor) id tt set (set_of actor set h).1
                (contains-get id set (rw h at held)))
        ];
        indexed = λ key e actor h names.
            indexed_entry s o key e actor names
              (for_each-get (check_indexed s.by_actor) key e s.ready p.index h);
        seq_ahead = λ key e h. (ahead key e h).0;
        id_ahead = λ key e h. (ahead key e h).1;
      }

  by_id-Injects :
      IsConsistent s → Injects (λ (id : ScheduledActionId) (key : SchedKey). key) s.by_id s.ready
  by_id-Injects c = record {
    lands = c.present;
    injective = λ i j k l h g same. cc (c.key_id i k h, c.key_id j l g);
  }

  IsConsistent-Passes : IsConsistent s → Passes s
  IsConsistent-Passes c = record {
    sizes = omega (
      arith,
      length-Injects (λ (key : SchedKey) (e : ScheduledEntry). key.id) s.ready s.by_id o.ready
          o.by_id (ready-Injects c.inverse),
      length-Injects (λ (id : ScheduledActionId) (key : SchedKey). key) s.by_id s.ready o.by_id
          o.ready (by_id-Injects c),
    );
    entries = for_each-all (check_entry s.by_id) s.ready o.ready (λ key e h.
        let same = c.entry_id key e h in
        inverse-entry s o key e same
          (subst (λ i. BTreeMap.get i s.by_id ≡ some key) (sym same) (c.inverse key e h)));
    actors = for_each-all (check_actor s) s.by_actor o.by_actor (λ actor set h.
        nonempty-actor s o actor set (c.nonempty actor set h) (
          for_each-all (check_actor_id s actor) set
            (get-Everywhere (λ x. IsSorted x) actor set s.by_actor o.sets h)
            (λ id u held.
              let there = c.named actor id (rw h (get-contains id u set held)) in
              named-actor_id s o actor id u there.0 there.1 there.2)));
    index = for_each-all (check_indexed s.by_actor) s.ready o.ready (λ key e h.
        elim (Option-cases e.actor) [
          | inl nobody ↦ check_indexed-none s o key e nobody
          | inr (actor, names) ↦
              check_indexed-some s o key e actor names (c.indexed key e actor h names)
        ]);
    counters =
        for_each-all (check_counters s) s.ready o.ready
          (λ key e h. ahead-counters s o key e (c.seq_ahead key e h) (c.id_ahead key e h));
  }

-- `validate` accepts a scheduler exactly if it is consistent: `ready` and `by_id` are inverse to each
-- other, every entry has the id of its key, the actors' sets are not empty and hold just the ids of
-- the entries that name the actor, and the counters are ahead of every entry. The tables are ordered
-- maps, as every `BTreeMap` is.
pub validate-IsConsistent : (s : Scheduler) → IsOrdered s → (validate s ≡ ok tt) ↔ IsConsistent s
validate-IsConsistent s o = (
  λ h. Passes-IsConsistent s o (validate-Passes s h),
  λ c. Passes-validate s (IsConsistent-Passes s o c),
)

pub IsConsistent-IsLinked : (s : Scheduler) → IsOrdered s → IsConsistent s → IsLinked s
IsConsistent-IsLinked s o c = record {
  key_id = c.key_id;
  present = c.present;
  entry_id = c.entry_id;
  sorted = o.ready;
}
