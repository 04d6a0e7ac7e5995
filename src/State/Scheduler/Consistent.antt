-- ===== src/State/Scheduler/Consistent.antt =====
-- What `Scheduler::validate` (state/scheduler.rs) tests, said of the tables as maps.
pub mod Exact
pub mod Used
pub mod Drain
pub mod Pending
pub mod Index
pub mod Added
pub mod Without
pub mod Upkeep
use arkhe_kernel.Prelude.{
  ℕ, suc, ◌≡◌, ◌≤◌, ◌<◌, refl, sym, true, false, not, Bool, Bool-cases, Option, Option-cases, none,
  some, List, [], ◌∷◌, ok, err, and_then, arith, is_some, length, inl, inr, ◌==◌, ltb, leb,
  if◌then◌else◌,
}
use arkhe_kernel.Order.{Ord, nat_ord, eqb, eqb_self, eq_of_eqb}
use arkhe_kernel.BTreeMap
use arkhe_kernel.BTreeMap.{BTreeMap, BTreeSet}
use arkhe_kernel.BTreeMap.Lookup.{Everywhere, get-Everywhere}
use arkhe_kernel.BTreeMap.Sorted.{IsSorted, get-Above}
use arkhe_kernel.BTreeMap.Injection.{Injects, length-Injects, Injects-onto}
use arkhe_kernel.Abi.{EntityId}
use arkhe_kernel.State.Scheduler.Key.{SchedKey, sched_key_ord, ScheduledActionId}
use arkhe_kernel.State.Scheduler.{ScheduledEntry, Scheduler}
use arkhe_kernel.State.Scheduler.Linked.{IsLinked}
use arkhe_kernel.State.Scheduler.Validate.{
  Inconsistency, size_mismatch, Check, for_each, is_key, names_actor, check_entry, check_actor_id,
  check_actor, check_indexed, check_counters, validate,
}

module _ {ℓ κ} {K : Type ℓ} {V : Type κ} ⦃o : Ord K⦄ where
  -- A loop that has passed has passed every entry, and the other way.
  for_each-get :
      (f : K × V → Check) (k : K) (v : V) (m : BTreeMap K V)
      → for_each f m ≡ ok tt
      → BTreeMap.get k m ≡ some v
      → f (k, v) ≡ ok tt
  unfolding BTreeMap.get
  for_each-get f k v [] h g = absurd (cc)
  for_each-get f k v ((j, w) ∷ m) h g = ground (arith, for_each-get f k v m, eq_of_eqb k j)

  for_each-all :
      (f : K × V → Check) (m : BTreeMap K V)
      → IsSorted m
      → ((k : K) (v : V) → BTreeMap.get k m ≡ some v → f (k, v) ≡ ok tt)
      → for_each f m ≡ ok tt
  unfolding BTreeMap.get
  for_each-all f [] s h = refl
  for_each-all f ((k, v) ∷ m) s h =
      rw (h k v (rw (eqb_self k) refl))
        (for_each-all f m s.1 (λ j w g. h j w (ground (arith, get-Above k m s.0, eq_of_eqb j k))))

-- whether a set of the index holds an id
abbrev pub holds : Option (BTreeSet ScheduledActionId) → ScheduledActionId → Bool
holds none id = false
holds (some set) id = BTreeMap.contains id set

-- what the representation as ordered maps gives
pub record IsOrdered (s : Scheduler) : Type 0 where
  pub ready : IsSorted s.ready
  pub by_id : IsSorted s.by_id
  pub by_actor : IsSorted s.by_actor
  pub sets : Everywhere (λ set. IsSorted set) s.by_actor

-- `ready` and `by_id` are inverse; the actors' sets are the entries that name them, none of them
-- empty; and the counters are ahead of every entry.
pub record IsConsistent (s : Scheduler) : Type 0 where
  pub entry_id :
      (key : SchedKey) (e : ScheduledEntry) → BTreeMap.get key s.ready ≡ some e → e.id ≡ key.id
  pub inverse :
      (key : SchedKey) (e : ScheduledEntry)
      → BTreeMap.get key s.ready ≡ some e
      → BTreeMap.get key.id s.by_id ≡ some key
  pub key_id :
      (id : ScheduledActionId) (key : SchedKey) → BTreeMap.get id s.by_id ≡ some key → key.id ≡ id
  pub present :
      (id : ScheduledActionId) (key : SchedKey)
      → BTreeMap.get id s.by_id ≡ some key
      → is_some (BTreeMap.get key s.ready) ≡ true
  pub nonempty :
      (actor : EntityId) (set : BTreeSet ScheduledActionId)
      → BTreeMap.get actor s.by_actor ≡ some set
      → is_some (BTreeMap.first set) ≡ true
  pub named :
      (actor : EntityId) (id : ScheduledActionId)
      → holds (BTreeMap.get actor s.by_actor) id ≡ true
      → (key : SchedKey) × (BTreeMap.get id s.by_id ≡ some key)
        × (names_actor actor (BTreeMap.get key s.ready) ≡ true)
  pub indexed :
      (key : SchedKey) (e : ScheduledEntry) (actor : EntityId)
      → BTreeMap.get key s.ready ≡ some e
      → e.actor ≡ some actor
      → holds (BTreeMap.get actor s.by_actor) e.id ≡ true
  pub seq_ahead :
      (key : SchedKey) (e : ScheduledEntry)
      → BTreeMap.get key s.ready ≡ some e
      → key.seq < s.next_seq
  pub id_ahead :
      (key : SchedKey) (e : ScheduledEntry) → BTreeMap.get key s.ready ≡ some e → key.id ≤ s.next_id

-- Consistent tables that are ordered maps.
abbrev pub IsValid : Scheduler → Type 0
IsValid s = IsOrdered s × IsConsistent s

-- the four loops and the sizes
record Passes (s : Scheduler) : Type 0 where
  pub sizes : length s.ready ≡ length s.by_id
  pub entries : for_each (check_entry s.by_id) s.ready ≡ ok tt
  pub actors : for_each (check_actor s) s.by_actor ≡ ok tt
  pub index : for_each (check_indexed s.by_actor) s.ready ≡ ok tt
  pub counters : for_each (check_counters s) s.ready ≡ ok tt

and_then-ok :
    (r : Check) (f : Unit {0} → Check) → and_then r f ≡ ok tt → (r ≡ ok tt) × (f tt ≡ ok tt)
and_then-ok (ok u) f h = (refl, h)
and_then-ok (err e) f h = absurd (cc)

validate-Passes : (s : Scheduler) → validate s ≡ ok tt → Passes s
unfolding validate
validate-Passes s h = elim (Bool-cases (length s.ready == length s.by_id)) [
  | inr differ ↦
      absurd
        (let e : ◌≡◌ {A = Check} (err size_mismatch) (ok tt) = rw (differ, validate) at h in cc)
  | inl same ↦
      let a = and_then-ok _ _ (rw (same, validate) at h) in
      let b = and_then-ok _ _ a.1 in
      let c = and_then-ok _ _ b.1 in
      record { sizes = ground arith; entries = a.0; actors = b.0; index = c.0; counters = c.1 }
]

Passes-validate : (s : Scheduler) → Passes s → validate s ≡ ok tt
unfolding validate
Passes-validate s p = ground arith

module _ (s : Scheduler) (o : IsOrdered s) where
  -- what one round of each loop tests
  entry-inverse :
      (key : SchedKey) (e : ScheduledEntry)
      → check_entry s.by_id (key, e) ≡ ok tt
      → (e.id ≡ key.id) × (BTreeMap.get e.id s.by_id ≡ some key)
  unfolding check_entry
  entry-inverse key e h = elim (Option-cases (BTreeMap.get e.id s.by_id)) [
    | inl lost ↦ absurd (ground arith)
    | inr (k, found) ↦ ground (arith, eq_of_eqb k key)
  ]

  inverse-entry :
      (key : SchedKey) (e : ScheduledEntry)
      → e.id ≡ key.id
      → BTreeMap.get e.id s.by_id ≡ some key
      → check_entry s.by_id (key, e) ≡ ok tt
  unfolding check_entry
  inverse-entry key e same found = ground (arith, eqb_self key)

  actor_id-named :
      (actor : EntityId) (id : ScheduledActionId) (u : Unit {0})
      → check_actor_id s actor (id, u) ≡ ok tt
      → (key : SchedKey) × (BTreeMap.get id s.by_id ≡ some key)
        × (names_actor actor (BTreeMap.get key s.ready) ≡ true)
  unfolding check_actor_id
  actor_id-named actor id u h = elim (Option-cases (BTreeMap.get id s.by_id)) [
    | inl lost ↦ absurd (ground arith)
    | inr (key, found) ↦ (key, found, ground arith)
  ]

  named-actor_id :
      (actor : EntityId) (id : ScheduledActionId) (u : Unit {0}) (key : SchedKey)
      → BTreeMap.get id s.by_id ≡ some key
      → names_actor actor (BTreeMap.get key s.ready) ≡ true
      → check_actor_id s actor (id, u) ≡ ok tt
  unfolding check_actor_id
  named-actor_id actor id u key found h = ground arith

  actor-nonempty :
      (actor : EntityId) (set : BTreeSet ScheduledActionId)
      → check_actor s (actor, set) ≡ ok tt
      → (is_some (BTreeMap.first set) ≡ true) × (for_each (check_actor_id s actor) set ≡ ok tt)
  unfolding check_actor BTreeMap.first
  actor-nonempty actor [] h = absurd (cc)
  actor-nonempty actor (id ∷ ids) h = (refl, h)

  nonempty-actor :
      (actor : EntityId) (set : BTreeSet ScheduledActionId)
      → is_some (BTreeMap.first set) ≡ true
      → for_each (check_actor_id s actor) set ≡ ok tt
      → check_actor s (actor, set) ≡ ok tt
  unfolding check_actor BTreeMap.first
  nonempty-actor actor [] n h = absurd (cc)
  nonempty-actor actor (id ∷ ids) n h = h

  indexed_entry :
      (key : SchedKey) (e : ScheduledEntry) (actor : EntityId)
      → e.actor ≡ some actor
      → check_indexed s.by_actor (key, e) ≡ ok tt
      → holds (BTreeMap.get actor s.by_actor) e.id ≡ true
  unfolding check_indexed
  indexed_entry key e actor names h = ground arith

  check_indexed-none :
      (key : SchedKey) (e : ScheduledEntry)
      → e.actor ≡ none
      → check_indexed s.by_actor (key, e) ≡ ok tt
  unfolding check_indexed
  check_indexed-none key e names = ground arith

  check_indexed-some :
      (key : SchedKey) (e : ScheduledEntry) (actor : EntityId)
      → e.actor ≡ some actor
      → holds (BTreeMap.get actor s.by_actor) e.id ≡ true
      → check_indexed s.by_actor (key, e) ≡ ok tt
  unfolding check_indexed
  check_indexed-some key e actor names held = ground arith

  counters-ahead :
      (key : SchedKey) (e : ScheduledEntry)
      → check_counters s (key, e) ≡ ok tt
      → (key.seq < s.next_seq) × (key.id ≤ s.next_id)
  unfolding check_counters
  counters-ahead key e h = ground arith

  ahead-counters :
      (key : SchedKey) (e : ScheduledEntry)
      → key.seq < s.next_seq
      → key.id ≤ s.next_id
      → check_counters s (key, e) ≡ ok tt
  unfolding check_counters
  ahead-counters key e a b = ground arith
