-- ===== src/State/Scheduler/Consistent/Index.antt =====
-- The index by actor (state/scheduler.rs): which ids it holds after one more and after one less.
use arkhe_kernel.Prelude.{
  ◌≡◌, ◌&&◌, ◌||◌, refl, subst, true, false, Bool, Bool-cases, not, is_some, Option, Option-cases,
  none, some, [], ◌∷◌, arith, inl, inr,
}
use arkhe_kernel.Order.{nat_ord, eqb, eq_of_eqb}
use arkhe_kernel.BTreeMap
use arkhe_kernel.BTreeMap.{BTreeSet}
use arkhe_kernel.BTreeMap.Lookup.{
  get-insert, get-remove, insert-Everywhere, get-Everywhere, Everywhere,
}
use arkhe_kernel.BTreeMap.Sorted.{IsSorted, insert-IsSorted, remove-IsSorted}
use arkhe_kernel.Abi.{EntityId}
use arkhe_kernel.State.Scheduler.Key.{sched_key_ord, ScheduledActionId}
use arkhe_kernel.State.Scheduler.{ScheduledEntry, ActorIndex, or_absent, index_actor, unindex_actor}
use arkhe_kernel.State.Scheduler.Validate.{names_actor}
use arkhe_kernel.State.Scheduler.Consistent.{holds}

abbrev pub names : Option EntityId → EntityId → Bool
names none actor = false
names (some a) actor = eqb actor a

-- what the index holds with one id more, and with one less
pub holds-index_actor :
    (named : Option EntityId) (id : ScheduledActionId) (index : ActorIndex) (actor : EntityId)
    (i : ScheduledActionId)
    → holds (BTreeMap.get actor (index_actor named id index)) i
      ≡ ((names named actor && eqb i id) || holds (BTreeMap.get actor index) i)
unfolding index_actor BTreeMap.contains BTreeMap.get
holds-index_actor none id index actor i = refl
holds-index_actor (some a) id index actor i = elim (Option-cases (BTreeMap.get a index)) [
  | inl absent ↦
      rw (absent, index_actor)
        (ground (arith, get-insert actor a ((id, tt) ∷ []) index, eq_of_eqb actor a, absent))
  | inr (set, found) ↦
      rw (found, index_actor)
        (ground (
          arith,
          get-insert actor a (BTreeMap.insert id tt set) index,
          get-insert i id tt set,
          eq_of_eqb actor a,
          found,
        ))
]

or_absent-get : (set rest : BTreeSet ScheduledActionId) → or_absent set ≡ some rest → set ≡ rest
or_absent-get [] rest h = absurd (cc)
or_absent-get (e ∷ es) rest h = cc

or_absent-none :
    (set : BTreeSet ScheduledActionId) (i : ScheduledActionId)
    → or_absent set ≡ none
    → BTreeMap.contains i set ≡ false
unfolding BTreeMap.contains BTreeMap.get
or_absent-none [] i h = refl
or_absent-none (e ∷ es) i h = absurd (cc)

contains-remove :
    (i id : ScheduledActionId) (set : BTreeSet ScheduledActionId)
    → BTreeMap.contains i (BTreeMap.remove id set) ≡ (not (eqb i id) && BTreeMap.contains i set)
unfolding BTreeMap.contains
contains-remove i id set = ground (arith, get-remove i id set)

pub holds-unindex_actor :
    (named : Option EntityId) (id : ScheduledActionId) (index : ActorIndex) (actor : EntityId)
    (i : ScheduledActionId)
    → holds (BTreeMap.get actor (unindex_actor named id index)) i
      ≡ (not (names named actor && eqb i id) && holds (BTreeMap.get actor index) i)
unfolding unindex_actor
holds-unindex_actor none id index actor i = refl
holds-unindex_actor (some a) id index actor i = elim (Option-cases (BTreeMap.get a index)) [
  | inl absent ↦ rw (absent, unindex_actor) (ground (arith, eq_of_eqb actor a, absent))
  | inr (set, found) ↦ elim (Option-cases (or_absent (BTreeMap.remove id set))) [
    | inl emptied ↦
        rw (found, unindex_actor, emptied)
          (ground (
            arith,
            get-remove actor a index,
            eq_of_eqb actor a,
            found,
            contains-remove i id set,
            or_absent-none (BTreeMap.remove id set) i emptied,
          ))
    | inr (rest, kept) ↦
        rw (found, unindex_actor, kept)
          (ground (
            arith,
            get-insert actor a rest index,
            eq_of_eqb actor a,
            found,
            contains-remove i id set,
            or_absent-get (BTreeMap.remove id set) rest kept,
          ))
  ]
]

-- no set of the index is empty
abbrev pub AllNonempty : ActorIndex → Type 0
AllNonempty index =
    (actor : EntityId) (set : BTreeSet ScheduledActionId)
    → BTreeMap.get actor index ≡ some set
    → is_some (BTreeMap.first set) ≡ true

insert_nonempty :
    (id : ScheduledActionId) (set : BTreeSet ScheduledActionId)
    → is_some (BTreeMap.first (BTreeMap.insert id tt set)) ≡ true
unfolding BTreeMap.insert BTreeMap.first
insert_nonempty id [] = refl
insert_nonempty id (e ∷ es) = ground arith

insert-AllNonempty :
    (a : EntityId) (set : BTreeSet ScheduledActionId) (index : ActorIndex)
    → is_some (BTreeMap.first set) ≡ true
    → AllNonempty index
    → AllNonempty (BTreeMap.insert a set index)
insert-AllNonempty a set index filled all actor got h =
    ground (arith, get-insert actor a set index, all actor got)

pub index_actor-AllNonempty :
    (named : Option EntityId) (id : ScheduledActionId) (index : ActorIndex)
    → AllNonempty index
    → AllNonempty (index_actor named id index)
unfolding index_actor
index_actor-AllNonempty none id index all = all
index_actor-AllNonempty (some a) id index all = elim (Option-cases (BTreeMap.get a index)) [
  | inl absent ↦
      rw (absent, index_actor)
        (insert-AllNonempty a ((id, tt) ∷ []) index (unfold BTreeMap.first in refl) all)
  | inr (set, found) ↦
      rw (found, index_actor)
        (insert-AllNonempty a (BTreeMap.insert id tt set) index (insert_nonempty id set) all)
]

or_absent-nonempty :
    (set rest : BTreeSet ScheduledActionId)
    → or_absent set ≡ some rest
    → is_some (BTreeMap.first rest) ≡ true
unfolding BTreeMap.first
or_absent-nonempty [] rest h = absurd (cc)
or_absent-nonempty (e ∷ es) [] h = absurd (cc)
or_absent-nonempty (e ∷ es) (f ∷ fs) h = refl

pub unindex_actor-AllNonempty :
    (named : Option EntityId) (id : ScheduledActionId) (index : ActorIndex)
    → AllNonempty index
    → AllNonempty (unindex_actor named id index)
unfolding unindex_actor
unindex_actor-AllNonempty none id index all = all
unindex_actor-AllNonempty (some a) id index all = elim (Option-cases (BTreeMap.get a index)) [
  | inl absent ↦ rw (absent, unindex_actor) all
  | inr (set, found) ↦ elim (Option-cases (or_absent (BTreeMap.remove id set))) [
    | inl emptied ↦
        rw (found, unindex_actor, emptied)
          (λ actor got h. ground (arith, get-remove actor a index, all actor got))
    | inr (rest, kept) ↦
        rw (found, unindex_actor, kept)
          (insert-AllNonempty a rest index (or_absent-nonempty (BTreeMap.remove id set) rest kept)
            all)
  ]
]

remove-Everywhere :
    (P : BTreeSet ScheduledActionId → Type 0) (a : EntityId) (index : ActorIndex)
    → Everywhere P index
    → Everywhere P (BTreeMap.remove a index)
unfolding Everywhere BTreeMap.remove
remove-Everywhere P a [] all = tt
remove-Everywhere P a ((b, set) ∷ index) all = elim (Bool-cases (eqb a b)) [
  | inl same ↦ rw same (remove-Everywhere P a index all.1)
  | inr other ↦ rw other (all.0, remove-Everywhere P a index all.1)
]

abbrev pub IsSortedIndex : ActorIndex → Type 0
IsSortedIndex index = IsSorted index × Everywhere (λ set. IsSorted set) index

pub index_actor-IsSorted :
    (named : Option EntityId) (id : ScheduledActionId) (index : ActorIndex)
    → IsSortedIndex index
    → IsSortedIndex (index_actor named id index)
unfolding index_actor
index_actor-IsSorted none id index s = s
index_actor-IsSorted (some a) id index s = elim (Option-cases (BTreeMap.get a index)) [
  | inl absent ↦
      rw (absent, index_actor)
        (
          insert-IsSorted a ((id, tt) ∷ []) index s.0,
          insert-Everywhere (λ set. IsSorted set) a ((id, tt) ∷ []) index (tt, tt) s.1,
        )
  | inr (set, found) ↦
      rw (found, index_actor)
        (
          insert-IsSorted a (BTreeMap.insert id tt set) index s.0,
          insert-Everywhere (λ set. IsSorted set) a (BTreeMap.insert id tt set) index
              (insert-IsSorted id tt set
                (get-Everywhere (λ set. IsSorted set) a set index s.1 found))
              s.1,
        )
]

pub unindex_actor-IsSorted :
    (named : Option EntityId) (id : ScheduledActionId) (index : ActorIndex)
    → IsSortedIndex index
    → IsSortedIndex (unindex_actor named id index)
unfolding unindex_actor
unindex_actor-IsSorted none id index s = s
unindex_actor-IsSorted (some a) id index s = elim (Option-cases (BTreeMap.get a index)) [
  | inl absent ↦ rw (absent, unindex_actor) s
  | inr (set, found) ↦ elim (Option-cases (or_absent (BTreeMap.remove id set))) [
    | inl emptied ↦
        rw (found, unindex_actor, emptied)
          (remove-IsSorted a index s.0, remove-Everywhere (λ set. IsSorted set) a index s.1)
    | inr (rest, kept) ↦
        let smaller =
          remove-IsSorted id set (get-Everywhere (λ set. IsSorted set) a set index s.1 found) in
        rw (found, unindex_actor, kept)
          (
            insert-IsSorted a rest index s.0,
            insert-Everywhere (λ set. IsSorted set) a rest index
                (subst (λ x. IsSorted x) (or_absent-get (BTreeMap.remove id set) rest kept) smaller)
                s.1,
          )
  ]
]

pub names_actor-names :
    (e : ScheduledEntry) (actor : EntityId) → names_actor actor (some e) ≡ names e.actor actor
unfolding nat_ord
names_actor-names e actor = ground arith
