-- ===== src/State/Scheduler/Order.antt =====
-- The order in which `pop_due` empties the queue, and the order of its tables.
use Prim.Native.Nat.Ordering.{lt}
use arkhe_kernel.Prelude.{
  ℕ, ◌≤◌, ◌<◌, ◌≡◌, refl, ◌⊎◌, inl, inr, Option, none, some, Option-cases, Bool-cases, Returns, ltb,
  arith,
}
use arkhe_kernel.BTreeMap
use arkhe_kernel.BTreeMap.{BTreeMap}
use arkhe_kernel.BTreeMap.Sorted.{IsSorted, first-least, get-first, get_of_first-none}
use arkhe_kernel.Order.{nat_ord}
use arkhe_kernel.Abi.{Tick}
use arkhe_kernel.State.Scheduler.Key.{SchedKey, sched_key_ord, cmp_key}
use arkhe_kernel.State.Scheduler.{ScheduledEntry, Scheduler, pop_key, pop_due}

-- What `pop_due` promises of its result.
abbrev pub Popped : Scheduler → Tick → Option ScheduledEntry × Scheduler → Type 0
Popped s now (none, t) =
    (t ≡ s) × ((k : SchedKey) (e : ScheduledEntry) → BTreeMap.get k s.ready ≡ some e → now < k.at)
Popped s now (some entry, t) =
    (key : SchedKey) × (BTreeMap.get key s.ready ≡ some entry)
    × (key.at ≤ now)
    × (t.ready ≡ BTreeMap.remove key s.ready)
    × ((j : SchedKey) (e : ScheduledEntry)
        → BTreeMap.get j s.ready ≡ some e
        → (j ≡ key) ⊎ (cmp_key key j ≡ lt))

pub at-le : (a b : SchedKey) (now : ℕ) → (b ≡ a) ⊎ (cmp_key a b ≡ lt) → now < a.at → now < b.at
at-le a b now h p = ground arith

-- A queue that is in the order of its keys is popped in that order: `pop_due` takes the least
-- entry if that is due, and otherwise nothing, and then no entry is due.
pub pop_due-Popped :
    (s : Scheduler) (now : Tick) → IsSorted s.ready → Returns (Popped s now) (pop_due s now)
unfolding pop_due pop_key sched_key_ord
pop_due-Popped s now sorted = elim (Option-cases (BTreeMap.first s.ready)) [
  | inl empty ↦
      rw (empty, pop_due) (refl, λ k e h. absurd (cc (h, get_of_first-none k s.ready empty)))
  | inr ((key, entry), least) ↦
      let below =
        λ (j : SchedKey) (e : ScheduledEntry). first-least key j entry e s.ready sorted least in
      elim (Bool-cases (ltb now key.at)) [
        | inl future ↦
            rw (least, pop_due, future)
              (refl, λ j e h. at-le key j now (below j e h) (ground arith))
        | inr due ↦
            let held = get-first key entry s.ready least in
            rw (least, pop_due, due, held) (key, held, ground arith, refl, below)
      ]
]
