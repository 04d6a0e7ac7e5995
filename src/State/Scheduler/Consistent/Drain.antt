-- ===== src/State/Scheduler/Consistent/Drain.antt =====
-- `pop_due` (state/scheduler.rs), called again and again at one tick, as the kernel's steps do.
use arkhe_kernel.Prelude.{
  ℕ, suc, zero, ◌≡◌, ◌≤◌, ◌⊎◌, refl, sym, ◌∙◌, subst, Bool-cases, Option, Option-cases, none, some,
  List, [], ◌∷◌, Checked, done, ◌>>=◌, Returns, Returns->>=, Returns-both, arith, inl, inr, ltb,
  length,
}
use arkhe_kernel.Order.{nat_ord, eqb, eq_of_eqb}
use arkhe_kernel.BTreeMap
use arkhe_kernel.BTreeMap.{BTreeMap}
use arkhe_kernel.BTreeMap.Size.{length-remove}
use arkhe_kernel.BTreeMap.Sorted.{get-first}
use arkhe_kernel.Abi.{Tick}
use arkhe_kernel.State.Scheduler.Key.{SchedKey, sched_key_ord, ScheduledActionId}
use arkhe_kernel.State.Scheduler.{ScheduledEntry, Scheduler, pop_due, pop_key, len}
use arkhe_kernel.State.Scheduler.Consistent.{IsValid}
use arkhe_kernel.State.Scheduler.Consistent.Upkeep.{pop_due-IsValid}
use arkhe_kernel.State.Scheduler.Consistent.Pending.{
  Queue, pending, pending-ready, Idle, Pops, pop_due-pending,
}

-- up to `n` calls, until nothing is due: the entries in the order in which they are popped
drain_rest :
    (Scheduler → Checked (List ScheduledEntry × Scheduler))
    → Option ScheduledEntry × Scheduler
    → Checked (List ScheduledEntry × Scheduler)
drain_rest f (none, t) = done ([], t)
drain_rest f (some e, t) = f t >>= λ q. done (e ∷ q.0, q.1)

unfoldable pub drain : ℕ → Tick → Scheduler → Checked (List ScheduledEntry × Scheduler)
unfolding drain_rest
drain zero now s = done ([], s)
drain (suc n) now s = pop_due s now >>= drain_rest (drain n now)

pub data Among (e : ScheduledEntry) : List ScheduledEntry → Type 0 where
  here : (es : List ScheduledEntry) → Among e (e ∷ es)
  later : (f : ScheduledEntry) (es : List ScheduledEntry) → Among e es → Among e (f ∷ es)

-- every entry that is due has come, and none that is due is left
pub Drained : Queue → Tick → List ScheduledEntry × Scheduler → Type 0
Drained q now r =
    ((j : ScheduledActionId) (k : SchedKey) (e : ScheduledEntry)
      → q j ≡ some (k, e)
      → k.at ≤ now
      → Among e r.0)
    × Idle (pending r.1) now
    × IsValid r.1

-- one entry leaves the queue with each that is popped
Shorter : Scheduler → Option ScheduledEntry × Scheduler → Type 0
Shorter s (none, t) = Unit
Shorter s (some e, t) = suc (len t) ≡ len s

pop_due-Shorter : (s : Scheduler) (now : Tick) → IsValid s → Returns (Shorter s) (pop_due s now)
unfolding pop_due pop_key Shorter len
pop_due-Shorter s now v = elim (Option-cases (BTreeMap.first s.ready)) [
  | inl empty ↦ rw (empty, pop_due) tt
  | inr ((key, entry), least) ↦ elim (Bool-cases (ltb now key.at)) [
    | inl future ↦ rw (least, pop_due, future) tt
    | inr due ↦
        let held = get-first key entry s.ready least in
        rw (least, pop_due, due, held) (ground (arith, length-remove key s.ready v.0.ready, held))
  ]
]

empty-Idle : (s : Scheduler) (now : Tick) → IsValid s → len s ≤ 0 → Idle (pending s) now
unfolding len BTreeMap.get
empty-Idle s now v size j k f h = absurd (no_entry s.ready size (pending-ready s v j k f h).0)
  where
    no_entry : (m : BTreeMap SchedKey ScheduledEntry) → length m ≤ 0 → BTreeMap.get k m ≡ some f → ⊥
    no_entry [] size h = cc
    no_entry (e ∷ m) size h = omega arith

-- one round: what has come, and what comes of the rest
popped-Drained :
    (s : Scheduler) (now : Tick) (rest : Scheduler → Checked (List ScheduledEntry × Scheduler))
    (r : Option ScheduledEntry × Scheduler)
    → Pops (pending s) now r.0 (pending r.1)
    → IsValid r.1
    → Returns (Drained (pending r.1) now) (rest r.1) ⊎ (r.0 ≡ none)
    → Returns (Drained (pending s) now) (drain_rest rest r)
unfolding drain_rest Drained
popped-Drained s now rest (none, t) p v ih =
    (λ j k e h due. absurd (omega (arith, p.0 j k e h)), λ j k f h. p.0 j k f (sym (p.1 j) ∙ h), v)
popped-Drained s now rest (some e, t) p v (inr nothing) = absurd (cc)
popped-Drained s now rest (some e, t) (key, least, dropped) v (inl ih) =
    Returns->>= (Drained (pending t) now) (Drained (pending s) now) (rest t) _ ih (λ q d. (
      λ j k f h due. elim (Bool-cases (eqb j e.id)) [
        | inl same ↦
            let one : e ≡ f = cc (least.0, h, eq_of_eqb j e.id same) in
            subst (λ x. Among x (e ∷ q.0)) one (here q.0)
        | inr other ↦ later e q.0 (d.0 j k f (rw (dropped j, other) h) due)
      ],
      d.1,
      d.2,
    ))

rest_of :
    (n : ℕ) (now : Tick) (s : Scheduler) (r : Option ScheduledEntry × Scheduler)
    → Shorter s r
    → len s ≤ suc n
    → (len r.1 ≤ n) ⊎ (r.0 ≡ none)
unfolding Shorter
rest_of n now s (none, t) short size = inr refl
rest_of n now s (some e, t) short size = inl (omega arith)

-- No action that is due is starved: on a consistent scheduler, as many calls of `pop_due` at one tick
-- as entries wait return every entry that is due at that tick, and leave none that is; they do not
-- panic, and the scheduler is consistent afterwards.
pub drain-Drained :
    (n : ℕ) (now : Tick) (s : Scheduler)
    → IsValid s
    → len s ≤ n
    → Returns (Drained (pending s) now) (drain n now s)
unfolding drain Drained
drain-Drained zero now s v size = (
  λ j k e h due. absurd (omega (arith, empty-Idle s now v size j k e h)),
  empty-Idle s now v size,
  v,
)
drain-Drained (suc n) now s v size =
    let one =
      Returns-both (λ r. Pops (pending s) now r.0 (pending r.1)) (λ r. IsValid r.1 × Shorter s r)
        (pop_due s now) (pop_due-pending s v now)
        (Returns-both (λ r. IsValid r.1) (Shorter s) (pop_due s now) (pop_due-IsValid s now v)
          (pop_due-Shorter s now v)) in
    Returns->>= (λ r. Pops (pending s) now r.0 (pending r.1) × (IsValid r.1 × Shorter s r))
      (Drained (pending s) now) (pop_due s now) _ one
      (λ r f. popped-Drained s now (drain n now) r f.0 f.1.0 (elim (rest_of n now s r f.1.1 size) [
        | inl fits ↦ inl (drain-Drained n now r.1 f.1.0 fits)
        | inr nothing ↦ inr nothing
      ]))
