-- ===== src/State/Scheduler/Depth.antt =====
-- The number of waiting actions (state/scheduler.rs) under its operations.
use arkhe_kernel.Prelude.{
  suc, ◌≤◌, Bool-cases, Option-cases, inl, inr, arith, Allows, Allows->>=, Allows-any, expect, ltb,
}
use arkhe_kernel.Order.{nat_ord}
use arkhe_kernel.BTreeMap
use arkhe_kernel.BTreeMap.Size.{length-insert_le, length-remove_le}
use arkhe_kernel.Abi.{Tick}
use arkhe_kernel.State.Scheduler
use arkhe_kernel.State.Scheduler.{Scheduler, ScheduledEntry, pop_key}
use arkhe_kernel.State.Scheduler.Key.{ScheduledActionId, SchedKey, sched_key_ord}

pub len-schedule_with_id :
    (s : Scheduler) (e : ScheduledEntry)
    → Scheduler.len (Scheduler.schedule_with_id s e) ≤ suc (Scheduler.len s)
unfolding Scheduler.len Scheduler.schedule_with_id
len-schedule_with_id s e =
    length-insert_le (record { at = e.at; seq = s.next_seq; id = e.id }) e s.ready

pub len-cancel :
    (s : Scheduler) (id : ScheduledActionId)
    → Allows (λ r. Scheduler.len r.1 ≤ Scheduler.len s) (Scheduler.cancel s id)
unfolding Scheduler.len Scheduler.cancel
len-cancel s id = elim (Option-cases (BTreeMap.get id s.by_id)) [
  | inl missing ↦ rw (missing, Scheduler.cancel) (omega arith)
  | inr (key, found) ↦
      rw (found, Scheduler.cancel)
        (Allows-any (λ r. Scheduler.len r.1 ≤ Scheduler.len s) (expect (BTreeMap.get key s.ready)) _
          (λ entry. length-remove_le key s.ready))
]

len-pop_key :
    (s : Scheduler) (key : SchedKey)
    → Allows (λ r. Scheduler.len r.1 ≤ Scheduler.len s) (pop_key s key)
unfolding Scheduler.len pop_key
len-pop_key s key =
    Allows-any (λ r. Scheduler.len r.1 ≤ Scheduler.len s) (expect (BTreeMap.get key s.ready)) _
      (λ entry. length-remove_le key s.ready)

pub len-pop_due :
    (s : Scheduler) (now : Tick)
    → Allows (λ r. Scheduler.len r.1 ≤ Scheduler.len s) (Scheduler.pop_due s now)
unfolding Scheduler.pop_due
len-pop_due s now = elim (Option-cases (BTreeMap.first s.ready)) [
  | inl missing ↦ rw (missing, Scheduler.pop_due) (omega arith)
  | inr ((key, e), found) ↦ elim (Bool-cases (ltb now key.at)) [
    | inl later ↦ rw (found, Scheduler.pop_due, later) (omega arith)
    | inr due ↦
        rw (found, Scheduler.pop_due, due)
          (Allows->>= (λ r. Scheduler.len r.1 ≤ Scheduler.len s) _ (pop_key s key) _
            (len-pop_key s key) (λ r k. k))
  ]
]
