-- ===== src/Tests/Schedulers.antt =====
-- The theorems on the tables of the scheduler, applied.
use arkhe_kernel.Prelude.{◌≡◌, ◌↔◌, refl, some, ok, arith, Returns}
use arkhe_kernel.Order.{nat_ord}
use arkhe_kernel.BTreeMap
use arkhe_kernel.State.Scheduler
use arkhe_kernel.State.Scheduler.{Scheduler, ScheduledEntry}
use arkhe_kernel.State.Scheduler.Key.{sched_key_ord}
use arkhe_kernel.State.Scheduler.Validate.{validate}
use arkhe_kernel.State.Scheduler.Consistent.{IsConsistent, IsValid}
use arkhe_kernel.State.Scheduler.Consistent.Exact.{validate-IsConsistent}
use arkhe_kernel.State.Scheduler.Consistent.Used.{Used, Used-IsValid, Used-validate}
use arkhe_kernel.State.Scheduler.Consistent.Pending.{
  Added, Dropped, Pops, pending, entry_at, Scheduler-refines,
}
use arkhe_kernel.State.Scheduler.Consistent.Drain.{Drained, drain, drain-Drained}
use arkhe_kernel.Tests.Fixtures.{guest_entry, system_entry}

-- two actions that wait, one of them for an actor
abbrev first : ScheduledEntry
first = record guest_entry { at = 4; actor = some 7 }

abbrev second : ScheduledEntry
second = record system_entry { id = 2; at = 3 }

abbrev one_waits : Scheduler
one_waits = Scheduler.schedule_with_id Scheduler.new first

abbrev two_wait : Scheduler
two_wait = Scheduler.schedule_with_id one_waits second

two_wait-Used : Used two_wait
unfolding Scheduler.schedule_with_id BTreeMap.get BTreeMap.insert nat_ord
two_wait-Used =
    Used.scheduled_with_id second (Used.scheduled_with_id first Used.empty refl (omega arith)) refl
      (omega arith)

two_wait-IsValid : IsValid two_wait
two_wait-IsValid = Used-IsValid two_wait two_wait-Used

validate-IsConsistent_example : (validate two_wait ≡ ok tt) ↔ IsConsistent two_wait
validate-IsConsistent_example = validate-IsConsistent two_wait two_wait-IsValid.0

Used-validate_example : validate two_wait ≡ ok tt
Used-validate_example = Used-validate two_wait two_wait-Used

Scheduler-refines_example :
    Added
      (pending two_wait)
      (record { at = 3; seq = two_wait.next_seq; id = 5 })
      (record second { id = 5 })
      (pending (Scheduler.schedule_with_id two_wait (record second { id = 5 })))
    × Returns
        (λ r. (r.0 ≡ entry_at (pending two_wait 1)) × Dropped (pending two_wait) 1 (pending r.1))
        (Scheduler.cancel two_wait 1)
    × Returns (λ r. Pops (pending two_wait) 3 r.0 (pending r.1)) (Scheduler.pop_due two_wait 3)
unfolding Scheduler.schedule_with_id BTreeMap.get BTreeMap.insert nat_ord
Scheduler-refines_example =
    Scheduler-refines two_wait (record second { id = 5 }) 1 3 two_wait-IsValid refl

drain-Drained_example : Returns (Drained (pending two_wait) 9) (drain 2 9 two_wait)
unfolding Scheduler.schedule_with_id BTreeMap.insert nat_ord Scheduler.len sched_key_ord
drain-Drained_example = drain-Drained 2 9 two_wait two_wait-IsValid (omega arith)
