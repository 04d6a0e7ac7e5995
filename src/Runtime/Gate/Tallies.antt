-- ===== src/Runtime/Gate/Tallies.antt =====
-- What a stage holds, counted over its buckets, and not by the counters that the loop over the ops
-- (runtime/kernel.rs) keeps beside them.
use arkhe_kernel.Prelude.{ℕ, List, tally}
use arkhe_kernel.Runtime.Event.{KernelEvent, effect_failed}
use arkhe_kernel.Runtime.Stage.{StagedStateDelta, ScheduledEntryDelta}

abbrev pub is_failure : KernelEvent → ℕ
is_failure (effect_failed inst reason) = 1
is_failure _ = 0

abbrev pub is_spawn : StagedStateDelta → ℕ
is_spawn (StagedStateDelta.spawn_entity id meta) = 1
is_spawn _ = 0

abbrev pub is_add : ScheduledEntryDelta → ℕ
is_add (ScheduledEntryDelta.add entry) = 1
is_add (ScheduledEntryDelta.remove id) = 0

-- the ops that were reported as failed
abbrev pub failures : List KernelEvent → ℕ
failures es = tally is_failure es

-- the entities that are staged
abbrev pub spawns : List StagedStateDelta → ℕ
spawns ds = tally is_spawn ds

-- the actions that are staged
abbrev pub adds : List ScheduledEntryDelta → ℕ
adds ds = tally is_add ds
