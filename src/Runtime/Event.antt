-- ===== src/Runtime/Event.antt =====
-- runtime/event.rs: what the kernel tells its observers, and the filter on it
use arkhe_kernel.Prelude.{ℕ, Bool, Option, bit_and, ◌==◌}
use arkhe_kernel.Abi.{EntityId, InstanceId, RouteId, Tick, TypeCode, Bytes}
use arkhe_kernel.State.Scheduler.Key.{ScheduledActionId}

pub data SignalDropReason : Type 0 where
  queue_full target_not_found cancelled : SignalDropReason

pub data DeferReason : Type 0 where
  scheduler_busy budget_exceeded : DeferReason

pub data KernelEvent : Type 0 where
  -- instance, action_type, at
  action_executed : InstanceId → TypeCode → Tick → KernelEvent
  -- instance, action_type, reason
  action_failed : InstanceId → TypeCode → Bytes → KernelEvent
  -- instance, reason
  effect_failed : InstanceId → Bytes → KernelEvent
  -- observer_index
  observer_panic : ℕ → KernelEvent
  -- observer_index, panic_at_seq, panic_count_before_eviction
  observer_evicted : ℕ → ℕ → ℕ → KernelEvent
  -- target, route, reason
  signal_dropped : InstanceId → RouteId → SignalDropReason → KernelEvent
  -- route_id, live_refs_at_unload
  module_force_unloaded : RouteId → ℕ → KernelEvent
  -- action_id, reason
  action_deferred_to_next_tick : ScheduledActionId → DeferReason → KernelEvent
  -- barrier_ticket, event_count
  observers_flushed : ℕ → ℕ → KernelEvent
  -- instance, actor, event_type_code, bytes
  domain_event_emitted : InstanceId → Option EntityId → TypeCode → Bytes → KernelEvent
  -- from, target, route
  signal_delivered : InstanceId → InstanceId → RouteId → KernelEvent

abbrev pub ObserverHandle : Type 0
ObserverHandle = ℕ

abbrev pub EventMask : Type 0
EventMask = ℕ

-- the bit of an event's variant
abbrev pub event_bit : KernelEvent → EventMask
event_bit (action_executed i t a) = 0x1
event_bit (action_failed i t r) = 0x2
event_bit (effect_failed i r) = 0x4
event_bit (observer_panic o) = 0x8
event_bit (observer_evicted o s c) = 0x10
event_bit (signal_dropped t r w) = 0x20
event_bit (module_force_unloaded r l) = 0x40
event_bit (action_deferred_to_next_tick a r) = 0x80
event_bit (observers_flushed b c) = 0x100
event_bit (domain_event_emitted i a t b) = 0x200
event_bit (signal_delivered f t r) = 0x400

-- `EventMask::ALL`
abbrev pub all_events : EventMask
all_events = 0x7ff

unfoldable pub matches : EventMask → KernelEvent → Bool
matches mask event = bit_and mask (event_bit event) == event_bit event
