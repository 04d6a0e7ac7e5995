-- ===== src/State/Authz.antt =====
-- state/authz.rs: the capabilities that an action runs under, and the gate of each effect. The
-- type-level marks `Unverified` and `Authorized` are an index of `Effect`; the lifetime brand has
-- no run-time content and is left out.
pub mod Narrowing
use arkhe_kernel.Prelude.{ℕ, bit_and, Bool, true, not, ◌&&◌, Result, ok, err, if◌then◌else◌}
use arkhe_kernel.Abi.{InstanceId, Principal, unauthenticated, external, system}
use arkhe_kernel.Abi.Caps.{CapabilityMask, contains, system_cap}
use arkhe_kernel.State.Op.{
  Op, spawn_entity, despawn_entity, set_component, remove_component, emit_event, schedule_action,
  send_signal,
}

pub data AuthState : Type 0 where
  unverified authorized : AuthState

pub record Effect (s : AuthState) : Type 0 where
  pub instance_id : InstanceId
  pub principal : Principal
  pub op : Op

pub data DenyReason : Type 0 where
  capability_denied instance_mismatch operation_restricted not_implemented : DenyReason

unfoldable pub effective_caps : CapabilityMask → Principal → CapabilityMask → CapabilityMask
effective_caps default_caps unauthenticated ceiling = 0
effective_caps default_caps (external e) ceiling = bit_and default_caps ceiling
effective_caps default_caps system ceiling = bit_and default_caps ceiling

unfoldable pub match_op_cap : Op → CapabilityMask → Bool
match_op_cap (schedule_action at actor tc bytes) caps = contains caps system_cap
match_op_cap (send_signal target route payload) caps = contains caps system_cap
match_op_cap _ caps = true

abbrev mark_authorized : Effect unverified → Effect authorized
mark_authorized e = record { instance_id = e.instance_id; principal = e.principal; op = e.op }

-- the arm that `System` and `External` share
gate : CapabilityMask → Effect unverified → Result DenyReason (Effect authorized)
unfolding match_op_cap
gate caps e =
    if not (contains caps system_cap) && not (match_op_cap e.op caps)
    then err capability_denied
    else ok (mark_authorized e)

-- the `match` on the principal
authorize_as :
    Principal → CapabilityMask → Effect unverified → Result DenyReason (Effect authorized)
unfolding gate
authorize_as unauthenticated caps e = err capability_denied
authorize_as (external x) caps e = gate caps e
authorize_as system caps e = gate caps e

unfoldable pub authorize :
    CapabilityMask → Effect unverified → Result DenyReason (Effect authorized)
unfolding authorize_as
authorize caps e = authorize_as e.principal caps e
