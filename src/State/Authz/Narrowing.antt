-- ===== src/State/Authz/Narrowing.antt =====
-- The authority of an action against what it is granted, and what an op needs (state/authz.rs).
use arkhe_kernel.Prelude.{◌≡◌, ◌≢◌, true, false, not, ◌&&◌, ok, arith}
use arkhe_kernel.Abi.{Principal, unauthenticated, external, system}
use arkhe_kernel.Abi.Caps.{CapabilityMask, contains, contains-and, contains-empty, system_cap}
use arkhe_kernel.State.Op.{Op, spawn_entity, schedule_action, send_signal}
use arkhe_kernel.State.Authz.{
  unverified, authorized, Effect, effective_caps, authorize, authorize_as, gate, match_op_cap,
}

-- Whatever the principal, a non-empty set of flags that an action holds is granted by the
-- instance's configuration and by the inherited ceiling, and the principal is authenticated.
pub effective_caps-contains :
    (default_caps ceiling flags : CapabilityMask) (p : Principal)
    → flags ≢ 0
    → contains (effective_caps default_caps p ceiling) flags ≡ true
    → (contains default_caps flags ≡ true) × (contains ceiling flags ≡ true) × (p ≢ unauthenticated)
unfolding effective_caps
effective_caps-contains d c flags unauthenticated ne h = absurd (ne (contains-empty flags h))
effective_caps-contains d c flags (external x) ne h =
    ((contains-and d c flags h).0, (contains-and d c flags h).1, λ e. cc)
effective_caps-contains d c flags system ne h =
    ((contains-and d c flags h).0, (contains-and d c flags h).1, λ e. cc)

-- what the op of an effect needs
abbrev pub Needs : Op → CapabilityMask → Type 0
Needs (schedule_action at actor tc bytes) caps = contains caps system_cap ≡ true
Needs (send_signal target route payload) caps = contains caps system_cap ≡ true
Needs _ caps = Unit {0}

passes-Needs :
    (op : Op) (caps : CapabilityMask)
    → (not (contains caps system_cap) && not (match_op_cap op caps)) ≡ false
    → Needs op caps
unfolding match_op_cap
passes-Needs (schedule_action at actor tc bytes) caps h = ground arith
passes-Needs (send_signal target route payload) caps h = ground arith
passes-Needs (spawn_entity i o) caps h = tt
passes-Needs _ caps h = tt

gate_sound :
    (caps : CapabilityMask) (e : Effect unverified) (a : Effect authorized)
    → gate caps e ≡ ok a
    → Needs e.op caps
      × (a.instance_id ≡ e.instance_id)
      × (a.principal ≡ e.principal)
      × (a.op ≡ e.op)
unfolding gate
gate_sound caps e a h =
    (passes-Needs e.op caps (ground arith), ground arith, ground arith, ground arith)

authorize_as_sound :
    (p : Principal) (caps : CapabilityMask) (e : Effect unverified) (a : Effect authorized)
    → authorize_as p caps e ≡ ok a
    → (p ≢ unauthenticated) × (gate caps e ≡ ok a)
unfolding authorize_as
authorize_as_sound unauthenticated caps e a h = absurd (cc)
authorize_as_sound (external x) caps e a h = (λ q. cc, h)
authorize_as_sound system caps e a h = (λ q. cc, h)

-- If an effect is authorised, its principal is authenticated, the capabilities hold what its op needs
-- (`SYSTEM` to schedule an action or to send a signal), and the authorised effect has the instance,
-- the principal and the op of the one that was asked for.
pub authorize_sound :
    (caps : CapabilityMask) (e : Effect unverified) (a : Effect authorized)
    → authorize caps e ≡ ok a
    → (e.principal ≢ unauthenticated)
      × Needs e.op caps
      × (a.instance_id ≡ e.instance_id)
      × (a.principal ≡ e.principal)
      × (a.op ≡ e.op)
unfolding authorize
authorize_sound caps e a h =
    let passed = authorize_as_sound e.principal caps e a h in
    let (needs, i, p, op) = gate_sound caps e a passed.1 in (passed.0, needs, i, p, op)
