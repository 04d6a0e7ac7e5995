-- ===== src/Runtime/Gate/Loop.antt =====
-- The loop over the ops of an action (runtime/kernel.rs): its panics, its rollback mark and its counts.
use arkhe_kernel.Prelude.{
  ℕ, ◌≡◌, Bool, true, false, not, ◌||◌, List, [], ◌∷◌, Returns, Returns->>=, Returns-imp, some, ok,
  err, Bool-cases, Result-cases, inl, inr, arith, sat_add64, u32_max, ◌+◌, ◌≤◌, length, suc, refl,
  tally-append,
}
use arkhe_kernel.Abi.{InstanceId, Principal, Tick, Bytes, new_id}
use arkhe_kernel.Abi.Caps.{CapabilityMask}
use arkhe_kernel.State.Op.{Op}
use arkhe_kernel.State.Authz.{Effect, authorized, authorize}
use arkhe_kernel.Runtime.Event.{domain_event_emitted, effect_failed}
use arkhe_kernel.Runtime.Stage.{StepStage}
use arkhe_kernel.Runtime.Gate.Tallies.{is_failure, failures}
use arkhe_kernel.Runtime.Dispatch.{dispatch, dispatch_op}
use arkhe_kernel.Runtime.Gate.{
  GateContext, GateState, dispatch_gated, gate_authorized, gate_op, gate_ops, over_budget,
  over_entities, over_scheduled, deny,
}

pub new_id_next : (n : ℕ) → new_id (sat_add64 n 1) ≡ some (sat_add64 n 1)
new_id_next n = ground arith

-- an op that is dispatched is not reported as failed
dispatch_op-failures :
    (op : Op) (i : InstanceId) (p : Principal) (s : StepStage) (now : Tick) (next : ℕ)
    (caps : CapabilityMask)
    → Returns (λ r. failures r.0.events ≡ failures s.events) (dispatch_op op i p s now next caps)
unfolding dispatch_op
dispatch_op-failures (Op.spawn_entity id owner) i p s now next caps = refl
dispatch_op-failures (Op.despawn_entity id) i p s now next caps = refl
dispatch_op-failures (Op.set_component entity tc bytes size) i p s now next caps = refl
dispatch_op-failures (Op.remove_component entity tc size) i p s now next caps = refl
dispatch_op-failures (Op.emit_event actor tc bytes) i p s now next caps =
    omega (arith, tally-append is_failure s.events (domain_event_emitted i actor tc bytes ∷ []))
dispatch_op-failures (Op.schedule_action at actor tc bytes) i p s now next caps =
    rw (new_id_next next) refl
dispatch_op-failures (Op.send_signal target route payload) i p s now next caps = refl

-- whether an op passes the authorisation of the loop
unfoldable pub is_authorized : GateContext → Op → Bool
is_authorized c op =
    elim (authorize c.eff (record { instance_id = c.inst_id; principal = c.principal; op = op })) [
      | ok e ↦ true
      | err reason ↦ false
    ]

-- whether one of the ops does not
unfoldable pub some_unauthorized : GateContext → List Op → Bool
some_unauthorized c [] = false
some_unauthorized c (op ∷ ops) = not (is_authorized c op) || some_unauthorized c ops

-- how `g` goes on to `h` over `n` ops, one of which is not authorised if `bad`
pub record Gated (g : GateState) (bad : Bool) (n : ℕ) (h : GateState) : Type 0 where
  pub any_denied : h.any_denied ≡ (g.any_denied || bad)
  pub counted : g.applied + g.denied + n ≤ u32_max → h.applied + h.denied ≡ g.applied + g.denied + n
  pub reported :
      bad ≡ false
      → g.applied + g.denied + n ≤ u32_max
      → h.denied + failures g.stage.events ≡ g.denied + failures h.stage.events

deny-Gated : (c : GateContext) (g : GateState) (reason : Bytes) → Gated g false 1 (deny c g reason)
unfolding deny
deny-Gated c g reason = record {
  any_denied = ground arith;
  counted = λ h. ground arith;
  reported = λ good h.
      omega (arith, tally-append is_failure g.stage.events (effect_failed c.inst_id reason ∷ []));
}

dispatch_gated-Gated :
    (c : GateContext) (g : GateState) (e : Effect authorized)
    → Returns (Gated g false 1) (dispatch_gated c g e)
unfolding dispatch_gated dispatch
dispatch_gated-Gated c g e =
    Returns->>= (λ r. failures r.0.events ≡ failures g.stage.events) (Gated g false 1) _ _
      (dispatch_op-failures e.op e.instance_id e.principal g.stage c.now _ c.eff)
      (λ r h. record {
        any_denied = ground arith;
        counted = λ b. ground arith;
        reported = λ good b. omega (arith, h);
      })

gate_authorized-Gated :
    (c : GateContext) (g : GateState) (e : Effect authorized)
    → Returns (Gated g false 1) (gate_authorized c g e)
unfolding gate_authorized
gate_authorized-Gated c g e = elim (Bool-cases (over_budget c.inst g.stage e.op)) [
  | inl over ↦ rw over (deny-Gated c g _)
  | inr fits ↦ elim (Bool-cases (over_entities c.inst g.stage e.op)) [
    | inl over ↦ rw (fits, over) (deny-Gated c g _)
    | inr few ↦ elim (Bool-cases (over_scheduled c.inst g.stage e.op)) [
      | inl over ↦ rw (fits, few, over) (deny-Gated c g _)
      | inr short ↦ rw (fits, few, short) (dispatch_gated-Gated c g e)
    ]
  ]
]

gate_op-Gated :
    (c : GateContext) (g : GateState) (op : Op)
    → Returns (Gated g (not (is_authorized c op)) 1) (gate_op c g op)
unfolding gate_op is_authorized
gate_op-Gated c g op =
    elim (Result-cases
      (authorize c.eff (record { instance_id = c.inst_id; principal = c.principal; op = op }))) [
        | inl (e, h) ↦ rw (h, gate_op, is_authorized) (gate_authorized-Gated c g e)
        | inr (reason, h) ↦
            rw (h, gate_op, is_authorized)
              (record {
                any_denied = ground arith;
                counted = λ b. ground arith;
                reported = λ good b. absurd (cc good);
              })
      ]

no_part : (a b : Bool) → (a || b) ≡ false → (a ≡ false) × (b ≡ false)
no_part false b e = (refl, e)
no_part true b e = absurd (cc e)

Gated-trans :
    (g h k : GateState) (a b : Bool) (n : ℕ)
    → Gated g a 1 h
    → Gated h b n k
    → Gated g (a || b) (suc n) k
Gated-trans g h k a b n p q = record {
  any_denied = ground (arith, p.any_denied, q.any_denied);
  counted = λ f. omega (arith, p.counted, q.counted);
  reported = λ good f.
      let both = no_part a b good in
      let first = p.reported both.0 (omega arith) in
      let rest = q.reported both.1 (omega (arith, p.counted)) in omega (arith, first, rest);
}

-- The loop over the ops of an action does not panic. Afterwards the rollback mark is set exactly if
-- it was set before or an op is not authorised, and, as long as the counts fit a `u32`, every op
-- has been counted once, as applied or as denied. If every op is authorised, as many more are
-- counted as denied as there are more `EffectFailed` among the staged events.
pub gate_ops-Gated :
    (c : GateContext) (ops : List Op) (g : GateState)
    → Returns (Gated g (some_unauthorized c ops) (length ops)) (gate_ops c ops g)
unfolding gate_ops some_unauthorized
gate_ops-Gated c [] g = record {
  any_denied = ground arith;
  counted = λ h. omega arith;
  reported = λ good h. refl;
}
gate_ops-Gated c (op ∷ ops) g =
    Returns->>= (Gated g (not (is_authorized c op)) 1)
      (Gated g (some_unauthorized c (op ∷ ops)) (length (op ∷ ops))) (gate_op c g op)
      (gate_ops c ops) (gate_op-Gated c g op)
      (λ h p.
        Returns-imp (Gated h (some_unauthorized c ops) (length ops)) _ (gate_ops c ops h)
          (gate_ops-Gated c ops h) (λ k q. Gated-trans g h k _ _ _ p q))
