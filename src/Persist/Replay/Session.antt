-- ===== src/Persist/Replay/Session.antt =====
-- A whole session of a kernel that keeps a log, and the replay of that log (persist/replay.rs). In
-- a session actions are submitted, steps are taken and observers are registered. The methods that
-- write no record (`create_instance`, `register_action`, `force_unload`) come before it.
use arkhe_kernel.Prelude.{
  Checked, ap, ◌≡◌, ◌∙◌, sym, refl, subst, some, done, ok, err, Result, Returns, Returns-value,
  bytes_eq_self,
}
use arkhe_kernel.Abi.{ArkheError, InstanceId, Tick}
use arkhe_kernel.Abi.Caps.{CapabilityMask}
use arkhe_kernel.State.Scheduler.Key.{ScheduledActionId}
use arkhe_kernel.Runtime.Event.{EventMask}
use arkhe_kernel.Runtime.Observer.{KernelObserver}
use arkhe_kernel.Runtime.Step.{StateHashing}
use arkhe_kernel.Runtime.Step.Safety.{AllSafe}
use arkhe_kernel.Runtime.Kernel
use arkhe_kernel.Runtime.Kernel.{Kernel, Submission}
use arkhe_kernel.Runtime.Drive
use arkhe_kernel.Runtime.Drive.{StepReport}
use arkhe_kernel.Runtime.Drive.Twins.{Twins}
use arkhe_kernel.Persist.Record.{Hash}
use arkhe_kernel.Persist.Signature.{Crypto, SignatureClass, IsSound}
use arkhe_kernel.Persist.Wal.{
  Wal, WalHeader, WalWriter, with_signature, rebuild_from_header, from_writer, chain_tip,
}
use arkhe_kernel.Persist.Wal.Sealed
use arkhe_kernel.Persist.Wal.Sealed.{Written-IsSealed}
use arkhe_kernel.Persist.Verify.{verify_chain}
use arkhe_kernel.Persist.Verify.Accepts.{CanSign, verify_chain-Written}
use arkhe_kernel.Persist.Replay.{
  Verdict, gated, of_log, Outcome, start, replay_all, replay_records, replay_into,
  check_header_gates, check_manifest, check_tip,
}
use arkhe_kernel.Persist.Replay.Append.{Encodes}
use arkhe_kernel.Persist.Replay.Live.{Tracked, submit-Tracked, step-Tracked}

pub data Session (h : StateHashing) (c : Crypto) (origin : Kernel) : Kernel → Type 0 where
  begin : Session h c origin origin
  observed :
      {k : Kernel} (obs : KernelObserver) (mask : EventMask)
      → Session h c origin k
      → Session h c origin (Kernel.register_observer_filtered k obs mask).1
  submitted :
      {k k' : Kernel} (id : InstanceId) (s : Submission) (r : Result ArkheError ScheduledActionId)
      → Session h c origin k
      → Kernel.submit c k id s ≡ done (r, k')
      → Session h c origin k'
  stepped :
      {k k' : Kernel} (now : Tick) (caps : CapabilityMask) (report : StepReport)
      → Session h c origin k
      → Drive.step h c k now caps ≡ done (report, k')
      → Session h c origin k'

-- The replay has succeeded: with the tip of the log, and the instances of the live kernel.
abbrev pub Reproduces : Kernel → WalWriter → Outcome → Type 0
Reproduces k w (ok report, l) = (report.final_chain_tip ≡ chain_tip (from_writer w)) × Twins k l
Reproduces k w (err e, l) = ⊥

gated-ok : (k : Kernel) (v : Verdict) (rest : Checked Outcome) → v ≡ ok tt → gated k v rest ≡ rest
gated-ok k v rest e = rw e refl

check_manifest-same :
    (k : Kernel) (header : WalHeader)
    → header.manifest_digest ≡ k.manifest_digest
    → check_manifest k header ≡ ok tt
unfolding check_manifest
check_manifest-same k header e = rw (e, bytes_eq_self k.manifest_digest) refl

-- a log that passes the gates
replay_into-passes :
    (h : StateHashing) (c : Crypto) (k : Kernel) (w : Wal)
    → check_header_gates w.header ≡ ok tt
    → check_manifest k w.header ≡ ok tt
    → verify_chain c w w.header.world_id ≡ ok tt
    → replay_into c h k w ≡ replay_records c h k w
unfolding replay_into
replay_into-passes h c k w a b v =
    gated-ok k (check_header_gates w.header) _ a
    ∙ gated-ok k (check_manifest k w.header) _ b
    ∙ gated-ok k (of_log (verify_chain c w w.header.world_id)) _ (ap of_log v)

module _ (h : StateHashing) (c : Crypto) (enc : Encodes c) (world manifest : Hash)
    (class : SignatureClass) (origin : Kernel) where
  abbrev first_header : WalHeader
  first_header = (with_signature c world manifest class).header

  abbrev InStep : Kernel → Type 0
  InStep k = Tracked c h enc origin first_header world class k

  begin-Tracked :
      (k : Kernel)
      → k.wal ≡ some (with_signature c world manifest class)
      → Twins k origin
      → AllSafe k.instances
      → InStep k
  unfolding with_signature replay_all start rebuild_from_header
  begin-Tracked k fresh twins safe = record {
    writer = with_signature c world manifest class;
    logged = fresh;
    written = Sealed.opened manifest;
    same_header = refl;
    state = start c origin first_header;
    replayed = refl;
    synced = record { seq = refl; tip = refl; key = refl };
    twins = twins;
    safe = safe;
  }

  observed-Tracked :
      (k : Kernel) (obs : KernelObserver) (mask : EventMask)
      → InStep k
      → InStep (Kernel.register_observer_filtered k obs mask).1
  unfolding Kernel.register_observer_filtered
  observed-Tracked k obs mask t = record {
    writer = t.writer;
    logged = t.logged;
    written = t.written;
    same_header = t.same_header;
    state = t.state;
    replayed = t.replayed;
    synced = t.synced;
    twins = record { instances = t.twins.instances; registry = t.twins.registry };
    safe = t.safe;
  }

  Session-Tracked : (first : Kernel) → InStep first → (k : Kernel) → Session h c first k → InStep k
  Session-Tracked first t _ begin = t
  Session-Tracked first t _ (observed {k} obs mask s) =
      observed-Tracked k obs mask (Session-Tracked first t k s)
  Session-Tracked first t _ (submitted {k} {k'} id sub r s e) =
      Returns-value (λ p. InStep p.1) (Kernel.submit c k id sub) (r, k')
        (submit-Tracked c h enc origin first_header world class k id sub
          (Session-Tracked first t k s))
        e
  Session-Tracked first t _ (stepped {k} {k'} now caps report s e) =
      Returns-value (λ p. InStep p.1) (Drive.step h c k now caps) (report, k')
        (step-Tracked c h enc origin first_header world class k now caps
          (Session-Tracked first t k s))
        e

  with_signature-manifest : first_header.manifest_digest ≡ manifest
  unfolding with_signature
  with_signature-manifest = refl

  check_header_gates-first : check_header_gates first_header ≡ ok tt
  unfolding check_header_gates with_signature
  check_header_gates-first = refl

  -- the replay itself, with no gate before it
  replay_records-Reproduces :
      (k : Kernel) (t : InStep k)
      → Returns (Reproduces k t.writer) (replay_records c h origin (from_writer t.writer))
  unfolding replay_records check_tip from_writer chain_tip
  replay_records-Reproduces k t =
      let sealed = Written-IsSealed c world class t.writer t.written in
      rw (t.same_header, t.replayed, replay_records, sym t.synced.tip, sealed.tip)
        (rw (bytes_eq_self (chain_tip (from_writer t.writer))) (refl, t.twins))

  -- the gates of `replay_into` on a log of this session
  replay_into-Reproduces :
      IsSound c
      → CanSign c
      → origin.manifest_digest ≡ manifest
      → (k : Kernel) (t : InStep k)
      → Returns (Reproduces k t.writer) (replay_into c h origin (from_writer t.writer))
  unfolding from_writer
  replay_into-Reproduces sound can declared k t =
      let sealed = Written-IsSealed c world class t.writer t.written in
      subst (Returns (Reproduces k t.writer))
        (sym (
          replay_into-passes h c origin (from_writer t.writer)
            (ap check_header_gates t.same_header ∙ check_header_gates-first)
            (check_manifest-same origin t.writer.header
              (ap (λ x. x.manifest_digest) t.same_header ∙ with_signature-manifest ∙ sym declared))
            (subst (λ x. verify_chain c (from_writer t.writer) x ≡ ok tt) (sym sealed.same_world)
              (verify_chain-Written c sound can world class t.writer t.written))))
        (replay_records-Reproduces k t)

  -- The log of a session replays. A kernel keeps the log that was opened for `world` and `manifest`
  -- in any signature class, and its instances are safe; then actions are submitted, steps are taken
  -- and observers are registered, in any order. On a kernel with the instances and the actions that
  -- the first had before that, and with the same manifest digest, `replay_into` accepts the log: it
  -- does not panic, no tripwire fires, the measured chain tip is the tip of the log, and every
  -- instance is then the same as in the live kernel. The algorithms are sound, the ML-DSA signer
  -- does not fail, and record bodies have an encoding.
  pub replay_into-Session :
      IsSound c
      → CanSign c
      → origin.manifest_digest ≡ manifest
      → (first : Kernel) → first.wal ≡ some (with_signature c world manifest class)
      → Twins first origin
      → AllSafe first.instances
      → (k : Kernel) (w : WalWriter) → Session h c first k
      → k.wal ≡ some w
      → Returns (Reproduces k w) (replay_into c h origin (from_writer w))
  replay_into-Session sound can declared first fresh twins safe k w session e =
      let t = Session-Tracked first (begin-Tracked first fresh twins safe) k session in
      let same : t.writer ≡ w = cc (t.logged, e) in
      subst (λ v. Returns (Reproduces k v) (replay_into c h origin (from_writer v))) same
        (replay_into-Reproduces sound can declared k t)
