-- ===== src/Persist/Replay/Gates.antt =====
-- What a log must have for a replay to begin, and to succeed (persist/replay.rs).
use arkhe_kernel.Prelude.{
  ◌≡◌, ◌⊎◌, ◌∙◌, refl, true, false, not, Bool, Bool-cases, ◌&&◌, Result, Checked, done, ok, err,
  inl, inr, arith, Allows, Allows-any, bytes_eq, eq_of_bytes_eq, ◌==◌, if◌then◌else◌,
}
use arkhe_kernel.Runtime.Step.{StateHashing}
use arkhe_kernel.Runtime.Kernel.{Kernel}
use arkhe_kernel.Persist.Signature.{Crypto}
use arkhe_kernel.Persist.Wal.{Wal, WalHeader, WalError, chain_tip, magic_bytes}
use arkhe_kernel.Persist.Verify.{verify_chain}
use arkhe_kernel.Persist.Replay.{
  Replaying, ReplayError, Verdict, Outcome, start, replay_all, replay_records, replay_into,
  check_header_gates, check_manifest, check_tip, gated, of_log,
}

-- what the running kernel reads: its own major version, and the exact formats
pub record Compatible (h : WalHeader) : Type 0 where
  pub magic : h.magic ≡ magic_bytes
  pub semver : h.kernel_semver.0 ≡ 0
  pub abi : h.abi_version ≡ (0, 15)
  pub postcard : h.postcard_version ≡ 1
  pub blake3 : h.blake3_version ≡ 1

failed {ℓ} : {A : Type ℓ} (e : ReplayError) → ◌≡◌ {A = Verdict} (err e) (ok tt) → A
failed e h = absurd (cc)

-- one gate of a chain
if_err :
    (b : Bool) (e : ReplayError) (rest : Verdict)
    → (if not b then err e else rest) ≡ ok tt
    → (b ≡ true) × (rest ≡ ok tt)
if_err true e rest h = (refl, h)
if_err false e rest h = failed e h

check_header_gates-Compatible : (h : WalHeader) → check_header_gates h ≡ ok tt → Compatible h
unfolding check_header_gates
check_header_gates-Compatible h ok_all =
    let a = if_err (bytes_eq h.magic magic_bytes) _ _ ok_all in
    let b = if_err (h.kernel_semver.0 == 0) _ _ a.1 in
    let c = if_err (h.abi_version.0 == 0 && h.abi_version.1 == 15) _ _ b.1 in
    let d = if_err (h.postcard_version == 1) _ _ c.1 in
    let e = if_err (h.blake3_version == 1) _ _ d.1 in
    record {
      magic = eq_of_bytes_eq h.magic magic_bytes a.0;
      semver = ground arith;
      abi = ground arith;
      postcard = ground arith;
      blake3 = ground arith;
    }

Compatible-check_header_gates : (h : WalHeader) → Compatible h → check_header_gates h ≡ ok tt
unfolding check_header_gates
Compatible-check_header_gates h c = rw (c.magic, c.semver, c.abi, c.postcard, c.blake3) refl

abbrev pub Admissible : Crypto → Kernel → Wal → Type 0
Admissible c k w =
    Compatible w.header
    × (w.header.manifest_digest ≡ k.manifest_digest)
    × (verify_chain c w w.header.world_id ≡ ok tt)

-- what a report says
abbrev pub Accepted : Crypto → Kernel → Wal → Outcome → Type 0
Accepted c k w (ok report, l) = Admissible c k w × (report.final_chain_tip ≡ chain_tip w)
Accepted c k w (err e, l) = Unit

manifest-same :
    (k : Kernel) (header : WalHeader)
    → check_manifest k header ≡ ok tt
    → header.manifest_digest ≡ k.manifest_digest
unfolding check_manifest
manifest-same k header h =
    eq_of_bytes_eq header.manifest_digest k.manifest_digest
      (if_err (bytes_eq header.manifest_digest k.manifest_digest) _ _ h).0

of_log-ok : (r : Result {0, 0} WalError (Unit {0})) → of_log r ≡ ok tt → r ≡ ok tt
of_log-ok (ok u) h = refl
of_log-ok (err e) h = failed _ h

-- a gate stands open, or ends the replay with the kernel as it was
gated-cases :
    (k : Kernel) (v : Verdict) (rest : Checked Outcome)
    → ((v ≡ ok tt) × (gated k v rest ≡ rest))
      ⊎ ((e : ReplayError) × (gated k v rest ≡ done (err e, k)))
gated-cases k (ok u) rest = inl (refl, refl)
gated-cases k (err e) rest = inr (e, refl)

module _ (c : Crypto) (h : StateHashing) (k : Kernel) (w : Wal) where
  -- the three gates in turn
  gates-cases :
      (Admissible c k w × (replay_into c h k w ≡ replay_records c h k w))
      ⊎ ((e : ReplayError) × (replay_into c h k w ≡ done (err e, k)))
  unfolding replay_into
  gates-cases =
      let chain = gated k (of_log (verify_chain c w w.header.world_id)) (replay_records c h k w) in
      let rest = gated k (check_manifest k w.header) chain in
      elim (gated-cases k (check_header_gates w.header) rest) [
        | inr first ↦ inr first
        | inl (a, past) ↦ elim (gated-cases k (check_manifest k w.header) chain) [
          | inr (e, second) ↦ inr (e, past ∙ second)
          | inl (b, past') ↦
              elim (gated-cases k (of_log (verify_chain c w w.header.world_id))
                (replay_records c h k w)) [
                  | inr (e, third) ↦ inr (e, past ∙ past' ∙ third)
                  | inl (v, past'') ↦ inl (
                    (
                      check_header_gates-Compatible w.header a,
                      manifest-same k w.header b,
                      of_log-ok _ v,
                    ),
                    past ∙ past' ∙ past'',
                  )
                ]
        ]
      ]

  tip_checked : (p : Verdict × Replaying) → Admissible c k w → Accepted c k w (check_tip w p)
  unfolding check_tip
  tip_checked (err e, s) a = tt
  tip_checked (ok u, s) a = elim (Bool-cases (bytes_eq s.writer.prev_hash (chain_tip w))) [
    | inl same ↦ rw same (a, eq_of_bytes_eq s.writer.prev_hash (chain_tip w) same)
    | inr other ↦ rw other tt
  ]

  -- `replay_into` reports a success only if the log is of a compatible version and of the manifest of
  -- the kernel, its chain verifies under the world that its header names, and the tip in the report
  -- is the tip of the log. If one of the first three fails, it ends with an error, and the kernel is
  -- as it was.
  pub replay_into-Accepted :
      Allows (Accepted c k w) (replay_into c h k w)
      × (¬ Admissible c k w → (e : ReplayError) × (replay_into c h k w ≡ done (err e, k)))
  unfolding replay_records
  replay_into-Accepted = elim gates-cases [
    | inl (a, past) ↦ (
      rw past (
          Allows-any (Accepted c k w) (replay_all c h w.records (start c k w.header)) _
            (λ p. tip_checked p a)),
      λ no_way. absurd (no_way a),
    )
    | inr (e, stopped) ↦ (rw stopped tt, λ no_way. (e, stopped))
  ]
