-- ===== src/Persist/Wal/Sealed.antt =====
-- The chain that the writer of persist/wal.rs builds.
use arkhe_kernel.Prelude.{
  ℕ, ◌≡◌, refl, sym, Option, Option-cases, some, List, [], ◌∷◌, ◌++◌, inl, inr,
}
use arkhe_kernel.Abi.{EntityId, InstanceId, Principal, Tick, TypeCode, Bytes}
use arkhe_kernel.State.Scheduler.Key.{ScheduledActionId}
use arkhe_kernel.Persist.Record.{Hash, zero_hash, WalRecord, WalRecordContent, StepVerdict}
use arkhe_kernel.Persist.Signature.{
  Crypto, SignatureClass, verifying_key_bytes, verifying_key_pqc_bytes,
}
use arkhe_kernel.Persist.Wal.{
  WalWriter, last_hash, chain_hash, build_chain_key, signatures, seal, push_sealed, append_submit,
  append_step, numbered, with_signature,
}

module _ (c : Crypto) where
  -- one sealed record behind the hash `prev`
  pub record SealedBy (key : Hash) (class : SignatureClass) (prev : Hash) (r : WalRecord)
      : Type 0 where
    pub body : Bytes
    pub encoded : c.encode_body r.content prev ≡ some body
    pub linked : r.prev_chain_hash ≡ prev
    pub hashed : r.this_chain_hash ≡ chain_hash c key prev body
    pub signed : (r.signature, r.signature_pqc) ≡ signatures c class body

  unfoldable pub Chained : Hash → SignatureClass → Hash → List WalRecord → Type 0
  Chained key class prev [] = Unit
  Chained key class prev (r ∷ rs) =
      SealedBy key class prev r × Chained key class r.this_chain_hash rs

  Chained-snoc :
      (key : Hash) (class : SignatureClass) (prev : Hash) (rs : List WalRecord) (r : WalRecord)
      → Chained key class prev rs
      → SealedBy key class (last_hash prev rs) r
      → Chained key class prev (rs ++ r ∷ [])
  unfolding Chained
  Chained-snoc key class prev [] r ch s = (s, tt)
  Chained-snoc key class prev (q ∷ rs) r (sq, ch) s =
      (sq, Chained-snoc key class q.this_chain_hash rs r ch s)

  last_hash-snoc :
      (h : Hash) (rs : List WalRecord) (r : WalRecord)
      → last_hash h (rs ++ r ∷ []) ≡ r.this_chain_hash
  last_hash-snoc h [] r = refl
  last_hash-snoc h (q ∷ rs) r = last_hash-snoc q.this_chain_hash rs r

  -- a writer for the world, with the signatures of the class
  pub record IsSealed (world_id : Hash) (class : SignatureClass) (w : WalWriter) : Type 0 where
    pub same_world : w.header.world_id ≡ world_id
    pub same_class : w.sig_class ≡ class
    pub own_key : w.chain_key ≡ build_chain_key c world_id
    pub key : w.header.verifying_key ≡ verifying_key_bytes c class
    pub key_pqc : w.header.verifying_key_pqc ≡ verifying_key_pqc_bytes c class
    pub tip : w.prev_hash ≡ last_hash zero_hash w.records
    pub chained : Chained (build_chain_key c world_id) class zero_hash w.records

  with_signature-IsSealed :
      (world_id manifest_digest : Hash) (class : SignatureClass)
      → IsSealed world_id class (with_signature c world_id manifest_digest class)
  unfolding with_signature Chained
  with_signature-IsSealed world_id manifest_digest class = record {
    same_world = refl;
    same_class = refl;
    own_key = refl;
    key = refl;
    key_pqc = refl;
    tip = refl;
    chained = tt;
  }

  push_sealed-IsSealed :
      (world_id : Hash) (class : SignatureClass) (w : WalWriter) (content : WalRecordContent)
      → IsSealed world_id class w
      → IsSealed world_id class (push_sealed c w content).1
  unfolding push_sealed seal
  push_sealed-IsSealed world_id class w content s =
      elim (Option-cases (c.encode_body content w.prev_hash)) [
        | inl failed ↦ rw (failed, push_sealed, seal) s
        | inr (body, done) ↦
            rw (done, push_sealed, seal)
              (record {
                same_world = s.same_world;
                same_class = s.same_class;
                own_key = s.own_key;
                key = s.key;
                key_pqc = s.key_pqc;
                tip = sym (last_hash-snoc zero_hash w.records _);
                chained =
                    Chained-snoc (build_chain_key c world_id) class zero_hash w.records _ s.chained
                      (record {
                        body = body;
                        encoded = cc (done, s.tip);
                        linked = s.tip;
                        hashed = cc (s.own_key, s.tip);
                        signed = cc (s.same_class);
                      });
              })
      ]

  numbered-IsSealed :
      (world_id : Hash) (class : SignatureClass) (w : WalWriter)
      → IsSealed world_id class w
      → IsSealed world_id class (numbered c w)
  numbered-IsSealed world_id class w s = record {
    same_world = s.same_world;
    same_class = s.same_class;
    own_key = s.own_key;
    key = s.key;
    key_pqc = s.key_pqc;
    tip = s.tip;
    chained = s.chained;
  }

  -- the writers that a program gets: opened for a world and a class, and appended to
  pub data Written (world_id : Hash) (class : SignatureClass) : WalWriter → Type 0 where
    opened :
        (manifest_digest : Hash)
        → Written world_id class (with_signature c world_id manifest_digest class)
    submitted :
        {w : WalWriter} (inst : InstanceId) (principal : Principal) (actor : Option EntityId)
        (caps : ℕ) (at : Tick) (tc : TypeCode) (bytes : Bytes) (id : ScheduledActionId)
        → Written world_id class w
        → Written world_id class (append_submit c w inst principal actor caps at tc bytes id).1
    stepped :
        {w : WalWriter} (inst : InstanceId) (popped : ScheduledActionId) (now : Tick) (caps : ℕ)
        (verdict : StepVerdict) (digest : Hash)
        → Written world_id class w
        → Written world_id class (append_step c w inst popped now caps verdict digest).1

  pub Written-IsSealed :
      (world_id : Hash) (class : SignatureClass) (w : WalWriter)
      → Written world_id class w
      → IsSealed world_id class w
  unfolding append_submit append_step
  Written-IsSealed world_id class _ (opened m) = with_signature-IsSealed world_id m class
  Written-IsSealed world_id class _ (submitted {w} inst p actor caps at tc bytes id ws) =
      push_sealed-IsSealed world_id class _ _
        (numbered-IsSealed world_id class w (Written-IsSealed world_id class w ws))
  Written-IsSealed world_id class _ (stepped {w} inst popped now caps verdict digest ws) =
      push_sealed-IsSealed world_id class _ _
        (numbered-IsSealed world_id class w (Written-IsSealed world_id class w ws))
