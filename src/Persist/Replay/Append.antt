-- ===== src/Persist/Replay/Append.antt =====
-- One record appended to the live log and to the log that a replay measures (persist/wal.rs,
-- persist/replay.rs).
use arkhe_kernel.Prelude.{
  ℕ, ◌≡◌, refl, some, List, [], ◌∷◌, ◌++◌, Checked, panic, done, ◌>>=◌, Result, ok, err, sat_add64,
}
use arkhe_kernel.Runtime.Step.{StateHashing}
use arkhe_kernel.Abi.{Bytes}
use arkhe_kernel.Persist.Record.{Hash, WalRecord, WalRecordContent}
use arkhe_kernel.Persist.Signature.{Crypto}
use arkhe_kernel.Persist.Wal.{
  WalWriter, WalError, chain_hash, signatures, seal, push_sealed, numbered,
}
use arkhe_kernel.Persist.Replay.{Replaying, Verdict, replay_record, replay_all, unless_failed}

module _ (c : Crypto) where
  -- What the log needs of `postcard::to_allocvec`: a record body has an encoding.
  abbrev pub Encodes : Type 0
  Encodes =
      (content : WalRecordContent) (prev : Hash)
      → (body : Bytes) × (c.encode_body content prev ≡ some body)

  -- two writers that would give a record the same number and the same hash
  pub record Synced (w v : WalWriter) : Type 0 where
    pub seq : w.next_seq ≡ v.next_seq
    pub tip : w.prev_hash ≡ v.prev_hash
    pub key : w.chain_key ≡ v.chain_key

  -- a writer with one record more
  abbrev pushed : WalWriter → WalRecordContent → Bytes → WalWriter
  pushed w content body = record w {
    records =
        w.records
        ++ record {
          content = content;
          prev_chain_hash = w.prev_hash;
          this_chain_hash = chain_hash c w.chain_key w.prev_hash body;
          signature = (signatures c w.sig_class body).0;
          signature_pqc = (signatures c w.sig_class body).1;
        }
          ∷ [];
    prev_hash = chain_hash c w.chain_key w.prev_hash body;
  }

  push_sealed-pushed :
      (w : WalWriter) (content : WalRecordContent) (body : Bytes)
      → c.encode_body content w.prev_hash ≡ some body
      → push_sealed c w content ≡ (ok tt, pushed w content body)
  unfolding push_sealed seal
  push_sealed-pushed w content body e = rw (e, push_sealed, seal) refl

  -- both methods that append: the content says which number it has
  abbrev pub append :
      WalWriter → (ℕ → WalRecordContent) → Result {0, 0} WalError (Unit {0}) × WalWriter
  append w content = push_sealed c (numbered c w) (content (sat_add64 w.next_seq 1))

  pub record Appended (w v : WalWriter) (content : ℕ → WalRecordContent) : Type 0 where
    pub live : WalWriter
    pub measured : WalWriter
    pub live_eq : append w content ≡ (ok tt, live)
    pub measured_eq : append v content ≡ (ok tt, measured)
    pub synced : Synced live measured
    pub last : WalRecord
    pub last_content : last.content ≡ content (sat_add64 w.next_seq 1)
    pub records : live.records ≡ w.records ++ last ∷ []
    pub header : live.header ≡ w.header

  pub append-Appended :
      Encodes
      → (w v : WalWriter) (content : ℕ → WalRecordContent) → Synced w v
      → Appended w v content
  append-Appended enc w v content s =
      let encoded = enc (content (sat_add64 w.next_seq 1)) w.prev_hash in
      record {
        live = pushed (numbered c w) (content (sat_add64 w.next_seq 1)) encoded.0;
        measured = pushed (numbered c v) (content (sat_add64 v.next_seq 1)) encoded.0;
        live_eq = push_sealed-pushed (numbered c w) _ encoded.0 encoded.1;
        measured_eq =
            push_sealed-pushed (numbered c v) (content (sat_add64 v.next_seq 1)) encoded.0
              (cc (s.seq, s.tip, encoded.1));
        synced = record { seq = cc (s.seq); tip = cc (s.key, s.tip); key = s.key };
        last = _;
        last_content = refl;
        records = refl;
        header = refl;
      }

  module _ (h : StateHashing) where
    after_first :
        (rs : List WalRecord) (r : WalRecord) (t u : Replaying)
        (first : Checked (Verdict × Replaying))
        → ((s : Replaying)
            → replay_all c h rs s ≡ done (ok tt, t)
            → replay_all c h (rs ++ r ∷ []) s ≡ done (ok tt, u))
        → first >>= unless_failed (replay_all c h rs) ≡ done (ok tt, t)
        → first >>= unless_failed (replay_all c h (rs ++ r ∷ [])) ≡ done (ok tt, u)
    after_first rs r t u panic rest before = absurd (cc)
    after_first rs r t u (done (err e, s)) rest before = absurd (cc)
    after_first rs r t u (done (ok x, s)) rest before = rest s before

    -- a log that is replayed, and one record more
    pub replay_all-snoc :
        (rs : List WalRecord) (r : WalRecord) (s t u : Replaying)
        → replay_record c h t r.content ≡ done (ok tt, u)
        → replay_all c h rs s ≡ done (ok tt, t)
        → replay_all c h (rs ++ r ∷ []) s ≡ done (ok tt, u)
    unfolding replay_all
    replay_all-snoc [] r s t u last before = let same : s ≡ t = cc in rw (same, last) refl
    replay_all-snoc (q ∷ rs) r s t u last before =
        after_first rs r t u (replay_record c h s q.content)
          (λ s'. replay_all-snoc rs r s' t u last) before
