-- ===== src/Persist/Verify/Integrity.antt =====
-- What an accepted log says (persist/wal.rs): the chain of its records, and its tip.
use arkhe_kernel.Prelude.{
  ℕ, suc, ◌≡◌, ◌≢◌, ◌⊎◌, subst, refl, sym, ap, ap₂, ◌∙◌, true, Bool-cases, Option, Option-cases,
  some, List, [], ◌∷◌, ◌++◌, inl, inr, arith, ok, Result-cases, bytes_eq, eq_of_bytes_eq,
  bytes_eq_self, length,
}
use arkhe_kernel.Abi.{Bytes}
use arkhe_kernel.Persist.Record.{Hash, zero_hash, WalRecord}
use arkhe_kernel.Persist.Signature.{Crypto, VerifierClass, from_header_bytes}
use arkhe_kernel.Persist.Wal.{Wal, build_chain_key, chain_hash, chain_tip, last_hash}
use arkhe_kernel.Persist.Verify.{check_record, check_records, verify_chain}

++-injective :
    (xs ys us vs : Bytes) → length xs ≡ length ys → xs ++ us ≡ ys ++ vs → (xs ≡ ys) × (us ≡ vs)
++-injective [] [] us vs n e = (refl, e)
++-injective [] (y ∷ ys) us vs n e = ground arith
++-injective (x ∷ xs) [] us vs n e = ground arith
++-injective (x ∷ xs) (y ∷ ys) us vs n e = ground (arith, ++-injective xs ys us vs)

-- two messages with one hash under the key
pub record Collision (c : Crypto) (key : Hash) : Type 0 where
  pub one : Bytes
  pub other : Bytes
  pub differ : one ≢ other
  pub collide : c.keyed_hash key one ≡ c.keyed_hash key other

-- A BLAKE3 hash has 32 bytes.
abbrev pub HashSize : Crypto → Type 0
HashSize c = (key : Hash) (m : Bytes) → length (c.keyed_hash key m) ≡ 32

-- equal hashes come from equal messages, or are a collision
same_or_Collision :
    (c : Crypto) (key : Hash) (m n : Bytes)
    → c.keyed_hash key m ≡ c.keyed_hash key n
    → (m ≡ n) ⊎ Collision c key
same_or_Collision c key m n e = elim (Bool-cases (bytes_eq m n)) [
  | inl same ↦ inl (eq_of_bytes_eq m n same)
  | inr differ ↦ inr (record {
    one = m;
    other = n;
    differ = λ s. cc (subst (λ x. bytes_eq m x ≡ true) s (bytes_eq_self m), differ);
    collide = e;
  })
]

module _ (c : Crypto) where
  -- the record holds the hash of its own body behind `prev`
  pub record HashedBy (key prev : Hash) (r : WalRecord) : Type 0 where
    pub body : Bytes
    pub encoded : c.encode_body r.content prev ≡ some body
    pub linked : r.prev_chain_hash ≡ prev
    pub hashed : r.this_chain_hash ≡ chain_hash c key prev body

  unfoldable pub HashChain : Hash → Hash → List WalRecord → Type 0
  HashChain key prev [] = Unit
  HashChain key prev (r ∷ rs) = HashedBy key prev r × HashChain key r.this_chain_hash rs

  -- the hash that an accepted record passes on
  check_record-HashedBy :
      (key : Hash) (v : VerifierClass) (i : ℕ) (prev h : Hash) (r : WalRecord)
      → check_record c key v i prev r ≡ ok h
      → HashedBy key prev r × (r.this_chain_hash ≡ h)
  unfolding check_record
  check_record-HashedBy key v i prev h r e = elim (Option-cases (c.encode_body r.content prev)) [
    | inl failed ↦ ground arith
    | inr (body, done) ↦ (
      record {
        body = body;
        encoded = done;
        linked = ground (arith, eq_of_bytes_eq r.prev_chain_hash prev);
        hashed = ground (arith, eq_of_bytes_eq (chain_hash c key prev body) r.this_chain_hash);
      },
      ground (arith, eq_of_bytes_eq (chain_hash c key prev body) r.this_chain_hash),
    )
  ]

  check_records-HashChain :
      (key : Hash) (v : VerifierClass) (rs : List WalRecord) (i : ℕ) (prev : Hash)
      → check_records c key v i prev rs ≡ ok tt
      → HashChain key prev rs
  unfolding check_records HashChain
  check_records-HashChain key v [] i prev e = tt
  check_records-HashChain key v (r ∷ rs) i prev e =
      elim (Result-cases (check_record c key v i prev r)) [
        | inl (h, accepted) ↦
            let hashed = check_record-HashedBy key v i prev h r accepted in
            (hashed.0, check_records-HashChain key v rs (suc i) r.this_chain_hash (ground arith))
        | inr (er, refused) ↦ ground arith
      ]

  -- An accepted log is a hash chain from the zero hash under the key of the world.
  pub verify_chain-HashChain :
      (w : Wal) (world_id : Hash)
      → verify_chain c w world_id ≡ ok tt
      → HashChain (build_chain_key c world_id) zero_hash w.records
  unfolding verify_chain
  verify_chain-HashChain w world_id e =
      elim (Result-cases (from_header_bytes c w.header.verifying_key w.header.verifying_key_pqc)) [
        | inl (v, opens) ↦
            check_records-HashChain (build_chain_key c world_id) v w.records 0 zero_hash
              (ground arith)
        | inr (er, fails) ↦ ground arith
      ]

  -- the encoded bodies that the chain seals, in order
  unfoldable pub bodies : Hash → List WalRecord → List (Option Bytes)
  bodies prev [] = []
  bodies prev (r ∷ rs) = c.encode_body r.content prev ∷ bodies r.this_chain_hash rs

  module _ (size : HashSize c) (key : Hash) where
    HashedBy-injective :
        (prev prev' : Hash) (r r' : WalRecord)
        → length prev ≡ length prev'
        → HashedBy key prev r
        → HashedBy key prev' r'
        → r.this_chain_hash ≡ r'.this_chain_hash
        → ((prev ≡ prev') × (c.encode_body r.content prev ≡ c.encode_body r'.content prev'))
          ⊎ Collision c key
    HashedBy-injective prev prev' r r' n h h' e =
        elim (same_or_Collision c key (prev ++ h.body) (prev' ++ h'.body)
          (sym h.hashed ∙ e ∙ h'.hashed)) [
            | inl same ↦
                (let parts = ++-injective prev prev' h.body h'.body n same in
                  inl (parts.0, cc (h.encoded, h'.encoded, parts.1)))
            | inr found ↦ inr found
          ]

    -- Two chains of the same length that end in the same hash begin with the same hash and seal the
    -- same bodies, or hold a collision.
    HashChain-injective :
        (rs rs' : List WalRecord) (prev prev' : Hash)
        → length prev ≡ 32
        → length prev' ≡ 32
        → length rs ≡ length rs'
        → HashChain key prev rs
        → HashChain key prev' rs'
        → last_hash prev rs ≡ last_hash prev' rs'
        → ((prev ≡ prev') × (bodies prev rs ≡ bodies prev' rs')) ⊎ Collision c key
    unfolding HashChain bodies
    HashChain-injective [] [] prev prev' p p' n ch ch' e = inl (e, refl)
    HashChain-injective [] (r' ∷ rs') prev prev' p p' n ch ch' e = ground arith
    HashChain-injective (r ∷ rs) [] prev prev' p p' n ch ch' e = ground arith
    HashChain-injective (r ∷ rs) (r' ∷ rs') prev prev' p p' n (h, ch) (h', ch') e =
        elim (HashChain-injective rs rs' r.this_chain_hash r'.this_chain_hash
          (ap (λ x. length x) h.hashed ∙ size _ _) (ap (λ x. length x) h'.hashed ∙ size _ _)
          (omega arith) ch ch' e) [
            | inr found ↦ inr found
            | inl rest ↦ elim (HashedBy-injective prev prev' r r' (p ∙ sym p') h h' rest.0) [
              | inr found ↦ inr found
              | inl here ↦ inl (here.0, ap₂ (λ x xs. x ∷ xs) here.1 rest.1)
            ]
          ]

  -- Two logs that are accepted for one world, with as many records and the same chain tip, seal the
  -- same bodies in the same order, or a collision of the keyed hash is at hand. Hashes have 32
  -- bytes.
  pub verify_chain-tamper_evident :
      HashSize c
      → (v w : Wal) (world_id : Hash) → verify_chain c v world_id ≡ ok tt
      → verify_chain c w world_id ≡ ok tt
      → length v.records ≡ length w.records
      → chain_tip v ≡ chain_tip w
      → (bodies zero_hash v.records ≡ bodies zero_hash w.records)
        ⊎ Collision c (build_chain_key c world_id)
  unfolding chain_tip
  verify_chain-tamper_evident size v w world_id ev ew n tip =
      elim (HashChain-injective size (build_chain_key c world_id) v.records w.records zero_hash
        zero_hash refl refl n (verify_chain-HashChain v world_id ev)
        (verify_chain-HashChain w world_id ew) tip) [
          | inl same ↦ inl same.1
          | inr found ↦ inr found
        ]
