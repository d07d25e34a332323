-- ===== src/Signers/Derivation/Bip32/CkdPriv.antt =====
-- `bip32_derive` (crates/native/src/signers/evm.rs), against the derivation of private keys that
-- BIP-32 describes.
use morpheum_signing.Common.{
  ℕ, ◌≡◌, refl, sym, ◌∙◌, false, inl, inr, String, Option, none, some, List, [], ◌∷◌, ◌++◌, Bytes,
  take, drop, as_bytes, to_be_bytes, has_top_bit, Bool-cases, Option-cases, Result, ok, err, ◌>>=◌,
  if◌then◌else◌, arith,
}
use mathlib.Core.List.{append-nil}
use mathlib.Core.Option
use morpheum_signing.Signers.{Curves}
use morpheum_signing.Signers.Derivation.{Hmac, IsHmac, Node, concat, digest_lem}
use morpheum_signing.Signers.Derivation.Bip32.{
  Scalars, parent_chunks, tweaked, child, walk, bip32_derive,
}

-- What k256 documents: a scalar is read back from its 32 bytes, only its bytes are read as it, and
-- a scalar that is not zero is a signing key, of which `point` is the compressed public key.
pub record IsField (c : Curves) (k : Scalars) (point : k.Scalar → Bytes) : Type 0 where
  pub from-to : (s : k.Scalar) → k.from_repr (k.to_repr s) ≡ some s
  pub to-from : (b : Bytes) (s : k.Scalar) → k.from_repr b ≡ some s → k.to_repr s ≡ b
  pub signing_key : k.Scalar → c.SecpSigningKey
  pub nonzero :
      (s : k.Scalar) → k.is_zero s ≡ false → c.secp_from_slice (k.to_repr s) ≡ ok (signing_key s)
  pub public : (s : k.Scalar) → c.secp_verifying_key (signing_key s) ≡ point s

-- BIP-32: extended private keys are a scalar and a chain code. CKDpriv takes the digest of
-- 0x00 || ser256(k) || ser32(i) for a hardened index and of serP(point(k)) || ser32(i) for any
-- other; the left half is added to the scalar, the right half is the chain code. It fails if the
-- left half is no scalar or the sum is zero.
module _ (k : Scalars) (point : k.Scalar → Bytes) (hmac_sha512 : Bytes → Bytes → Bytes) where
  pub record ExtendedKey : Type 0 where
    pub scalar : k.Scalar
    pub chain : Bytes

  abbrev pub child_digest : ExtendedKey → ℕ → Bytes
  child_digest x index =
      hmac_sha512 x.chain (
        (if has_top_bit index then 0 ∷ k.to_repr x.scalar else point x.scalar) ++ to_be_bytes index)

  abbrev pub add_tweak : k.Scalar → Bytes → k.Scalar → Option ExtendedKey
  add_tweak parent chain tweak =
      if k.is_zero (k.add parent tweak)
      then none
      else some (record { scalar = k.add parent tweak; chain = chain })

  abbrev pub ckd_priv : ExtendedKey → ℕ → Option ExtendedKey
  ckd_priv x index =
      let i = child_digest x index in
      elim (k.from_repr (take 32 i)) [
        | none ↦ none
        | some tweak ↦ add_tweak x.scalar (drop 32 i) tweak
      ]

  abbrev pub descend : ExtendedKey → List ℕ → Option ExtendedKey
  descend x [] = some x
  descend x (index ∷ path) = elim (ckd_priv x index) [ none ↦ none | some y ↦ descend y path ]

  abbrev pub as_node : ExtendedKey → Node
  as_node x = record { key = k.to_repr x.scalar; chain_code = x.chain }

-- the value, without the text of an error
abbrev pub value {ℓ} : {A : Type ℓ} → Result String A → Option A
value (ok a) = some a
value (err e) = none

value->>= :
    {A B : Type 0} (m : Result String A) (f : A → Result String B)
    → value (m >>= f) ≡ elim (value m) [ none ↦ none | some a ↦ value (f a) ]
value->>= (ok a) f = refl
value->>= (err e) f = refl

module _ (k : Scalars) (point : k.Scalar → Bytes) (hmac_sha512 : Bytes → Bytes → Bytes) where
  ckd_priv-nonzero :
      (x y : ExtendedKey k point hmac_sha512) (index : ℕ)
      → ckd_priv k point hmac_sha512 x index ≡ some y
      → k.is_zero y.scalar ≡ false
  ckd_priv-nonzero x y index e =
      elim (Option-cases (k.from_repr (take 32 (child_digest k point hmac_sha512 x index)))) [
        | inl a ↦ absurd (ground (arith, a, e))
        | inr (t, a) ↦ elim (Bool-cases (k.is_zero (k.add x.scalar t))) [
          | inl z ↦ absurd (ground (arith, a, e, z))
          | inr z ↦ ground (arith, a, e, z)
        ]
      ]

module _ (h : Hmac) (c : Curves) (k : Scalars) (point : k.Scalar → Bytes)
    (hmac_sha512 : Bytes → Bytes → Bytes) (law : IsHmac h hmac_sha512)
    (field : IsField c k point) where
  parent_chunks_lem :
      (x : ExtendedKey k point hmac_sha512) (index : ℕ)
      → k.is_zero x.scalar ≡ false
      → (chunks : List Bytes) × (parent_chunks c (as_node k point hmac_sha512 x) index ≡ ok chunks)
        × (concat (chunks ++ (to_be_bytes index ∷ []))
            ≡ (if has_top_bit index then 0 ∷ k.to_repr x.scalar else point x.scalar)
              ++ to_be_bytes index)
  unfolding parent_chunks
  parent_chunks_lem x index nz = elim (Bool-cases (has_top_bit index)) [
    | inl set ↦ (
      (0 ∷ []) ∷ k.to_repr x.scalar ∷ [],
      rw set refl,
      rw set (rw (append-nil (to_be_bytes index)) refl),
    )
    | inr unset ↦ (
      c.secp_verifying_key (field.signing_key x.scalar) ∷ [],
      rw unset (rw (field.nonzero x.scalar nz) refl),
      rw unset (rw (append-nil (to_be_bytes index)) (rw (field.public x.scalar) refl)),
    )
  ]

  -- a step of each, on a digest
  tweaked_lem :
      (x : ExtendedKey k point hmac_sha512) (result : Bytes)
      → value (tweaked k (as_node k point hmac_sha512 x) result)
        ≡ Option.map (as_node k point hmac_sha512) (elim (k.from_repr (take 32 result)) [
          | none ↦ none
          | some tweak ↦ add_tweak k point hmac_sha512 x.scalar (drop 32 result) tweak
        ])
  unfolding tweaked
  tweaked_lem x result = elim (Option-cases (k.from_repr (take 32 result))) [
    | inl e ↦ rw (field.from-to x.scalar) (rw e refl)
    | inr (t, e) ↦ rw (field.from-to x.scalar) (
        rw e (elim (Bool-cases (k.is_zero (k.add x.scalar t))) [
          | inl z ↦ rw z refl
          | inr z ↦ rw z refl
        ]))
  ]

  child_lem :
      (x : ExtendedKey k point hmac_sha512) (index : ℕ)
      → k.is_zero x.scalar ≡ false
      → value (child h c k (as_node k point hmac_sha512 x) index)
        ≡ Option.map (as_node k point hmac_sha512) (ckd_priv k point hmac_sha512 x index)
  unfolding child
  child_lem x index nz =
      let (chunks, given, joined) = parent_chunks_lem x index nz in
      rw (law.any_key x.chain) (
        rw given (
          rw (law.chunked x.chain (chunks ++ (to_be_bytes index ∷ [])))
            (rw joined (tweaked_lem x _))))

  walk_lem :
      (x : ExtendedKey k point hmac_sha512) (path : List ℕ)
      → k.is_zero x.scalar ≡ false
      → value (walk h c k (as_node k point hmac_sha512 x) path)
        ≡ Option.map
            (λ (y : ExtendedKey k point hmac_sha512). k.to_repr y.scalar)
            (descend k point hmac_sha512 x path)
  unfolding walk
  walk_lem x [] nz = refl
  walk_lem x (index ∷ path) nz =
      value->>= (child h c k (as_node k point hmac_sha512 x) index) (λ next. walk h c k next path)
      ∙ rw (child_lem x index nz) (elim (Option-cases (ckd_priv k point hmac_sha512 x index)) [
        | inl e ↦ rw (descend, e) refl
        | inr (y, e) ↦
            rw (descend, e) (walk_lem y path (ckd_priv-nonzero k point hmac_sha512 x y index e))
      ])

  -- From a seed whose master key BIP-32 calls valid, the derivation returns the bytes of the key
  -- that CKDpriv gives step by step along the path, and an error exactly when a step fails.
  pub bip32_derive_lem :
      (seed : Bytes) (path : List ℕ) (s : k.Scalar)
      → k.from_repr (take 32 (hmac_sha512 (as_bytes "Bitcoin seed") seed)) ≡ some s
      → k.is_zero s ≡ false
      → value (bip32_derive h c k seed path)
        ≡ Option.map
            (λ (y : ExtendedKey k point hmac_sha512). k.to_repr y.scalar)
            (descend k point hmac_sha512
              (record { scalar = s; chain = drop 32 (hmac_sha512 (as_bytes "Bitcoin seed") seed) })
              path)
  unfolding bip32_derive
  bip32_derive_lem seed path s valid nz =
      rw (digest_lem h hmac_sha512 law (as_bytes "Bitcoin seed") (seed ∷ [])) (
        rw (append-nil seed) (
          rw (sym (field.to-from _ s valid)) (
            walk_lem
              (record { scalar = s; chain = drop 32 (hmac_sha512 (as_bytes "Bitcoin seed") seed) })
              path nz)))
