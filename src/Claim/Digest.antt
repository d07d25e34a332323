-- ===== src/Claim/Digest.antt =====
-- What `claim_digest` of crates/core/src/claim.rs binds.
use morpheum_signing.Common.{
  ◌^◌, ◌<◌, ◌≡◌, ap, ◌≢◌, ◌⊎◌, inl, inr, Bytes, bytes_eq, bytes_eq→eq, bytes_eq_refl, Bool-cases,
  arith,
}
use morpheum_signing.Proto.{TradingKeyClaimProto}
use morpheum_signing.Primitives.{Primitives, Codec, RoundTrips}
use morpheum_signing.Claim.{TradingKeyClaim, unsigned, claim_digest}

-- the numbers of the message fit their fields
pub record InRange (m : TradingKeyClaimProto) : Type 0 where
  pub permissions : m.permissions < 2 ^ 64
  pub max_daily_usd : m.max_daily_usd < 2 ^ 64
  pub expiry_timestamp : m.expiry_timestamp < 2 ^ 64
  pub nonce_sub_range_start : m.nonce_sub_range_start < 2 ^ 32
  pub nonce_sub_range_end : m.nonce_sub_range_end < 2 ^ 32

-- two given texts that differ and have one hash
pub record Collision (hash : Bytes → Bytes) (a b : Bytes) : Type 0 where
  pub differ : a ≢ b
  pub agree : hash a ≡ hash b

-- Two texts with one hash are equal, or they are a collision.
pub hash-cases :
    (hash : Bytes → Bytes) (a b : Bytes) → hash a ≡ hash b → (a ≡ b) ⊎ Collision hash a b
hash-cases hash a b h = elim (Bool-cases (bytes_eq a b)) [
  | inl same ↦ inl (bytes_eq→eq a b same)
  | inr other ↦
      inr (record { differ = λ e. cc (bytes_eq_refl b, ap (λ t. bytes_eq t b) e); agree = h })
]

-- An encoding that is read back is injective.
pub encode-injective :
    {A : Type 0} (InRange : A → Type 0) (c : Codec A) (a b : A)
    → RoundTrips InRange c
    → InRange a
    → InRange b
    → c.encode a ≡ c.encode b
    → a ≡ b
encode-injective InRange c a b r ha hb e = cc (r.decode-encode a ha, r.decode-encode b hb, e)

-- Two claims agree in all that the issuer signs.
pub record SameTerms (c d : TradingKeyClaim) : Type 0 where
  pub issuer : c.issuer ≡ d.issuer
  pub subject : c.subject ≡ d.subject
  pub permissions : c.permissions ≡ d.permissions
  pub max_daily_usd : c.max_daily_usd ≡ d.max_daily_usd
  pub expiry_timestamp : c.expiry_timestamp ≡ d.expiry_timestamp
  pub nonce_sub_range_start : c.nonce_sub_range_start ≡ d.nonce_sub_range_start
  pub nonce_sub_range_end : c.nonce_sub_range_end ≡ d.nonce_sub_range_end

unsigned-SameTerms : (c d : TradingKeyClaim) → unsigned c ≡ unsigned d → SameTerms c d
unfolding unsigned
unsigned-SameTerms c d e = ground arith

SameTerms-unsigned : (c d : TradingKeyClaim) → SameTerms c d → unsigned c ≡ unsigned d
unfolding unsigned
SameTerms-unsigned c d s = ground arith

module _ (p : Primitives) where
  -- Claims with the same terms have the same digest, whatever their signatures. Claims with one
  -- digest have the same terms, or the very encodings of the two, without signatures, are a
  -- collision of SHA-256. The numbers of the claims are in range, and such a claim is read back
  -- from its encoding.
  pub claim_digest_binds :
      (c d : TradingKeyClaim)
      → RoundTrips InRange p.claim_codec
      → InRange (unsigned c)
      → InRange (unsigned d)
      → (SameTerms c d → claim_digest p c ≡ claim_digest p d)
        × (claim_digest p c ≡ claim_digest p d
            → SameTerms c d
              ⊎ Collision p.sha256
                  (p.claim_codec.encode (unsigned c))
                  (p.claim_codec.encode (unsigned d)))
  unfolding claim_digest
  claim_digest_binds c d r hc hd = (
    λ s. ap (λ m. p.sha256 (p.claim_codec.encode m)) (SameTerms-unsigned c d s),
    λ e. elim (hash-cases p.sha256 _ _ e) [
      | inl same ↦ inl (
          unsigned-SameTerms c d
            (encode-injective InRange p.claim_codec (unsigned c) (unsigned d) r hc hd same))
      | inr collision ↦ inr collision
    ],
  )
