-- ===== src/Builder/Refusals.antt =====
-- What `TxBuilder::sign` (crates/core/src/builder.rs) refuses before it calls anyone.
use morpheum_signing.Common.{ℕ, ◌≡◌, ◌≢◌, Option, some, [], err, arith, bytes_eq_iff}
use morpheum_signing.Error.{signing, genesis_hash_unset}
use morpheum_signing.Primitives.{Primitives}
use morpheum_signing.Claim.{TradingKeyClaim, encode_to_vec}
use morpheum_signing.Builder.{TxBuilder, preconditions, check_stored_claim, disagrees, sign}

module _ (p : Primitives) {W : Type 0} (clock : W → Option ℕ) (b : TxBuilder p W) where
  -- A transaction without messages, one that is bound to no genesis hash, and one whose claim is
  -- encoded otherwise than the claim stored on the signer are refused in this order, each with its
  -- error, and the world is left as it was.
  pub sign-refusals :
      (w : W)
      → (b.messages ≡ []
          → sign p clock b w ≡ (err (signing "transaction must contain at least one message"), w))
        × (b.messages ≢ [] → b.genesis_hash ≡ [] → sign p clock b w ≡ (err genesis_hash_unset, w))
        × (b.messages ≢ []
            → b.genesis_hash ≢ []
            → (stored attached : TradingKeyClaim) → b.signer.trading_key_claim ≡ some stored
            → b.trading_key_claim ≡ some attached
            → encode_to_vec p stored ≢ encode_to_vec p attached
            → sign p clock b w ≡ (err disagrees, w))
  unfolding sign preconditions check_stored_claim
  sign-refusals w = (
    λ m. ground (arith, m),
    λ m g. ground (arith, m, g),
    λ m g stored attached es ea ne.
        ground (
          arith,
          m,
          g,
          es,
          ea,
          ne,
          bytes_eq_iff (encode_to_vec p stored) (encode_to_vec p attached),
        ),
  )
