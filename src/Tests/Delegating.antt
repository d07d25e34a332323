-- ===== src/Tests/Delegating.antt =====
-- A transaction with the claim of another account, at concrete data.
use morpheum_signing.Common.{ℕ, ◌≡◌, ◌≢◌, refl, some, replicate, ok, arith}
use morpheum_signing.Types.PublicKey.{to_proto_any, type_url, to_proto_bytes, to_account_id}
use morpheum_signing.Types.Signature.{Signature, is_zero, to_bytes}
use morpheum_signing.Types.SignedTx.{SignedTx}
use morpheum_signing.Claim.{TradingKeyClaim, validate, to_proto_inner}
use morpheum_signing.Claim.Digest.{InRange}
use morpheum_signing.Claim.Embedding.{IsWellFormed, claim_options}
use morpheum_signing.Builder.{
  TxBuilder, sign, preconditions, resolve_nonce, assemble, sign_doc, embed_claim,
  check_stored_claim, now_secs,
}
use morpheum_signing.Verifier.{verify_signed_tx}
use morpheum_signing.EndToEnd.Delegated.{delegated_claim-verify_signed_tx}
use morpheum_signing.Tests.Toy.{
  toy, key, nonce, clock, signer, builder, claim, ctx, signature_by, claim_codec-RoundTrips,
  any_codec-RoundTrips,
}
use morpheum_signing.Tests.Signing.{accepted_claim}

-- The owner's account, not the agent's, has issued the claim.
abbrev owners_claim : TradingKeyClaim
owners_claim = record claim { issuer = record { id = replicate 32 8 } }

abbrev delegated : TxBuilder toy ℕ
delegated = record builder { trading_key_claim = some owners_claim }

abbrev signed_delegated : SignedTx
signed_delegated = assemble toy delegated nonce (some (claim_options toy owners_claim)) (
    Signature.ed25519
      (signature_by key (sign_doc toy delegated nonce (some (claim_options toy owners_claim)))))

signs_delegated : sign toy clock delegated 3 ≡ (ok signed_delegated, 3)
unfolding sign preconditions resolve_nonce embed_claim check_stored_claim validate is_zero now_secs
signs_delegated = refl

owners_claim-IsWellFormed : IsWellFormed owners_claim
unfolding to_bytes
owners_claim-IsWellFormed = record { issuer = refl; subject = refl; signature = refl }

owners_claim-InRange : InRange (to_proto_inner owners_claim)
unfolding to_proto_inner
owners_claim-InRange = record {
  permissions = omega arith;
  max_daily_usd = omega arith;
  expiry_timestamp = omega arith;
  nonce_sub_range_start = omega arith;
  nonce_sub_range_end = omega arith;
}

published : signer.public_key_proto ≡ to_proto_any signer.public_key
unfolding to_proto_any type_url to_proto_bytes
published = refl

foreign : owners_claim.issuer ≢ to_account_id toy signer.public_key
unfolding to_account_id
foreign e = ground (arith, e)

delegated_claim-verify_signed_tx_example :
    verify_signed_tx toy signed_delegated ctx 0 99 ≢ ok accepted_claim.verified
delegated_claim-verify_signed_tx_example =
    delegated_claim-verify_signed_tx toy clock delegated owners_claim ctx 3 signed_delegated 3 0 99
      accepted_claim.verified (claim_codec-RoundTrips InRange) any_codec-RoundTrips
      owners_claim-IsWellFormed owners_claim-InRange refl published refl foreign signs_delegated
