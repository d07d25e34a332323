-- ===== src/Tests/Claiming.antt =====
-- Claims at concrete data.
use morpheum_signing.Common.{◌≡◌, refl, ◌⊎◌, some, replicate, ok, arith}
use morpheum_signing.Types.Signature.{Signature, is_zero}
use morpheum_signing.Claim.{
  TradingKeyClaim, validate, unsigned, claim_digest, decode_from_signing_options,
}
use morpheum_signing.Claim.Digest.{InRange, SameTerms, Collision, claim_digest_binds}
use morpheum_signing.Claim.Embedding.{claim_options, as_decoded, decode-claim_options}
use morpheum_signing.Tests.Toy.{toy, claim, claim_codec-RoundTrips, any_codec-RoundTrips}
use morpheum_signing.Tests.Signing.{claim-IsWellFormed, claim-InRange}

valid_at_99 : validate claim 99 ≡ ok tt
unfolding validate is_zero
valid_at_99 = refl

abbrev other : TradingKeyClaim
other = record claim { signature = Signature.ed25519 (replicate 64 9) }

unsigned-InRange : InRange (unsigned claim)
unfolding unsigned
unsigned-InRange = record {
  permissions = omega arith;
  max_daily_usd = omega arith;
  expiry_timestamp = omega arith;
  nonce_sub_range_start = omega arith;
  nonce_sub_range_end = omega arith;
}

other-InRange : InRange (unsigned other)
unfolding unsigned
other-InRange = unsigned-InRange

claim_digest_binds_example :
    (SameTerms claim other → claim_digest toy claim ≡ claim_digest toy other)
    × (claim_digest toy claim ≡ claim_digest toy other
        → SameTerms claim other
          ⊎ Collision toy.sha256
              (toy.claim_codec.encode (unsigned claim))
              (toy.claim_codec.encode (unsigned other)))
claim_digest_binds_example =
    claim_digest_binds toy claim other (claim_codec-RoundTrips InRange) unsigned-InRange
      other-InRange

decode-claim_options_example :
    decode_from_signing_options toy (claim_options toy claim) ≡ ok (some (as_decoded claim))
decode-claim_options_example =
    decode-claim_options toy claim (claim_codec-RoundTrips InRange) any_codec-RoundTrips
      claim-IsWellFormed claim-InRange
