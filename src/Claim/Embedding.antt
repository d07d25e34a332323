-- ===== src/Claim/Embedding.antt =====
-- The embedding of a claim in `SignerInfo.signing_options` (step 3.5 of `TxBuilder::sign`,
-- crates/core/src/builder.rs) and `decode_from_signing_options` of crates/core/src/claim.rs.
use morpheum_signing.Common.{◌≡◌, refl, none, some, length, ok, arith, eq_iff, ◌≢◌}
use morpheum_signing.Proto.{Any, ClaimOptions}
use morpheum_signing.Primitives.{Primitives, RoundTrips}
use morpheum_signing.Types.Signature.{Signature, to_bytes}
use morpheum_signing.Claim.{
  TradingKeyClaim, claim_hint, claim_type_url, to_proto_inner, of_proto, to_proto_any,
  encode_to_vec, decode_from_signing_options,
}
use morpheum_signing.Claim.Digest.{InRange}

-- the array lengths
pub record IsWellFormed (c : TradingKeyClaim) : Type 0 where
  pub issuer : length c.issuer.id ≡ 32
  pub subject : length c.subject.id ≡ 32
  pub signature : length (to_bytes c.signature) ≡ 64

-- the envelopes that hold a claim
abbrev pub IsClaimAny : Any → Type 0
IsClaimAny any = any.type_url ≡ claim_type_url

-- The claim that a reader of the wire gets: the kind of the signature is lost.
abbrev pub as_decoded : TradingKeyClaim → TradingKeyClaim
as_decoded c = record c { signature = Signature.ed25519 (to_bytes c.signature) }

of_proto-to_proto_inner :
    (c : TradingKeyClaim) → IsWellFormed c → of_proto (to_proto_inner c) ≡ ok (as_decoded c)
unfolding of_proto to_proto_inner
of_proto-to_proto_inner c w = ground arith

-- A claim that was read has arrays of the right lengths.
pub of_proto-IsWellFormed : (m : _) (c : TradingKeyClaim) → of_proto m ≡ ok c → IsWellFormed c
unfolding of_proto to_bytes
of_proto-IsWellFormed m c h = ground arith

module _ (p : Primitives) where
  unfoldable pub claim_options : TradingKeyClaim → ClaimOptions
  claim_options c = record {
    wasm_seed = p.any_codec.encode (to_proto_any p c);
    algo_hint = claim_hint;
  }

  -- A claim of the right array lengths, with numbers in range, is read back from the options that
  -- it is embedded in, with its signature as Ed25519 bytes.
  pub decode-claim_options :
      (c : TradingKeyClaim)
      → RoundTrips InRange p.claim_codec
      → RoundTrips IsClaimAny p.any_codec
      → IsWellFormed c
      → InRange (to_proto_inner c)
      → decode_from_signing_options p (claim_options c) ≡ ok (some (as_decoded c))
  unfolding decode_from_signing_options claim_options to_proto_any encode_to_vec
  decode-claim_options c rc ra w h = ground (
    arith,
    ra.decode-encode (to_proto_any p c) refl,
    rc.decode-encode (to_proto_inner c) h,
    of_proto-to_proto_inner c w,
  )

  -- Options without the claim's hint hold no claim, whatever their bytes.
  pub decode_other_hint :
      (opts : ClaimOptions)
      → opts.algo_hint ≢ claim_hint
      → decode_from_signing_options p opts ≡ ok none
  unfolding decode_from_signing_options
  decode_other_hint opts h = ground (arith, eq_iff opts.algo_hint claim_hint)
