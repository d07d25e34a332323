-- ===== src/Tests/Signing.antt =====
-- `TxBuilder::sign` and the verification of its transactions, at concrete data.
use morpheum_signing.Common.{
  ℕ, ◌≡◌, ◌≤◌, refl, ◌≢◌, none, some, [], ok, err, arith, inl, bytes_eq_refl,
}
use morpheum_signing.Error.{signing, invalid_claim, genesis_hash_unset}
use morpheum_signing.Types.SignedTx.{SignedTx}
use morpheum_signing.Types.Signature.{Signature, is_zero, to_bytes}
use morpheum_signing.Types.PublicKey.{to_proto_any, type_url, to_proto_bytes, to_account_id}
use morpheum_signing.Claim.{TradingKeyClaim, validate, to_proto_inner, encode_to_vec}
use morpheum_signing.Claim.Digest.{InRange}
use morpheum_signing.Claim.Validity.{IsValid}
use morpheum_signing.Claim.Embedding.{IsWellFormed, as_decoded, claim_options}
use morpheum_signing.Builder.{
  TxBuilder, sign, preconditions, resolve_nonce, assemble, sign_doc, embed_claim,
  check_stored_claim, now_secs, disagrees,
}
use morpheum_signing.Builder.Covered.{Covers, sign-Covers}
use morpheum_signing.Builder.Claims.{Embeds, expired_claim-nonce, sign-Embeds}
use morpheum_signing.Builder.Failures.{Fails, sign-Fails}
use morpheum_signing.Builder.Refusals.{sign-refusals}
use morpheum_signing.Verifier.Matrix.{pure_ed25519}
use morpheum_signing.EndToEnd.{
  SignsForKey, BindsFirst, AcceptedAs, sign-verify_signed_tx, sign_claim-verify_signed_tx,
}
use morpheum_signing.Tests.Toy.{
  toy, key, nonce, clock, provider, signer, builder, claim, ctx, signature_by,
  claim_codec-RoundTrips, any_codec-RoundTrips,
}

abbrev pub signed : SignedTx
signed =
    assemble toy builder nonce none
      (Signature.ed25519 (signature_by key (sign_doc toy builder nonce none)))

pub signs : sign toy clock builder 3 ≡ (ok signed, 3)
unfolding sign preconditions resolve_nonce embed_claim check_stored_claim
signs = refl

abbrev pub with_claim : TxBuilder toy ℕ
with_claim = record builder { trading_key_claim = some claim }

abbrev pub signed_claim : SignedTx
signed_claim = assemble toy with_claim nonce (some (claim_options toy claim)) (
    Signature.ed25519
      (signature_by key (sign_doc toy with_claim nonce (some (claim_options toy claim)))))

pub signs_claim : sign toy clock with_claim 3 ≡ (ok signed_claim, 3)
unfolding sign preconditions resolve_nonce embed_claim check_stored_claim validate is_zero now_secs
signs_claim = refl

pub signer-SignsForKey : SignsForKey toy signer
unfolding to_proto_any type_url to_proto_bytes to_bytes
signer-SignsForKey = record {
  key_length = refl;
  published = refl;
  mode_read = refl;
  sound = λ doc w w' signature h.
      pure_ed25519 key (inl refl) (inl refl)
        (ground (arith, h, bytes_eq_refl (signature_by key doc)));
}

ctx-BindsFirst : BindsFirst toy ctx
ctx-BindsFirst = record { ladder = λ body info account_number n. (tt, [], refl) }

sign-verify_signed_tx_example : AcceptedAs toy clock builder ctx signed 7 none
sign-verify_signed_tx_example =
    sign-verify_signed_tx toy clock builder ctx 3 signed 3 7 signer-SignsForKey ctx-BindsFirst refl
      refl refl signs

pub claim-IsWellFormed : IsWellFormed claim
unfolding to_bytes
claim-IsWellFormed = record { issuer = refl; subject = refl; signature = refl }

pub claim-InRange : InRange (to_proto_inner claim)
unfolding to_proto_inner
claim-InRange = record {
  permissions = omega arith;
  max_daily_usd = omega arith;
  expiry_timestamp = omega arith;
  nonce_sub_range_start = omega arith;
  nonce_sub_range_end = omega arith;
}

own : claim.issuer ≡ to_account_id toy signer.public_key
unfolding to_account_id
own = refl

sign_claim-verify_signed_tx_example :
    AcceptedAs toy clock with_claim ctx signed_claim 99 (some (as_decoded claim))
sign_claim-verify_signed_tx_example =
    sign_claim-verify_signed_tx toy clock with_claim ctx 3 signed_claim 3 99 claim
      signer-SignsForKey ctx-BindsFirst refl refl refl (claim_codec-RoundTrips InRange)
      any_codec-RoundTrips claim-IsWellFormed claim-InRange own (omega arith) signs_claim

sign-Covers_example : Covers toy builder signed 3
sign-Covers_example = sign-Covers toy clock builder 3 signed 3 signs

sign-Embeds_example : Embeds toy clock claim signed_claim
sign-Embeds_example =
    sign-Embeds toy clock with_claim claim 3 signed_claim 3 (claim_codec-RoundTrips InRange)
      any_codec-RoundTrips refl claim-IsWellFormed claim-InRange signs_claim

pub claim-IsValid : IsValid claim 3
unfolding is_zero
claim-IsValid = record { unexpired = omega arith; nonempty = omega arith; signed = refl }

abbrev default_builder : TxBuilder toy ℕ
default_builder = record with_claim { manual_nonce = none }

abbrev provided : TxBuilder toy ℕ
provided = record default_builder { nonce_provider = some provider }

allowed : preconditions toy provided ≡ ok tt
unfolding preconditions check_stored_claim
allowed = refl

late : 100 ≤ now_secs clock 101
unfolding now_secs
late = omega arith

expires : sign toy clock provided 100 ≡ (err (invalid_claim "claim has expired"), 101)
expires =
    expired_claim-nonce toy clock provided claim provider
      (record { monotonic = 100; ts_ms = 0; sub = 5 }) 100 101 allowed refl refl refl refl late

sign-Fails_example : Fails toy clock provided 100 (invalid_claim "claim has expired") 101
sign-Fails_example =
    sign-Fails toy clock provided 100 (invalid_claim "claim has expired") 101 expires

abbrev empty_builder : TxBuilder toy ℕ
empty_builder = record builder { messages = [] }

abbrev Refuses : TxBuilder toy ℕ → Type 0
Refuses b =
    (b.messages ≡ []
      → sign toy clock b 3 ≡ (err (signing "transaction must contain at least one message"), 3))
    × (b.messages ≢ [] → b.genesis_hash ≡ [] → sign toy clock b 3 ≡ (err genesis_hash_unset, 3))
    × (b.messages ≢ []
        → b.genesis_hash ≢ []
        → (stored attached : TradingKeyClaim) → b.signer.trading_key_claim ≡ some stored
        → b.trading_key_claim ≡ some attached
        → encode_to_vec toy stored ≢ encode_to_vec toy attached
        → sign toy clock b 3 ≡ (err disagrees, 3))

sign-refusals_example : Refuses empty_builder
sign-refusals_example = sign-refusals toy clock empty_builder 3

pub accepted_claim : AcceptedAs toy clock with_claim ctx signed_claim 99 (some (as_decoded claim))
accepted_claim =
    sign_claim-verify_signed_tx toy clock with_claim ctx 3 signed_claim 3 99 claim
      signer-SignsForKey ctx-BindsFirst refl refl refl (claim_codec-RoundTrips InRange)
      any_codec-RoundTrips claim-IsWellFormed claim-InRange own (omega arith) signs_claim
