-- ===== src/Tests/Replaying.antt =====
-- A signature that is carried over to another transaction, at concrete data.
use morpheum_signing.Common.{
  ℕ, suc, zero, ◌≡◌, ◌⊎◌, refl, some, List, [], ◌∷◌, Bytes, get_elem?, arith,
}
use morpheum_signing.Proto.{SignerInfo}
use morpheum_signing.Types.Signature.{to_bytes}
use morpheum_signing.Claim.Embedding.{claim_options}
use morpheum_signing.Builder.{sign_doc, assemble, auth_info, signer_info}
use morpheum_signing.Builder.Covered.{Run}
use morpheum_signing.Verifier.Sound.{verify_signed_tx_iff}
use morpheum_signing.EndToEnd.Replay.{
  DeterminesTerms, BindsAlways, Forged, checked_terms, signed_terms, sign-replayed,
}
use morpheum_signing.Tests.Documents.{document, document_injective}
use morpheum_signing.Tests.Toy.{toy, clock, claim, ctx}
use morpheum_signing.Tests.Signing.{with_claim, signed_claim, signs_claim, accepted_claim}

toy-DeterminesTerms : DeterminesTerms toy
toy-DeterminesTerms = record {
  terms = λ t u e.
      let (b, i, c, n, g, k) = document_injective _ _ _ _ _ _ _ _ _ _ _ _ e in
      cc (b, i, c, n, g, k);
}

pub rung_is :
    (ladder : List (Unit {0} × Bytes)) (i : ℕ) (binding : Unit {0}) (doc preimage : Bytes)
    → (tt, doc) ∷ [] ≡ ladder
    → get_elem? ladder i ≡ some (binding, preimage)
    → preimage ≡ doc
rung_is ladder zero binding doc preimage e at = ground (arith, e, at)
rung_is ladder (suc i) binding doc preimage e at = absurd (ground (arith, e, at))

pub ctx-BindsAlways : BindsAlways toy ctx
ctx-BindsAlways = record {
  rungs = λ body info account_number nonce ladder i binding preimage l at.
      rung_is ladder i binding
        (document body info ctx.chain_id account_number ctx.genesis_hash nonce) preimage
        (ground (arith, l)) at;
}

abbrev info : SignerInfo
info = signer_info toy with_claim (some (claim_options toy claim))

only : accepted_claim.verified.auth_info.signer_infos ≡ info ∷ []
unfolding assemble auth_info
only =
    let a =
      (verify_signed_tx_iff toy signed_claim ctx 0 99 accepted_claim.verified).0
        accepted_claim.accepts in
    ground (arith, a.auth_info)

published : info.public_key ≡ some with_claim.signer.public_key_proto
unfolding signer_info
published = refl

sign-replayed_example :
    (r : Run toy clock with_claim 3 signed_claim 3) × ((checked_terms toy ctx 0 signed_claim
          accepted_claim.verified
        ≡ signed_terms toy with_claim r.nonce r.options)
      ⊎ Forged toy with_claim
          (toy.encode_sign_doc (sign_doc toy with_claim r.nonce r.options))
          (to_bytes r.signature))
sign-replayed_example =
    sign-replayed toy clock with_claim ctx 3 signed_claim 3 signed_claim 0 99
      accepted_claim.verified info toy-DeterminesTerms ctx-BindsAlways signs_claim
      accepted_claim.accepts refl only published
