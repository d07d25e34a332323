-- ===== src/Tests/Verifying.antt =====
-- `verify_signed_tx` and the preimage for a raw key, at concrete data.
use morpheum_signing.Common.{◌≡◌, refl, ◌≢◌, ◌↔◌, none, some, [], ◌∷◌, ◌++◌, ok, err, Bytes}
use morpheum_signing.Proto.{SignMode, pos}
use morpheum_signing.Types.WalletType.{chain_type}
use morpheum_signing.Types.PublicKey.{PublicKey}
use morpheum_signing.Claim.Embedding.{as_decoded}
use morpheum_signing.Builder.{tx_body, auth_info, sign_doc}
use morpheum_signing.Verifier.Dispatch.{verify_signature}
use morpheum_signing.Verifier.Matrix.{Accepts, verify_signature_iff}
use morpheum_signing.Verifier.{panicked, verify_signed_tx}
use morpheum_signing.Verifier.Sound.{Authenticated, verify_signed_tx_iff}
use morpheum_signing.Verifier.Scope.{InScope, verify_signed_tx-InScope}
use morpheum_signing.Verifier.Panics.{verify_signed_tx-ne-panicked}
use morpheum_signing.Preimage.{
  SignDocRequest, SigningBytes, Describes, build_sign_doc, build_sign_doc-sign_doc,
}
use morpheum_signing.Tests.Toy.{toy, key, nonce, builder, claim, ctx}
use morpheum_signing.Tests.Signing.{signed_claim, accepted_claim}

verify_signed_tx_iff_example :
    (verify_signed_tx toy signed_claim ctx 0 99 ≡ ok accepted_claim.verified)
    ↔ Authenticated toy signed_claim ctx 0 99 accepted_claim.verified
verify_signed_tx_iff_example =
    verify_signed_tx_iff toy signed_claim ctx 0 99 accepted_claim.verified

verify_signed_tx-InScope_example : InScope (as_decoded claim) 99 accepted_claim.verified
verify_signed_tx-InScope_example =
    verify_signed_tx-InScope toy signed_claim ctx 0 99 accepted_claim.verified (as_decoded claim)
      accepted_claim.accepts accepted_claim.claim_is

verify_signed_tx-ne-panicked_example : verify_signed_tx toy signed_claim ctx 0 99 ≢ err panicked
verify_signed_tx-ne-panicked_example = verify_signed_tx-ne-panicked toy signed_claim ctx 0 99

abbrev signature : Bytes
signature = key ++ (4 ∷ [])

verify_signature_iff_example :
    (verify_signature toy (PublicKey.ed25519 key) (4 ∷ []) signature SignMode.ed25519 ≡ ok tt)
    ↔ Accepts toy (PublicKey.ed25519 key) (4 ∷ []) signature SignMode.ed25519
verify_signature_iff_example =
    verify_signature_iff toy (PublicKey.ed25519 key) (4 ∷ []) signature SignMode.ed25519

abbrev pub request : SignDocRequest toy
request = record {
  type_url = "/bank.Send";
  msg_bytes = 1 ∷ [];
  signer_key = key;
  chain_type = pos 0;
  sign_mode = pos 1;
  chain_id = "morpheum-1";
  memo = none;
  account_number = 0;
  genesis_hash = some (9 ∷ []);
  nonce = nonce;
  gas_limit = 25_000;
}

pub toy-SigningBytes : SigningBytes toy
toy-SigningBytes = record { is_encoding = λ body info chain_id account_number genesis n. refl }

pub builder-Describes : Describes toy builder request
unfolding chain_type
builder-Describes = record {
  messages = refl;
  memo = refl;
  timeout = refl;
  tip = refl;
  tx_class = refl;
  urgent = refl;
  public_key = refl;
  sign_mode = refl;
  chain = refl;
  deadline = refl;
  agent_did = refl;
  presentation = refl;
  trading_key_address = refl;
  claim = refl;
  chain_id = refl;
  account_number = refl;
  genesis_hash = refl;
  gas_limit = refl;
}

build_sign_doc-sign_doc_example :
    (toy.encode_sign_doc (sign_doc toy builder nonce none)
      ≡ (build_sign_doc toy request).sign_doc_bytes)
    × (toy.body_codec.encode (tx_body toy builder) ≡ (build_sign_doc toy request).body_bytes)
    × (toy.auth_info_codec.encode (auth_info toy builder none)
        ≡ (build_sign_doc toy request).auth_info_bytes)
build_sign_doc-sign_doc_example =
    build_sign_doc-sign_doc toy builder request toy-SigningBytes builder-Describes
