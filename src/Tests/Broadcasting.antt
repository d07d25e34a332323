-- ===== src/Tests/Broadcasting.antt =====
-- The two encodings of a signed transaction, at concrete data.
use morpheum_signing.Common.{
  ℕ, ◌≡◌, ◌≢◌, ◌⊎◌, refl, String, false, none, some, [], ◌∷◌, Bytes, Result, ok, err, arith,
}
use morpheum_signing.Proto.{Tx, TxVerifyContext}
use morpheum_signing.Primitives.{Primitives}
use morpheum_signing.Types.Signature.{to_bytes}
use morpheum_signing.Types.SignedTx.{SignedTx, decode}
use morpheum_signing.Builder.{
  TxBuilder, sign, sign_doc, preconditions, resolve_nonce, embed_claim, check_stored_claim,
  auth_info, signer_info, assemble, tx_body,
}
use morpheum_signing.Builder.Covered.{Run}
use morpheum_signing.Verifier.{VerifiedTx, verify_signed_tx}
use morpheum_signing.EndToEnd.Replay.{DeterminesTerms, BindsAlways, Forged}
use morpheum_signing.EndToEnd.Broadcast.{OmitsNonce, decode-sign, decode-raw_bytes}
use morpheum_signing.Tests.Documents.{document, document_injective}
use morpheum_signing.Tests.Toy.{toy, clock, signer, builder, ctx}
use morpheum_signing.Tests.Signing.{signed}
use morpheum_signing.Tests.Replaying.{rung_is}

-- the one transaction, and what a `TxRaw` keeps of it
abbrev unbound_tx : Tx
unbound_tx = record signed.tx { nonce = none }

abbrev read_tx : Bytes → Result String Tx
read_tx (n ∷ []) = ok signed.tx
read_tx bytes = ok unbound_tx

abbrev wire : Primitives
wire = record toy {
  tx_codec = record { encode = λ tx. 4 ∷ []; decode = read_tx };
  tx_raw_codec = record { encode = λ raw. []; decode = λ bytes. err "unreadable" };
}

abbrev wire_builder : TxBuilder wire ℕ
wire_builder = record {
  signer = record {
    sign = signer.sign;
    public_key = signer.public_key;
    wallet_type = signer.wallet_type;
    account_id = signer.account_id;
    public_key_proto = signer.public_key_proto;
    sign_mode = signer.sign_mode;
    trading_key_claim = none;
  };
  chain_id = builder.chain_id;
  genesis_hash = builder.genesis_hash;
  account_number = none;
  memo = none;
  timeout_timestamp = none;
  messages = builder.messages;
  signing_options = builder.signing_options;
  nonce_provider = none;
  manual_nonce = builder.manual_nonce;
  wallet_adapter = none;
  trading_key_claim = none;
  priority_tip = 0;
  tx_class = tt;
  urgent = false;
  gas_limit = 25_000;
  agent_did = none;
  verifiable_presentation = none;
  trading_key_address = none;
}

wire_signs : sign wire clock wire_builder 3 ≡ (ok signed, 3)
unfolding sign preconditions resolve_nonce embed_claim check_stored_claim assemble tx_body auth_info
    sign_doc
wire_signs = refl

abbrev IsSent : Tx → Type 0
IsSent tx = tx ≡ signed.tx

decode-sign_example :
    (t : SignedTx) × (decode wire (4 ∷ []) ≡ ok t)
    × (t.tx ≡ signed.tx)
    × (t.tx_raw ≡ signed.tx_raw)
    × ((c : TxVerifyContext) (account_number now : ℕ)
        → verify_signed_tx wire t c account_number now
          ≡ verify_signed_tx wire signed c account_number now)
decode-sign_example =
    decode-sign wire clock wire_builder {InRange = IsSent} 3 signed 3
      (record { decode-encode = λ tx e. ground (arith, e) }) wire_signs refl

wire-DeterminesTerms : DeterminesTerms wire
wire-DeterminesTerms = record {
  terms = λ t u e.
      let (b, i, c, n, g, k) = document_injective _ _ _ _ _ _ _ _ _ _ _ _ e in
      cc (b, i, c, n, g, k);
}

ctx-BindsAlways : BindsAlways wire ctx
ctx-BindsAlways = record {
  rungs = λ body info account_number nonce ladder i binding preimage l at.
      rung_is ladder i binding
        (document body info ctx.chain_id account_number ctx.genesis_hash nonce) preimage
        (ground (arith, l)) at;
}

wire-OmitsNonce : OmitsNonce wire
wire-OmitsNonce = record { omits = λ raw tx e. ground (arith, e) }

abbrev received : SignedTx
received = record { tx = unbound_tx; raw_bytes = []; tx_raw = signed.tx_raw }

reads : decode wire signed.raw_bytes ≡ ok received
unfolding decode assemble
reads = refl

published :
    (signer_info wire wire_builder none).public_key ≡ some wire_builder.signer.public_key_proto
unfolding signer_info
published = refl

carried : received.tx.auth_info ≡ some (auth_info wire wire_builder none)
unfolding auth_info signer_info assemble
carried = refl

one_info : (auth_info wire wire_builder none).signer_infos ≡ signer_info wire wire_builder none ∷ []
unfolding auth_info
one_info = refl

decode-raw_bytes_example :
    ((v : VerifiedTx) → verify_signed_tx wire received ctx 0 7 ≢ ok v)
    ⊎ ((r : Run wire clock wire_builder 3 signed 3) × Forged wire wire_builder
          (wire.encode_sign_doc (sign_doc wire wire_builder r.nonce r.options))
          (to_bytes r.signature))
decode-raw_bytes_example =
    decode-raw_bytes wire clock wire_builder ctx 3 signed 3 received 0 7
      (auth_info wire wire_builder none) (signer_info wire wire_builder none) wire-DeterminesTerms
      ctx-BindsAlways wire-OmitsNonce wire_signs reads refl carried one_info published
