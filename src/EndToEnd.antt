-- ===== src/EndToEnd.antt =====
-- `TxBuilder::sign` (crates/core/src/builder.rs) against `verify_signed_tx`
-- (crates/core/src/verifier.rs): what is signed is accepted.
pub mod Replay
pub mod Broadcast
pub mod Delegated
use morpheum_signing.Common.{
  ℕ, ◌≡◌, refl, ap, ◌∙◌, sym, ◌<◌, Option, none, some, List, [], ◌∷◌, Bytes, ok, map_err, arith,
}
use mathlib.Core.Path.{subst}
use morpheum_signing.Proto.{Nonce, SignMode, TxVerifyContext, ClaimOptions}
use morpheum_signing.Error.{signing}
use morpheum_signing.Primitives.{Primitives, RoundTrips}
use morpheum_signing.Types.PublicKey.{PublicKey, to_proto_any, to_account_id, infer_wallet_type}
use morpheum_signing.Types.PublicKey.Wire.{
  IsWellFormed, on_wire, from_proto_any_iff, from_proto_any-to_proto_any, to_account_id-on_wire,
}
use morpheum_signing.Types.Signature.{Signature, to_bytes, is_zero-to_bytes}
use morpheum_signing.Types.SignedTx.{SignedTx}
use morpheum_signing.Signer.{Signer}
use morpheum_signing.Claim.{TradingKeyClaim, to_proto_inner}
use morpheum_signing.Claim.Digest.{InRange}
use morpheum_signing.Claim.Embedding
use morpheum_signing.Claim.Embedding.{as_decoded, IsClaimAny, claim_options, decode-claim_options}
use morpheum_signing.Builder.{
  TxBuilder, unwrap_or, sign, sign_doc, assemble, auth_info, signer_info, tx_body, embed_claim,
}
use morpheum_signing.Builder.Covered.{Run, sign-Run}
use morpheum_signing.Builder.Claims.{embed_claim_iff}
use morpheum_signing.Verifier.Dispatch.{extract_sign_mode}
use morpheum_signing.Verifier.Matrix.{Accepts}
use morpheum_signing.Verifier.{VerifiedTx, verify_signed_tx, ladder_of, wire_bytes}
use morpheum_signing.Verifier.Loop.{Carries, PermitsEach}
use morpheum_signing.Verifier.Sound.{Authenticated, verify_signed_tx_iff}

-- What the builder relies on for its signer: the mode is read back from the wire, the key has the
-- length of its kind and is published as it is, and each signature it makes is accepted for the key
-- and the mode, over the encoding of the document.
pub record SignsForKey (p : Primitives) {W : Type 0} (signer : Signer p W) : Type 0 where
  pub key_length : IsWellFormed signer.public_key
  pub published : signer.public_key_proto ≡ to_proto_any signer.public_key
  pub mode_read : p.sign_mode_of_i32 (p.sign_mode_to_i32 signer.sign_mode) ≡ some signer.sign_mode
  pub sound :
      (doc : p.SignDoc) (w w' : W) (signature : Signature)
      → signer.sign doc w ≡ (ok signature, w')
      → Accepts p
          (on_wire signer.public_key)
          (p.encode_sign_doc doc)
          (to_bytes signature)
          signer.sign_mode

-- The policy of a node: the strictest preimage is the canonical document that is bound to the
-- node's own chain and to the nonce.
pub record BindsFirst (p : Primitives) (ctx : TxVerifyContext) : Type 0 where
  pub ladder :
      (body info : Bytes) (account_number : ℕ) (nonce : Nonce)
      → (binding : p.Binding) × (rest : List (p.Binding × Bytes)) × (p.accepted_preimages body info
            account_number
            (some nonce)
            ctx
          ≡ ok (
              (
                binding,
                p.encode_sign_doc (
                    p.canonical_sign_doc body info ctx.chain_id account_number ctx.genesis_hash
                      (some nonce)),
              )
              ∷ rest))

module _ (p : Primitives) {W : Type 0} (clock : W → Option ℕ) (b : TxBuilder p W)
    (ctx : TxVerifyContext) where
  -- The verdict on a transaction of the builder: accepted for the signer's one account, with `claim`.
  pub record AcceptedAs (s : SignedTx) (now : ℕ) (claim : Option TradingKeyClaim) : Type 0 where
    pub verified : VerifiedTx
    pub accepts : verify_signed_tx p s ctx (unwrap_or 0 b.account_number) now ≡ ok verified
    pub account_ids : verified.account_ids ≡ to_account_id p b.signer.public_key ∷ []
    pub claim_is : verified.trading_key_claim ≡ claim
    pub messages : verified.body.messages ≡ b.messages
    pub sign_mode : verified.sign_mode ≡ b.signer.sign_mode

  mode_of :
      (options : Option ClaimOptions)
      → SignsForKey p b.signer
      → extract_sign_mode p (signer_info p b options) ≡ b.signer.sign_mode
  unfolding extract_sign_mode signer_info
  mode_of options k = ground (arith, k.mode_read)

  run_accepted :
      (w : W) (s : SignedTx) (w' : W) (now : ℕ) (found : Option TradingKeyClaim)
      → SignsForKey p b.signer
      → BindsFirst p ctx
      → ctx.chain_id ≡ b.chain_id
      → ctx.genesis_hash ≡ b.genesis_hash
      → (r : Run p clock b w s w') → Carries p r.options found
      → PermitsEach p (some r.nonce) now (on_wire b.signer.public_key) found
      → AcceptedAs s now found
  unfolding assemble auth_info signer_info ladder_of wire_bytes tx_body sign_doc
  run_accepted w s w' now found k policy chain genesis r carries permits =
      subst (λ x. AcceptedAs x now found) (sym r.result)
        (record {
          verified = v;
          accepts = (verify_signed_tx_iff p signed ctx account now v).1 authenticated;
          account_ids = ap (λ a. a ∷ []) (to_account_id-on_wire p b.signer.public_key);
          claim_is = refl;
          messages = refl;
          sign_mode = mode_of r.options k;
        })
    where
      account : ℕ
      account = unwrap_or 0 b.account_number

      signed : SignedTx
      signed = assemble p b r.nonce r.options r.signature

      key : PublicKey
      key = on_wire b.signer.public_key

      mode : SignMode
      mode = extract_sign_mode p (signer_info p b r.options)

      v : VerifiedTx
      v = record {
        account_ids = to_account_id p key ∷ [];
        trading_key_claim = found;
        wallet_type = infer_wallet_type key;
        sign_mode = mode;
        body = tx_body p b;
        auth_info = auth_info p b r.options;
        nonce = some r.nonce;
        agent_did = b.agent_did;
        verifiable_presentation = b.verifiable_presentation;
        trading_key_address = (signer_info p b r.options).trading_key_address;
      }

      authenticated : Authenticated p signed ctx account now v
      authenticated =
          let (binding, rest, rungs) =
            policy.ladder (p.body_codec.encode (tx_body p b))
              (p.auth_info_codec.encode (auth_info p b r.options)) account r.nonce in
          record {
            body = refl;
            auth_info = refl;
            counts = refl;
            ladder = _;
            ladder_is = ap (map_err signing) rungs;
            seen = (key, found) ∷ [];
            signers = (
              record {
                any = to_proto_any b.signer.public_key;
                public_key = ap some k.published;
                announced =
                    (from_proto_any_iff (to_proto_any b.signer.public_key) key).0
                      (from_proto_any-to_proto_any b.signer.public_key k.key_length);
                signed = record {
                  sig = to_bytes r.signature;
                  sig_at = refl;
                  rung = 0;
                  binding = binding;
                  preimage = _;
                  accepted_preimage = refl;
                  accepts = rw chain (
                      rw genesis (
                        rw (mode_of r.options k) (
                          k.sound (sign_doc p b r.nonce r.options) r.before w' r.signature
                            r.signed)));
                };
                carries = carries;
                permits = permits;
              },
              tt,
            );
            account_ids = refl;
            claim = refl;
            nonce = refl;
            primary = signer_info p b r.options;
            key = key;
            primary_is = refl;
            key_is = (found, refl);
            sign_mode = refl;
            wallet_type = refl;
            agent = (refl, refl, refl);
          }

  -- A transaction that the builder signs without a claim is accepted by a node of its own chain:
  -- for the account of the signer's key, with the builder's messages and the signer's mode. The
  -- signer makes signatures that its key and mode accept, and the node's strictest preimage is the
  -- canonical document.
  pub sign-verify_signed_tx :
      (w : W) (s : SignedTx) (w' : W) (now : ℕ)
      → SignsForKey p b.signer
      → BindsFirst p ctx
      → ctx.chain_id ≡ b.chain_id
      → ctx.genesis_hash ≡ b.genesis_hash
      → b.trading_key_claim ≡ none
      → sign p clock b w ≡ (ok s, w')
      → AcceptedAs s now none
  unfolding embed_claim
  sign-verify_signed_tx w s w' now k policy chain genesis e h =
      let r = sign-Run p clock b w s w' h in
      let o : r.options ≡ none = ground (arith, e, r.claim_from) in
      run_accepted w s w' now none k policy chain genesis r
        (subst (λ x. Carries p x none) (sym o) refl) tt

  -- A transaction that the builder signs with a claim that the signer's own account issued is
  -- accepted by a node of its own chain and genesis as long as the claim has not expired, and the
  -- claim is returned with its signature as Ed25519 bytes. The signer makes signatures that its key
  -- and mode accept, the node's strictest preimage is the canonical document, and the claim has the
  -- right array lengths and numbers in range. Such a claim and its envelope are read back from
  -- their encodings.
  pub sign_claim-verify_signed_tx :
      (w : W) (s : SignedTx) (w' : W) (now : ℕ) (c : TradingKeyClaim)
      → SignsForKey p b.signer
      → BindsFirst p ctx
      → ctx.chain_id ≡ b.chain_id
      → ctx.genesis_hash ≡ b.genesis_hash
      → b.trading_key_claim ≡ some c
      → RoundTrips InRange p.claim_codec
      → RoundTrips IsClaimAny p.any_codec
      → Embedding.IsWellFormed c
      → InRange (to_proto_inner c)
      → c.issuer ≡ to_account_id p b.signer.public_key
      → now < c.expiry_timestamp
      → sign p clock b w ≡ (ok s, w')
      → AcceptedAs s now (some (as_decoded c))
  sign_claim-verify_signed_tx w s w' now c k policy chain genesis e rc ra wf range own early h =
      let r = sign-Run p clock b w s w' h in
      let (valid, start, end, o) = (embed_claim_iff p clock c r.nonce r.before r.options).0 (
        subst (λ x. embed_claim p clock x r.nonce r.before ≡ (ok r.options, r.before)) e
          r.claim_from) in
      run_accepted w s w' now (some (as_decoded c)) k policy chain genesis r
        (subst (λ x. Carries p x (some (as_decoded c))) (sym o)
          (decode-claim_options p c rc ra wf range))
        (record {
          valid = record {
            unexpired = early;
            nonempty = valid.nonempty;
            signed = is_zero-to_bytes c.signature ∙ valid.signed;
          };
          issuer = own ∙ sym (to_account_id-on_wire p b.signer.public_key);
          nonce = r.nonce;
          nonce_is = refl;
          start = start;
          end = end;
        })
