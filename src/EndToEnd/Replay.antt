-- ===== src/EndToEnd/Replay.antt =====
-- What becomes of a signature of the builder (crates/core/src/builder.rs) that is carried over to
-- another transaction or to another chain (crates/core/src/verifier.rs).
use morpheum_signing.Common.{
  ℕ, ◌≡◌, ◌≢◌, ◌⊎◌, refl, sym, ap, ◌∙◌, String, Option, some, List, [], ◌∷◌, Bytes, get_elem?,
  bytes_eq, bytes_eq_iff, Bool-cases, ok, inl, inr, arith,
}
use mathlib.Core.Path.{subst}
use morpheum_signing.Proto.{Nonce, SignMode, SignerInfo, TxVerifyContext, ClaimOptions}
use morpheum_signing.Primitives.{Primitives}
use morpheum_signing.Types.PublicKey.{PublicKey, from_proto_any}
use morpheum_signing.Types.PublicKey.Wire.{from_proto_any_iff}
use morpheum_signing.Types.Signature.{to_bytes}
use morpheum_signing.Types.SignedTx.{SignedTx}
use morpheum_signing.Builder.{TxBuilder, unwrap_or, sign, sign_doc, assemble, auth_info, tx_body}
use morpheum_signing.Builder.Covered.{Run, sign-Run}
use morpheum_signing.Verifier.Dispatch.{extract_sign_mode}
use morpheum_signing.Verifier.Matrix.{Accepts}
use morpheum_signing.Verifier.{VerifiedTx, verify_signed_tx, ladder_of, wire_bytes}
use morpheum_signing.Verifier.Signers.{Signers}
use morpheum_signing.Verifier.Built.{only_signer}
use morpheum_signing.Verifier.Sound.{verify_signed_tx_iff}

-- What a document is about.
pub record Terms : Type 0 where
  pub body_bytes : Bytes
  pub auth_info_bytes : Bytes
  pub chain_id : String
  pub account_number : ℕ
  pub genesis_hash : Bytes
  pub nonce : Option Nonce

module _ (p : Primitives) where
  abbrev pub document_bytes : Terms → Bytes
  document_bytes t = p.encode_sign_doc (
      p.canonical_sign_doc t.body_bytes t.auth_info_bytes t.chain_id t.account_number t.genesis_hash
        t.nonce)

  -- The encoding of a canonical document determines what it is about.
  pub record DeterminesTerms : Type 0 where
    pub terms : (t u : Terms) → document_bytes t ≡ document_bytes u → t ≡ u

  -- The terms under which a node checks a transaction, with its own chain and account number.
  abbrev pub checked_terms : TxVerifyContext → ℕ → SignedTx → VerifiedTx → Terms
  checked_terms ctx account_number s v = record {
    body_bytes = (wire_bytes p s v.body v.auth_info).0;
    auth_info_bytes = (wire_bytes p s v.body v.auth_info).1;
    chain_id = ctx.chain_id;
    account_number = account_number;
    genesis_hash = ctx.genesis_hash;
    nonce = s.tx.nonce;
  }

  -- The terms that the signer of a builder is asked to sign.
  abbrev pub signed_terms : {W : Type 0} → TxBuilder p W → Nonce → Option ClaimOptions → Terms
  signed_terms b nonce options = record {
    body_bytes = p.body_codec.encode (tx_body p b);
    auth_info_bytes = p.auth_info_codec.encode (auth_info p b options);
    chain_id = b.chain_id;
    account_number = unwrap_or 0 b.account_number;
    genesis_hash = b.genesis_hash;
    nonce = some nonce;
  }

  -- The policy of a node that accepts no preimage but the one that is bound to everything.
  pub record BindsAlways (ctx : TxVerifyContext) : Type 0 where
    pub rungs :
        (body info : Bytes) (account_number : ℕ) (nonce : Option Nonce)
        (ladder : List (p.Binding × Bytes)) (i : ℕ) (binding : p.Binding) (preimage : Bytes)
        → p.accepted_preimages body info account_number nonce ctx ≡ ok ladder
        → get_elem? ladder i ≡ some (binding, preimage)
        → preimage
          ≡ p.encode_sign_doc
              (p.canonical_sign_doc body info ctx.chain_id account_number ctx.genesis_hash nonce)

  -- A signature that is accepted for the published key of a signer over a message that the signer
  -- was not asked to sign.
  pub record Forged {W : Type 0} (b : TxBuilder p W) (asked sig : Bytes) : Type 0 where
    pub key : PublicKey
    pub key_is : from_proto_any b.signer.public_key_proto ≡ ok key
    pub mode : SignMode
    pub message : Bytes
    pub other : message ≢ asked
    pub accepts : Accepts p key message sig mode

module _ (p : Primitives) {W : Type 0} (clock : W → Option ℕ) (b : TxBuilder p W)
    (ctx : TxVerifyContext) where
  -- A preimage of the ladder is the document about what the node checks.
  pub rung_terms :
      (t : SignedTx) (account_number : ℕ) (v : VerifiedTx) (ladder : List (p.Binding × Bytes))
      (i : ℕ) (binding : p.Binding) (preimage : Bytes)
      → BindsAlways p ctx
      → ladder_of p t v.body v.auth_info account_number ctx ≡ ok ladder
      → get_elem? ladder i ≡ some (binding, preimage)
      → preimage ≡ document_bytes p (checked_terms p ctx account_number t v)
  unfolding ladder_of
  rung_terms t account_number v ladder i binding preimage policy l at =
      policy.rungs (wire_bytes p t v.body v.auth_info).0 (wire_bytes p t v.body v.auth_info).1
        account_number t.tx.nonce ladder i binding preimage (ground (arith, l)) at

  -- What the verifier has found out about the one signer of a transaction.
  record Replayed (t : SignedTx) (account_number : ℕ) (v : VerifiedTx) (sig : Bytes) : Type 0 where
    pub key : PublicKey
    pub key_is : from_proto_any b.signer.public_key_proto ≡ ok key
    pub mode : SignMode
    pub preimage : Bytes
    pub preimage_is : preimage ≡ document_bytes p (checked_terms p ctx account_number t v)
    pub accepts : Accepts p key preimage sig mode

  replayed :
      (t : SignedTx) (account_number now : ℕ) (v : VerifiedTx) (info : SignerInfo) (sig : Bytes)
      → BindsAlways p ctx
      → verify_signed_tx p t ctx account_number now ≡ ok v
      → v.auth_info.signer_infos ≡ info ∷ []
      → info.public_key ≡ some b.signer.public_key_proto
      → t.tx.signatures ≡ sig ∷ []
      → Replayed t account_number v sig
  replayed t account_number now v info sig policy accepted only published carried =
      let a = (verify_signed_tx_iff p t ctx account_number now v).0 accepted in
      let (key, found, q) = only_signer p t now a.ladder info a.seen (
        subst (λ l. Signers p a.ladder t.tx.signatures t.tx.nonce now 0 l a.seen) only a.signers) in
      let any : q.any ≡ b.signer.public_key_proto = ground (arith, q.public_key, published) in
      let same : q.signed.sig ≡ sig = ground (arith, q.signed.sig_at, carried) in
      record {
        key = key;
        key_is =
            subst (λ x. from_proto_any x ≡ ok key) any
              ((from_proto_any_iff q.any key).1 q.announced);
        mode = extract_sign_mode p info;
        preimage = q.signed.preimage;
        preimage_is =
            rung_terms t account_number v a.ladder q.signed.rung q.signed.binding q.signed.preimage
              policy a.ladder_is q.signed.accepted_preimage;
        accepts =
            subst (λ x. Accepts p key q.signed.preimage x (extract_sign_mode p info)) same
              q.signed.accepts;
      }

  asked_terms :
      (nonce : Nonce) (options : Option ClaimOptions)
      → document_bytes p (signed_terms p b nonce options)
        ≡ p.encode_sign_doc (sign_doc p b nonce options)
  unfolding sign_doc
  asked_terms nonce options = refl

  one_signature :
      (w : W) (s : SignedTx) (w' : W)
      → (r : Run p clock b w s w') → s.tx.signatures ≡ to_bytes r.signature ∷ []
  unfolding assemble
  one_signature w s w' r = ap (λ x. x.tx.signatures) r.result

  -- If a transaction carries the signature and the key of a transaction that the builder signed,
  -- and a node accepts it whose policy binds every preimage, then it is about what the builder
  -- signed: the same body, signer infos and nonce, on the builder's own chain, genesis and account
  -- number. Otherwise the signature is a forgery, accepted for the signer's key over a message that
  -- the signer was not asked to sign. An encoded document determines what it is about.
  pub sign-replayed :
      (w : W) (s : SignedTx) (w' : W) (t : SignedTx) (account_number now : ℕ) (v : VerifiedTx)
      (info : SignerInfo)
      → DeterminesTerms p
      → BindsAlways p ctx
      → sign p clock b w ≡ (ok s, w')
      → verify_signed_tx p t ctx account_number now ≡ ok v
      → t.tx.signatures ≡ s.tx.signatures
      → v.auth_info.signer_infos ≡ info ∷ []
      → info.public_key ≡ some b.signer.public_key_proto
      → (r : Run p clock b w s w') × ((checked_terms p ctx account_number t v
            ≡ signed_terms p b r.nonce r.options)
          ⊎ Forged p b (p.encode_sign_doc (sign_doc p b r.nonce r.options)) (to_bytes r.signature))
  sign-replayed w s w' t account_number now v info law policy h accepted same only published =
      let r = sign-Run p clock b w s w' h in
      let x =
        replayed t account_number now v info (to_bytes r.signature) policy accepted only published
          (same ∙ one_signature w s w' r) in
      let asked = p.encode_sign_doc (sign_doc p b r.nonce r.options) in
      (
        r,
        elim (Bool-cases (bytes_eq x.preimage asked)) [
          | inl e ↦ inl (
              law.terms _ _ (
                sym x.preimage_is
                ∙ (bytes_eq_iff x.preimage asked).0 e
                ∙ sym (asked_terms r.nonce r.options)))
          | inr ne ↦ inr (record {
            key = x.key;
            key_is = x.key_is;
            mode = x.mode;
            message = x.preimage;
            other = λ e. ground (arith, ne, (bytes_eq_iff x.preimage asked).1 e);
            accepts = x.accepts;
          })
        ],
      )
