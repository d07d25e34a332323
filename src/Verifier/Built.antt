-- ===== src/Verifier/Built.antt =====
-- What the verifier (crates/core/src/verifier.rs) has found out about a transaction of the builder
-- (crates/core/src/builder.rs) that it accepts.
use morpheum_signing.Common.{ℕ, ◌≡◌, Option, some, List, [], ◌∷◌, Bytes, get_elem?, ok, arith}
use mathlib.Core.Path.{subst}
use morpheum_signing.Proto.{TxVerifyContext, SignerInfo}
use morpheum_signing.Primitives.{Primitives}
use morpheum_signing.Types.PublicKey.{PublicKey, from_proto_any}
use morpheum_signing.Types.PublicKey.Wire.{from_proto_any_iff}
use morpheum_signing.Types.Signature.{to_bytes}
use morpheum_signing.Types.SignedTx.{SignedTx}
use morpheum_signing.Claim.{TradingKeyClaim}
use morpheum_signing.Builder.{TxBuilder, sign, assemble, auth_info, signer_info}
use morpheum_signing.Builder.Covered.{Run, sign-Run}
use morpheum_signing.Verifier.Dispatch.{extract_sign_mode}
use morpheum_signing.Verifier.{VerifiedTx, verify_signed_tx, ladder_of}
use morpheum_signing.Verifier.Matrix.{Accepts}
use morpheum_signing.Verifier.Signers.{Signers, Authentic}
use morpheum_signing.Verifier.Sound.{verify_signed_tx_iff}

-- The one signer of a transaction is authentic.
pub only_signer :
    (p : Primitives) (s : SignedTx) (now : ℕ) (ladder : List (p.Binding × Bytes))
    (info : SignerInfo) (seen : List (PublicKey × Option TradingKeyClaim))
    → Signers p ladder s.tx.signatures s.tx.nonce now 0 (info ∷ []) seen
    → (key : PublicKey) × (found : Option TradingKeyClaim) × Authentic p ladder s.tx.signatures
        s.tx.nonce now 0 info key found
only_signer p s now ladder info [] all = absurd all
only_signer p s now ladder info (f ∷ g ∷ seen) all = absurd all.1
only_signer p s now ladder info ((key, found) ∷ []) (q, u) = (key, found, q)

module _ (p : Primitives) {W : Type 0} (clock : W → Option ℕ) (b : TxBuilder p W)
    (ctx : TxVerifyContext) where
  -- The key that the signer publishes is read back, and the signature that the signer made is
  -- accepted for that key and the signer's mode, over a preimage of the ladder.
  pub record Checked (w : W) (s : SignedTx) (w' : W) (account_number : ℕ) : Type 0 where
    pub run : Run p clock b w s w'
    pub verdict : VerifiedTx
    pub ladder : List (p.Binding × Bytes)
    pub ladder_is : ladder_of p s verdict.body verdict.auth_info account_number ctx ≡ ok ladder
    pub key : PublicKey
    pub key_is : from_proto_any b.signer.public_key_proto ≡ ok key
    pub rung : ℕ
    pub binding : p.Binding
    pub preimage : Bytes
    pub on_ladder : get_elem? ladder rung ≡ some (binding, preimage)
    pub accepts :
        Accepts p key preimage
          (to_bytes run.signature)
          (extract_sign_mode p (signer_info p b run.options))

  pub verify_signed_tx-Checked :
      (w : W) (s : SignedTx) (w' : W) (account_number now : ℕ) (v : VerifiedTx)
      → sign p clock b w ≡ (ok s, w')
      → verify_signed_tx p s ctx account_number now ≡ ok v
      → Checked w s w' account_number
  unfolding assemble auth_info signer_info
  verify_signed_tx-Checked w s w' account_number now v h accepted =
      let r = sign-Run p clock b w s w' h in
      let a = (verify_signed_tx_iff p s ctx account_number now v).0 accepted in
      let infos : v.auth_info.signer_infos ≡ signer_info p b r.options ∷ [] =
        ground (arith, a.auth_info, r.result) in
      let (key, found, q) = only_signer p s now a.ladder (signer_info p b r.options) a.seen (
        subst (λ l. Signers p a.ladder s.tx.signatures s.tx.nonce now 0 l a.seen) infos
          a.signers) in
      let any : q.any ≡ b.signer.public_key_proto = ground (arith, q.public_key) in
      let sig : q.signed.sig ≡ to_bytes r.signature = ground (arith, q.signed.sig_at, r.result) in
      record {
        run = r;
        verdict = v;
        ladder = a.ladder;
        ladder_is = a.ladder_is;
        key = key;
        key_is =
            subst (λ t. from_proto_any t ≡ ok key) any
              ((from_proto_any_iff q.any key).1 q.announced);
        rung = q.signed.rung;
        binding = q.signed.binding;
        preimage = q.signed.preimage;
        on_ladder = q.signed.accepted_preimage;
        accepts =
            subst
              (λ t.
                Accepts p key q.signed.preimage t (extract_sign_mode p (signer_info p b r.options)))
              sig q.signed.accepts;
      }
