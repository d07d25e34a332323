-- ===== src/Signers/Refused.antt =====
-- The verifier (crates/core/src/verifier.rs) refuses the signatures of the Bitcoin signer
-- (crates/native/src/signers/bitcoin.rs).
use morpheum_signing.Common.{ℕ, ◌≡◌, ◌≢◌, ap, Option, Bytes, ok, arith}
use mathlib.Core.Path.{subst}
use morpheum_signing.Proto.{SignMode, TxVerifyContext}
use morpheum_signing.Primitives.{Primitives}
use morpheum_signing.Types.PublicKey.{
  PublicKey, from_proto_any, to_proto_any, type_url, to_proto_bytes,
}
use morpheum_signing.Types.SignedTx.{SignedTx}
use morpheum_signing.Builder.{TxBuilder, sign, signer_info}
use morpheum_signing.Verifier.Dispatch.{extract_sign_mode}
use morpheum_signing.Verifier.{VerifiedTx, verify_signed_tx}
use morpheum_signing.Verifier.Matrix.{
  Accepts, pure_ed25519, solana, sha256_ecdsa, keccak_ecdsa, personal, ecrecover,
}
use morpheum_signing.Verifier.Built.{verify_signed_tx-Checked}
use morpheum_signing.Types.Signature.{to_bytes}
use morpheum_signing.Signers.{Curves, BitcoinSigner, bitcoin_signer}

schnorr_parses :
    (k : Bytes) (key : PublicKey)
    → from_proto_any (to_proto_any (PublicKey.schnorr k)) ≡ ok key
    → key ≡ PublicKey.schnorr k
unfolding from_proto_any to_proto_any type_url to_proto_bytes
schnorr_parses k key h = ground (arith, h)

schnorr_unsupported :
    (p : Primitives) (k doc sig : Bytes) (mode : SignMode)
    → ¬ Accepts p (PublicKey.schnorr k) doc sig mode
schnorr_unsupported p k doc sig mode (pure_ed25519 b e m v) = ground (arith, e)
schnorr_unsupported p k doc sig mode (solana b e m v) = ground (arith, e)
schnorr_unsupported p k doc sig mode (sha256_ecdsa b e m v) = ground (arith, e)
schnorr_unsupported p k doc sig mode (keccak_ecdsa b e m v) = ground (arith, e)
schnorr_unsupported p k doc sig mode (personal b e m v) = ground (arith, e)
schnorr_unsupported p k doc sig mode (ecrecover b e m v) = ground (arith, e)

module _ (p : Primitives) {W : Type 0} (clock : W → Option ℕ) (b : TxBuilder p W) where
  -- A transaction whose signer publishes a Schnorr key is verified by no node, whatever the signer
  -- does, and whatever the node's policy, the account number and the time.
  pub schnorr-verify_signed_tx :
      (k : Bytes) (w : W) (s : SignedTx) (w' : W) (ctx : TxVerifyContext) (account_number now : ℕ)
      (v : VerifiedTx)
      → b.signer.public_key_proto ≡ to_proto_any (PublicKey.schnorr k)
      → sign p clock b w ≡ (ok s, w')
      → verify_signed_tx p s ctx account_number now ≢ ok v
  schnorr-verify_signed_tx k w s w' ctx account_number now v published h accepted =
      let c = verify_signed_tx-Checked p clock b ctx w s w' account_number now v h accepted in
      let key =
        schnorr_parses k c.key (subst (λ t. from_proto_any t ≡ ok c.key) published c.key_is) in
      schnorr_unsupported p k c.preimage (to_bytes c.run.signature)
        (extract_sign_mode p (signer_info p b c.run.options))
        (subst
          (λ t.
            Accepts p t c.preimage (to_bytes c.run.signature)
              (extract_sign_mode p (signer_info p b c.run.options)))
          key c.accepts)

module _ (p : Primitives) (c : Curves) {W : Type 0} (clock : W → Option ℕ) (b : TxBuilder p W) where
  -- A transaction that is signed with the Bitcoin signer is verified by no node, whatever its
  -- policy, the account number and the time.
  pub bitcoin_signer-verify_signed_tx :
      (x : BitcoinSigner c) (w : W) (s : SignedTx) (w' : W) (ctx : TxVerifyContext)
      (account_number now : ℕ) (v : VerifiedTx)
      → b.signer ≡ bitcoin_signer p c x
      → sign p clock b w ≡ (ok s, w')
      → verify_signed_tx p s ctx account_number now ≢ ok v
  unfolding bitcoin_signer
  bitcoin_signer-verify_signed_tx x w s w' ctx account_number now v e =
      schnorr-verify_signed_tx p clock b x.x_only_pubkey w s w' ctx account_number now v
        (ap (λ g. g.public_key_proto) e)
