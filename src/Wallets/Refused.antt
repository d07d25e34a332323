-- ===== src/Wallets/Refused.antt =====
-- What the verifier (crates/core/src/verifier.rs) makes of transactions that browser wallets sign
-- (crates/wasm-lib).
use morpheum_signing.Common.{ℕ, ◌≡◌, ◌≢◌, ap, Option, some, Bytes, length, ok, arith}
use mathlib.Core.Path.{subst}
use morpheum_signing.Proto.{SignMode, TxVerifyContext, ClaimOptions}
use morpheum_signing.Primitives.{Primitives}
use morpheum_signing.Types.WalletType.{default_sign_mode}
use morpheum_signing.Types.PublicKey.{
  PublicKey, from_proto_any, to_proto_any, type_url, to_proto_bytes, secp256k1_from_bytes,
}
use morpheum_signing.Types.Signature.{to_bytes}
use morpheum_signing.Types.SignedTx.{SignedTx}
use morpheum_signing.Builder.{TxBuilder, sign, signer_info}
use morpheum_signing.Verifier.Dispatch.{extract_sign_mode}
use morpheum_signing.Verifier.{VerifiedTx, verify_signed_tx}
use morpheum_signing.Verifier.Matrix.{
  Accepts, pure_ed25519, solana, sha256_ecdsa, keccak_ecdsa, personal, ecrecover,
}
use morpheum_signing.Verifier.Built.{verify_signed_tx-Checked}
use morpheum_signing.Signers.Refused.{schnorr-verify_signed_tx}
use morpheum_signing.Wallets.{Browser, Hex}
use morpheum_signing.Wallets.MetaMask.{MetaMask, metamask_public_key_proto}
use morpheum_signing.Wallets.Taproot.{Taproot, taproot_public_key_proto}
use morpheum_signing.Wallets.WasmSigner.{
  metamask, taproot, wasm_signer, wasm_public_key_proto, wasm_wallet_type,
}

address_parses :
    (a : MetaMask) (key : PublicKey)
    → length a.cached_address ≡ 20
    → from_proto_any (metamask_public_key_proto a) ≡ ok key
    → key ≡ PublicKey.evm_address a.cached_address
unfolding from_proto_any metamask_public_key_proto secp256k1_from_bytes
address_parses a key sized h = ground (arith, h, sized)

address_unsupported :
    (p : Primitives) (address doc sig : Bytes)
    → ¬ Accepts p (PublicKey.evm_address address) doc sig SignMode.secp256k1
address_unsupported p address doc sig (pure_ed25519 b e m v) = ground (arith, e)
address_unsupported p address doc sig (solana b e m v) = ground (arith, e)
address_unsupported p address doc sig (sha256_ecdsa b e m v) = ground (arith, e)
address_unsupported p address doc sig (keccak_ecdsa b e m v) = ground (arith, e)
address_unsupported p address doc sig (personal b e m v) = ground (arith, e)
address_unsupported p address doc sig (ecrecover b e m v) = ground (arith, m)

mode_read :
    (p : Primitives) {W : Type 0} (b : TxBuilder p W) (options : Option ClaimOptions)
    (mode : SignMode)
    → b.signer.sign_mode ≡ mode
    → p.sign_mode_of_i32 (p.sign_mode_to_i32 mode) ≡ some mode
    → extract_sign_mode p (signer_info p b options) ≡ mode
unfolding extract_sign_mode signer_info
mode_read p b options mode e read = ground (arith, e, read)

module _ (p : Primitives) {W : Type 0} (br : Browser W) (x : Hex) (clock : W → Option ℕ)
    (b : TxBuilder p W) where
  -- A transaction that is signed with MetaMask in the browser is verified by no node: the wallet
  -- publishes an address of 20 bytes, which the verifier accepts under another mode alone. The mode
  -- is read back from the wire.
  pub metamask-verify_signed_tx :
      (a : MetaMask) (w : W) (s : SignedTx) (w' : W) (ctx : TxVerifyContext)
      (account_number now : ℕ) (v : VerifiedTx)
      → length a.cached_address ≡ 20
      → p.sign_mode_of_i32 (p.sign_mode_to_i32 SignMode.secp256k1) ≡ some SignMode.secp256k1
      → b.signer ≡ wasm_signer p br x (metamask a)
      → sign p clock b w ≡ (ok s, w')
      → verify_signed_tx p s ctx account_number now ≢ ok v
  unfolding wasm_signer wasm_public_key_proto wasm_wallet_type default_sign_mode
  metamask-verify_signed_tx a w s w' ctx account_number now v sized read e h accepted =
      let c = verify_signed_tx-Checked p clock b ctx w s w' account_number now v h accepted in
      let key =
        address_parses a c.key sized
          (subst (λ t. from_proto_any t ≡ ok c.key) (ap (λ g. g.public_key_proto) e) c.key_is) in
      let mode = mode_read p b c.run.options SignMode.secp256k1 (ap (λ g. g.sign_mode) e) read in
      address_unsupported p a.cached_address c.preimage (to_bytes c.run.signature) (
        subst (λ t. Accepts p t c.preimage (to_bytes c.run.signature) SignMode.secp256k1) key
          (subst (λ t. Accepts p c.key c.preimage (to_bytes c.run.signature) t) mode c.accepts))

  -- Nor is one that is signed with the Taproot wallet.
  pub taproot-verify_signed_tx :
      (a : Taproot) (w : W) (s : SignedTx) (w' : W) (ctx : TxVerifyContext) (account_number now : ℕ)
      (v : VerifiedTx)
      → b.signer ≡ wasm_signer p br x (taproot a)
      → sign p clock b w ≡ (ok s, w')
      → verify_signed_tx p s ctx account_number now ≢ ok v
  unfolding wasm_signer wasm_public_key_proto taproot_public_key_proto to_proto_any type_url
      to_proto_bytes
  taproot-verify_signed_tx a w s w' ctx account_number now v e =
      schnorr-verify_signed_tx p clock b a.cached_pubkey w s w' ctx account_number now v
        (ap (λ g. g.public_key_proto) e)
