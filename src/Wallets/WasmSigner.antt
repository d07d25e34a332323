-- ===== src/Wallets/WasmSigner.antt =====
-- The one signer type over the browser wallets (crates/wasm-lib/src/signer.rs).
use morpheum_signing.Common.{none}
use morpheum_signing.Proto.{Any}
use morpheum_signing.Primitives.{Primitives}
use morpheum_signing.Exec.{Exec}
use morpheum_signing.Types.WalletType.{WalletType, default_sign_mode}
use morpheum_signing.Types.Address.{AccountId}
use morpheum_signing.Types.PublicKey.{PublicKey}
use morpheum_signing.Types.Signature.{Signature}
use morpheum_signing.Signer.{Signer}
use morpheum_signing.Wallets.{Browser, Hex}
use morpheum_signing.Wallets.MetaMask.{
  MetaMask, metamask_sign_impl, metamask_public_key, metamask_public_key_proto, metamask_account_id,
}
use morpheum_signing.Wallets.Phantom.{
  Phantom, phantom_sign_impl, phantom_public_key, phantom_public_key_proto, phantom_account_id,
}
use morpheum_signing.Wallets.Taproot.{
  Taproot, taproot_sign_impl, taproot_public_key, taproot_public_key_proto, taproot_account_id,
}

pub data WasmSigner : Type 0 where
  metamask : MetaMask → WasmSigner
  phantom : Phantom → WasmSigner
  taproot : Taproot → WasmSigner

module _ (p : Primitives) {W : Type 0} (b : Browser W) (x : Hex) where
  unfoldable pub wasm_sign : WasmSigner → p.SignDoc → Exec W Signature
  unfolding metamask_sign_impl phantom_sign_impl taproot_sign_impl
  wasm_sign (metamask a) doc = metamask_sign_impl p b x a doc
  wasm_sign (phantom a) doc = phantom_sign_impl p b a doc
  wasm_sign (taproot a) doc = taproot_sign_impl p b x a doc

unfoldable pub wasm_public_key : WasmSigner → PublicKey
unfolding metamask_public_key phantom_public_key taproot_public_key
wasm_public_key (metamask a) = metamask_public_key a
wasm_public_key (phantom a) = phantom_public_key a
wasm_public_key (taproot a) = taproot_public_key a

unfoldable pub wasm_wallet_type : WasmSigner → WalletType
wasm_wallet_type (metamask a) = WalletType.evm
wasm_wallet_type (phantom a) = WalletType.solana
wasm_wallet_type (taproot a) = WalletType.bitcoin

unfoldable pub wasm_account_id : (p : Primitives) → WasmSigner → AccountId
unfolding metamask_account_id phantom_account_id taproot_account_id
wasm_account_id p (metamask a) = metamask_account_id p a
wasm_account_id p (phantom a) = phantom_account_id p a
wasm_account_id p (taproot a) = taproot_account_id p a

unfoldable pub wasm_public_key_proto : WasmSigner → Any
unfolding metamask_public_key_proto phantom_public_key_proto taproot_public_key_proto
wasm_public_key_proto (metamask a) = metamask_public_key_proto a
wasm_public_key_proto (phantom a) = phantom_public_key_proto a
wasm_public_key_proto (taproot a) = taproot_public_key_proto a

module _ (p : Primitives) {W : Type 0} (b : Browser W) (x : Hex) where
  -- the trait, whose other methods keep their defaults
  unfoldable pub wasm_signer : WasmSigner → Signer p W
  unfolding wasm_sign wasm_public_key wasm_wallet_type wasm_account_id wasm_public_key_proto
  wasm_signer s = record {
    sign = wasm_sign p b x s;
    public_key = wasm_public_key s;
    wallet_type = wasm_wallet_type s;
    account_id = wasm_account_id p s;
    public_key_proto = wasm_public_key_proto s;
    sign_mode = default_sign_mode (wasm_wallet_type s);
    trading_key_claim = none;
  }
