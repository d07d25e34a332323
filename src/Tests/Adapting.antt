-- ===== src/Tests/Adapting.antt =====
-- The wallet adapters of the native crate in a toy browser, and the bridge, at concrete data.
use morpheum_signing.Common.{◌≡◌, ◌≢◌, ◌↔◌, refl, none, some, replicate, strip_0x, ok, err}
use morpheum_signing.Types.WalletType.{WalletType, default_sign_mode}
use morpheum_signing.Types.Signature.{Signature, to_bytes}
use morpheum_signing.Types.Kind.{HasKind}
use morpheum_signing.Adapters.{Injected}
use morpheum_signing.Adapters.MetaMaskAdapter.{
  new_metamask_adapter, metamask_adapter, metamask_request_signature,
}
use morpheum_signing.Adapters.Sized.{by_metamask, request_signature-HasKind}
use morpheum_signing.CryptogramBridge.{
  wallet_type_to_sig_type, sig_type_to_wallet_type, hex_sig_to_signature,
}
use morpheum_signing.CryptogramBridge.Agreement.{hex_sig_to_signature-default_sign_mode}
use morpheum_signing.Tests.Toy.{toy}
use morpheum_signing.Tests.Connecting.{browser, hex}

abbrev injected : Injected browser
injected = record {
  ethereum = λ w. some "ethereum";
  phantom = λ w. some "phantom";
  unisat = λ w. none;
  solana = λ v w. some "solana";
  array_of1 = λ v w. ("[]", w);
  base64_decode = λ s. err "unreadable";
}

abbrev nothing : toy.SignDoc
nothing = replicate 0 0

abbrev answer : Signature
answer = Signature.secp256k1 (replicate 64 4)

asks_twice :
    metamask_request_signature toy browser injected (hex 65) new_metamask_adapter nothing 3
    ≡ (ok answer, 5)
unfolding metamask_request_signature
asks_twice = refl

request_signature-HasKind_example : HasKind (default_sign_mode WalletType.evm) answer
unfolding metamask_adapter
request_signature-HasKind_example =
    request_signature-HasKind toy browser injected (hex 65) nothing 3 answer 5
      (by_metamask new_metamask_adapter) refl

hardware_signature :
    hex_sig_to_signature (hex 64) "0x04" (wallet_type_to_sig_type WalletType.hardware) ≡ ok answer
unfolding hex_sig_to_signature wallet_type_to_sig_type
hardware_signature = refl

mapped_back :
    sig_type_to_wallet_type (wallet_type_to_sig_type WalletType.hardware) ≡ some WalletType.evm
unfolding sig_type_to_wallet_type wallet_type_to_sig_type
mapped_back = refl

hex_sig_to_signature-default_sign_mode_example :
    ((hex 64).decode (strip_0x "0x04") ≡ ok (to_bytes answer))
    × (HasKind (default_sign_mode WalletType.hardware) answer
        ↔ (WalletType.hardware ≢ WalletType.hardware))
    × ((default_sign_mode WalletType.evm ≡ default_sign_mode WalletType.hardware)
        ↔ (WalletType.hardware ≢ WalletType.hardware))
hex_sig_to_signature-default_sign_mode_example =
    hex_sig_to_signature-default_sign_mode (hex 64) "0x04" WalletType.hardware WalletType.evm answer
      hardware_signature mapped_back
