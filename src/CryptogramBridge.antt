-- ===== src/CryptogramBridge.antt =====
-- crates/core/src/cryptogram_bridge.rs: the conversions between the types of the library and those of
-- cryptogram. Cryptogram itself is a parameter; the enumeration of its signature types keeps the
-- names that the program uses.
pub mod Agreement
use Prim.Native.String.{◌++◌ as str_append}
use morpheum_signing.Common.{
  ℕ, String, Bool, Option, none, some, List, Bytes, strip_0x, to_string, try_into, Result, ok,
  map_err, ok_or, ◌>>=◌,
}
use morpheum_signing.Error.{SigningError, CryptoError, invalid_key, signing, crypto, custom}
use morpheum_signing.Types.WalletType.{WalletType}
use morpheum_signing.Types.Signature.{Signature}
use morpheum_signing.Wallets.{Hex}

-- `other` is a type that the program never names.
pub data SigType : Type 0 where
  ed25519 ed25519_legacy_sui ed25519_legacy_ton ed25519_legacy_ada : SigType
  ecdsa_legacy_ethereum ecdsa_legacy keccak256 ecdsa_legacy_bitcoin ecdsa_segwit : SigType
  ecdsa_segwit_like ecdsa_nested_segwit ecdsa_legacy_tron ecdsa_legacy_sui : SigType
  schnorr_taproot schnorr_aggregate : SigType
  other : ℕ → SigType

-- the errors of cryptogram, an inner one as the text that it displays
pub data CryptogramError : Type 0 where
  invalid_secret_key : CryptogramError
  invalid_digest_len : ℕ → CryptogramError
  invalid_signature_len : ℕ → CryptogramError
  invalid_signature_encoding : String → CryptogramError
  recovery_failed : CryptogramError
  unsupported_sig_type : String → CryptogramError
  ecdsa_mldsa44 : String → CryptogramError
  bls : String → CryptogramError
  unknown : String → CryptogramError

pub record Cryptogram : Type 1 where
  pub Eip712Signature : Type 0
  pub ChainType : Type 0
  pub generate_single_from_digest :
      Bytes → SigType → Bytes → Bytes → Result CryptogramError (String × String)
  pub verify_single_from_digest :
      Bytes → List Eip712Signature → SigType → ℕ → Result CryptogramError Bool
  pub validate_address_for_chain : String → ChainType → Result String (Unit {0})

unfoldable pub wallet_type_to_sig_type : WalletType → SigType
wallet_type_to_sig_type WalletType.native = ed25519
wallet_type_to_sig_type WalletType.evm = ecdsa_legacy_ethereum
wallet_type_to_sig_type WalletType.solana = ed25519
wallet_type_to_sig_type WalletType.bitcoin = schnorr_taproot
wallet_type_to_sig_type WalletType.agent = ed25519
wallet_type_to_sig_type WalletType.hardware = ecdsa_legacy_ethereum

unfoldable pub sig_type_to_wallet_type : SigType → Option WalletType
sig_type_to_wallet_type ed25519 = some WalletType.native
sig_type_to_wallet_type ecdsa_legacy_ethereum = some WalletType.evm
sig_type_to_wallet_type ecdsa_legacy = some WalletType.evm
sig_type_to_wallet_type keccak256 = some WalletType.evm
sig_type_to_wallet_type ecdsa_legacy_bitcoin = some WalletType.evm
sig_type_to_wallet_type ecdsa_segwit = some WalletType.evm
sig_type_to_wallet_type ecdsa_segwit_like = some WalletType.evm
sig_type_to_wallet_type ecdsa_nested_segwit = some WalletType.evm
sig_type_to_wallet_type ecdsa_legacy_tron = some WalletType.evm
sig_type_to_wallet_type ecdsa_legacy_sui = some WalletType.evm
sig_type_to_wallet_type schnorr_taproot = some WalletType.bitcoin
sig_type_to_wallet_type schnorr_aggregate = some WalletType.bitcoin
sig_type_to_wallet_type ed25519_legacy_sui = some WalletType.solana
sig_type_to_wallet_type ed25519_legacy_ton = some WalletType.solana
sig_type_to_wallet_type ed25519_legacy_ada = some WalletType.solana
sig_type_to_wallet_type (other n) = none

-- `From<cc::CryptoError> for SigningError`
unfoldable pub from_crypto_error : CryptogramError → SigningError
from_crypto_error invalid_secret_key = invalid_key "invalid secret key"
from_crypto_error (invalid_digest_len len) =
    signing (str_append "invalid digest length: expected 32, got " (to_string len))
from_crypto_error (invalid_signature_len len) =
    crypto (
      CryptoError.ed25519
        (str_append "invalid signature length: expected 65, got " (to_string len)))
from_crypto_error (invalid_signature_encoding msg) = crypto (CryptoError.secp256k1 msg)
from_crypto_error recovery_failed = crypto CryptoError.signature_verification_failed
from_crypto_error (unsupported_sig_type s) = signing (str_append "unsupported signature type: " s)
from_crypto_error (ecdsa_mldsa44 msg) = signing (str_append "ECDSA+ML-DSA-44: " msg)
from_crypto_error (bls msg) = signing (str_append "BLS: " msg)
from_crypto_error (unknown e) = signing e

-- `From<ms::auth::AuthError>` and `From<ms::tx::TxError>`, of the texts that they display
unfoldable pub from_auth_error : String → SigningError
from_auth_error e = custom e

unfoldable pub from_tx_error : String → SigningError
from_tx_error e = signing e

pub record CryptogramSignResult : Type 0 where
  pub signature_hex : String
  pub signer_hex : String

-- the match on the type of a signature of 64 bytes
unfoldable pub signature_of_sig_type : SigType → Bytes → Signature
signature_of_sig_type ed25519 arr = Signature.ed25519 arr
signature_of_sig_type ed25519_legacy_ada arr = Signature.ed25519 arr
signature_of_sig_type ed25519_legacy_sui arr = Signature.ed25519 arr
signature_of_sig_type ed25519_legacy_ton arr = Signature.ed25519 arr
signature_of_sig_type schnorr_taproot arr = Signature.schnorr arr
signature_of_sig_type schnorr_aggregate arr = Signature.schnorr arr
signature_of_sig_type _ arr = Signature.secp256k1 arr

unfoldable pub hex_sig_to_signature : Hex → String → SigType → Result SigningError Signature
unfolding signature_of_sig_type
hex_sig_to_signature x sig_hex sig_type = do
  bytes ←
      map_err (λ e. signing (str_append "invalid hex signature: " e)) (x.decode (strip_0x sig_hex))
  arr ← ok_or (try_into 64 bytes) (signing "signature must be 64 bytes for SDK conversion")
  ok (signature_of_sig_type sig_type arr)

module _ (c : Cryptogram) where
  unfoldable pub sign_digest :
      Bytes → SigType → Bytes → Bytes → Result SigningError CryptogramSignResult
  unfolding from_crypto_error
  sign_digest digest sig_type secret_key signer_address = do
    made ←
        map_err from_crypto_error
          (c.generate_single_from_digest digest sig_type secret_key signer_address)
    ok (record { signature_hex = made.0; signer_hex = made.1 })

  unfoldable pub verify_digest :
      Bytes → List c.Eip712Signature → SigType → ℕ → Result SigningError Bool
  unfolding from_crypto_error
  verify_digest digest signatures sig_type threshold =
      map_err from_crypto_error (c.verify_single_from_digest digest signatures sig_type threshold)

  unfoldable pub validate_chain_address : String → c.ChainType → Result SigningError (Unit {0})
  validate_chain_address address chain_type =
      map_err (λ reason. SigningError.address_mapping address reason)
        (c.validate_address_for_chain address chain_type)
