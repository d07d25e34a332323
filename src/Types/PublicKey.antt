-- ===== src/Types/PublicKey.antt =====
-- `PublicKey` of crates/core/src/types.rs. A key holds the bytes of an array whose length is a
-- part of `IsWellFormed`.
pub mod Wire
use morpheum_signing.Common.{
  ℕ, ◌≡◌, Bool, String, Bytes, length, try_into, str_eq, ◌==◌, ◌||◌, if◌then◌else◌, Result, ok, err,
  ok_or, ◌>>=◌,
}
use Prim.Native.String.{◌++◌ as str_append}
use morpheum_signing.Proto.{Any}
use morpheum_signing.Error.{SigningError, crypto, signing, invalid_public_key_length}
use morpheum_signing.Primitives.{Primitives}
use morpheum_signing.Types.WalletType.{WalletType}
use morpheum_signing.Types.Address.{AccountId}

pub data PublicKey : Type 0 where
  ed25519 : Bytes → PublicKey
  secp256k1 : Bytes → PublicKey
  evm_address : Bytes → PublicKey
  schnorr : Bytes → PublicKey
  agent : Bytes → PublicKey

abbrev pub bad_length : SigningError
bad_length = crypto invalid_public_key_length

abbrev pub unsupported_url : String → SigningError
unsupported_url url = signing (str_append "unsupported public key type_url: " url)

-- the match on `value.len()` in the secp256k1 arm
unfoldable pub secp256k1_from_bytes : Bytes → Result SigningError PublicKey
secp256k1_from_bytes value =
    if length value == 33
    then ok (secp256k1 value)
    else if length value == 20
    then ok (evm_address value)
    else err bad_length

abbrev pub is_ed25519_url : String → Bool
is_ed25519_url url =
    str_eq url "/morpheum.crypto.ed25519.PubKey" || str_eq url "/cosmos.crypto.ed25519.PubKey"

abbrev pub is_secp256k1_url : String → Bool
is_secp256k1_url url =
    str_eq url "/morpheum.crypto.secp256k1.PubKey" || str_eq url "/cosmos.crypto.secp256k1.PubKey"

abbrev pub is_schnorr_url : String → Bool
is_schnorr_url url = str_eq url "/morpheum.crypto.schnorr.PubKey"

unfoldable pub from_proto_any : Any → Result SigningError PublicKey
unfolding secp256k1_from_bytes
from_proto_any any =
    if is_ed25519_url any.type_url
    then (do bytes ← ok_or (try_into 32 any.value) bad_length; ok (ed25519 bytes))
    else if is_secp256k1_url any.type_url
    then secp256k1_from_bytes any.value
    else if is_schnorr_url any.type_url
    then (do bytes ← ok_or (try_into 32 any.value) bad_length; ok (schnorr bytes))
    else err (unsupported_url any.type_url)

unfoldable pub infer_wallet_type : PublicKey → WalletType
infer_wallet_type (ed25519 _) = WalletType.native
infer_wallet_type (secp256k1 _) = WalletType.evm
infer_wallet_type (evm_address _) = WalletType.evm
infer_wallet_type (schnorr _) = WalletType.bitcoin
infer_wallet_type (agent _) = WalletType.agent

unfoldable pub type_url : PublicKey → String
type_url (ed25519 _) = "/morpheum.crypto.ed25519.PubKey"
type_url (agent _) = "/morpheum.crypto.ed25519.PubKey"
type_url (secp256k1 _) = "/morpheum.crypto.secp256k1.PubKey"
type_url (evm_address _) = "/morpheum.crypto.secp256k1.PubKey"
type_url (schnorr _) = "/morpheum.crypto.schnorr.PubKey"

unfoldable pub to_proto_bytes : PublicKey → Bytes
to_proto_bytes (ed25519 b) = b
to_proto_bytes (agent b) = b
to_proto_bytes (schnorr b) = b
to_proto_bytes (secp256k1 b) = b
to_proto_bytes (evm_address b) = b

unfoldable pub to_proto_any : PublicKey → Any
to_proto_any key = record { type_url = type_url key; value = to_proto_bytes key }

-- `to_account_id` hashes the same bytes that `to_proto_bytes` returns, by a match of its own.
unfoldable pub key_bytes : PublicKey → Bytes
key_bytes (ed25519 b) = b
key_bytes (agent b) = b
key_bytes (schnorr b) = b
key_bytes (secp256k1 b) = b
key_bytes (evm_address b) = b

module _ (p : Primitives) where
  unfoldable pub to_account_id : PublicKey → AccountId
  unfolding key_bytes
  to_account_id key = record { id = p.sha256 (key_bytes key) }
