-- ===== src/Error.antt =====
-- crates/core/src/error.rs. An error that another crate reports is carried as the text that it
-- displays.
pub mod Display
use morpheum_signing.Common.{String}

pub data CryptoError : Type 0 where
  ed25519 secp256k1 : String → CryptoError
  invalid_public_key_length signature_verification_failed unsupported_curve : CryptoError

pub data NonceError : Type 0 where
  fetch_failed : String → NonceError
  invalid_response replay_detected : NonceError

pub data SigningError : Type 0 where
  crypto : CryptoError → SigningError
  invalid_key : String → SigningError
  wallet_adapter : String → SigningError
  nonce : NonceError → SigningError
  address_mapping : String → String → SigningError
  proto_encode : String → SigningError
  proto_decode : String → SigningError
  genesis_hash_unset : SigningError
  invalid_claim : String → SigningError
  claim_verification : String → SigningError
  signing : String → SigningError
  custom : String → SigningError
