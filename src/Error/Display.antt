-- ===== src/Error/Display.antt =====
-- The texts that the errors display (the `error` attributes of crates/core/src/error.rs).
use Prim.Native.String.{◌++◌ as str_append}
use morpheum_signing.Common.{String}
use morpheum_signing.Error.{SigningError, CryptoError, NonceError}

unfoldable pub display_crypto : CryptoError → String
display_crypto (CryptoError.ed25519 e) = str_append "ed25519 error: " e
display_crypto (CryptoError.secp256k1 e) = str_append "secp256k1 error: " e
display_crypto CryptoError.invalid_public_key_length = "invalid public key length"
display_crypto CryptoError.signature_verification_failed = "signature verification failed"
display_crypto CryptoError.unsupported_curve = "unsupported curve for this operation"

unfoldable pub display_nonce : NonceError → String
display_nonce (NonceError.fetch_failed e) = str_append "failed to fetch nonce from node: " e
display_nonce NonceError.invalid_response = "invalid nonce response from node"
display_nonce NonceError.replay_detected = "nonce too old or replay detected"

abbrev pub unset_text : String
unset_text = str_append "genesis hash not set: the signing preimage would not bind a chain, " (
    str_append "producing a signature replayable onto any chain sharing this chain_id. "
      "Set it with TxBuilder::with_genesis_hash from operator configuration")

-- `e.to_string()`
unfoldable pub display_error : SigningError → String
unfolding display_crypto display_nonce
display_error (SigningError.crypto e) = str_append "crypto error: " (display_crypto e)
display_error (SigningError.invalid_key e) = str_append "invalid key or mnemonic: " e
display_error (SigningError.wallet_adapter e) = str_append "wallet adapter rejected or failed: " e
display_error (SigningError.nonce e) = str_append "nonce provider failed: " (display_nonce e)
display_error (SigningError.address_mapping address reason) =
    str_append "address mapping failed for '" (str_append address (str_append "': " reason))
display_error (SigningError.proto_encode e) = str_append "protobuf encode error: " e
display_error (SigningError.proto_decode e) = str_append "protobuf decode error: " e
display_error SigningError.genesis_hash_unset = unset_text
display_error (SigningError.invalid_claim e) = str_append "invalid VC or TradingKey claim: " e
display_error (SigningError.claim_verification e) = str_append "claim verification failed: " e
display_error (SigningError.signing e) = str_append "signing failed: " e
display_error (SigningError.custom e) = str_append "custom error: " e
