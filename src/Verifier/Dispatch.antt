-- ===== src/Verifier/Dispatch.antt =====
-- One signature: `verify_signature`, the verifiers that it dispatches to, and `extract_sign_mode`
-- of crates/core/src/verifier.rs.
use Prim.Native.String.{◌++◌ as str_append}
use morpheum_signing.Common.{
  String, Option, none, some, ◌++◌, Bytes, length, take, as_bytes, to_string, ◌==◌, if◌then◌else◌,
  Result, ok, err, map_err, ◌>>=◌, fail_if,
}
use mathlib.Core.Bool.{not}
use morpheum_signing.Proto.{SignMode, Sum, ModeInfo, SignerInfo}
use morpheum_signing.Error.{
  SigningError, CryptoError, crypto, unsupported_curve, signature_verification_failed,
}
use morpheum_signing.Primitives.{Primitives}
use morpheum_signing.Types.PublicKey.{PublicKey}

abbrev pub ed25519_error : String → SigningError
ed25519_error e = crypto (CryptoError.ed25519 e)

abbrev pub secp256k1_error : String → SigningError
secp256k1_error e = crypto (CryptoError.secp256k1 e)

-- the envelope of EIP-191: the bytes that are hashed
unfoldable pub eip191_message : Bytes → Bytes
eip191_message doc =
    as_bytes (str_append "\u{19}Ethereum Signed Message:\n" (to_string (length doc))) ++ doc

-- the match on `sig_bytes.len()`
unfoldable pub strip_recovery : Bytes → Result SigningError Bytes
strip_recovery sig =
    if length sig == 65
    then ok (take 64 sig)
    else if length sig == 64
    then ok sig
    else err (
        secp256k1_error
          (str_append "EIP-191 signature must be 64 or 65 bytes, got " (to_string (length sig))))

module _ (p : Primitives) where
  verify_ed25519 : Bytes → Bytes → Bytes → Result SigningError (Unit {0})
  verify_ed25519 key msg sig = map_err ed25519_error (p.verify_ed25519_bytes key msg sig)

  verify_secp256k1 : Bytes → Bytes → Bytes → Result SigningError (Unit {0})
  verify_secp256k1 key msg sig = map_err secp256k1_error (p.verify_secp256k1_bytes key msg sig)

  verify_secp256k1_keccak : Bytes → Bytes → Bytes → Result SigningError (Unit {0})
  verify_secp256k1_keccak key msg sig =
      map_err secp256k1_error (p.verify_secp256k1_keccak_bytes key msg sig)

  unfoldable pub verify_eip191_personal : Bytes → Bytes → Bytes → Result SigningError (Unit {0})
  verify_eip191_personal key doc sig = do
    let hash = p.keccak256 (eip191_message doc)
    verifying_key ←
        map_err (λ e. secp256k1_error (str_append "invalid secp256k1 public key: " e))
          (p.verifying_key_of_sec1 key)
    sig_data ← strip_recovery sig
    signature ←
        map_err (λ e. secp256k1_error (str_append "invalid EIP-191 secp256k1 signature: " e))
          (p.secp_sig_of_slice sig_data)
    fail_if (not (p.verify_prehash verifying_key hash signature))
        (crypto signature_verification_failed)

  verify_eip191_ecrecover : Bytes → Bytes → Bytes → Result SigningError (Unit {0})
  verify_eip191_ecrecover address doc sig =
      map_err secp256k1_error (p.eip191_ecrecover_verify address doc sig)

  verify_ed25519_hex_encoded : Bytes → Bytes → Bytes → Result SigningError (Unit {0})
  verify_ed25519_hex_encoded key doc sig =
      map_err ed25519_error (p.verify_ed25519_bytes key (as_bytes (p.hex_encode doc)) sig)

  unfoldable pub verify_signature :
      PublicKey → Bytes → Bytes → SignMode → Result SigningError (Unit {0})
  unfolding verify_ed25519 verify_secp256k1 verify_secp256k1_keccak verify_eip191_ecrecover
      verify_ed25519_hex_encoded
  verify_signature (PublicKey.ed25519 key) doc sig SignMode.ed25519 = verify_ed25519 key doc sig
  verify_signature (PublicKey.ed25519 key) doc sig SignMode.gasless_ed25519 =
      verify_ed25519 key doc sig
  verify_signature (PublicKey.agent key) doc sig SignMode.ed25519 = verify_ed25519 key doc sig
  verify_signature (PublicKey.agent key) doc sig SignMode.gasless_ed25519 =
      verify_ed25519 key doc sig
  verify_signature (PublicKey.secp256k1 key) doc sig SignMode.secp256k1 =
      verify_secp256k1 key doc sig
  verify_signature (PublicKey.secp256k1 key) doc sig SignMode.ecdsa_legacy =
      verify_secp256k1 key doc sig
  verify_signature (PublicKey.secp256k1 key) doc sig SignMode.keccak256 =
      verify_secp256k1_keccak key doc sig
  verify_signature (PublicKey.secp256k1 key) doc sig SignMode.eip191_personal =
      verify_eip191_personal key doc sig
  verify_signature (PublicKey.evm_address address) doc sig SignMode.eip191_personal =
      verify_eip191_ecrecover address doc sig
  verify_signature (PublicKey.ed25519 key) doc sig SignMode.solana_offchain =
      verify_ed25519_hex_encoded key doc sig
  verify_signature (PublicKey.agent key) doc sig SignMode.solana_offchain =
      verify_ed25519_hex_encoded key doc sig
  verify_signature _ doc sig _ = err (crypto unsupported_curve)

  mode_of_sum : Sum → Option SignMode
  mode_of_sum (Sum.single mode) = p.sign_mode_of_i32 mode
  mode_of_sum Sum.multi = none

  mode_of_info : Option ModeInfo → SignMode
  unfolding mode_of_sum
  mode_of_info none = SignMode.ed25519
  mode_of_info (some info) = elim info.sum [
    | none ↦ SignMode.ed25519
    | some sum ↦ elim (mode_of_sum sum) [ none ↦ SignMode.ed25519 | some mode ↦ mode ]
  ]

  unfoldable pub extract_sign_mode : SignerInfo → SignMode
  unfolding mode_of_info
  extract_sign_mode si = mode_of_info si.mode_info
