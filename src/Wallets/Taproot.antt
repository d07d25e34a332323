-- ===== src/Wallets/Taproot.antt =====
-- The Taproot wallet in the browser, Unisat (crates/wasm-lib/src/taproot.rs).
use Prim.Native.String.{◌++◌ as str_append}
use mathlib.Core.Bool.{not}
use morpheum_signing.Common.{
  String, none, some, Bytes, ◌||◌, ◌==◌, if◌then◌else◌, length, drop, as_bytes, to_string,
  strip_prefix, Result, ok, err, map_err, ok_or,
}
use morpheum_signing.Error.{SigningError, wallet_adapter}
use morpheum_signing.Proto.{Any}
use morpheum_signing.Primitives.{Primitives}
use morpheum_signing.Exec.{Exec, pure, lift, gets, refuse_if, ◌>>=◌, ◌>>◌}
use morpheum_signing.Types.Address.{AccountId, Address}
use morpheum_signing.Types.Address
use morpheum_signing.Types.PublicKey.{PublicKey}
use morpheum_signing.Types.Signature.{Signature}
use morpheum_signing.Wallets.{Browser, Hex, catching, make, get_window}

-- `TaprootAdapterWasm`
pub record Taproot : Type 0 where
  pub cached_pubkey : Bytes
  pub cached_address : String

-- `"Morpheum SignDoc v1\n<sha256_hex(SignDoc)>"`
unfoldable pub taproot_sign_message : (p : Primitives) → p.SignDoc → String
taproot_sign_message p sign_doc =
    str_append "Morpheum SignDoc v1\n" (p.hex_encode (p.sha256 (p.encode_sign_doc sign_doc)))

-- 32 bytes, or 33 without the first
unfoldable pub x_only : Bytes → Result SigningError Bytes
x_only pk_bytes =
    if length pk_bytes == 32
    then ok pk_bytes
    else if length pk_bytes == 33
    then ok (drop 1 pk_bytes)
    else err (
        wallet_adapter (
          str_append "Unisat returned unexpected public key length: "
            (str_append (to_string (length pk_bytes)) " (expected 32 or 33)")))

-- behind "0x" the text must be hex; without it, text that is not hex stands for its own bytes
unfoldable pub signature_bytes : Hex → String → Result SigningError Bytes
signature_bytes x sig_str = elim (strip_prefix "0x" sig_str) [
  | some hex_str ↦
      map_err (λ e. wallet_adapter (str_append "invalid hex signature: " e)) (x.decode hex_str)
  | none ↦ elim (x.decode sig_str) [ ok bytes ↦ ok bytes | err e ↦ ok (as_bytes sig_str) ]
]

unfoldable pub schnorr_signature : Bytes → Result SigningError Signature
schnorr_signature sig_bytes =
    if not (length sig_bytes == 64)
    then err (
        wallet_adapter (
          str_append "Unisat returned invalid Schnorr signature length: "
            (str_append (to_string (length sig_bytes)) " (expected 64)")))
    else ok (Signature.schnorr sig_bytes)

module _ {W : Type 0} (b : Browser W) where
  unfoldable pub get_unisat : Exec W b.Value
  unfolding get_window
  get_unisat = do
    window ← get_window b
    val ← catching (λ e. wallet_adapter "failed to access window.unisat") (b.get window "unisat")
    refuse_if (b.is_undefined val || b.is_null val)
        (wallet_adapter "Unisat not detected (window.unisat is missing)")
    pure val

  -- the text itself, or that of the field `signature`
  unfoldable pub signature_text : b.Value → Exec W String
  signature_text result = elim (b.as_string result) [
    | some s ↦ pure s
    | none ↦ do
      nested ←
          catching (λ e. wallet_adapter "Unisat response missing 'signature'")
            (b.get result "signature")
      lift (ok_or (b.as_string nested) (wallet_adapter "Unisat signature is not a string"))
  ]

module _ {W : Type 0} (b : Browser W) (x : Hex) where
  -- the calls of `connect`: the address, and the hex of the key
  unfoldable pub account_and_key : Exec W (String × Bytes)
  unfolding get_unisat
  account_and_key = do
    unisat ← get_unisat b
    result ←
        catching (λ e. wallet_adapter (str_append "Unisat requestAccounts failed: " (b.debug e)))
          (b.request_accounts unisat)
    accounts ← make (b.array_from result)
    first ← gets (b.array_get accounts 0)
    address ← lift (ok_or (b.as_string first) (wallet_adapter "Unisat returned no accounts"))
    pk_result ←
        catching (λ e. wallet_adapter (str_append "Unisat getPublicKey failed: " (b.debug e)))
          (b.get_public_key unisat)
    pk_hex ←
        lift
          (ok_or (b.as_string pk_result) (wallet_adapter "Unisat getPublicKey returned non-string"))
    pk_bytes ← lift (
        map_err (λ e. wallet_adapter (str_append "invalid public key hex from Unisat: " e))
          (x.decode pk_hex))
    pure (address, pk_bytes)

  unfoldable pub taproot_connect : Exec W Taproot
  unfolding account_and_key x_only
  taproot_connect = account_and_key >>= λ answer. do
    pubkey ← lift (x_only answer.1)
    pure (record { cached_pubkey = pubkey; cached_address = answer.0 })

module _ (p : Primitives) {W : Type 0} (b : Browser W) (x : Hex) where
  -- the calls of `sign_impl`, and the bytes of the answer
  unfoldable pub bip322_signature : p.SignDoc → Exec W Bytes
  unfolding get_unisat taproot_sign_message signature_text signature_bytes
  bip322_signature sign_doc = do
    unisat ← get_unisat b
    let message = taproot_sign_message p sign_doc
    options ← make b.new_object
    catching (λ e. wallet_adapter "failed to set signing options")
        (b.set options "type" (b.from_str "bip322-simple"))
    result ←
        catching (λ e. wallet_adapter (str_append "Unisat signMessage failed: " (b.debug e)))
          (b.sign_text unisat message options)
    sig_str ← signature_text b result
    lift (signature_bytes x sig_str)

  unfoldable pub taproot_sign_impl : Taproot → p.SignDoc → Exec W Signature
  unfolding bip322_signature schnorr_signature
  taproot_sign_impl s sign_doc = do
    sig_bytes ← bip322_signature sign_doc
    lift (schnorr_signature sig_bytes)

unfoldable pub taproot_public_key : Taproot → PublicKey
taproot_public_key s = PublicKey.schnorr s.cached_pubkey

unfoldable pub taproot_public_key_proto : Taproot → Any
taproot_public_key_proto s = record {
  type_url = "/morpheum.crypto.schnorr.PubKey";
  value = s.cached_pubkey;
}

unfoldable pub taproot_account_id : (p : Primitives) → Taproot → AccountId
taproot_account_id p s = Address.to_account_id p (Address.bitcoin s.cached_address)
