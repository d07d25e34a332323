-- ===== src/Wallets/Phantom.antt =====
-- The Phantom wallet in the browser (crates/wasm-lib/src/phantom.rs).
use Prim.Native.String.{◌++◌ as str_append}
use mathlib.Core.Bool.{not}
use morpheum_signing.Common.{
  ℕ, true, false, String, ◌++◌, Bytes, ◌||◌, ◌==◌, length, as_bytes, to_string, ok_or,
}
use morpheum_signing.Error.{SigningError, wallet_adapter}
use morpheum_signing.Proto.{Any}
use morpheum_signing.Primitives.{Primitives}
use morpheum_signing.Exec.{Exec, pure, refuse_if, ◌>>=◌, ◌>>◌}
use morpheum_signing.Types.Address.{AccountId, Address}
use morpheum_signing.Types.Address
use morpheum_signing.Types.PublicKey.{PublicKey}
use morpheum_signing.Types.Signature.{Signature}
use morpheum_signing.Wallets.{Browser, catching, get_window}

-- `PhantomAdapterWasm`
pub record Phantom : Type 0 where
  pub cached_pubkey : Bytes

abbrev pub wrong_length : String → ℕ → Bytes → SigningError
wrong_length what n bytes = wallet_adapter (
    str_append what (
      str_append (to_string (length bytes))
        (str_append " (expected " (str_append (to_string n) ")"))))

-- `"Morpheum SignDoc v1: " || sha256(SignDoc)`
unfoldable pub phantom_sign_message : (p : Primitives) → p.SignDoc → Bytes
phantom_sign_message p sign_doc =
    as_bytes "Morpheum SignDoc v1: " ++ p.sha256 (p.encode_sign_doc sign_doc)

module _ {W : Type 0} (b : Browser W) where
  unfoldable pub get_phantom_solana : Exec W b.Value
  unfolding get_window
  get_phantom_solana = do
    window ← get_window b
    phantom ←
        catching (λ e. wallet_adapter "failed to access window.phantom") (b.get window "phantom")
    refuse_if (b.is_undefined phantom || b.is_null phantom)
        (wallet_adapter "Phantom not detected (window.phantom is missing)")
    solana ←
        catching (λ e. wallet_adapter "failed to access window.phantom.solana")
          (b.get phantom "solana")
    refuse_if (b.is_undefined solana || b.is_null solana)
        (wallet_adapter "Phantom Solana provider not available")
    pure solana

  -- `dyn_into::<Uint8Array>`, and its bytes if there are `n` of them
  unfoldable pub exact_bytes : String → SigningError → ℕ → b.Value → Exec W Bytes
  exact_bytes what not_array n value = do
    bytes ← λ w. (ok_or (b.uint8_array value w) not_array, w)
    refuse_if (not (length bytes == n)) (wrong_length what n bytes)
    pure bytes

  -- the value of `toBytes()`, or the value itself if that is no function
  unfoldable pub key_value : b.Value → b.Value → Exec W b.Value
  key_value pk_val to_bytes_fn = elim (b.is_function to_bytes_fn) [
    | true ↦
        catching (λ e. wallet_adapter "publicKey.toBytes() failed") (b.call0 to_bytes_fn pk_val)
    | false ↦ pure pk_val
  ]

  -- the calls of `connect`: the value that holds the key
  unfoldable pub connected_key : Exec W b.Value
  unfolding get_phantom_solana key_value
  connected_key = do
    provider ← get_phantom_solana
    result ←
        catching (λ e. wallet_adapter (str_append "Phantom connect failed: " (b.debug e)))
          (b.connect provider)
    pk_val ←
        catching (λ e. wallet_adapter "Phantom response missing 'publicKey'")
          (b.get result "publicKey")
    to_bytes_fn ←
        catching (λ e. wallet_adapter "publicKey missing toBytes()") (b.get pk_val "toBytes")
    key_value pk_val to_bytes_fn

  unfoldable pub phantom_connect : Exec W Phantom
  unfolding connected_key exact_bytes
  phantom_connect = do
    pk_bytes_val ← connected_key
    pubkey ←
        exact_bytes "Phantom returned invalid public key length: "
          (wallet_adapter "Phantom publicKey is not a Uint8Array") 32 pk_bytes_val
    pure (record { cached_pubkey = pubkey })

module _ (p : Primitives) {W : Type 0} (b : Browser W) where
  -- the calls of `sign_impl`: the value that holds the signature
  unfoldable pub message_signature : p.SignDoc → Exec W b.Value
  unfolding get_phantom_solana phantom_sign_message
  message_signature sign_doc = do
    provider ← get_phantom_solana b
    result ←
        catching (λ e. wallet_adapter (str_append "Phantom signMessage failed: " (b.debug e)))
          (b.sign_bytes provider (phantom_sign_message p sign_doc))
    catching (λ e. wallet_adapter "Phantom response missing 'signature'") (b.get result "signature")

  unfoldable pub phantom_sign_impl : Phantom → p.SignDoc → Exec W Signature
  unfolding message_signature exact_bytes
  phantom_sign_impl s sign_doc = do
    sig_val ← message_signature sign_doc
    sig_bytes ←
        exact_bytes b "Phantom returned invalid signature length: "
          (wallet_adapter "Phantom signature is not a Uint8Array") 64 sig_val
    pure (Signature.ed25519 sig_bytes)

unfoldable pub phantom_public_key : Phantom → PublicKey
phantom_public_key s = PublicKey.ed25519 s.cached_pubkey

unfoldable pub phantom_public_key_proto : Phantom → Any
phantom_public_key_proto s = record {
  type_url = "/morpheum.crypto.ed25519.PubKey";
  value = s.cached_pubkey;
}

unfoldable pub phantom_account_id : (p : Primitives) → Phantom → AccountId
phantom_account_id p s = Address.to_account_id p (Address.solana s.cached_pubkey)
