-- ===== src/Adapters/PhantomAdapter.antt =====
-- The Phantom adapter of the native crate (crates/native/src/adapters/phantom.rs).
use Prim.Native.String.{◌++◌ as str_append}
use morpheum_signing.Common.{Option, none, some, ◌++◌, Bytes, as_bytes, replicate, ok_or}
use morpheum_signing.Error.{wallet_adapter}
use morpheum_signing.Primitives.{Primitives}
use morpheum_signing.Exec.{Exec, pure, lift, gets, ◌>>=◌}
use morpheum_signing.Types.WalletType.{WalletType}
use morpheum_signing.Types.Address.{Address}
use morpheum_signing.Types.Signature.{Signature}
use morpheum_signing.Signer.{WalletAdapter}
use morpheum_signing.Wallets.{Browser, catching}
use morpheum_signing.Wallets.Phantom.{exact_bytes}
use morpheum_signing.Adapters.{Injected}

pub record PhantomAdapter : Type 0 where
  pub cached_address : Option Address

abbrev pub new_phantom_adapter : PhantomAdapter
new_phantom_adapter = record { cached_address = none }

unfoldable pub phantom_external_address : PhantomAdapter → Address
phantom_external_address a = elim a.cached_address [
  | none ↦ Address.solana (replicate 32 0)
  | some address ↦ address
]

-- "Morpheum SignDoc v1: " and the digest
unfoldable pub prefixed_digest : (p : Primitives) → p.SignDoc → Bytes
prefixed_digest p sign_doc =
    as_bytes "Morpheum SignDoc v1: " ++ p.sha256 (p.encode_sign_doc sign_doc)

module _ {W : Type 0} (b : Browser W) where
  unfoldable pub requested_key : b.Value → Exec W Bytes
  unfolding exact_bytes
  requested_key provider = do
    result ←
        catching (λ e. wallet_adapter (str_append "Phantom connect failed: " (b.debug e)))
          (b.connect provider)
    value ←
        catching (λ e. wallet_adapter "Phantom response missing 'publicKey'")
          (b.get result "publicKey")
    exact_bytes b "Phantom returned invalid public key length: "
        (wallet_adapter "Phantom publicKey is not a Uint8Array") 32 value

  -- a cached key of Solana, or a connection
  key_by : Option Address → b.Value → Exec W Bytes
  key_by (some (Address.solana pk)) provider = pure pk
  key_by (some (Address.native s)) provider = requested_key provider
  key_by (some (Address.evm s)) provider = requested_key provider
  key_by (some (Address.bitcoin s)) provider = requested_key provider
  key_by (some (Address.agent s)) provider = requested_key provider
  key_by none provider = requested_key provider

  unfoldable pub phantom_ensure_connected : PhantomAdapter → b.Value → Exec W Bytes
  unfolding key_by requested_key
  phantom_ensure_connected a provider = key_by a.cached_address provider

module _ (p : Primitives) {W : Type 0} (b : Browser W) (i : Injected b) where
  -- the calls of `request_signature`: the value that holds the signature
  unfoldable pub requested_message : PhantomAdapter → p.SignDoc → Exec W b.Value
  unfolding phantom_ensure_connected prefixed_digest
  requested_message a sign_doc = do
    found ← gets i.phantom
    phantom ← lift (ok_or found (wallet_adapter "Phantom not detected (window.phantom missing)"))
    provider ← gets (i.solana phantom)
    solana ← lift (ok_or provider (wallet_adapter "Phantom Solana provider not available"))
    pubkey ← phantom_ensure_connected b a solana
    result ←
        catching (λ e. wallet_adapter (str_append "Phantom signMessage failed: " (b.debug e)))
          (b.sign_bytes solana (prefixed_digest p sign_doc))
    catching (λ e. wallet_adapter "Phantom response missing 'signature' field")
        (b.get result "signature")

  unfoldable pub phantom_request_signature : PhantomAdapter → p.SignDoc → Exec W Signature
  unfolding requested_message exact_bytes
  phantom_request_signature a sign_doc = do
    value ← requested_message a sign_doc
    sig_bytes ←
        exact_bytes b "Phantom returned invalid signature length: "
          (wallet_adapter "Phantom signature is not a Uint8Array") 64 value
    pure (Signature.ed25519 sig_bytes)

  unfoldable pub phantom_adapter : PhantomAdapter → WalletAdapter p W
  unfolding phantom_request_signature phantom_external_address
  phantom_adapter a = record {
    request_signature = phantom_request_signature a;
    wallet_type = WalletType.solana;
    external_address = phantom_external_address a;
    name = "Phantom (Solana)";
  }
