-- ===== src/Adapters/TaprootAdapter.antt =====
-- The Taproot adapter of the native crate (crates/native/src/adapters/taproot.rs).
use Prim.Native.String.{◌++◌ as str_append}
use mathlib.Core.Bool.{not}
use morpheum_signing.Common.{
  String, Option, none, some, Bytes, length, ◌==◌, to_string, strip_prefix, if◌then◌else◌, Result,
  ok, err, map_err, ok_or,
}
use morpheum_signing.Error.{SigningError, wallet_adapter}
use morpheum_signing.Primitives.{Primitives}
use morpheum_signing.Exec.{Exec, pure, lift, gets, ◌>>=◌, ◌>>◌}
use morpheum_signing.Types.WalletType.{WalletType}
use morpheum_signing.Types.Address.{Address}
use morpheum_signing.Types.Signature.{Signature}
use morpheum_signing.Signer.{WalletAdapter}
use morpheum_signing.Wallets.{Browser, Hex, catching, make}
use morpheum_signing.Adapters.{Injected, set_or}

pub record TaprootAdapter : Type 0 where
  pub cached_address : Option Address

abbrev pub new_taproot_adapter : TaprootAdapter
new_taproot_adapter = record { cached_address = none }

unfoldable pub taproot_external_address : TaprootAdapter → Address
taproot_external_address a = elim a.cached_address [
  | none ↦ Address.bitcoin ""
  | some address ↦ address
]

-- "Morpheum SignDoc v1", a new line and the digest in hex
unfoldable pub digest_line : (p : Primitives) → p.SignDoc → String
digest_line p sign_doc =
    str_append "Morpheum SignDoc v1\n" (p.hex_encode (p.sha256 (p.encode_sign_doc sign_doc)))

-- 64 bytes are a signature
unfoldable pub exactly_64 : Bytes → Result SigningError Signature
exactly_64 sig_bytes =
    if not (length sig_bytes == 64)
    then err (
        wallet_adapter (
          str_append "Unisat returned invalid Schnorr signature length: "
            (str_append (to_string (length sig_bytes)) " (expected 64)")))
    else ok (Signature.schnorr sig_bytes)

module _ {W : Type 0} (b : Browser W) where
  unfoldable pub requested_address : b.Value → Exec W String
  requested_address unisat = do
    result ←
        catching (λ e. wallet_adapter (str_append "Unisat getPublicKey failed: " (b.debug e)))
          (b.get_public_key unisat)
    lift (ok_or (b.as_string result) (wallet_adapter "Unisat returned non-string address"))

  -- a cached address of Bitcoin, or a request
  address_by : Option Address → b.Value → Exec W String
  address_by (some (Address.bitcoin addr)) unisat = pure addr
  address_by (some (Address.native s)) unisat = requested_address unisat
  address_by (some (Address.evm s)) unisat = requested_address unisat
  address_by (some (Address.solana s)) unisat = requested_address unisat
  address_by (some (Address.agent s)) unisat = requested_address unisat
  address_by none unisat = requested_address unisat

  unfoldable pub taproot_ensure_connected : TaprootAdapter → b.Value → Exec W String
  unfolding address_by requested_address
  taproot_ensure_connected a unisat = address_by a.cached_address unisat

  -- `.or_else(|_| Ok(result.clone()))`: the field `signature`, or the answer itself
  unfoldable pub signature_or_self : b.Value → Exec W b.Value
  signature_or_self result w =
      let (r, w') = b.get result "signature" w in
      (elim r [ ok value ↦ ok value | err e ↦ ok result ], w')

module _ {W : Type 0} (b : Browser W) (i : Injected b) (x : Hex) where
  -- hex behind "0x", base64 otherwise
  unfoldable pub decoded_signature : String → Result SigningError Bytes
  decoded_signature sig_str =
      map_err (λ e. wallet_adapter (str_append "Invalid signature encoding from Unisat: " e))
        (elim (strip_prefix "0x" sig_str) [
          | some digits ↦ x.decode digits
          | none ↦ i.base64_decode sig_str
        ])

module _ (p : Primitives) {W : Type 0} (b : Browser W) (i : Injected b) (x : Hex) where
  -- the calls of `request_signature`, and the bytes of the answer
  unfoldable pub requested_bip322 : TaprootAdapter → p.SignDoc → Exec W Bytes
  unfolding taproot_ensure_connected digest_line set_or signature_or_self decoded_signature
  requested_bip322 a sign_doc = do
    found ← gets i.unisat
    unisat ← lift (ok_or found (wallet_adapter "Unisat not detected (window.unisat missing)"))
    address ← taproot_ensure_connected b a unisat
    let message = digest_line p sign_doc
    options ← make b.new_object
    set_or b "failed to set signing options" options "type" (b.from_str "bip322-simple")
    result ←
        catching (λ e. wallet_adapter (str_append "Unisat signMessage failed: " (b.debug e)))
          (b.sign_text unisat message options)
    value ← signature_or_self b result
    sig_str ←
        lift (ok_or (b.as_string value) (wallet_adapter "Unisat returned non-string signature"))
    lift (decoded_signature b i x sig_str)

  unfoldable pub taproot_request_signature : TaprootAdapter → p.SignDoc → Exec W Signature
  unfolding requested_bip322 exactly_64
  taproot_request_signature a sign_doc = do
    sig_bytes ← requested_bip322 a sign_doc
    lift (exactly_64 sig_bytes)

  unfoldable pub taproot_adapter : TaprootAdapter → WalletAdapter p W
  unfolding taproot_request_signature taproot_external_address
  taproot_adapter a = record {
    request_signature = taproot_request_signature a;
    wallet_type = WalletType.bitcoin;
    external_address = taproot_external_address a;
    name = "Taproot (Unisat / Leather / Xverse)";
  }
