-- ===== src/Bindings/Claims.antt =====
-- Claims at the boundary to JavaScript (crates/wasm/src/bindings.rs): `TradingKeyClaimJs` and the
-- wrapper of the claim builder.
pub mod Assembled
pub mod Carried
use Prim.Native.String.{◌++◌ as str_append}
use morpheum_signing.Common.{
  ℕ, String, Option, none, some, [], ◌∷◌, Bytes, try_into, str_eq, if◌then◌else◌, Result, ok,
  map_err, ok_or, ◌>>=◌,
}
use morpheum_signing.Error.{SigningError, invalid_claim}
use morpheum_signing.Error.Display.{display_error}
use morpheum_signing.Primitives.{Primitives}
use morpheum_signing.Types.Signature.{Signature, to_bytes}
use morpheum_signing.Claim.{TradingKeyClaim, to_proto_any}
use morpheum_signing.Claim.VcClaimBuilder.{VcClaimBuilder}
use morpheum_signing.Claim.VcClaimBuilder
use morpheum_signing.Bindings.{Js, JsObject, Entry, bytes, text, number, set_fields}

pub record TradingKeyClaimJs : Type 0 where
  pub issuer : Bytes
  pub subject : Bytes
  pub permissions : ℕ
  pub max_daily_usd : ℕ
  pub expiry_timestamp : ℕ
  pub nonce_sub_range_start : ℕ
  pub nonce_sub_range_end : ℕ
  pub signature : Bytes
  pub signature_type : String

-- the arms of both matches on the type of a signature
unfoldable pub signature_of_type : String → Bytes → Option Signature
signature_of_type type sig =
    if str_eq type "ed25519"
    then some (Signature.ed25519 sig)
    else if str_eq type "secp256k1"
    then some (Signature.secp256k1 sig)
    else if str_eq type "schnorr"
    then some (Signature.schnorr sig)
    else none

abbrev pub unknown_type : String → SigningError
unknown_type other = invalid_claim (
    str_append "unknown signature_type: '"
      (str_append other "' (expected 'ed25519', 'secp256k1', or 'schnorr')"))

unfoldable pub into_claim : TradingKeyClaimJs → Result SigningError TradingKeyClaim
unfolding signature_of_type
into_claim j = do
  issuer_arr ← ok_or (try_into 32 j.issuer) (invalid_claim "issuer must be exactly 32 bytes")
  subject_arr ← ok_or (try_into 32 j.subject) (invalid_claim "subject must be exactly 32 bytes")
  sig_arr ← ok_or (try_into 64 j.signature) (invalid_claim "signature must be exactly 64 bytes")
  signature ← ok_or (signature_of_type j.signature_type sig_arr) (unknown_type j.signature_type)
  ok (record {
    issuer = record { id = issuer_arr };
    subject = record { id = subject_arr };
    permissions = j.permissions;
    max_daily_usd = j.max_daily_usd;
    expiry_timestamp = j.expiry_timestamp;
    nonce_sub_range_start = j.nonce_sub_range_start;
    nonce_sub_range_end = j.nonce_sub_range_end;
    signature = signature;
  })

pub record VcClaimBuilderWasm : Type 0 where
  pub inner : VcClaimBuilder
  pub signature_type : Option String

abbrev pub new : VcClaimBuilderWasm
new = record { inner = VcClaimBuilder.new; signature_type = none }

unfoldable pub issuer : VcClaimBuilderWasm → Bytes → Result String VcClaimBuilderWasm
unfolding VcClaimBuilder.set_issuer
issuer b value = do
  arr ← ok_or (try_into 32 value) "issuer must be exactly 32 bytes"
  ok (record b { inner = VcClaimBuilder.set_issuer (record { id = arr }) b.inner })

unfoldable pub subject : VcClaimBuilderWasm → Bytes → Result String VcClaimBuilderWasm
unfolding VcClaimBuilder.set_subject
subject b value = do
  arr ← ok_or (try_into 32 value) "subject must be exactly 32 bytes"
  ok (record b { inner = VcClaimBuilder.set_subject (record { id = arr }) b.inner })

unfoldable pub permissions : VcClaimBuilderWasm → ℕ → VcClaimBuilderWasm
unfolding VcClaimBuilder.set_permissions
permissions b perms = record b { inner = VcClaimBuilder.set_permissions perms b.inner }

unfoldable pub max_daily_usd : VcClaimBuilderWasm → ℕ → VcClaimBuilderWasm
unfolding VcClaimBuilder.set_max_daily_usd
max_daily_usd b amount = record b { inner = VcClaimBuilder.set_max_daily_usd amount b.inner }

unfoldable pub expiry : VcClaimBuilderWasm → ℕ → VcClaimBuilderWasm
unfolding VcClaimBuilder.set_expiry
expiry b timestamp = record b { inner = VcClaimBuilder.set_expiry timestamp b.inner }

unfoldable pub nonce_sub_range : VcClaimBuilderWasm → ℕ → ℕ → VcClaimBuilderWasm
unfolding VcClaimBuilder.set_nonce_sub_range
nonce_sub_range b start end = record b {
  inner = VcClaimBuilder.set_nonce_sub_range start end b.inner;
}

unfoldable pub signature : VcClaimBuilderWasm → Bytes → String → Result String VcClaimBuilderWasm
unfolding VcClaimBuilder.set_signature
signature b sig_bytes sig_type = do
  arr ← ok_or (try_into 64 sig_bytes) "signature must be exactly 64 bytes"
  sig ←
      ok_or (signature_of_type sig_type arr)
        "signature_type must be 'ed25519', 'secp256k1', or 'schnorr'"
  ok (record { inner = VcClaimBuilder.set_signature sig b.inner; signature_type = some sig_type })

-- `unwrap_or("ed25519")`
abbrev pub type_or_default : Option String → String
type_or_default none = "ed25519"
type_or_default (some t) = t

module _ (p : Primitives) (js : Js) where
  -- the fields of the object for a claim
  unfoldable pub claim_fields : TradingKeyClaim → Option String → JsObject
  claim_fields c signature_type =
      record { name = "issuer"; value = bytes c.issuer.id }
      ∷ record { name = "subject"; value = bytes c.subject.id }
      ∷ record { name = "permissions"; value = number (js.as_f64 c.permissions) }
      ∷ record { name = "max_daily_usd"; value = number (js.as_f64 c.max_daily_usd) }
      ∷ record { name = "expiry_timestamp"; value = number (js.as_f64 c.expiry_timestamp) }
      ∷ record { name = "nonce_sub_range_start"; value = number c.nonce_sub_range_start }
      ∷ record { name = "nonce_sub_range_end"; value = number c.nonce_sub_range_end }
      ∷ record { name = "signature"; value = bytes (to_bytes c.signature) }
      ∷ record { name = "signature_type"; value = text (type_or_default signature_type) }
      ∷ record { name = "proto_any_type_url"; value = text (to_proto_any p c).type_url }
      ∷ record { name = "proto_any_value"; value = bytes (to_proto_any p c).value }
      ∷ []

  unfoldable pub build_object : VcClaimBuilderWasm → ℕ → Result String JsObject
  unfolding claim_fields set_fields
  build_object b current_timestamp = do
    claim ← map_err display_error (VcClaimBuilder.build b.inner current_timestamp)
    set_fields js (claim_fields claim b.signature_type) []
