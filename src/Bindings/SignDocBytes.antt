-- ===== src/Bindings/SignDocBytes.antt =====
-- `buildSignDocBytes` of crates/wasm/src/bindings.rs: the preimage for a caller in JavaScript that
-- holds a key and no wallet.
pub mod Bound
use Prim.Native.String.{◌++◌ as str_append}
use morpheum_signing.Common.{
  ℕ, String, Option, none, some, [], ◌∷◌, Bytes, strip_0x, Result, ok, map_err, ◌>>=◌,
}
use morpheum_signing.Proto.{ℤ}
use morpheum_signing.Primitives.{Primitives}
use morpheum_signing.Builder.{unwrap_or}
use morpheum_signing.Preimage.{SignDocRequest, SignDocParts, build_sign_doc}
use morpheum_signing.Wallets.{Hex}
use morpheum_signing.Bindings.{Js, JsObject, Entry, bytes, text, set_fields}

pub record SignDocRequestJs : Type 0 where
  pub type_url : String
  pub msg_bytes : Bytes
  pub signer_address : String
  pub chain_type : ℤ
  pub sign_mode : ℤ
  pub chain_id : String
  pub memo : Option String
  pub account_number : Option ℕ
  pub genesis_hash : Option Bytes
  pub nonce : Bytes
  pub gas_limit : Option ℕ

module _ (p : Primitives) where
  -- `.map(TxGasLimit::new).transpose().map_err(..)?.unwrap_or(DEFAULT_GAS_LIMIT)`
  unfoldable pub declared_gas : Option ℕ → Result String p.TxGasLimit
  declared_gas none = ok p.default_gas_limit
  declared_gas (some n) = map_err (λ e. str_append "invalid gasLimit: " e) (p.new_gas_limit n)

  -- the fields of the object for the parts of a document
  unfoldable pub parts_fields : SignDocParts → JsObject
  parts_fields parts =
      record { name = "signDocBytes"; value = bytes parts.sign_doc_bytes }
      ∷ record { name = "signDocHash"; value = text (p.hex_encode parts.sign_doc_hash) }
      ∷ record { name = "bodyBytes"; value = bytes parts.body_bytes }
      ∷ record { name = "authInfoBytes"; value = bytes parts.auth_info_bytes }
      ∷ record { name = "nonce"; value = bytes parts.nonce_bytes }
      ∷ []

module _ (p : Primitives) (x : Hex) where
  -- from the decoding of the address to the request of the core
  unfoldable pub core_request : SignDocRequestJs → Result String (SignDocRequest p)
  core_request request = do
    signer_key ←
        map_err (λ e. str_append "invalid signerAddress hex: " e)
          (x.decode (strip_0x request.signer_address))
    nonce ←
        map_err (λ e. str_append "invalid nonce encoding: " e) (p.nonce_codec.decode request.nonce)
    gas_limit ← declared_gas p request.gas_limit
    ok (record {
      type_url = request.type_url;
      msg_bytes = request.msg_bytes;
      signer_key = signer_key;
      chain_type = request.chain_type;
      sign_mode = request.sign_mode;
      chain_id = request.chain_id;
      memo = request.memo;
      account_number = unwrap_or 0 request.account_number;
      genesis_hash = request.genesis_hash;
      nonce = nonce;
      gas_limit = gas_limit;
    })

-- `request_of` is the `serde_wasm_bindgen::from_value` of the request.
module _ (p : Primitives) (js : Js) (x : Hex) {V : Type 0}
    (request_of : V → Result String SignDocRequestJs) where
  unfoldable pub build_sign_doc_bytes : V → Result String JsObject
  unfolding declared_gas
  build_sign_doc_bytes value = do
    request ← map_err (λ e. str_append "invalid SignDocRequest: " e) (request_of value)
    core ← core_request p x request
    set_fields js (parts_fields p (build_sign_doc p core)) []
