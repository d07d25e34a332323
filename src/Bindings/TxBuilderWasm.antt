-- ===== src/Bindings/TxBuilderWasm.antt =====
-- `TxBuilderWasm` of crates/wasm/src/bindings.rs: the builder over the browser wallets.
pub mod Returned
use Prim.Native.String.{◌++◌ as str_append}
use morpheum_signing.Common.{
  ℕ, String, Option, none, some, [], ◌∷◌, ◌++◌, Bytes, Result, ok, err, map_err, ◌>>=◌,
}
use morpheum_signing.Error.{SigningError}
use morpheum_signing.Error.Display.{display_error}
use morpheum_signing.Primitives.{Primitives}
use morpheum_signing.Exec.{Exec}
use morpheum_signing.Exec
use morpheum_signing.Types.SignedTx.{SignedTx}
use morpheum_signing.Builder.{TxBuilder, sign}
use morpheum_signing.Builder.Setters
use morpheum_signing.Wallets.{Browser, Hex}
use morpheum_signing.Wallets.MetaMask.{metamask_connect}
use morpheum_signing.Wallets.Phantom.{phantom_connect}
use morpheum_signing.Wallets.Taproot.{taproot_connect}
use morpheum_signing.Wallets.WasmSigner.{WasmSigner, wasm_signer}
use morpheum_signing.Bindings.{Js, JsObject, Entry, bytes, text, set_fields}
use morpheum_signing.Bindings.Claims.{TradingKeyClaimJs, into_claim}

pub record TxBuilderWasm (p : Primitives) (W : Type 0) : Type 0 where
  pub inner : TxBuilder p W

-- `map_err(|e| JsValue::from_str(&e.to_string()))` on an awaited call
abbrev pub thrown : {W A : Type 0} → Exec W A → W → Result String A × W
thrown run w = let (r, w') = run w in (map_err display_error r, w')

module _ (p : Primitives) {W : Type 0} (b : Browser W) (x : Hex) where
  unfoldable pub wrap : WasmSigner → TxBuilderWasm p W
  wrap s = record { inner = Setters.new p (wasm_signer p b x s) }

  unfoldable pub new_metamask : W → Result String (TxBuilderWasm p W) × W
  unfolding wrap
  new_metamask =
      thrown (Exec.◌>>=◌ (metamask_connect b x) (λ a. Exec.pure (wrap (WasmSigner.metamask a))))

  unfoldable pub new_phantom : W → Result String (TxBuilderWasm p W) × W
  unfolding wrap
  new_phantom =
      thrown (Exec.◌>>=◌ (phantom_connect b) (λ a. Exec.pure (wrap (WasmSigner.phantom a))))

  unfoldable pub new_taproot : W → Result String (TxBuilderWasm p W) × W
  unfolding wrap
  new_taproot =
      thrown (Exec.◌>>=◌ (taproot_connect b x) (λ a. Exec.pure (wrap (WasmSigner.taproot a))))

module _ (p : Primitives) {W : Type 0} where
  unfoldable pub chain_id : TxBuilderWasm p W → String → TxBuilderWasm p W
  chain_id t id = record { inner = Setters.chain_id p t.inner id }

  unfoldable pub with_genesis_hash : TxBuilderWasm p W → Bytes → TxBuilderWasm p W
  with_genesis_hash t genesis_hash = record {
    inner = Setters.with_genesis_hash p t.inner genesis_hash;
  }

  unfoldable pub memo : TxBuilderWasm p W → String → TxBuilderWasm p W
  memo t note = record { inner = Setters.memo p t.inner note }

  unfoldable pub account_number : TxBuilderWasm p W → ℕ → TxBuilderWasm p W
  account_number t n = record { inner = Setters.account_number p t.inner n }

  unfoldable pub timeout_seconds : TxBuilderWasm p W → ℕ → TxBuilderWasm p W
  timeout_seconds t seconds = record { inner = Setters.timeout_seconds p t.inner seconds }

  unfoldable pub gas_limit : TxBuilderWasm p W → ℕ → Result String (TxBuilderWasm p W)
  gas_limit t n = do
    limit ← map_err (λ e. str_append "invalid gasLimit: " e) (p.new_gas_limit n)
    ok (record { inner = Setters.gas_limit p t.inner limit })

  unfoldable pub add_message : TxBuilderWasm p W → String → Bytes → TxBuilderWasm p W
  add_message t type_url value = record {
    inner = Setters.add_message p t.inner (record { type_url = type_url; value = value });
  }

  -- `claim_of` is the `serde_wasm_bindgen::from_value` of the claim object.
  unfoldable pub with_claim :
      (JsObject → Result String TradingKeyClaimJs)
      → TxBuilderWasm p W
      → JsObject
      → Result String (TxBuilderWasm p W)
  unfolding into_claim
  with_claim claim_of t claim_js = do
    js_claim ← map_err (λ e. str_append "Invalid claim object: " e) (claim_of claim_js)
    claim ← map_err display_error (into_claim js_claim)
    ok (record { inner = Setters.with_trading_key_claim p t.inner claim })

module _ (p : Primitives) where
  -- `if let Some(tx_raw) = signed_tx.tx_raw()`
  raw_fields : SignedTx → JsObject
  raw_fields s = elim s.tx_raw [
    | none ↦ []
    | some raw ↦ record { name = "tx_raw_bytes"; value = bytes (p.tx_raw_codec.encode raw) } ∷ []
  ]

  -- the fields of the object for a signed transaction
  unfoldable pub signed_fields : SignedTx → JsObject
  unfolding raw_fields
  signed_fields s =
      record { name = "raw_bytes"; value = bytes s.raw_bytes }
      ∷ (raw_fields s
          ++ (record { name = "tx_bytes"; value = bytes (p.tx_codec.encode s.tx) }
              ∷ record { name = "txhash"; value = text (p.hex_encode (p.sha256 s.raw_bytes)) }
              ∷ []))

module _ (p : Primitives) (js : Js) {W : Type 0} (clock : W → Option ℕ) where
  unfoldable pub sign_object : TxBuilderWasm p W → W → Result String JsObject × W
  unfolding signed_fields set_fields
  sign_object t w =
      let (r, w') = thrown (sign p clock t.inner) w in
      (r >>= λ signed_tx. set_fields js (signed_fields p signed_tx) [], w')
