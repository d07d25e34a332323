-- ===== src/Builder/Setters.antt =====
-- The constructor and the setters of `TxBuilder` (crates/core/src/builder.rs), and which inputs the
-- result of `sign` does not depend on.
use morpheum_signing.Common.{
  ℕ, ◌≡◌, refl, String, Bool, false, Option, none, some, [], ◌∷◌, ◌++◌, Bytes,
}
use morpheum_signing.Proto.{Any, Nonce}
use morpheum_signing.Primitives.{Primitives, Codec}
use morpheum_signing.Signer.{Signer, NonceProvider, WalletAdapter}
use morpheum_signing.Types.SignedTx.{SigningOptions, default_options}
use morpheum_signing.Claim.{TradingKeyClaim}
use morpheum_signing.Builder.{
  TxBuilder, preconditions, resolve_nonce, tx_body, auth_info, sign_doc, assemble, sign,
}

module _ (p : Primitives) {W : Type 0} where
  unfoldable pub new : Signer p W → TxBuilder p W
  new signer = record {
    signer = signer;
    chain_id = "morpheum-test-1";
    genesis_hash = [];
    account_number = none;
    memo = none;
    timeout_timestamp = none;
    messages = [];
    signing_options = default_options;
    nonce_provider = none;
    manual_nonce = none;
    wallet_adapter = none;
    trading_key_claim = signer.trading_key_claim;
    priority_tip = 0;
    tx_class = p.standard;
    urgent = false;
    gas_limit = p.default_gas_limit;
    agent_did = none;
    verifiable_presentation = none;
    trading_key_address = none;
  }

  unfoldable pub chain_id : TxBuilder p W → String → TxBuilder p W
  chain_id b id = record b { chain_id = id }

  unfoldable pub with_genesis_hash : TxBuilder p W → Bytes → TxBuilder p W
  with_genesis_hash b hash = record b { genesis_hash = hash }

  unfoldable pub account_number : TxBuilder p W → ℕ → TxBuilder p W
  account_number b n = record b { account_number = some n }

  unfoldable pub add_message : TxBuilder p W → Any → TxBuilder p W
  add_message b msg = record b { messages = b.messages ++ msg ∷ [] }

  unfoldable pub add_typed_message :
      {M : Type 0} → TxBuilder p W → String → Codec M → M → TxBuilder p W
  add_typed_message b url c msg = record b {
    messages = b.messages ++ record { type_url = url; value = c.encode msg } ∷ [];
  }

  unfoldable pub memo : TxBuilder p W → String → TxBuilder p W
  memo b text = record b { memo = some text }

  unfoldable pub timeout_seconds : TxBuilder p W → ℕ → TxBuilder p W
  timeout_seconds b seconds = record b { timeout_timestamp = some seconds }

  unfoldable pub priority_tip : TxBuilder p W → ℕ → TxBuilder p W
  priority_tip b tip_oneirs = record b { priority_tip = tip_oneirs }

  unfoldable pub with_tx_class : TxBuilder p W → p.TxClass → TxBuilder p W
  with_tx_class b class = record b { tx_class = class }

  unfoldable pub urgent : TxBuilder p W → Bool → TxBuilder p W
  urgent b hint = record b { urgent = hint }

  unfoldable pub gas_limit : TxBuilder p W → p.TxGasLimit → TxBuilder p W
  gas_limit b limit = record b { gas_limit = limit }

  unfoldable pub with_signing_options : TxBuilder p W → SigningOptions → TxBuilder p W
  with_signing_options b opts = record b { signing_options = opts }

  unfoldable pub with_nonce : TxBuilder p W → Nonce → TxBuilder p W
  with_nonce b nonce = record b { manual_nonce = some nonce }

  unfoldable pub with_nonce_provider : TxBuilder p W → NonceProvider W → TxBuilder p W
  with_nonce_provider b provider = record b { nonce_provider = some provider }

  unfoldable pub with_wallet_adapter : TxBuilder p W → WalletAdapter p W → TxBuilder p W
  with_wallet_adapter b adapter = record b { wallet_adapter = some adapter }

  unfoldable pub with_agent_did : TxBuilder p W → String → TxBuilder p W
  with_agent_did b did = record b { agent_did = some did }

  unfoldable pub with_verifiable_presentation : TxBuilder p W → Bytes → TxBuilder p W
  with_verifiable_presentation b vp = record b { verifiable_presentation = some vp }

  unfoldable pub with_trading_key_address : TxBuilder p W → String → TxBuilder p W
  with_trading_key_address b addr = record b { trading_key_address = some addr }

  unfoldable pub with_trading_key_claim : TxBuilder p W → TradingKeyClaim → TxBuilder p W
  with_trading_key_claim b claim = record b { trading_key_claim = some claim }

module _ (p : Primitives) {W : Type 0} (clock : W → Option ℕ) where
  -- An injected wallet adapter, and the memo and the timestamp flag of the signing options, have no
  -- effect on `sign`: the result and the world are those of the builder without them.
  pub sign_ignores_adapter :
      (b : TxBuilder p W) (adapter : WalletAdapter p W) (text : Option String) (flag : Bool) (w : W)
      → (sign p clock (with_wallet_adapter p b adapter) w ≡ sign p clock b w)
        × (sign p clock
              (with_signing_options p b
                (record b.signing_options { memo = text; include_timestamp = flag }))
              w
            ≡ sign p clock b w)
  unfolding sign preconditions resolve_nonce sign_doc assemble tx_body auth_info with_wallet_adapter
      with_signing_options
  sign_ignores_adapter b adapter text flag w = (refl, refl)

  -- With a manual nonce, the result and the world do not depend on which provider is configured, in
  -- whatever order the two are set.
  pub sign_ignores_provider :
      (b : TxBuilder p W) (provider : NonceProvider W) (nonce : Nonce) (w : W)
      → (sign p clock (with_nonce p (with_nonce_provider p b provider) nonce) w
          ≡ sign p clock (with_nonce p b nonce) w)
        × (sign p clock (with_nonce_provider p (with_nonce p b nonce) provider) w
            ≡ sign p clock (with_nonce p b nonce) w)
  unfolding sign preconditions resolve_nonce sign_doc assemble tx_body auth_info with_nonce
      with_nonce_provider
  sign_ignores_provider b provider nonce w = (refl, refl)
