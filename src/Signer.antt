-- ===== src/Signer.antt =====
-- The traits that the builder calls: `Signer` (crates/core/src/signer.rs), `NonceProvider`
-- (crates/core/src/nonce.rs) and `WalletAdapter` (crates/core/src/wallet_adapter.rs).
use morpheum_signing.Common.{String, Option, none, Bytes}
use morpheum_signing.Proto.{Any, Nonce, SignMode}
use morpheum_signing.Primitives.{Primitives}
use morpheum_signing.Exec.{Exec, pure, ◌>>=◌}
use morpheum_signing.Types.WalletType.{WalletType, default_sign_mode}
use morpheum_signing.Types.Address.{AccountId, Address}
use morpheum_signing.Types.PublicKey.{PublicKey}
use morpheum_signing.Types.PublicKey
use morpheum_signing.Types.Signature.{Signature, to_bytes}
use morpheum_signing.Claim.{TradingKeyClaim}

pub record Signer (p : Primitives) (W : Type 0) : Type 0 where
  pub sign : p.SignDoc → Exec W Signature
  pub public_key : PublicKey
  pub wallet_type : WalletType
  pub account_id : AccountId
  pub public_key_proto : Any
  pub sign_mode : SignMode
  pub trading_key_claim : Option TradingKeyClaim

pub record NonceProvider (W : Type 0) : Type 0 where
  pub next_nonce : AccountId → Exec W Nonce
  pub strategy_name : String

-- the default of `strategy_name`
abbrev pub unknown_strategy : String
unknown_strategy = "unknown_nonce_strategy"

pub record WalletAdapter (p : Primitives) (W : Type 0) : Type 0 where
  pub request_signature : p.SignDoc → Exec W Signature
  pub wallet_type : WalletType
  pub external_address : Address
  pub name : String

module _ (p : Primitives) {W : Type 0} where
  -- A signer that implements the three required methods alone.
  abbrev pub with_defaults : (p.SignDoc → Exec W Signature) → PublicKey → WalletType → Signer p W
  with_defaults sign key wallet = record {
    sign = sign;
    public_key = key;
    wallet_type = wallet;
    account_id = PublicKey.to_account_id p key;
    public_key_proto = PublicKey.to_proto_any key;
    sign_mode = default_sign_mode wallet;
    trading_key_claim = none;
  }

  -- `SignerExt::sign_bytes`
  unfoldable pub sign_bytes : Signer p W → p.SignDoc → Exec W Bytes
  sign_bytes signer doc = do signature ← signer.sign doc; pure (to_bytes signature)

  -- `WalletAdapterExt::request_signature_wrapped`
  unfoldable pub request_signature_wrapped : WalletAdapter p W → p.SignDoc → Exec W Signature
  request_signature_wrapped adapter doc = adapter.request_signature doc
