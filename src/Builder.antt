-- ===== src/Builder.antt =====
-- `TxBuilder` of crates/core/src/builder.rs: its state, its setters and `sign`.
pub mod Setters
pub mod Refusals
pub mod Covered
pub mod Claims
pub mod Returns
pub mod Failures
use mathlib.Core.Bool.{not}
use morpheum_signing.Common.{
  ℕ, ◌/◌, String, Bool, false, Option, none, some, List, [], ◌∷◌, Bytes, is_empty, bytes_eq, ◌==◌,
  to_string, if◌then◌else◌, Result, ok, err,
}
use morpheum_signing.Proto.{
  pos, as_i64, Any, Nonce, Timestamp, TxBody, ModeInfo, Sum, ClaimOptions, SignerInfo, AuthInfo, Tx,
  TxRaw,
}
use morpheum_signing.Error.{SigningError, signing, invalid_claim, genesis_hash_unset}
use morpheum_signing.Primitives.{Primitives}
use morpheum_signing.Exec.{Exec, pure, lift, gets, refuse_if, ◌>>=◌, ◌>>◌}
use morpheum_signing.Signer.{Signer, NonceProvider, WalletAdapter}
use morpheum_signing.Types.WalletType.{chain_type}
use morpheum_signing.Types.Signature.{Signature, to_bytes}
use morpheum_signing.Types.SignedTx.{SignedTx, SigningOptions}
use morpheum_signing.Claim.{TradingKeyClaim, validate, covers, encode_to_vec}
use morpheum_signing.Claim.Embedding.{claim_options}

pub record TxBuilder (p : Primitives) (W : Type 0) : Type 0 where
  pub signer : Signer p W
  pub chain_id : String
  pub genesis_hash : Bytes
  pub account_number : Option ℕ
  pub memo : Option String
  pub timeout_timestamp : Option ℕ
  pub messages : List Any
  pub signing_options : SigningOptions
  pub nonce_provider : Option (NonceProvider W)
  pub manual_nonce : Option Nonce
  pub wallet_adapter : Option (WalletAdapter p W)
  pub trading_key_claim : Option TradingKeyClaim
  pub priority_tip : ℕ
  pub tx_class : p.TxClass
  pub urgent : Bool
  pub gas_limit : p.TxGasLimit
  pub agent_did : Option String
  pub verifiable_presentation : Option Bytes
  pub trading_key_address : Option String

-- `unwrap_or`, `unwrap_or_default`
abbrev pub unwrap_or {ℓ} : {A : Type ℓ} → A → Option A → A
unwrap_or d none = d
unwrap_or d (some a) = a

abbrev pub disagrees : SigningError
disagrees = invalid_claim "trading key claim disagrees with the claim stored on the signer"

abbrev pub outside_range : SigningError
outside_range = invalid_claim "nonce sub is outside the trading key claim range"

-- `if self.priority_tip == 0 { String::new() } else { self.priority_tip.to_string() }`
unfoldable pub tip_text : ℕ → String
tip_text tip = if tip == 0 then "" else to_string tip

-- a timeout in seconds as the protobuf timestamp
abbrev pub timestamp_of : ℕ → Timestamp
timestamp_of ts = record { seconds = as_i64 ts; nanos = pos 0 }

unfoldable pub nonce_with_claim_sub_start : Option TradingKeyClaim → Nonce
nonce_with_claim_sub_start none = record { monotonic = 0; ts_ms = 0; sub = 0 }
nonce_with_claim_sub_start (some claim) = record {
  monotonic = 0;
  ts_ms = 0;
  sub = claim.nonce_sub_range_start;
}

module _ (p : Primitives) where
  -- the test on the stored and the attached claim
  unfoldable pub check_stored_claim :
      Option TradingKeyClaim → Option TradingKeyClaim → Result SigningError (Unit {0})
  check_stored_claim (some stored) (some attached) =
      if bytes_eq (encode_to_vec p stored) (encode_to_vec p attached) then ok tt else err disagrees
  check_stored_claim (some stored) none = ok tt
  check_stored_claim none attached = ok tt

  -- the trading key's address, which falls back to the claim's subject
  derive_address : Option String → Option TradingKeyClaim → Option String
  derive_address (some addr) claim = some addr
  derive_address none none = none
  derive_address none (some c) = some (p.hex_encode c.subject.id)

module _ (p : Primitives) {W : Type 0} where
  -- steps 0 and 0b, and the test on the claims
  unfoldable pub preconditions : TxBuilder p W → Result SigningError (Unit {0})
  preconditions b =
      if is_empty b.messages
      then err (signing "transaction must contain at least one message")
      else if is_empty b.genesis_hash
      then err genesis_hash_unset
      else check_stored_claim p b.signer.trading_key_claim b.trading_key_claim

  -- step 1: manual, then provider, then the default
  choose_nonce : TxBuilder p W → Option Nonce → Option (NonceProvider W) → Exec W Nonce
  choose_nonce b (some nonce) provider = pure nonce
  choose_nonce b none (some provider) = provider.next_nonce b.signer.account_id
  choose_nonce b none none = pure (nonce_with_claim_sub_start b.trading_key_claim)

  unfoldable pub resolve_nonce : TxBuilder p W → Exec W Nonce
  unfolding choose_nonce nonce_with_claim_sub_start
  resolve_nonce b = choose_nonce b b.manual_nonce b.nonce_provider

  -- step 2
  unfoldable pub tx_body : TxBuilder p W → TxBody
  tx_body b = record {
    messages = b.messages;
    memo = unwrap_or "" b.memo;
    timeout_timestamp = elim b.timeout_timestamp [ none ↦ none | some ts ↦ some (timestamp_of ts) ];
    priority_tip = tip_text b.priority_tip;
    tx_class = p.tx_class_to_wire b.tx_class;
    urgent = b.urgent;
  }

  -- step 3
  unfoldable pub signer_info : TxBuilder p W → Option ClaimOptions → SignerInfo
  unfolding derive_address
  signer_info b options = record {
    public_key = some b.signer.public_key_proto;
    mode_info = some (record { sum = some (Sum.single (p.sign_mode_to_i32 b.signer.sign_mode)) });
    chain_type = chain_type b.signer.wallet_type;
    deadline = unwrap_or 0 b.signing_options.deadline_seconds;
    signing_options = options;
    timestamp = none;
    agent_did = b.agent_did;
    verifiable_presentation = b.verifiable_presentation;
    trading_key_address = derive_address p b.trading_key_address b.trading_key_claim;
  }

  unfoldable pub auth_info : TxBuilder p W → Option ClaimOptions → AuthInfo
  unfolding signer_info
  auth_info b options = record {
    signer_infos = signer_info b options ∷ [];
    gas_limit = p.get_gas_limit b.gas_limit;
  }

  -- step 5
  unfoldable pub sign_doc : TxBuilder p W → Nonce → Option ClaimOptions → p.SignDoc
  sign_doc b nonce options =
      p.canonical_sign_doc (p.body_codec.encode (tx_body b))
        (p.auth_info_codec.encode (auth_info b options)) b.chain_id (unwrap_or 0 b.account_number)
        b.genesis_hash (some nonce)

  -- step 7
  unfoldable pub assemble : TxBuilder p W → Nonce → Option ClaimOptions → Signature → SignedTx
  assemble b nonce options signature =
      let sig_bytes = to_bytes signature in
      let raw : TxRaw = record {
        body_bytes = p.body_codec.encode (tx_body b);
        auth_info_bytes = p.auth_info_codec.encode (auth_info b options);
        signatures = sig_bytes ∷ [];
      } in
      record {
        tx = record {
          body = some (tx_body b);
          auth_info = some (auth_info b options);
          signatures = sig_bytes ∷ [];
          nonce = some nonce;
        };
        raw_bytes = p.tx_raw_codec.encode raw;
        tx_raw = some raw;
      }

-- `clock w` is the time in milliseconds since the Unix epoch, `none` before it.
module _ {W : Type 0} (clock : W → Option ℕ) where
  unfoldable pub now_secs : W → ℕ
  now_secs w = elim (clock w) [ none ↦ 0 | some ms ↦ ms / 1000 ]

module _ (p : Primitives) {W : Type 0} (clock : W → Option ℕ) where
  -- step 3.5
  unfoldable pub embed_claim : Option TradingKeyClaim → Nonce → Exec W (Option ClaimOptions)
  embed_claim none nonce = pure none
  embed_claim (some claim) nonce = do
    now ← gets (now_secs clock)
    lift (validate claim now)
    refuse_if (not (covers claim nonce.sub)) outside_range
    pure (some (claim_options p claim))

  -- steps 6 and 7
  complete : TxBuilder p W → Nonce → Option ClaimOptions → Exec W SignedTx
  complete b nonce options = do
    signature ← b.signer.sign (sign_doc p b nonce options)
    pure (assemble p b nonce options signature)

  -- what follows the nonce
  unfoldable pub finish : TxBuilder p W → Nonce → Exec W SignedTx
  unfolding complete
  finish b nonce = do options ← embed_claim b.trading_key_claim nonce; complete b nonce options

  -- The first three refusals come before the nonce is resolved.
  unfoldable pub sign : TxBuilder p W → Exec W SignedTx
  unfolding finish
  sign b = do lift (preconditions p b); nonce ← resolve_nonce p b; finish b nonce
