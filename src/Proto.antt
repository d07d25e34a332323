-- ===== src/Proto.antt =====
-- The messages of `tx.v1` and `google.protobuf` (crate morpheum-primitives) with the fields that
-- crates/core/src/builder.rs and preimage.rs write in full, and the verifying context that
-- crates/core/src/verifier.rs takes. The enumerations keep the names that the program uses.
use morpheum_signing.Common.{ℕ, ◌-◌, ◌^◌, String, Bool, Option, List, Bytes, ltb, if◌then◌else◌}

-- `negsuc n` is -(n + 1): the type of `i32` and `i64` fields.
pub data ℤ : Type 0 where
  pos : ℕ → ℤ
  negsuc : ℕ → ℤ

-- `x as i64` for a `u64` x
abbrev pub as_i64 : ℕ → ℤ
as_i64 x = if ltb x (2 ^ 63) then pos x else negsuc (2 ^ 64 - x - 1)

pub record Any : Type 0 where
  pub type_url : String
  pub value : Bytes

pub record Nonce : Type 0 where
  pub monotonic : ℕ
  pub ts_ms : ℕ
  pub sub : ℕ

pub record Timestamp : Type 0 where
  pub seconds : ℤ
  pub nanos : ℤ

pub record TxBody : Type 0 where
  pub messages : List Any
  pub memo : String
  pub timeout_timestamp : Option Timestamp
  pub priority_tip : String
  pub tx_class : ℤ
  pub urgent : Bool

-- `other` is a mode that the program never names.
pub data SignMode : Type 0 where
  ed25519 gasless_ed25519 solana_offchain secp256k1 ecdsa_legacy keccak256 : SignMode
  eip191_personal schnorr_aggregate : SignMode
  other : ℕ → SignMode

-- `mode_info::Sum`: a single mode, or another variant.
pub data Sum : Type 0 where
  single : ℤ → Sum
  multi : Sum

pub record ModeInfo : Type 0 where
  pub sum : Option Sum

-- The message `tx.v1.SigningOptions`; its other fields stay at their defaults.
pub record ClaimOptions : Type 0 where
  pub wasm_seed : Bytes
  pub algo_hint : String

pub record SignerInfo : Type 0 where
  pub public_key : Option Any
  pub mode_info : Option ModeInfo
  pub chain_type : ℤ
  pub deadline : ℕ
  pub signing_options : Option ClaimOptions
  pub timestamp : Option Timestamp
  pub agent_did : Option String
  pub verifiable_presentation : Option Bytes
  pub trading_key_address : Option String

pub record AuthInfo : Type 0 where
  pub signer_infos : List SignerInfo
  pub gas_limit : ℕ

pub record Tx : Type 0 where
  pub body : Option TxBody
  pub auth_info : Option AuthInfo
  pub signatures : List Bytes
  pub nonce : Option Nonce

pub record TxRaw : Type 0 where
  pub body_bytes : Bytes
  pub auth_info_bytes : Bytes
  pub signatures : List Bytes

-- The struct of the same name of crates/core/src/claim.rs, whose encoding prost derives.
pub record TradingKeyClaimProto : Type 0 where
  pub issuer : Bytes
  pub subject : Bytes
  pub permissions : ℕ
  pub max_daily_usd : ℕ
  pub expiry_timestamp : ℕ
  pub nonce_sub_range_start : ℕ
  pub nonce_sub_range_end : ℕ
  pub signature : Bytes

-- What a verifying node knows of its chain.
pub record TxVerifyContext : Type 0 where
  pub chain_id : String
  pub genesis_hash : Bytes
  pub fork_version : ℕ
