-- ===== src/Primitives.antt =====
-- What the program calls and does not implement: prost, sha2, hex, k256 and morpheum-primitives.
-- Each operation is a parameter. A law that a theorem relies on is a hypothesis of that theorem,
-- in the form of the records at the end.
use morpheum_signing.Common.{ℕ, ◌≡◌, Bool, String, Option, List, Bytes, Result, ok}
use morpheum_signing.Proto.{
  ℤ, Any, Nonce, TxBody, AuthInfo, SignMode, Tx, TxRaw, TradingKeyClaimProto, TxVerifyContext,
}

-- `encode_to_vec` and `decode` of a message type; a decode error is the text that it displays.
pub record Codec (A : Type 0) : Type 0 where
  pub encode : A → Bytes
  pub decode : Bytes → Result String A

pub record Primitives : Type 1 where
  -- sha2, hex
  pub sha256 : Bytes → Bytes
  pub hex_encode : Bytes → String
  -- the generated messages
  pub any_codec : Codec Any
  pub nonce_codec : Codec Nonce
  pub body_codec : Codec TxBody
  pub auth_info_codec : Codec AuthInfo
  pub tx_codec : Codec Tx
  pub tx_raw_codec : Codec TxRaw
  pub claim_codec : Codec TradingKeyClaimProto
  pub SignDoc : Type 0
  pub encode_sign_doc : SignDoc → Bytes
  -- `SignMode as i32` and `SignMode::try_from`
  pub sign_mode_to_i32 : SignMode → ℤ
  pub sign_mode_of_i32 : ℤ → Option SignMode
  -- `TxClass` and its wire form
  pub TxClass : Type 0
  pub standard : TxClass
  pub tx_class_to_wire : TxClass → ℤ
  -- `TxGasLimit`, and the constant of value 25,000 that the program evaluates when it is compiled
  pub TxGasLimit : Type 0
  pub new_gas_limit : ℕ → Result String TxGasLimit
  pub get_gas_limit : TxGasLimit → ℕ
  pub default_gas_limit : TxGasLimit
  pub default_gas_limit_is : new_gas_limit 25_000 ≡ ok default_gas_limit
  -- morpheum_primitives::tx
  pub canonical_sign_doc : Bytes → Bytes → String → ℕ → Bytes → Option Nonce → SignDoc
  pub sign_doc_signing_bytes : Bytes → Bytes → String → ℕ → Bytes → Option Nonce → Bytes
  pub Binding : Type 0
  pub accepted_preimages :
      Bytes → Bytes → ℕ → Option Nonce → TxVerifyContext → Result String (List (Binding × Bytes))
  -- morpheum_primitives::crypto: key or address, message, signature
  pub verify_ed25519_bytes : Bytes → Bytes → Bytes → Result String (Unit {0})
  pub verify_secp256k1_bytes : Bytes → Bytes → Bytes → Result String (Unit {0})
  pub verify_secp256k1_keccak_bytes : Bytes → Bytes → Bytes → Result String (Unit {0})
  pub eip191_ecrecover_verify : Bytes → Bytes → Bytes → Result String (Unit {0})
  -- sha3, k256
  pub keccak256 : Bytes → Bytes
  pub VerifyingKey : Type 0
  pub verifying_key_of_sec1 : Bytes → Result String VerifyingKey
  pub SecpSig : Type 0
  pub secp_sig_of_slice : Bytes → Result String SecpSig
  pub verify_prehash : VerifyingKey → Bytes → SecpSig → Bool

-- What prost documents: a message in range is read back from its encoding.
pub record RoundTrips {A : Type 0} (InRange : A → Type 0) (c : Codec A) : Type 0 where
  pub decode-encode : (a : A) → InRange a → c.decode (c.encode a) ≡ ok a
