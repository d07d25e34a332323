-- ===== src/Preimage.antt =====
-- crates/core/src/preimage.rs: the preimage for a caller that holds a key and no signer.
use morpheum_signing.Common.{
  ℕ, ◌≡◌, refl, ap, ◌∙◌, String, Bool, false, Option, none, some, [], ◌∷◌, Bytes, length, ◌==◌,
  if◌then◌else◌, Result, Bool-cases, ok, err, true, ◌↔◌, ◌≢◌, arith, inl, inr,
}
use morpheum_signing.Proto.{ℤ, pos, negsuc, Any, Nonce, TxBody, Sum, AuthInfo}
use morpheum_signing.Error.{SigningError}
use morpheum_signing.Primitives.{Primitives}
use morpheum_signing.Types.WalletType.{chain_type}
use morpheum_signing.Types.PublicKey.{PublicKey, from_proto_any, secp256k1_from_bytes, bad_length}
use morpheum_signing.Builder.{
  TxBuilder, unwrap_or, tip_text, tx_body, signer_info, auth_info, sign_doc,
}

module _ (p : Primitives) where
  pub record SignDocRequest : Type 0 where
    pub type_url : String
    pub msg_bytes : Bytes
    pub signer_key : Bytes
    pub chain_type : ℤ
    pub sign_mode : ℤ
    pub chain_id : String
    pub memo : Option String
    pub account_number : ℕ
    pub genesis_hash : Option Bytes
    pub nonce : Nonce
    pub gas_limit : p.TxGasLimit

pub record SignDocParts : Type 0 where
  pub sign_doc_bytes : Bytes
  pub sign_doc_hash : Bytes
  pub body_bytes : Bytes
  pub auth_info_bytes : Bytes
  pub nonce_bytes : Bytes

-- `chain_type == CHAIN_TYPE_ETHEREUM`
abbrev pub is_ethereum : ℤ → Bool
is_ethereum (pos n) = n == 1
is_ethereum (negsuc n) = false

abbrev pub key_type_url : ℤ → String
key_type_url chain_type =
    if is_ethereum chain_type
    then "/morpheum.crypto.secp256k1.PubKey"
    else "/morpheum.crypto.ed25519.PubKey"

module _ (p : Primitives) where
  abbrev pub key_any : SignDocRequest p → Any
  key_any r = record { type_url = key_type_url r.chain_type; value = r.signer_key }

  unfoldable pub request_body : SignDocRequest p → TxBody
  request_body r = record {
    messages = record { type_url = r.type_url; value = r.msg_bytes } ∷ [];
    memo = unwrap_or "" r.memo;
    timeout_timestamp = none;
    priority_tip = "";
    tx_class = p.tx_class_to_wire p.standard;
    urgent = false;
  }

  -- `..Default::default()` fills the fields from `deadline` on.
  unfoldable pub request_auth_info : SignDocRequest p → AuthInfo
  request_auth_info r = record {
    signer_infos =
        record {
          public_key = some (key_any r);
          mode_info = some (record { sum = some (Sum.single r.sign_mode) });
          chain_type = r.chain_type;
          deadline = 0;
          signing_options = none;
          timestamp = none;
          agent_did = none;
          verifiable_presentation = none;
          trading_key_address = none;
        }
        ∷ [];
    gas_limit = p.get_gas_limit r.gas_limit;
  }

  unfoldable pub build_sign_doc : SignDocRequest p → SignDocParts
  build_sign_doc r =
      let body_bytes = p.body_codec.encode (request_body r) in
      let auth_info_bytes = p.auth_info_codec.encode (request_auth_info r) in
      let sign_doc_bytes =
        p.sign_doc_signing_bytes body_bytes auth_info_bytes r.chain_id r.account_number
          (unwrap_or [] r.genesis_hash) (some r.nonce) in
      record {
        sign_doc_bytes = sign_doc_bytes;
        sign_doc_hash = p.sha256 sign_doc_bytes;
        body_bytes = body_bytes;
        auth_info_bytes = auth_info_bytes;
        nonce_bytes = p.nonce_codec.encode r.nonce;
      }

  -- What a builder with a signer must hold to describe the transaction of a request: the same one
  -- message, no field that a request does not have, and the same key, mode, chain and limits.
  pub record Describes {W : Type 0} (b : TxBuilder p W) (r : SignDocRequest p) : Type 0 where
    pub messages : b.messages ≡ record { type_url = r.type_url; value = r.msg_bytes } ∷ []
    pub memo : unwrap_or "" b.memo ≡ unwrap_or "" r.memo
    pub timeout : b.timeout_timestamp ≡ none
    pub tip : b.priority_tip ≡ 0
    pub tx_class : b.tx_class ≡ p.standard
    pub urgent : b.urgent ≡ false
    pub public_key : b.signer.public_key_proto ≡ key_any r
    pub sign_mode : p.sign_mode_to_i32 b.signer.sign_mode ≡ r.sign_mode
    pub chain : chain_type b.signer.wallet_type ≡ r.chain_type
    pub deadline : unwrap_or 0 b.signing_options.deadline_seconds ≡ 0
    pub agent_did : b.agent_did ≡ none
    pub presentation : b.verifiable_presentation ≡ none
    pub trading_key_address : b.trading_key_address ≡ none
    pub claim : b.trading_key_claim ≡ none
    pub chain_id : b.chain_id ≡ r.chain_id
    pub account_number : unwrap_or 0 b.account_number ≡ r.account_number
    pub genesis_hash : b.genesis_hash ≡ unwrap_or [] r.genesis_hash
    pub gas_limit : b.gas_limit ≡ r.gas_limit

-- What morpheum-primitives documents: the signing bytes are the encoding of the canonical document.
pub record SigningBytes (p : Primitives) : Type 0 where
  pub is_encoding :
      (body info : Bytes) (chain_id : String) (account_number : ℕ) (genesis : Bytes)
      (nonce : Option Nonce)
      → p.sign_doc_signing_bytes body info chain_id account_number genesis nonce
        ≡ p.encode_sign_doc (p.canonical_sign_doc body info chain_id account_number genesis nonce)

module _ (p : Primitives) {W : Type 0} (b : TxBuilder p W) (r : SignDocRequest p) where
  same_body : Describes p b r → tx_body p b ≡ request_body p r
  unfolding tx_body request_body tip_text
  same_body d = ground (arith, d.messages, d.memo, d.timeout, d.tip, d.tx_class, d.urgent)

  same_info : Describes p b r → auth_info p b none ≡ request_auth_info p r
  unfolding auth_info signer_info request_auth_info
  same_info d = ground (
    arith, d.public_key, d.sign_mode, d.chain, d.deadline, d.agent_did, d.presentation,
    d.trading_key_address, d.claim, d.gas_limit,
  )

  -- A builder that describes the transaction of a request has its signer sign the very bytes that
  -- `build_sign_doc` returns for the request, over the same body and the same signer info.
  pub build_sign_doc-sign_doc :
      SigningBytes p
      → Describes p b r
      → (p.encode_sign_doc (sign_doc p b r.nonce none) ≡ (build_sign_doc p r).sign_doc_bytes)
        × (p.body_codec.encode (tx_body p b) ≡ (build_sign_doc p r).body_bytes)
        × (p.auth_info_codec.encode (auth_info p b none) ≡ (build_sign_doc p r).auth_info_bytes)
  unfolding sign_doc build_sign_doc
  build_sign_doc-sign_doc law d = ground (
    arith,
    same_body d,
    same_info d,
    d.chain_id,
    d.account_number,
    d.genesis_hash,
    law.is_encoding (p.body_codec.encode (request_body p r))
        (p.auth_info_codec.encode (request_auth_info p r)) r.chain_id r.account_number
        (unwrap_or [] r.genesis_hash) (some r.nonce),
  )

-- An absent genesis hash and an empty one are the same statement, and so are an absent memo and an
-- empty one.
pub build_sign_doc-absent :
    (p : Primitives) (r : SignDocRequest p)
    → (build_sign_doc p (record r { genesis_hash = none })
        ≡ build_sign_doc p (record r { genesis_hash = some [] }))
      × (build_sign_doc p (record r { memo = none })
          ≡ build_sign_doc p (record r { memo = some "" }))
unfolding build_sign_doc request_body request_auth_info
build_sign_doc-absent p r = (refl, refl)

is_ethereum_iff : (c : ℤ) → (is_ethereum c ≡ true) ↔ (c ≡ pos 1)
is_ethereum_iff (pos n) = ground arith
is_ethereum_iff (negsuc n) = ground arith

ethereum_url : (c : ℤ) → c ≡ pos 1 → key_type_url c ≡ "/morpheum.crypto.secp256k1.PubKey"
ethereum_url c e = ap key_type_url e

other_url : (c : ℤ) → c ≢ pos 1 → key_type_url c ≡ "/morpheum.crypto.ed25519.PubKey"
other_url c ne = elim (Bool-cases (is_ethereum c)) [
  | inl t ↦ absurd (ne ((is_ethereum_iff c).0 t))
  | inr f ↦ rw f refl
]

parse : Bytes → String → Result SigningError PublicKey
parse value url = from_proto_any (record { type_url = url; value = value })

-- The verifier reads the raw key of a request back, by its chain and its length: on Ethereum 20
-- bytes are an address and 33 a secp256k1 key, elsewhere 32 bytes are an Ed25519 key. Every other
-- length is refused.
pub key_any-from_proto_any :
    (p : Primitives) (r : SignDocRequest p)
    → (r.chain_type ≡ pos 1
        → length r.signer_key ≡ 20
        → from_proto_any (key_any p r) ≡ ok (PublicKey.evm_address r.signer_key))
      × (r.chain_type ≡ pos 1
          → length r.signer_key ≡ 33
          → from_proto_any (key_any p r) ≡ ok (PublicKey.secp256k1 r.signer_key))
      × (r.chain_type ≡ pos 1
          → length r.signer_key ≢ 20
          → length r.signer_key ≢ 33
          → from_proto_any (key_any p r) ≡ err bad_length)
      × (r.chain_type ≢ pos 1
          → length r.signer_key ≡ 32
          → from_proto_any (key_any p r) ≡ ok (PublicKey.ed25519 r.signer_key))
      × (r.chain_type ≢ pos 1
          → length r.signer_key ≢ 32
          → from_proto_any (key_any p r) ≡ err bad_length)
unfolding parse from_proto_any secp256k1_from_bytes
key_any-from_proto_any p r = (
  λ c n. ap (parse r.signer_key) (ethereum_url r.chain_type c) ∙ ground (arith, n),
  λ c n. ap (parse r.signer_key) (ethereum_url r.chain_type c) ∙ ground (arith, n),
  λ c n m. ap (parse r.signer_key) (ethereum_url r.chain_type c) ∙ ground (arith, n, m),
  λ c n. ap (parse r.signer_key) (other_url r.chain_type c) ∙ ground (arith, n),
  λ c n. ap (parse r.signer_key) (other_url r.chain_type c) ∙ ground (arith, n),
)
