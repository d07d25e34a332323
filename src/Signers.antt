-- ===== src/Signers.antt =====
-- The local signers of crates/native/src/signers: native.rs, solana.rs, evm.rs, bitcoin.rs and
-- agent.rs. The curves (ed25519-dalek, k256, bitcoin) are parameters.
pub mod Accepted
pub mod Refused
pub mod Derivation
pub mod Builders
use morpheum_signing.Common.{String, Option, none, some, Bytes, Result, ok, err, map_err, ◌>>=◌}
use morpheum_signing.Error.{SigningError, CryptoError, crypto}
use morpheum_signing.Primitives.{Primitives}
use morpheum_signing.Exec.{Exec, pure, lift}
use morpheum_signing.Types.WalletType.{WalletType}
use morpheum_signing.Types.Address.{AccountId}
use morpheum_signing.Types.PublicKey.{PublicKey}
use morpheum_signing.Types.Signature.{Signature}
use morpheum_signing.Claim.{TradingKeyClaim}
use morpheum_signing.Signer.{Signer, with_defaults}

-- the operations of the curves, on keys, compressed public keys, messages and signatures
pub record Curves : Type 1 where
  pub SigningKey : Type 0
  pub from_bytes : Bytes → SigningKey
  pub verifying_key : SigningKey → Bytes
  pub sign : SigningKey → Bytes → Bytes
  pub SecpSigningKey : Type 0
  pub secp_from_slice : Bytes → Result String SecpSigningKey
  pub secp_verifying_key : SecpSigningKey → Bytes
  pub try_sign : SecpSigningKey → Bytes → Result String Bytes
  pub Keypair : Type 0
  pub from_seckey_slice : Bytes → Result String Keypair
  pub x_only_public_key : Keypair → Bytes
  pub sign_schnorr_no_aux_rand : Bytes → Keypair → Bytes

-- `expect`: a panic on an error
abbrev pub expect {ℓ} : {A : Type ℓ} → Result String A → Option A
expect (ok a) = some a
expect (err e) = none

module _ (c : Curves) where
  pub record NativeSigner : Type 0 where
    pub signing_key : c.SigningKey
    pub verifying_key : Bytes

  pub record SolanaSigner : Type 0 where
    pub signing_key : c.SigningKey
    pub verifying_key : Bytes

  pub record EvmSigner : Type 0 where
    pub signing_key : c.SecpSigningKey
    pub verifying_key : Bytes

  pub record BitcoinSigner : Type 0 where
    pub keypair : c.Keypair
    pub x_only_pubkey : Bytes

  pub record AgentSigner : Type 0 where
    pub trading_key : c.SigningKey
    pub agent_id : AccountId
    pub claim : Option TradingKeyClaim

  unfoldable pub native_from_seed : Bytes → NativeSigner
  native_from_seed seed =
      let key = c.from_bytes seed in
      record { signing_key = key; verifying_key = c.verifying_key key }

  unfoldable pub solana_from_seed : Bytes → SolanaSigner
  solana_from_seed seed =
      let key = c.from_bytes seed in
      record { signing_key = key; verifying_key = c.verifying_key key }

  unfoldable pub evm_from_seed : Bytes → Option EvmSigner
  evm_from_seed seed = elim (expect (c.secp_from_slice seed)) [
    | none ↦ none
    | some key ↦ some (record { signing_key = key; verifying_key = c.secp_verifying_key key })
  ]

  unfoldable pub bitcoin_from_seed : Bytes → Option BitcoinSigner
  bitcoin_from_seed seed = elim (expect (c.from_seckey_slice seed)) [
    | none ↦ none
    | some pair ↦ some (record { keypair = pair; x_only_pubkey = c.x_only_public_key pair })
  ]

  unfoldable pub agent_new : Bytes → AccountId → Option TradingKeyClaim → AgentSigner
  agent_new seed agent_id claim = record {
    trading_key = c.from_bytes seed;
    agent_id = agent_id;
    claim = claim;
  }

module _ (p : Primitives) (c : Curves) where
  unfoldable pub evm_sign : EvmSigner c → p.SignDoc → Result SigningError Signature
  evm_sign s doc = do
    signature ←
        map_err (λ e. crypto (CryptoError.secp256k1 e))
          (c.try_sign s.signing_key (p.encode_sign_doc doc))
    ok (Signature.secp256k1 signature)

module _ (p : Primitives) (c : Curves) {W : Type 0} where
  unfoldable pub native_signer : NativeSigner c → Signer p W
  native_signer s =
      with_defaults p
        (λ doc. pure (Signature.ed25519 (c.sign s.signing_key (p.encode_sign_doc doc))))
        (PublicKey.ed25519 s.verifying_key) WalletType.native

  unfoldable pub solana_signer : SolanaSigner c → Signer p W
  solana_signer s =
      with_defaults p
        (λ doc. pure (Signature.ed25519 (c.sign s.signing_key (p.encode_sign_doc doc))))
        (PublicKey.ed25519 s.verifying_key) WalletType.solana

  unfoldable pub evm_signer : EvmSigner c → Signer p W
  unfolding evm_sign
  evm_signer s =
      with_defaults p (λ doc. lift (evm_sign p c s doc)) (PublicKey.secp256k1 s.verifying_key)
        WalletType.evm

  unfoldable pub bitcoin_signer : BitcoinSigner c → Signer p W
  bitcoin_signer s =
      with_defaults p
        (λ doc. pure (
          Signature.schnorr
            (c.sign_schnorr_no_aux_rand (p.sha256 (p.encode_sign_doc doc)) s.keypair)))
        (PublicKey.schnorr s.x_only_pubkey) WalletType.bitcoin

  unfoldable pub agent_signer : AgentSigner c → Signer p W
  agent_signer s =
      record (with_defaults p
        (λ doc. pure (Signature.ed25519 (c.sign s.trading_key (p.encode_sign_doc doc))))
        (PublicKey.ed25519 (c.verifying_key s.trading_key)) WalletType.agent) {
          account_id = s.agent_id;
          trading_key_claim = s.claim;
        }
