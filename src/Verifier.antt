-- ===== src/Verifier.antt =====
-- `verify_signed_tx` of crates/core/src/verifier.rs. One signature is verified in the module
-- `Dispatch`, the proofs are in the others.
pub mod Dispatch
pub mod Matrix
pub mod Loop
pub mod Signers
pub mod Summary
pub mod Sound
pub mod Scope
pub mod Panics
pub mod Strictest
pub mod Built
use Prim.Native.String.{◌++◌ as str_append}
use mathlib.Core.Bool.{not}
use morpheum_signing.Common.{
  ℕ, suc, String, Bool, Option, none, some, List, [], ◌∷◌, ◌++◌, Bytes, length, is_empty, get_elem?,
  ◌==◌, to_string, if◌then◌else◌, Result, ok, err, map_err, ok_or, ◌>>=◌, ◌>>◌, fail_if,
}
use morpheum_signing.Proto.{
  SignMode, ClaimOptions, SignerInfo, Nonce, TxBody, AuthInfo, TxVerifyContext, Tx,
}
use morpheum_signing.Error.{SigningError, signing, claim_verification}
use morpheum_signing.Primitives.{Primitives}
use morpheum_signing.Types.WalletType.{WalletType}
use morpheum_signing.Types.Address.{AccountId}
use morpheum_signing.Types.PublicKey.{PublicKey, from_proto_any, infer_wallet_type, to_account_id}
use morpheum_signing.Types.SignedTx.{SignedTx}
use morpheum_signing.Claim.{TradingKeyClaim, covers, verify, decode_from_signing_options}
use morpheum_signing.Verifier.Dispatch.{verify_signature, extract_sign_mode}

pub record VerifiedTx : Type 0 where
  pub account_ids : List AccountId
  pub trading_key_claim : Option TradingKeyClaim
  pub wallet_type : WalletType
  pub sign_mode : SignMode
  pub body : TxBody
  pub auth_info : AuthInfo
  pub nonce : Option Nonce
  pub agent_did : Option String
  pub verifiable_presentation : Option Bytes
  pub trading_key_address : Option String

-- What stops the function: an error that it returns, or an index out of bounds.
pub data Failure : Type 0 where
  returned : SigningError → Failure
  panicked : Failure

-- `?` on a call that returns an error
abbrev pub try {ℓ} : {A : Type ℓ} → Result SigningError A → Result Failure A
try r = map_err returned r

-- the mutable variables of the loop over the signers
pub record Progress : Type 0 where
  pub account_ids : List AccountId
  pub trading_key_claim : Option TradingKeyClaim
  pub primary_sign_mode : SignMode
  pub primary_wallet_type : WalletType

-- `strictest_err.or(Some(e))`
abbrev pub or_some : Option SigningError → SigningError → Option SigningError
or_some none e = some e
or_some (some first) e = some first

-- `strictest_err.unwrap_or_else(..)` for the signer at `i`
abbrev pub report : ℕ → Option SigningError → SigningError
report i none =
    signing
      (str_append "signer_info[" (str_append (to_string i) "] verified under no accepted preimage"))
report i (some e) = e

abbrev pub missing_public_key : ℕ → SigningError
missing_public_key i =
    signing (str_append "signer_info[" (str_append (to_string i) "] missing public_key"))

-- step 1 of the loop over the signers
unfoldable pub signer_key : ℕ → SignerInfo → Result Failure PublicKey
signer_key i si = do
  pk_any ← try (ok_or si.public_key (missing_public_key i))
  try (from_proto_any pk_any)

module _ (p : Primitives) where
  -- the loop over the accepted preimages for the signer at `i`
  unfoldable pub verify_ladder :
      PublicKey
      → List Bytes
      → ℕ
      → SignMode
      → Option SigningError
      → List (p.Binding × Bytes)
      → Result Failure (Unit {0})
  verify_ladder key sigs i mode strictest [] = err (returned (report i strictest))
  verify_ladder key sigs i mode strictest ((binding, preimage) ∷ rest) = elim (get_elem? sigs i) [
    | none ↦ err panicked
    | some sig ↦ elim (verify_signature p key preimage sig mode) [
      | ok u ↦ ok tt
      | err e ↦ verify_ladder key sigs i mode (or_some strictest e) rest
    ]
  ]

  -- what is demanded of a claim that was decoded
  unfoldable pub accept_claim :
      Option Nonce → ℕ → PublicKey → TradingKeyClaim → Result SigningError (Unit {0})
  accept_claim nonce now key claim = do
    verify p claim now key
    n ← ok_or nonce (claim_verification "trading key claim requires a nonce.sub inside its range")
    fail_if (not (covers claim n.sub))
        (claim_verification "nonce sub is outside the trading key claim range")

  -- `claim` is the claim of the signers before
  unfoldable pub read_claim :
      Option Nonce
      → ℕ
      → PublicKey
      → Option TradingKeyClaim
      → Option ClaimOptions
      → Result SigningError (Option TradingKeyClaim)
  unfolding accept_claim
  read_claim tx_nonce now key claim none = ok claim
  read_claim tx_nonce now key claim (some opts) = do
    found ← decode_from_signing_options p opts
    elim found [ none ↦ ok claim | some c ↦ (do accept_claim tx_nonce now key c; ok (some c)) ]

  -- the rest of the body of the loop, after the signature
  unfoldable pub record_signer :
      ℕ → SignMode → PublicKey → Option TradingKeyClaim → Progress → Progress
  record_signer i mode key claim progress = record {
    account_ids = progress.account_ids ++ (to_account_id p key ∷ []);
    trading_key_claim = claim;
    primary_sign_mode = if i == 0 then mode else progress.primary_sign_mode;
    primary_wallet_type = if i == 0 then infer_wallet_type key else progress.primary_wallet_type;
  }

  module _ (ladder : List (p.Binding × Bytes)) (sigs : List Bytes) (nonce : Option Nonce)
      (now : ℕ) where
    -- the body of the loop over the signers, after the key
    unfoldable pub check_signer : ℕ → SignerInfo → Progress → PublicKey → Result Failure Progress
    check_signer i si progress key = do
      let mode = extract_sign_mode p si
      verify_ladder key sigs i mode none ladder
      claim ← try (read_claim nonce now key progress.trading_key_claim si.signing_options)
      ok (record_signer i mode key claim progress)

    -- the body of the loop over the signers
    unfoldable pub verify_signer : ℕ → SignerInfo → Progress → Result Failure Progress
    verify_signer i si progress = do key ← signer_key i si; check_signer i si progress key

    unfoldable pub verify_signers : ℕ → List SignerInfo → Progress → Result Failure Progress
    verify_signers i [] progress = ok progress
    verify_signers i (si ∷ rest) progress = do
      next ← verify_signer i si progress
      verify_signers (suc i) rest next

  abbrev pub initial : Progress
  initial = record {
    account_ids = [];
    trading_key_claim = none;
    primary_sign_mode = SignMode.ed25519;
    primary_wallet_type = WalletType.native;
  }

  abbrev pub count_mismatch : ℕ → ℕ → SigningError
  count_mismatch infos sigs = signing (
      str_append "signer_infos count (" (
        str_append (to_string infos)
          (str_append ") != signatures count (" (str_append (to_string sigs) ")"))))

  -- `TxRaw` if it is there, else the fields encoded again
  unfoldable pub wire_bytes : SignedTx → TxBody → AuthInfo → Bytes × Bytes
  wire_bytes signed_tx body info = elim signed_tx.tx_raw [
    | none ↦ (p.body_codec.encode body, p.auth_info_codec.encode info)
    | some raw ↦ (raw.body_bytes, raw.auth_info_bytes)
  ]

  unfoldable pub ladder_of :
      SignedTx
      → TxBody
      → AuthInfo
      → ℕ
      → TxVerifyContext
      → Result SigningError (List (p.Binding × Bytes))
  unfolding wire_bytes
  ladder_of signed_tx body info account_number ctx =
      let (body_bytes, info_bytes) = wire_bytes signed_tx body info in
      map_err signing
        (p.accepted_preimages body_bytes info_bytes account_number signed_tx.tx.nonce ctx)

  unfoldable pub verified : Tx → TxBody → AuthInfo → Progress → SignerInfo → VerifiedTx
  verified tx body info progress primary = record {
    account_ids = progress.account_ids;
    trading_key_claim = progress.trading_key_claim;
    wallet_type = progress.primary_wallet_type;
    sign_mode = progress.primary_sign_mode;
    body = body;
    auth_info = info;
    nonce = tx.nonce;
    agent_did = primary.agent_did;
    verifiable_presentation = primary.verifiable_presentation;
    trading_key_address = primary.trading_key_address;
  }

  -- the two tests on the counts
  unfoldable pub check_counts : List SignerInfo → List Bytes → Result SigningError (Unit {0})
  check_counts infos sigs = do
    fail_if (not (length infos == length sigs)) (count_mismatch (length infos) (length sigs))
    fail_if (is_empty infos) (signing "transaction has no signers")

  -- the loop, and what follows it
  unfoldable pub verify_under :
      SignedTx → TxBody → AuthInfo → ℕ → List (p.Binding × Bytes) → Result Failure VerifiedTx
  unfolding verified
  verify_under s body info now ladder = do
    progress ← verify_signers ladder s.tx.signatures s.tx.nonce now 0 info.signer_infos initial
    primary ← ok_or (get_elem? info.signer_infos 0) panicked
    ok (verified s.tx body info progress primary)

  -- what follows the two required fields
  unfoldable pub verify_parts :
      SignedTx → TxVerifyContext → ℕ → ℕ → TxBody → AuthInfo → Result Failure VerifiedTx
  unfolding verify_under
  verify_parts s ctx account_number now body info = do
    try (check_counts info.signer_infos s.tx.signatures)
    ladder ← try (ladder_of s body info account_number ctx)
    verify_under s body info now ladder

  unfoldable pub verify_signed_tx : SignedTx → TxVerifyContext → ℕ → ℕ → Result Failure VerifiedTx
  unfolding verify_parts
  verify_signed_tx s ctx account_number now = do
    body ← try (ok_or s.tx.body (signing "transaction missing body"))
    info ← try (ok_or s.tx.auth_info (signing "transaction missing auth_info"))
    verify_parts s ctx account_number now body info
