-- ===== src/Claim/VcClaimBuilder.antt =====
-- `VcClaimBuilder` of crates/core/src/claim.rs.
use morpheum_signing.Common.{ℕ, Option, none, some, Result, ok, ok_or, ◌>>=◌, ◌>>◌}
use morpheum_signing.Error.{SigningError, invalid_claim}
use morpheum_signing.Types.Address.{AccountId}
use morpheum_signing.Types.Signature.{Signature}
use morpheum_signing.Claim.{TradingKeyClaim, validate}

pub record VcClaimBuilder : Type 0 where
  pub issuer : Option AccountId
  pub subject : Option AccountId
  pub permissions : ℕ
  pub max_daily_usd : ℕ
  pub expiry_timestamp : Option ℕ
  pub nonce_sub_range_start : ℕ
  pub nonce_sub_range_end : ℕ
  pub signature : Option Signature

abbrev pub new : VcClaimBuilder
new = record {
  issuer = none;
  subject = none;
  permissions = 0;
  max_daily_usd = 0;
  expiry_timestamp = none;
  nonce_sub_range_start = 0;
  nonce_sub_range_end = 0;
  signature = none;
}

unfoldable pub set_issuer : AccountId → VcClaimBuilder → VcClaimBuilder
set_issuer a b = record b { issuer = some a }

unfoldable pub set_subject : AccountId → VcClaimBuilder → VcClaimBuilder
set_subject a b = record b { subject = some a }

unfoldable pub set_permissions : ℕ → VcClaimBuilder → VcClaimBuilder
set_permissions n b = record b { permissions = n }

unfoldable pub set_max_daily_usd : ℕ → VcClaimBuilder → VcClaimBuilder
set_max_daily_usd n b = record b { max_daily_usd = n }

unfoldable pub set_expiry : ℕ → VcClaimBuilder → VcClaimBuilder
set_expiry n b = record b { expiry_timestamp = some n }

unfoldable pub set_nonce_sub_range : ℕ → ℕ → VcClaimBuilder → VcClaimBuilder
set_nonce_sub_range start end b = record b {
  nonce_sub_range_start = start;
  nonce_sub_range_end = end;
}

unfoldable pub set_signature : Signature → VcClaimBuilder → VcClaimBuilder
set_signature s b = record b { signature = some s }

unfoldable pub build : VcClaimBuilder → ℕ → Result SigningError TradingKeyClaim
build b current_timestamp = do
  issuer ← ok_or b.issuer (invalid_claim "issuer is required")
  subject ← ok_or b.subject (invalid_claim "subject is required")
  expiry ← ok_or b.expiry_timestamp (invalid_claim "expiry is required")
  signature ← ok_or b.signature (invalid_claim "signature is required")
  let claim : TradingKeyClaim = record {
    issuer = issuer;
    subject = subject;
    permissions = b.permissions;
    max_daily_usd = b.max_daily_usd;
    expiry_timestamp = expiry;
    nonce_sub_range_start = b.nonce_sub_range_start;
    nonce_sub_range_end = b.nonce_sub_range_end;
    signature = signature;
  }
  validate claim current_timestamp
  ok claim
