-- ===== src/Claim.antt =====
-- `TradingKeyClaim` of crates/core/src/claim.rs. The proofs are in the modules below.
pub mod VcClaimBuilder
pub mod Validity
pub mod Digest
pub mod Embedding
use Prim.Native.String.{◌++◌ as str_append}
use morpheum_signing.Common.{
  ℕ, ◌-◌, String, Bool, ◌&&◌, Option, none, some, [], Bytes, try_into, bytes_eq, str_eq, ltb, leb,
  if◌then◌else◌, Result, ok, err, map_err, ok_or, ◌>>=◌, ◌>>◌, fail_if,
}
use mathlib.Core.Bool.{not}
use morpheum_signing.Proto.{Any, ClaimOptions, TradingKeyClaimProto}
use morpheum_signing.Error.{SigningError, invalid_claim, claim_verification}
use morpheum_signing.Primitives.{Primitives}
use morpheum_signing.Types.Address.{AccountId}
use morpheum_signing.Types.PublicKey.{PublicKey}
use morpheum_signing.Types.PublicKey
use morpheum_signing.Types.Signature.{Signature, is_zero, to_bytes}

abbrev pub claim_type_url : String
claim_type_url = "type.googleapis.com/morpheum.signing.v1.TradingKeyClaim"

abbrev pub claim_hint : String
claim_hint = "trading_key_claim"

pub record TradingKeyClaim : Type 0 where
  pub issuer : AccountId
  pub subject : AccountId
  pub permissions : ℕ
  pub max_daily_usd : ℕ
  pub expiry_timestamp : ℕ
  pub nonce_sub_range_start : ℕ
  pub nonce_sub_range_end : ℕ
  pub signature : Signature

unfoldable pub validate : TradingKeyClaim → ℕ → Result SigningError (Unit {0})
validate c current_timestamp = do
  fail_if (leb c.expiry_timestamp current_timestamp) (invalid_claim "claim has expired")
  fail_if (leb c.nonce_sub_range_end c.nonce_sub_range_start)
      (invalid_claim "invalid nonce sub-range")
  fail_if (is_zero c.signature) (invalid_claim "missing signature")
  ok tt

-- `(start..end).contains(&sub)`
abbrev pub covers : TradingKeyClaim → ℕ → Bool
covers c sub = leb c.nonce_sub_range_start sub && ltb sub c.nonce_sub_range_end

-- `saturating_sub`
unfoldable pub sub_range_size : TradingKeyClaim → ℕ
sub_range_size c = c.nonce_sub_range_end - c.nonce_sub_range_start

-- The message that is hashed: no signature.
unfoldable pub unsigned : TradingKeyClaim → TradingKeyClaimProto
unsigned c = record {
  issuer = c.issuer.id;
  subject = c.subject.id;
  permissions = c.permissions;
  max_daily_usd = c.max_daily_usd;
  expiry_timestamp = c.expiry_timestamp;
  nonce_sub_range_start = c.nonce_sub_range_start;
  nonce_sub_range_end = c.nonce_sub_range_end;
  signature = [];
}

unfoldable pub to_proto_inner : TradingKeyClaim → TradingKeyClaimProto
to_proto_inner c = record {
  issuer = c.issuer.id;
  subject = c.subject.id;
  permissions = c.permissions;
  max_daily_usd = c.max_daily_usd;
  expiry_timestamp = c.expiry_timestamp;
  nonce_sub_range_start = c.nonce_sub_range_start;
  nonce_sub_range_end = c.nonce_sub_range_end;
  signature = to_bytes c.signature;
}

-- the three `try_into` and the struct literal at the end of `decode_from_signing_options`
unfoldable pub of_proto : TradingKeyClaimProto → Result SigningError TradingKeyClaim
of_proto m = do
  issuer ← ok_or (try_into 32 m.issuer) (invalid_claim "issuer must be 32 bytes")
  subject ← ok_or (try_into 32 m.subject) (invalid_claim "subject must be 32 bytes")
  signature ← ok_or (try_into 64 m.signature) (invalid_claim "signature must be 64 bytes")
  ok (record {
    issuer = record { id = issuer };
    subject = record { id = subject };
    permissions = m.permissions;
    max_daily_usd = m.max_daily_usd;
    expiry_timestamp = m.expiry_timestamp;
    nonce_sub_range_start = m.nonce_sub_range_start;
    nonce_sub_range_end = m.nonce_sub_range_end;
    signature = Signature.ed25519 signature;
  })

module _ (p : Primitives) where
  unfoldable pub verify : TradingKeyClaim → ℕ → PublicKey → Result SigningError (Unit {0})
  verify c now_secs issuer_pubkey = do
    validate c now_secs
    let expected_issuer = PublicKey.to_account_id p issuer_pubkey
    fail_if (not (bytes_eq c.issuer.id expected_issuer.id))
        (claim_verification "issuer does not match the provided public key")
    ok tt

  unfoldable pub claim_digest : TradingKeyClaim → Bytes
  claim_digest c = p.sha256 (p.claim_codec.encode (unsigned c))

  unfoldable pub encode_to_vec : TradingKeyClaim → Bytes
  encode_to_vec c = p.claim_codec.encode (to_proto_inner c)

  -- `to_proto_any` and `into_any`
  unfoldable pub to_proto_any : TradingKeyClaim → Any
  to_proto_any c = record { type_url = claim_type_url; value = encode_to_vec c }

  decode_claim_any : Any → Result SigningError (Option TradingKeyClaim)
  decode_claim_any any =
      if str_eq any.type_url claim_type_url
      then (do
        m ←
            map_err (λ e. invalid_claim (str_append "failed to decode TradingKeyClaim proto: " e))
              (p.claim_codec.decode any.value)
        c ← of_proto m
        ok (some c))
      else ok none

  unfoldable pub decode_from_signing_options :
      ClaimOptions → Result SigningError (Option TradingKeyClaim)
  unfolding decode_claim_any
  decode_from_signing_options opts =
      if str_eq opts.algo_hint claim_hint
      then (do
        any ←
            map_err (λ e. invalid_claim (str_append "failed to decode claim Any envelope: " e))
              (p.any_codec.decode opts.wasm_seed)
        decode_claim_any any)
      else ok none
