-- ===== src/Tests/Toy.antt =====
-- A concrete instance of what the program calls, a signer of it, and data.
use morpheum_signing.Common.{
  ℕ, zero, suc, ◌*◌, ◌≡◌, refl, String, true, false, Option, none, some, [], ◌∷◌, ◌++◌, Bytes,
  length, take, drop, replicate, take-append, bytes_eq, if◌then◌else◌, Result, ok, err, arith,
}
use morpheum_signing.Proto.{ℤ, pos, Any, Nonce, SignMode, TradingKeyClaimProto, TxVerifyContext}
use morpheum_signing.Primitives.{Primitives, Codec, RoundTrips}
use morpheum_signing.Types.WalletType.{WalletType}
use morpheum_signing.Types.PublicKey.{PublicKey}
use morpheum_signing.Types.Signature.{Signature}
use morpheum_signing.Types.SignedTx.{default_options}
use morpheum_signing.Signer.{Signer, NonceProvider, unknown_strategy}
use morpheum_signing.Claim.{TradingKeyClaim, claim_type_url}
use morpheum_signing.Claim.Embedding.{IsClaimAny}
use morpheum_signing.Builder.{TxBuilder}
use morpheum_signing.Tests.Documents.{document}

pub drop-append : (xs ys : Bytes) → drop (length xs) (xs ++ ys) ≡ ys
drop-append [] ys = refl
drop-append (x ∷ xs) ys = drop-append xs ys

abbrev no_codec : {A : Type 0} → Codec A
no_codec = record { encode = λ a. []; decode = λ b. err "unreadable" }

abbrev decode_nonce : Bytes → Result String Nonce
decode_nonce (m ∷ t ∷ s ∷ []) = ok (record { monotonic = m; ts_ms = t; sub = s })
decode_nonce _ = err "unreadable"

abbrev pub nonce_codec : Codec Nonce
nonce_codec = record { encode = λ n. n.monotonic ∷ n.ts_ms ∷ n.sub ∷ []; decode = decode_nonce }

pub nonce_codec-RoundTrips : RoundTrips (λ n. Unit {0}) nonce_codec
nonce_codec-RoundTrips = record { decode-encode = λ n h. refl }

abbrev pub any_codec : Codec Any
any_codec = record {
  encode = λ any. any.value;
  decode = λ b. ok (record { type_url = claim_type_url; value = b });
}

abbrev encode_claim : TradingKeyClaimProto → Bytes
encode_claim m =
    m.permissions
    ∷ m.max_daily_usd
    ∷ m.expiry_timestamp
    ∷ m.nonce_sub_range_start
    ∷ m.nonce_sub_range_end
    ∷ length m.issuer
    ∷ length m.subject
    ∷ (m.issuer ++ (m.subject ++ m.signature))

abbrev decode_claim : Bytes → Result String TradingKeyClaimProto
decode_claim (a ∷ b ∷ c ∷ d ∷ e ∷ n ∷ k ∷ rest) = ok (record {
  issuer = take n rest;
  subject = take k (drop n rest);
  permissions = a;
  max_daily_usd = b;
  expiry_timestamp = c;
  nonce_sub_range_start = d;
  nonce_sub_range_end = e;
  signature = drop k (drop n rest);
})
decode_claim _ = err "unreadable"

abbrev pub claim_codec : Codec TradingKeyClaimProto
claim_codec = record { encode = encode_claim; decode = decode_claim }

pub claim_codec-RoundTrips :
    (InRange : TradingKeyClaimProto → Type 0) → RoundTrips InRange claim_codec
claim_codec-RoundTrips InRange = record { decode-encode = λ m h. reads m }
  where
    reads : (m : TradingKeyClaimProto) → decode_claim (encode_claim m) ≡ ok m
    reads m = rw (drop-append m.issuer (m.subject ++ m.signature)) (
        rw (drop-append m.subject m.signature) (
          rw (take-append (length m.issuer) m.issuer (m.subject ++ m.signature) refl)
            (rw (take-append (length m.subject) m.subject m.signature refl) refl)))

pub any_codec-RoundTrips : RoundTrips IsClaimAny any_codec
any_codec-RoundTrips = record { decode-encode = λ any e. ground (arith, e) }

abbrev mode_to_i32 : SignMode → ℤ
mode_to_i32 SignMode.ed25519 = pos 1
mode_to_i32 SignMode.eip191_personal = pos 2
mode_to_i32 SignMode.secp256k1 = pos 3
mode_to_i32 _ = pos 0

abbrev mode_of_i32 : ℤ → Option SignMode
mode_of_i32 (pos (suc zero)) = some SignMode.ed25519
mode_of_i32 (pos (suc (suc zero))) = some SignMode.eip191_personal
mode_of_i32 (pos (suc (suc (suc zero)))) = some SignMode.secp256k1
mode_of_i32 _ = none

-- a signature is the key and the message
abbrev pub signature_by : Bytes → Bytes → Bytes
signature_by key msg = key ++ msg

abbrev verify_bytes : Bytes → Bytes → Bytes → Result String (Unit {0})
verify_bytes key msg sig =
    if bytes_eq sig (signature_by key msg) then ok tt else err "bad signature"

abbrev pub toy : Primitives
toy = record {
  sha256 = λ b. b;
  hex_encode = λ b. "00";
  any_codec = any_codec;
  nonce_codec = nonce_codec;
  body_codec = record { encode = λ b. length b.messages ∷ []; decode = λ b. err "unreadable" };
  auth_info_codec = record { encode = λ i. i.gas_limit ∷ []; decode = λ b. err "unreadable" };
  tx_codec = no_codec;
  tx_raw_codec = no_codec;
  claim_codec = claim_codec;
  SignDoc = Bytes;
  encode_sign_doc = λ d. d;
  sign_mode_to_i32 = mode_to_i32;
  sign_mode_of_i32 = mode_of_i32;
  TxClass = Unit {0};
  standard = tt;
  tx_class_to_wire = λ c. pos 0;
  TxGasLimit = ℕ;
  new_gas_limit = λ n. ok n;
  get_gas_limit = λ n. n;
  default_gas_limit = 25_000;
  default_gas_limit_is = refl;
  canonical_sign_doc = document;
  sign_doc_signing_bytes = document;
  Binding = Unit {0};
  accepted_preimages = λ body info account_number nonce ctx.
      ok ((tt, document body info ctx.chain_id account_number ctx.genesis_hash nonce) ∷ []);
  verify_ed25519_bytes = verify_bytes;
  verify_secp256k1_bytes = verify_bytes;
  verify_secp256k1_keccak_bytes = verify_bytes;
  eip191_ecrecover_verify = verify_bytes;
  keccak256 = λ b. b;
  VerifyingKey = Bytes;
  verifying_key_of_sec1 = λ b. ok b;
  SecpSig = Bytes;
  secp_sig_of_slice = λ b. ok b;
  verify_prehash = λ key hash sig. true;
}

abbrev pub key : Bytes
key = replicate 32 7

abbrev pub nonce : Nonce
nonce = record { monotonic = 1; ts_ms = 0; sub = 5 }

-- The world counts the nonces that were given out, and is the clock in seconds.
abbrev pub clock : ℕ → Option ℕ
clock w = some (w * 1000)

abbrev pub provider : NonceProvider ℕ
provider = record {
  next_nonce = λ id w. (ok (record { monotonic = w; ts_ms = 0; sub = 5 }), suc w);
  strategy_name = unknown_strategy;
}

abbrev pub signer : Signer toy ℕ
signer = record {
  sign = λ doc w. (ok (Signature.ed25519 (signature_by key doc)), w);
  public_key = PublicKey.ed25519 key;
  wallet_type = WalletType.native;
  account_id = record { id = key };
  public_key_proto = record { type_url = "/morpheum.crypto.ed25519.PubKey"; value = key };
  sign_mode = SignMode.ed25519;
  trading_key_claim = none;
}

abbrev pub message : Any
message = record { type_url = "/bank.Send"; value = 1 ∷ [] }

abbrev pub builder : TxBuilder toy ℕ
builder = record {
  signer = signer;
  chain_id = "morpheum-1";
  genesis_hash = 9 ∷ [];
  account_number = none;
  memo = none;
  timeout_timestamp = none;
  messages = message ∷ [];
  signing_options = default_options;
  nonce_provider = none;
  manual_nonce = some nonce;
  wallet_adapter = none;
  trading_key_claim = none;
  priority_tip = 0;
  tx_class = tt;
  urgent = false;
  gas_limit = 25_000;
  agent_did = none;
  verifiable_presentation = none;
  trading_key_address = none;
}

-- issued by the signer's own account, until second 100
abbrev pub claim : TradingKeyClaim
claim = record {
  issuer = record { id = key };
  subject = record { id = replicate 32 8 };
  permissions = 1;
  max_daily_usd = 2;
  expiry_timestamp = 100;
  nonce_sub_range_start = 5;
  nonce_sub_range_end = 8;
  signature = Signature.secp256k1 (replicate 64 3);
}

abbrev pub ctx : TxVerifyContext
ctx = record { chain_id = "morpheum-1"; genesis_hash = 9 ∷ []; fork_version = 0 }
