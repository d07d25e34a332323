-- ===== src/Tests/InJavaScript.antt =====
-- The bindings, at concrete data.
use morpheum_signing.Common.{
  ℕ, ◌≡◌, refl, String, Option, none, some, [], ◌∷◌, ◌++◌, Bytes, replicate, Result, ok, err, ◌>>=◌,
  arith,
}
use morpheum_signing.Proto.{pos}
use morpheum_signing.Error.{SigningError}
use morpheum_signing.Error.Display.{display_error}
use morpheum_signing.Types.Signature.{is_zero}
use morpheum_signing.Types.SignedTx.{SignedTx}
use morpheum_signing.Claim.{validate}
use morpheum_signing.Claim.VcClaimBuilder
use morpheum_signing.Builder.{sign, sign_doc, tx_body, auth_info}
use morpheum_signing.Builder.Setters
use morpheum_signing.Wallets.{Hex}
use morpheum_signing.Bindings.{Js, IsJs, JsField, JsObject, bytes, text, number, get_field}
use morpheum_signing.Bindings.Claims.{
  TradingKeyClaimJs, VcClaimBuilderWasm, new, issuer, subject, permissions, max_daily_usd, expiry,
  nonce_sub_range, signature, signature_of_type, build_object,
}
use morpheum_signing.Bindings.Claims.Assembled.{
  Assembled, by_new, by_issuer, by_subject, by_permissions, by_max_daily_usd, by_expiry,
  by_nonce_sub_range, by_signature,
}
use morpheum_signing.Bindings.Claims.Carried.{IsExact, ReadsClaims, build_object-with_claim}
use morpheum_signing.Bindings.TxBuilderWasm.{TxBuilderWasm, with_claim, sign_object}
use morpheum_signing.Bindings.TxBuilderWasm.Returned.{Shows, sign_object-Shows}
use morpheum_signing.Bindings.SignDocBytes.{SignDocRequestJs, build_sign_doc_bytes}
use morpheum_signing.Bindings.SignDocBytes.Bound.{Means, build_sign_doc_bytes-sign_doc}
use morpheum_signing.Tests.Toy.{toy, clock, builder, nonce, key, claim, nonce_codec-RoundTrips}
use morpheum_signing.Tests.Verifying.{request, toy-SigningBytes, builder-Describes}

abbrev js : Js
js = record { set = λ e obj. ok (obj ++ e ∷ []); as_f64 = λ n. n }

js-IsJs : IsJs js
js-IsJs = record { sets = λ e obj new. refl; exact = λ n h. refl }

-- the fields of an object by their type
abbrev read_bytes : Option JsField → Result String Bytes
read_bytes (some (bytes b)) = ok b
read_bytes _ = err "not a byte array"

abbrev read_number : Option JsField → Result String ℕ
read_number (some (number n)) = ok n
read_number _ = err "not a number"

abbrev read_text : Option JsField → Result String String
read_text (some (text t)) = ok t
read_text _ = err "not a text"

claim_of : JsObject → Result String TradingKeyClaimJs
claim_of obj = do
  i ← read_bytes (get_field "issuer" obj)
  s ← read_bytes (get_field "subject" obj)
  p ← read_number (get_field "permissions" obj)
  m ← read_number (get_field "max_daily_usd" obj)
  e ← read_number (get_field "expiry_timestamp" obj)
  start ← read_number (get_field "nonce_sub_range_start" obj)
  end ← read_number (get_field "nonce_sub_range_end" obj)
  sig ← read_bytes (get_field "signature" obj)
  type ← read_text (get_field "signature_type" obj)
  ok (record {
    issuer = i;
    subject = s;
    permissions = p;
    max_daily_usd = m;
    expiry_timestamp = e;
    nonce_sub_range_start = start;
    nonce_sub_range_end = end;
    signature = sig;
    signature_type = type;
  })

claim_of-ReadsClaims : ReadsClaims claim_of
unfolding claim_of
claim_of-ReadsClaims = record {
  reads = λ obj j h a b c d e. rw h.issuer (
      rw h.subject (
        rw h.permissions (
          rw h.max_daily_usd (
            rw h.expiry_timestamp
              (rw h.start (rw h.end (rw h.signature (rw h.signature_type))))))));
}

abbrev assembled : VcClaimBuilderWasm
assembled = record {
  inner = record {
    issuer = some claim.issuer;
    subject = some claim.subject;
    permissions = 1;
    max_daily_usd = 2;
    expiry_timestamp = some 100;
    nonce_sub_range_start = 5;
    nonce_sub_range_end = 8;
    signature = some claim.signature;
  };
  signature_type = some "secp256k1";
}

abbrev with_issuer : VcClaimBuilderWasm
with_issuer = record new { inner = record VcClaimBuilder.new { issuer = some claim.issuer } }

abbrev with_both : VcClaimBuilderWasm
with_both = record new {
  inner = record VcClaimBuilder.new { issuer = some claim.issuer; subject = some claim.subject };
}

assembled-Assembled : Assembled assembled
unfolding issuer subject permissions max_daily_usd expiry nonce_sub_range signature
    signature_of_type
assembled-Assembled =
    by_signature (replicate 64 3) "secp256k1"
      (by_nonce_sub_range 5 8 (
        by_expiry 100 (
          by_max_daily_usd 2 (
            by_permissions 1 (
              by_subject {b = with_issuer} {c = with_both} (replicate 32 8)
                (by_issuer {c = with_issuer} key by_new refl) refl)))))
      refl

built : VcClaimBuilder.build assembled.inner 3 ≡ ok claim
unfolding VcClaimBuilder.build validate is_zero
built = refl

claim-IsExact : IsExact claim
claim-IsExact = record {
  permissions = omega arith;
  max_daily_usd = omega arith;
  expiry_timestamp = omega arith;
  nonce_sub_range_start = omega arith;
  nonce_sub_range_end = omega arith;
}

abbrev tx_builder : TxBuilderWasm toy ℕ
tx_builder = record { inner = builder }

build_object-with_claim_example :
    (obj : JsObject) × (build_object toy js assembled 3 ≡ ok obj)
    × (with_claim toy claim_of tx_builder obj
        ≡ ok (record { inner = Setters.with_trading_key_claim toy builder claim }))
build_object-with_claim_example =
    build_object-with_claim toy js js-IsJs claim_of assembled 3 claim tx_builder
      claim_of-ReadsClaims assembled-Assembled built claim-IsExact

sign_object-Shows_example :
    ((s : SignedTx) (w' : ℕ)
      → sign toy clock builder 3 ≡ (ok s, w')
      → (obj : JsObject) × (sign_object toy js clock tx_builder 3 ≡ (ok obj, w')) × Shows toy s obj)
    × ((e : SigningError) (w' : ℕ)
        → sign toy clock builder 3 ≡ (err e, w')
        → sign_object toy js clock tx_builder 3 ≡ (err (display_error e), w'))
sign_object-Shows_example = sign_object-Shows toy js clock tx_builder 3 js-IsJs

abbrev hex : Hex
hex = record { decode = λ s. ok key; decode_to_slice = λ n s. ok key }

abbrev request_js : SignDocRequestJs
request_js = record {
  type_url = "/bank.Send";
  msg_bytes = 1 ∷ [];
  signer_address = "0x07";
  chain_type = pos 0;
  sign_mode = pos 1;
  chain_id = "morpheum-1";
  memo = none;
  account_number = none;
  genesis_hash = some (9 ∷ []);
  nonce = 1 ∷ 0 ∷ 5 ∷ [];
  gas_limit = none;
}

request_js-Means : Means toy hex request_js request
request_js-Means = record {
  type_url = refl;
  msg_bytes = refl;
  signer_key = refl;
  chain_type = refl;
  sign_mode = refl;
  chain_id = refl;
  memo = refl;
  account_number = refl;
  genesis_hash = refl;
  nonce = refl;
  gas_limit = refl;
}

build_sign_doc_bytes-sign_doc_example :
    (obj : JsObject) × (nonce_bytes : Bytes) × (build_sign_doc_bytes toy js hex
        (λ (r : SignDocRequestJs). ok r)
        request_js
      ≡ ok obj)
    × (get_field "signDocBytes" obj ≡ some (bytes (sign_doc toy builder nonce none)))
    × (get_field "bodyBytes" obj ≡ some (bytes (toy.body_codec.encode (tx_body toy builder))))
    × (get_field "authInfoBytes" obj
        ≡ some (bytes (toy.auth_info_codec.encode (auth_info toy builder none))))
    × (get_field "nonce" obj ≡ some (bytes nonce_bytes))
    × (toy.nonce_codec.decode nonce_bytes ≡ ok nonce)
build_sign_doc_bytes-sign_doc_example =
    build_sign_doc_bytes-sign_doc toy js hex (λ (r : SignDocRequestJs). ok r) js-IsJs request_js
      request_js request builder toy-SigningBytes nonce_codec-RoundTrips refl request_js-Means
      builder-Describes tt
