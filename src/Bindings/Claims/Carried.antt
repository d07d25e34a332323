-- ===== src/Bindings/Claims/Carried.antt =====
-- A claim from the builder of the bindings to `withClaim` (crates/wasm/src/bindings.rs): what is
-- built in JavaScript is what is attached.
use mathlib.Core.Path.{subst}
use morpheum_signing.Common.{
  ℕ, ◌≡◌, refl, ap, ◌<◌, ◌^◌, String, Option, none, some, [], length, Result, ok, arith, true,
}
use morpheum_signing.Primitives.{Primitives}
use morpheum_signing.Types.Signature.{Signature, to_bytes}
use morpheum_signing.Claim.{TradingKeyClaim}
use morpheum_signing.Claim.Validity.{build_iff}
use morpheum_signing.Claim.VcClaimBuilder
use morpheum_signing.Builder.Setters
use morpheum_signing.Bindings.{
  Js, IsJs, JsObject, bytes, text, number, get_field, are_new, set_fields-ok,
}
use morpheum_signing.Bindings.Claims.{
  TradingKeyClaimJs, into_claim, VcClaimBuilderWasm, claim_fields, build_object,
}
use morpheum_signing.Bindings.Claims.Assembled.{Assembled, Assembled-IsTyped, Sized, Agrees}
use morpheum_signing.Bindings.TxBuilderWasm.{TxBuilderWasm, with_claim}

-- What JavaScript holds of a claim: its numbers are exact, and the sub-range is of 32 bits.
pub record IsExact (c : TradingKeyClaim) : Type 0 where
  pub permissions : c.permissions < 2 ^ 53
  pub max_daily_usd : c.max_daily_usd < 2 ^ 53
  pub expiry_timestamp : c.expiry_timestamp < 2 ^ 53
  pub nonce_sub_range_start : c.nonce_sub_range_start < 2 ^ 32
  pub nonce_sub_range_end : c.nonce_sub_range_end < 2 ^ 32

-- An object that holds the nine fields of a claim, and maybe others.
pub record Holds (obj : JsObject) (j : TradingKeyClaimJs) : Type 0 where
  pub issuer : get_field "issuer" obj ≡ some (bytes j.issuer)
  pub subject : get_field "subject" obj ≡ some (bytes j.subject)
  pub permissions : get_field "permissions" obj ≡ some (number j.permissions)
  pub max_daily_usd : get_field "max_daily_usd" obj ≡ some (number j.max_daily_usd)
  pub expiry_timestamp : get_field "expiry_timestamp" obj ≡ some (number j.expiry_timestamp)
  pub start : get_field "nonce_sub_range_start" obj ≡ some (number j.nonce_sub_range_start)
  pub end : get_field "nonce_sub_range_end" obj ≡ some (number j.nonce_sub_range_end)
  pub signature : get_field "signature" obj ≡ some (bytes j.signature)
  pub signature_type : get_field "signature_type" obj ≡ some (text j.signature_type)

-- What serde documents: a struct is read from the object that holds its fields, a `u64` from a
-- safe integer, and other fields are ignored.
pub record ReadsClaims (claim_of : JsObject → Result String TradingKeyClaimJs) : Type 0 where
  pub reads :
      (obj : JsObject) (j : TradingKeyClaimJs)
      → Holds obj j
      → j.permissions < 2 ^ 53
      → j.max_daily_usd < 2 ^ 53
      → j.expiry_timestamp < 2 ^ 53
      → j.nonce_sub_range_start < 2 ^ 32
      → j.nonce_sub_range_end < 2 ^ 32
      → claim_of obj ≡ ok j

abbrev as_js : TradingKeyClaim → String → TradingKeyClaimJs
as_js c type = record {
  issuer = c.issuer.id;
  subject = c.subject.id;
  permissions = c.permissions;
  max_daily_usd = c.max_daily_usd;
  expiry_timestamp = c.expiry_timestamp;
  nonce_sub_range_start = c.nonce_sub_range_start;
  nonce_sub_range_end = c.nonce_sub_range_end;
  signature = to_bytes c.signature;
  signature_type = type;
}

-- A claim of the right lengths is read back from what JavaScript holds of it.
into_claim-as_js :
    (c : TradingKeyClaim) (type : String)
    → length c.issuer.id ≡ 32
    → length c.subject.id ≡ 32
    → Agrees (some c.signature) (some type)
    → into_claim (as_js c type) ≡ ok c
unfolding into_claim
into_claim-as_js c type i s (n, k) = ground (arith, i, s, n, k)

-- A signature that is set comes with its type.
recorded :
    (s : Signature) (type : Option String) → Agrees (some s) type → (t : String) × (type ≡ some t)
recorded s none h = absurd h
recorded s (some t) h = (t, refl)

module _ (p : Primitives) (js : Js) (law : IsJs js) where
  claim_fields_new :
      (c : TradingKeyClaim) (type : String) → are_new (claim_fields p js c (some type)) [] ≡ true
  unfolding claim_fields
  claim_fields_new c type = refl

  object_of :
      (b : VcClaimBuilderWasm) (now : ℕ) (c : TradingKeyClaim) (type : String)
      → b.signature_type ≡ some type
      → VcClaimBuilder.build b.inner now ≡ ok c
      → build_object p js b now ≡ ok (claim_fields p js c (some type))
  unfolding build_object
  object_of b now c type e built =
      rw built
        (rw e (set_fields-ok js law (claim_fields p js c (some type)) [] (claim_fields_new c type)))

  claim_fields-Holds :
      (c : TradingKeyClaim) (type : String)
      → IsExact c
      → Holds (claim_fields p js c (some type)) (as_js c type)
  unfolding claim_fields
  claim_fields-Holds c type x = record {
    issuer = refl;
    subject = refl;
    permissions = ap (λ n. some (number n)) (law.exact c.permissions x.permissions);
    max_daily_usd = ap (λ n. some (number n)) (law.exact c.max_daily_usd x.max_daily_usd);
    expiry_timestamp = ap (λ n. some (number n)) (law.exact c.expiry_timestamp x.expiry_timestamp);
    start = refl;
    end = refl;
    signature = refl;
    signature_type = refl;
  }

  attached :
      {W : Type 0} (claim_of : JsObject → Result String TradingKeyClaimJs) (t : TxBuilderWasm p W)
      (c : TradingKeyClaim) (type : String)
      → ReadsClaims claim_of
      → IsExact c
      → length c.issuer.id ≡ 32
      → length c.subject.id ≡ 32
      → Agrees (some c.signature) (some type)
      → with_claim p claim_of t (claim_fields p js c (some type))
        ≡ ok (record { inner = Setters.with_trading_key_claim p t.inner c })
  unfolding with_claim
  attached claim_of t c type law' x i s agrees =
      rw
        (law'.reads (claim_fields p js c (some type)) (as_js c type) (claim_fields-Holds c type x)
          x.permissions x.max_daily_usd x.expiry_timestamp x.nonce_sub_range_start
          x.nonce_sub_range_end)
        (rw (into_claim-as_js c type i s agrees))

  -- A claim that the builder of the bindings builds is returned as an object, and `withClaim`
  -- attaches exactly that claim from the object, whatever the builder was assembled from. The
  -- numbers of the claim are those that JavaScript holds exactly.
  pub build_object-with_claim :
      {W : Type 0} (claim_of : JsObject → Result String TradingKeyClaimJs) (b : VcClaimBuilderWasm)
      (now : ℕ) (c : TradingKeyClaim) (t : TxBuilderWasm p W)
      → ReadsClaims claim_of
      → Assembled b
      → VcClaimBuilder.build b.inner now ≡ ok c
      → IsExact c
      → (obj : JsObject) × (build_object p js b now ≡ ok obj)
        × (with_claim p claim_of t obj
            ≡ ok (record { inner = Setters.with_trading_key_claim p t.inner c }))
  build_object-with_claim claim_of b now c t reads a built x =
      let h = (build_iff b.inner now c).0 built in
      let ty = Assembled-IsTyped a in
      let agrees : Agrees (some c.signature) b.signature_type =
        subst (λ s. Agrees s b.signature_type) h.0.signature ty.agrees in
      let (type, type_is) = recorded c.signature b.signature_type agrees in
      (
        claim_fields p js c (some type),
        object_of b now c type type_is built,
        attached claim_of t c type reads x (subst Sized h.0.issuer ty.issuer_size)
            (subst Sized h.0.subject ty.subject_size)
            (subst (Agrees (some c.signature)) type_is agrees),
      )
