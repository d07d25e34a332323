-- ===== src/Bindings/SignDocBytes/Bound.antt =====
-- What `buildSignDocBytes` (crates/wasm/src/bindings.rs) makes of a request.
use morpheum_signing.Common.{
  ℕ, ◌≡◌, refl, sym, ap, ◌↔◌, String, Option, none, some, [], Bytes, Result, Result-cases, ok, inl,
  inr, strip_0x, arith, ◌∙◌, true,
}
use morpheum_signing.Proto.{Nonce}
use morpheum_signing.Primitives.{Primitives, RoundTrips}
use morpheum_signing.Builder.{TxBuilder, unwrap_or, sign_doc, tx_body, auth_info}
use morpheum_signing.Preimage.{
  SignDocRequest, SignDocParts, build_sign_doc, SigningBytes, Describes, build_sign_doc-sign_doc,
}
use morpheum_signing.Wallets.{Hex}
use morpheum_signing.Bindings.{Js, IsJs, JsObject, bytes, get_field, are_new, set_fields-ok}
use morpheum_signing.Bindings.SignDocBytes.{
  SignDocRequestJs, core_request, declared_gas, parts_fields, build_sign_doc_bytes,
}

-- The limit that a declaration selects: the default if there is none.
abbrev pub Selects : (p : Primitives) → Option ℕ → p.TxGasLimit → Type 0
Selects p none limit = limit ≡ p.default_gas_limit
Selects p (some n) limit = p.new_gas_limit n ≡ ok limit

-- The request of the core that a request of JavaScript stands for.
pub record Means (p : Primitives) (x : Hex) (r : SignDocRequestJs) (q : SignDocRequest p)
    : Type 0 where
  pub type_url : q.type_url ≡ r.type_url
  pub msg_bytes : q.msg_bytes ≡ r.msg_bytes
  pub signer_key : x.decode (strip_0x r.signer_address) ≡ ok q.signer_key
  pub chain_type : q.chain_type ≡ r.chain_type
  pub sign_mode : q.sign_mode ≡ r.sign_mode
  pub chain_id : q.chain_id ≡ r.chain_id
  pub memo : q.memo ≡ r.memo
  pub account_number : q.account_number ≡ unwrap_or 0 r.account_number
  pub genesis_hash : q.genesis_hash ≡ r.genesis_hash
  pub nonce : p.nonce_codec.decode r.nonce ≡ ok q.nonce
  pub gas_limit : Selects p r.gas_limit q.gas_limit

module _ (p : Primitives) where
  -- A declaration is taken exactly as what it selects.
  declared_gas_iff :
      (o : Option ℕ) (limit : p.TxGasLimit) → (declared_gas p o ≡ ok limit) ↔ Selects p o limit
  unfolding declared_gas
  declared_gas_iff none limit = (λ h. ground (arith, h), λ h. ground (arith, h))
  declared_gas_iff (some n) limit = (λ h. ground (arith, h), λ h. ground (arith, h))

module _ (p : Primitives) (x : Hex) where
  -- What a request of the core was made from.
  decoded :
      (r : SignDocRequestJs) (q : SignDocRequest p)
      → core_request p x r ≡ ok q
      → (x.decode (strip_0x r.signer_address) ≡ ok q.signer_key)
        × (p.nonce_codec.decode r.nonce ≡ ok q.nonce)
        × (declared_gas p r.gas_limit ≡ ok q.gas_limit)
  unfolding core_request
  decoded r q h = elim (Result-cases (x.decode (strip_0x r.signer_address))) [
    | inr (e, bad) ↦ absurd (ground (arith, h, bad))
    | inl (key, k) ↦ elim (Result-cases (p.nonce_codec.decode r.nonce)) [
      | inr (e, bad) ↦ absurd (ground (arith, h, k, bad))
      | inl (nonce, n) ↦ elim (Result-cases (declared_gas p r.gas_limit)) [
        | inr (e, bad) ↦ absurd (ground (arith, h, k, n, bad))
        | inl (limit, g) ↦
            (ground (arith, h, k, n, g), ground (arith, h, k, n, g), ground (arith, h, k, n, g))
      ]
    ]
  ]

  core_request→ :
      (r : SignDocRequestJs) (q : SignDocRequest p) → core_request p x r ≡ ok q → Means p x r q
  unfolding core_request
  core_request→ r q h =
      let (key, nonce, gas) = decoded r q h in
      record {
        type_url = ground (arith, h, key, nonce, gas);
        msg_bytes = ground (arith, h, key, nonce, gas);
        signer_key = key;
        chain_type = ground (arith, h, key, nonce, gas);
        sign_mode = ground (arith, h, key, nonce, gas);
        chain_id = ground (arith, h, key, nonce, gas);
        memo = ground (arith, h, key, nonce, gas);
        account_number = ground (arith, h, key, nonce, gas);
        genesis_hash = ground (arith, h, key, nonce, gas);
        nonce = nonce;
        gas_limit = (declared_gas_iff p r.gas_limit q.gas_limit).0 gas;
      }

  →core_request :
      (r : SignDocRequestJs) (q : SignDocRequest p) → Means p x r q → core_request p x r ≡ ok q
  unfolding core_request
  →core_request r q m =
      ground (arith, m, (declared_gas_iff p r.gas_limit q.gas_limit).1 m.gas_limit)

module _ (p : Primitives) (js : Js) (x : Hex) {V : Type 0}
    (request_of : V → Result String SignDocRequestJs) (law : IsJs js) where
  parts_new : (parts : SignDocParts) → are_new (parts_fields p parts) [] ≡ true
  unfolding parts_fields
  parts_new parts = refl

  build→ :
      (value : V) (obj : JsObject)
      → build_sign_doc_bytes p js x request_of value ≡ ok obj
      → (r : SignDocRequestJs) × (q : SignDocRequest p) × (request_of value ≡ ok r)
        × Means p x r q
        × (obj ≡ parts_fields p (build_sign_doc p q))
  unfolding build_sign_doc_bytes
  build→ value obj h = elim (Result-cases (request_of value)) [
    | inr (e, bad) ↦ absurd (ground (arith, h, bad))
    | inl (r, read) ↦ elim (Result-cases (core_request p x r)) [
      | inr (e, bad) ↦ absurd (ground (arith, h, read, bad))
      | inl (q, made) ↦ (
        r,
        q,
        read,
        core_request→ p x r q made,
        ground (
          arith,
          h,
          read,
          made,
          set_fields-ok js law (parts_fields p (build_sign_doc p q)) []
              (parts_new (build_sign_doc p q)),
        ),
      )
    ]
  ]

  →build :
      (value : V) (r : SignDocRequestJs) (q : SignDocRequest p)
      → request_of value ≡ ok r
      → Means p x r q
      → build_sign_doc_bytes p js x request_of value ≡ ok (parts_fields p (build_sign_doc p q))
  unfolding build_sign_doc_bytes
  →build value r q read m = rw read (
      rw (→core_request p x r q m) (
        set_fields-ok js law (parts_fields p (build_sign_doc p q)) []
          (parts_new (build_sign_doc p q))))

  -- `buildSignDocBytes` returns an object exactly for a request that is read, whose address is hex,
  -- whose nonce is the encoding of one and whose gas limit, if any, is allowed. The object holds
  -- what `build_sign_doc` returns for the request that this means.
  pub build_sign_doc_bytes_iff :
      (value : V) (obj : JsObject)
      → (build_sign_doc_bytes p js x request_of value ≡ ok obj) ↔ (
          (r : SignDocRequestJs) × (q : SignDocRequest p) × (request_of value ≡ ok r)
          × Means p x r q
          × (obj ≡ parts_fields p (build_sign_doc p q)))
  build_sign_doc_bytes_iff value obj =
      (build→ value obj, λ (r, q, read, m, e). →build value r q read m ∙ ap ok (sym e))

  shown :
      (parts : SignDocParts)
      → (get_field "signDocBytes" (parts_fields p parts) ≡ some (bytes parts.sign_doc_bytes))
        × (get_field "bodyBytes" (parts_fields p parts) ≡ some (bytes parts.body_bytes))
        × (get_field "authInfoBytes" (parts_fields p parts) ≡ some (bytes parts.auth_info_bytes))
        × (get_field "nonce" (parts_fields p parts) ≡ some (bytes parts.nonce_bytes))
  unfolding parts_fields
  shown parts = (refl, refl, refl, refl)

  nonce_bound :
      (q : SignDocRequest p) → (build_sign_doc p q).nonce_bytes ≡ p.nonce_codec.encode q.nonce
  unfolding build_sign_doc
  nonce_bound q = refl

  -- For a request that means `q` the call returns an object with the very bytes that the signer of
  -- a builder is asked to sign, if the builder describes the transaction of `q`. Its body and
  -- signer info are the builder's, and its nonce decodes to the nonce that is signed.
  pub build_sign_doc_bytes-sign_doc :
      {W : Type 0} {InRange : Nonce → Type 0} (value : V) (r : SignDocRequestJs)
      (q : SignDocRequest p) (b : TxBuilder p W)
      → SigningBytes p
      → RoundTrips InRange p.nonce_codec
      → request_of value ≡ ok r
      → Means p x r q
      → Describes p b q
      → InRange q.nonce
      → (obj : JsObject) × (nonce_bytes : Bytes) × (build_sign_doc_bytes p js x request_of value
          ≡ ok obj)
        × (get_field "signDocBytes" obj
            ≡ some (bytes (p.encode_sign_doc (sign_doc p b q.nonce none))))
        × (get_field "bodyBytes" obj ≡ some (bytes (p.body_codec.encode (tx_body p b))))
        × (get_field "authInfoBytes" obj
            ≡ some (bytes (p.auth_info_codec.encode (auth_info p b none))))
        × (get_field "nonce" obj ≡ some (bytes nonce_bytes))
        × (p.nonce_codec.decode nonce_bytes ≡ ok q.nonce)
  build_sign_doc_bytes-sign_doc value r q b law' rt read m d range =
      let parts = build_sign_doc p q in
      let (doc, body, info, nonce) = shown parts in
      let (doc_is, body_is, info_is) = build_sign_doc-sign_doc p b q law' d in
      (
        parts_fields p parts,
        parts.nonce_bytes,
        →build value r q read m,
        doc ∙ ap (λ t. some (bytes t)) (sym doc_is),
        body ∙ ap (λ t. some (bytes t)) (sym body_is),
        info ∙ ap (λ t. some (bytes t)) (sym info_is),
        nonce,
        ap p.nonce_codec.decode (nonce_bound q) ∙ rt.decode-encode q.nonce range,
      )
