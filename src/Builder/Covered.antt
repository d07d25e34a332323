-- ===== src/Builder/Covered.antt =====
-- A signed transaction ships exactly what its signature covers (`TxBuilder::sign` of
-- crates/core/src/builder.rs).
use morpheum_signing.Common.{ℕ, ◌≡◌, refl, ap, ◌≢◌, Option, none, some, [], ◌∷◌, ok, arith}
use mathlib.Core.Path.{subst}
use morpheum_signing.Proto.{Nonce, TxBody, AuthInfo, ClaimOptions}
use morpheum_signing.Primitives.{Primitives}
use morpheum_signing.Exec.{pure, ◌>>=◌, >>=-eq-ok, lift->>-eq-ok, pure-eq-ok}
use morpheum_signing.Types.Signature.{Signature, to_bytes}
use morpheum_signing.Types.SignedTx.{SignedTx}
use morpheum_signing.Claim.{TradingKeyClaim}
use morpheum_signing.Builder.{
  TxBuilder, unwrap_or, resolve_nonce, embed_claim, tx_body, auth_info, sign_doc, assemble, sign,
  preconditions, finish, complete,
}

module _ (p : Primitives) {W : Type 0} (clock : W → Option ℕ) where
  -- Embedding a claim reads the clock and changes nothing.
  pub embed_claim-world :
      (claim : Option TradingKeyClaim) (nonce : Nonce) (w : W)
      → (embed_claim p clock claim nonce w).1 ≡ w
  unfolding embed_claim
  embed_claim-world none nonce w = refl
  embed_claim-world (some claim) nonce w = ground arith

-- The run of a successful `sign`: the values it went through.
pub record Run (p : Primitives) {W : Type 0} (clock : W → Option ℕ) (b : TxBuilder p W) (w : W)
    (s : SignedTx) (w' : W) : Type 0 where
  pub nonce : Nonce
  pub before : W
  pub options : Option ClaimOptions
  pub signature : Signature
  pub allowed : preconditions p b ≡ ok tt
  pub nonce_from : resolve_nonce p b w ≡ (ok nonce, before)
  pub claim_from : embed_claim p clock b.trading_key_claim nonce before ≡ (ok options, before)
  pub signed : b.signer.sign (sign_doc p b nonce options) before ≡ (ok signature, w')
  pub result : s ≡ assemble p b nonce options signature

module _ (p : Primitives) {W : Type 0} (clock : W → Option ℕ) (b : TxBuilder p W) where
  complete-ok :
      (nonce : Nonce) (options : Option ClaimOptions) (w : W) (s : SignedTx) (w' : W)
      → complete p clock b nonce options w ≡ (ok s, w')
      → (signature : Signature) × (b.signer.sign (sign_doc p b nonce options) w
          ≡ (ok signature, w'))
        × (s ≡ assemble p b nonce options signature)
  unfolding complete
  complete-ok nonce options w s w' h =
      let (signature, w1, signed, h1) =
        >>=-eq-ok (b.signer.sign (sign_doc p b nonce options))
          (λ x. pure (assemble p b nonce options x)) w h in
      let (result, same) = pure-eq-ok (assemble p b nonce options signature) w1 h1 in
      (signature, cc (same, signed), result)

  embed_claim-same :
      (nonce : Nonce) (w : W) (options : Option ClaimOptions) (w' : W)
      → embed_claim p clock b.trading_key_claim nonce w ≡ (ok options, w')
      → w' ≡ w
  embed_claim-same nonce w options w' h =
      cc (embed_claim-world p clock b.trading_key_claim nonce w, ap (λ r. r.1) h)

  finish-Run :
      (nonce : Nonce) (w before : W) (s : SignedTx) (w' : W)
      → preconditions p b ≡ ok tt
      → resolve_nonce p b w ≡ (ok nonce, before)
      → finish p clock b nonce before ≡ (ok s, w')
      → Run p clock b w s w'
  unfolding finish
  finish-Run nonce w before s w' allowed nonce_from h =
      let (options, w2, claim_from, h1) =
        >>=-eq-ok (embed_claim p clock b.trading_key_claim nonce) (complete p clock b nonce) before
          h in
      let same = embed_claim-same nonce before options w2 claim_from in
      let (signature, signed, result) =
        complete-ok nonce options before s w'
          (subst (λ x. complete p clock b nonce options x ≡ (ok s, w')) same h1) in
      record {
        nonce = nonce;
        before = before;
        options = options;
        signature = signature;
        allowed = allowed;
        nonce_from = nonce_from;
        claim_from = cc (same, claim_from);
        signed = signed;
        result = result;
      }

  pub sign-Run :
      (w : W) (s : SignedTx) (w' : W) → sign p clock b w ≡ (ok s, w') → Run p clock b w s w'
  unfolding sign
  sign-Run w s w' h =
      let (allowed, h0) =
        lift->>-eq-ok (preconditions p b)
          (◌>>=◌ (resolve_nonce p b) (λ nonce. finish p clock b nonce)) w h in
      let (nonce, w1, nonce_from, h1) = >>=-eq-ok (resolve_nonce p b) (finish p clock b) w h0 in
      finish-Run nonce w w1 s w' allowed nonce_from h1

-- What a signed transaction carries, and what the signature on it covers. `before` is the world in
-- which the signature was asked for.
pub record Covers (p : Primitives) {W : Type 0} (b : TxBuilder p W) (s : SignedTx) (w' : W)
    : Type 0 where
  pub body : TxBody
  pub info : AuthInfo
  pub nonce : Nonce
  pub signature : Signature
  pub before : W
  pub tx : s.tx ≡ record {
    body = some body;
    auth_info = some info;
    signatures = to_bytes signature ∷ [];
    nonce = some nonce;
  }
  pub tx_raw :
      s.tx_raw
      ≡ some (record {
        body_bytes = p.body_codec.encode body;
        auth_info_bytes = p.auth_info_codec.encode info;
        signatures = to_bytes signature ∷ [];
      })
  pub signed :
      b.signer.sign
        (p.canonical_sign_doc
          (p.body_codec.encode body)
          (p.auth_info_codec.encode info)
          b.chain_id
          (unwrap_or 0 b.account_number)
          b.genesis_hash
          (some nonce))
        before
      ≡ (ok signature, w')
  pub messages : (body.messages ≡ b.messages) × (b.messages ≢ [])
  pub gas : info.gas_limit ≡ p.get_gas_limit b.gas_limit
  pub bound : b.genesis_hash ≢ []

module _ (p : Primitives) {W : Type 0} (clock : W → Option ℕ) (b : TxBuilder p W) where
  preconditions-bound : preconditions p b ≡ ok tt → (b.messages ≢ []) × (b.genesis_hash ≢ [])
  unfolding preconditions
  preconditions-bound h = ground arith

  -- A transaction that `sign` returns holds a message and is bound to a genesis hash. Its body, its
  -- signer info and its nonce are those that the signature covers: the signer was asked to sign
  -- the document of exactly the bytes that are shipped, with the nonce that the transaction
  -- carries and the gas limit that the builder declares.
  pub sign-Covers :
      (w : W) (s : SignedTx) (w' : W) → sign p clock b w ≡ (ok s, w') → Covers p b s w'
  unfolding assemble sign_doc auth_info tx_body
  sign-Covers w s w' h =
      let r = sign-Run p clock b w s w' h in
      record {
        body = tx_body p b;
        info = auth_info p b r.options;
        nonce = r.nonce;
        signature = r.signature;
        before = r.before;
        tx = ap (λ t. t.tx) r.result;
        tx_raw = ap (λ t. t.tx_raw) r.result;
        signed = r.signed;
        messages = (refl, (preconditions-bound r.allowed).0);
        gas = refl;
        bound = (preconditions-bound r.allowed).1;
      }
