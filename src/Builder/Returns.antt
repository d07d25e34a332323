-- ===== src/Builder/Returns.antt =====
-- When `TxBuilder::sign` (crates/core/src/builder.rs) returns a transaction.
use morpheum_signing.Common.{
  ℕ, ◌≡◌, ◌≢◌, ◌↔◌, ◌≤◌, ◌<◌, refl, ◌∙◌, Option, none, some, [], ok, bytes_eq_iff, arith,
}
use morpheum_signing.Proto.{Nonce, ClaimOptions}
use morpheum_signing.Primitives.{Primitives}
use morpheum_signing.Exec.{pure, >>=-ok}
use morpheum_signing.Types.Signature.{Signature}
use morpheum_signing.Types.SignedTx.{SignedTx}
use morpheum_signing.Signer.{Signer}
use morpheum_signing.Claim.{TradingKeyClaim, encode_to_vec}
use morpheum_signing.Claim.Validity.{IsValid}
use morpheum_signing.Claim.Embedding.{claim_options}
use morpheum_signing.Builder.{
  TxBuilder, resolve_nonce, embed_claim, sign_doc, assemble, sign, preconditions,
  check_stored_claim, finish, complete, now_secs,
}
use morpheum_signing.Builder.Covered.{sign-Run}
use morpheum_signing.Builder.Claims.{embed_claim_iff}

-- A signer that answers every request.
pub record Answers (p : Primitives) {W : Type 0} (signer : Signer p W) : Type 0 where
  pub answers :
      (doc : p.SignDoc) (w : W)
      → (signature : Signature) × (w' : W) × (signer.sign doc w ≡ (ok signature, w'))

-- What a claim must satisfy to be embedded beside a nonce.
abbrev pub Fits : Option TradingKeyClaim → Nonce → ℕ → Type 0
Fits none nonce now = Unit {0}
Fits (some c) nonce now =
    IsValid c now × (c.nonce_sub_range_start ≤ nonce.sub) × (nonce.sub < c.nonce_sub_range_end)

abbrev pub Agreed : (p : Primitives) → Option TradingKeyClaim → Option TradingKeyClaim → Type 0
Agreed p (some stored) (some attached) = encode_to_vec p stored ≡ encode_to_vec p attached
Agreed p (some stored) none = Unit {0}
Agreed p none attached = Unit {0}

-- What a transaction needs before it is signed. The nonce and the world that its source leaves are
-- parts of it.
pub record Ready (p : Primitives) {W : Type 0} (clock : W → Option ℕ) (b : TxBuilder p W) (w : W)
    : Type 0 where
  pub messages : b.messages ≢ []
  pub bound : b.genesis_hash ≢ []
  pub agreed : Agreed p b.signer.trading_key_claim b.trading_key_claim
  pub nonce : Nonce
  pub before : W
  pub nonce_from : resolve_nonce p b w ≡ (ok nonce, before)
  pub fits : Fits b.trading_key_claim nonce (now_secs clock before)

pub check_stored_claim_iff :
    (p : Primitives) (stored attached : Option TradingKeyClaim)
    → (check_stored_claim p stored attached ≡ ok tt) ↔ Agreed p stored attached
unfolding check_stored_claim
check_stored_claim_iff p (some stored) (some attached) = (
  λ h. ground (arith, h, bytes_eq_iff (encode_to_vec p stored) (encode_to_vec p attached)),
  λ h. ground (arith, h, bytes_eq_iff (encode_to_vec p stored) (encode_to_vec p attached)),
)
check_stored_claim_iff p (some stored) none = (λ h. tt, λ h. refl)
check_stored_claim_iff p none attached = (λ h. tt, λ h. refl)

module _ (p : Primitives) {W : Type 0} (b : TxBuilder p W) where
  pub preconditions→ :
      preconditions p b ≡ ok tt
      → (b.messages ≢ [])
        × (b.genesis_hash ≢ [])
        × (check_stored_claim p b.signer.trading_key_claim b.trading_key_claim ≡ ok tt)
  unfolding preconditions
  preconditions→ h = ground (arith, h)

  pub →preconditions :
      b.messages ≢ []
      → b.genesis_hash ≢ []
      → check_stored_claim p b.signer.trading_key_claim b.trading_key_claim ≡ ok tt
      → preconditions p b ≡ ok tt
  unfolding preconditions
  →preconditions m g c = ground (arith, m, g, c)

module _ (p : Primitives) {W : Type 0} (clock : W → Option ℕ) where
  pub embedded :
      (claim : Option TradingKeyClaim) (nonce : Nonce) (w : W)
      → Fits claim nonce (now_secs clock w)
      → (options : Option ClaimOptions) × (embed_claim p clock claim nonce w ≡ (ok options, w))
  unfolding embed_claim
  embedded none nonce w f = (none, refl)
  embedded (some c) nonce w f = (
    some (claim_options p c),
    (embed_claim_iff p clock c nonce w (some (claim_options p c))).1 (f.0, f.1, f.2, refl),
  )

  pub fitting :
      (claim : Option TradingKeyClaim) (nonce : Nonce) (w : W) (options : Option ClaimOptions)
      → embed_claim p clock claim nonce w ≡ (ok options, w)
      → Fits claim nonce (now_secs clock w)
  fitting none nonce w options h = tt
  fitting (some c) nonce w options h =
      let (valid, start, end, o) = (embed_claim_iff p clock c nonce w options).0 h in
      (valid, start, end)

module _ (p : Primitives) {W : Type 0} (clock : W → Option ℕ) (b : TxBuilder p W) (w : W) where
  sign-Ready : (s : SignedTx) (w' : W) → sign p clock b w ≡ (ok s, w') → Ready p clock b w
  sign-Ready s w' h =
      let r = sign-Run p clock b w s w' h in
      let (messages, bound, agreed) = preconditions→ p b r.allowed in
      record {
        messages = messages;
        bound = bound;
        agreed = (check_stored_claim_iff p _ _).0 agreed;
        nonce = r.nonce;
        before = r.before;
        nonce_from = r.nonce_from;
        fits = fitting p clock b.trading_key_claim r.nonce r.before r.options r.claim_from;
      }

  Ready-sign :
      Answers p b.signer
      → Ready p clock b w
      → (s : SignedTx) × (w' : W) × (sign p clock b w ≡ (ok s, w'))
  unfolding sign finish complete
  Ready-sign a r =
      let allowed =
        →preconditions p b r.messages r.bound ((check_stored_claim_iff p _ _).1 r.agreed) in
      let (options, embeds) = embedded p clock b.trading_key_claim r.nonce r.before r.fits in
      let (signature, w', signed) = a.answers (sign_doc p b r.nonce options) r.before in
      (
        assemble p b r.nonce options signature,
        w',
        rw allowed (
            >>=-ok (resolve_nonce p b) (finish p clock b) w r.nonce_from
            ∙ >>=-ok (embed_claim p clock b.trading_key_claim r.nonce) (complete p clock b r.nonce)
                r.before embeds
            ∙ >>=-ok (b.signer.sign (sign_doc p b r.nonce options))
                (λ x. pure (assemble p b r.nonce options x)) r.before signed),
      )

  -- With a signer that answers, `sign` returns a transaction exactly if the builder holds a message
  -- and a genesis hash, its claim is encoded like the claim stored on the signer, if both are there,
  -- the source of the nonce answers, and the claim is valid by the clock after that answer and
  -- covers the sub of the nonce.
  pub sign_iff :
      Answers p b.signer
      → ((s : SignedTx) × (w' : W) × (sign p clock b w ≡ (ok s, w'))) ↔ Ready p clock b w
  sign_iff a = (λ (s, w', h). sign-Ready s w' h, Ready-sign a)
