-- ===== src/Builder/Claims.antt =====
-- The claim of a transaction that `TxBuilder::sign` (crates/core/src/builder.rs) signs.
use morpheum_signing.Common.{
  ℕ, ◌≤◌, ◌<◌, ◌≡◌, refl, ap, ◌↔◌, Option, none, some, [], ◌∷◌, ok, err, arith,
}
use mathlib.Core.Path.{subst}
use morpheum_signing.Signer.{NonceProvider}
use morpheum_signing.Proto.{Nonce, ClaimOptions, SignerInfo}
use morpheum_signing.Error.{invalid_claim}
use morpheum_signing.Primitives.{Primitives, RoundTrips}
use morpheum_signing.Types.SignedTx.{SignedTx}
use morpheum_signing.Claim.{TradingKeyClaim, validate, to_proto_inner, decode_from_signing_options}
use morpheum_signing.Claim.Digest.{InRange}
use morpheum_signing.Claim.Validity.{IsValid, validate_iff}
use morpheum_signing.Claim.Embedding.{
  claim_options, IsWellFormed, IsClaimAny, as_decoded, decode-claim_options,
}
use morpheum_signing.Builder.{
  TxBuilder, embed_claim, resolve_nonce, now_secs, nonce_with_claim_sub_start, preconditions, sign,
  finish, assemble, auth_info, signer_info,
}
use morpheum_signing.Builder.Covered.{sign-Run}

module _ (p : Primitives) {W : Type 0} (clock : W → Option ℕ) where
  -- Embedding a claim succeeds exactly when the claim is valid at the time of the clock and covers
  -- the sub of the nonce, and gives the options that hold the claim.
  pub embed_claim_iff :
      (c : TradingKeyClaim) (nonce : Nonce) (w : W) (options : Option ClaimOptions)
      → (embed_claim p clock (some c) nonce w ≡ (ok options, w)) ↔ (
          IsValid c (now_secs clock w)
          × (c.nonce_sub_range_start ≤ nonce.sub)
          × (nonce.sub < c.nonce_sub_range_end)
          × (options ≡ some (claim_options p c)))
  unfolding embed_claim
  embed_claim_iff c nonce w options = (
    λ h. ground (arith, h, validate_iff c (now_secs clock w)),
    λ (v, lo, hi, e). ground (arith, v, lo, hi, e, validate_iff c (now_secs clock w)),
  )

  -- Without a manual nonce and without a provider, a valid claim covers the nonce that is chosen.
  pub default_nonce-covered :
      (b : TxBuilder p W) (c : TradingKeyClaim) (w : W)
      → b.manual_nonce ≡ none
      → b.nonce_provider ≡ none
      → b.trading_key_claim ≡ some c
      → IsValid c (now_secs clock w)
      → (nonce : Nonce) × (resolve_nonce p b w ≡ (ok nonce, w))
        × (embed_claim p clock b.trading_key_claim nonce w ≡ (ok (some (claim_options p c)), w))
  unfolding resolve_nonce nonce_with_claim_sub_start
  default_nonce-covered b c w m n e v = (
    nonce_with_claim_sub_start (some c),
    ground (arith, m, n, e),
    rw e (
        (embed_claim_iff c (nonce_with_claim_sub_start (some c)) w _).1
          (v, omega arith, v.nonempty, refl)),
  )

  -- A claim that has expired by the clock of the world that the provider leaves is refused, and the
  -- nonce is lost.
  pub expired_claim-nonce :
      (b : TxBuilder p W) (c : TradingKeyClaim) (provider : NonceProvider W) (nonce : Nonce)
      (w w' : W)
      → preconditions p b ≡ ok tt
      → b.manual_nonce ≡ none
      → b.nonce_provider ≡ some provider
      → b.trading_key_claim ≡ some c
      → provider.next_nonce b.signer.account_id w ≡ (ok nonce, w')
      → c.expiry_timestamp ≤ now_secs clock w'
      → sign p clock b w ≡ (err (invalid_claim "claim has expired"), w')
  unfolding sign resolve_nonce finish embed_claim validate
  expired_claim-nonce b c provider nonce w w' pre m n e asked late =
      ground (arith, pre, m, n, e, asked, late)

-- The claim in a signed transaction, as a reader of the wire finds it.
pub record Embeds (p : Primitives) {W : Type 0} (clock : W → Option ℕ) (c : TradingKeyClaim)
    (s : SignedTx) : Type 0 where
  pub info : SignerInfo
  pub gas_limit : ℕ
  pub nonce : Nonce
  pub before : W
  pub options : ClaimOptions
  pub auth_info : s.tx.auth_info ≡ some (record { signer_infos = info ∷ []; gas_limit = gas_limit })
  pub nonce_is : s.tx.nonce ≡ some nonce
  pub options_are : info.signing_options ≡ some options
  pub decoded : decode_from_signing_options p options ≡ ok (some (as_decoded c))
  pub valid : IsValid c (now_secs clock before)
  pub start : c.nonce_sub_range_start ≤ nonce.sub
  pub end : nonce.sub < c.nonce_sub_range_end

module _ (p : Primitives) {W : Type 0} (clock : W → Option ℕ) where
  -- A transaction that is signed with a claim of the right array lengths and in range embeds that
  -- claim: it is read back from the signer's options, it was valid when it was embedded, and it
  -- covers the sub of the transaction's nonce, whoever chose that nonce.
  pub sign-Embeds :
      (b : TxBuilder p W) (c : TradingKeyClaim) (w : W) (s : SignedTx) (w' : W)
      → RoundTrips InRange p.claim_codec
      → RoundTrips IsClaimAny p.any_codec
      → b.trading_key_claim ≡ some c
      → IsWellFormed c
      → InRange (to_proto_inner c)
      → sign p clock b w ≡ (ok s, w')
      → Embeds p clock c s
  unfolding assemble auth_info signer_info
  sign-Embeds b c w s w' rc ra e wf range h =
      let r = sign-Run p clock b w s w' h in
      let (v, lo, hi, o) = (embed_claim_iff p clock c r.nonce r.before r.options).0 (
        subst (λ x. embed_claim p clock x r.nonce r.before ≡ (ok r.options, r.before)) e
          r.claim_from) in
      record {
        info = signer_info p b r.options;
        gas_limit = p.get_gas_limit b.gas_limit;
        nonce = r.nonce;
        before = r.before;
        options = claim_options p c;
        auth_info = ap (λ t. t.tx.auth_info) r.result;
        nonce_is = ap (λ t. t.tx.nonce) r.result;
        options_are = o;
        decoded = decode-claim_options p c rc ra wf range;
        valid = v;
        start = lo;
        end = hi;
      }
