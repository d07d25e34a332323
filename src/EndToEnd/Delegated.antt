-- ===== src/EndToEnd/Delegated.antt =====
-- A transaction that the builder (crates/core/src/builder.rs) signs with the claim of another
-- account, against the verifier (crates/core/src/verifier.rs).
use morpheum_signing.Common.{ℕ, ◌≡◌, ◌≢◌, ap, ◌∙◌, Option, some, List, [], ◌∷◌, Bytes, ok, arith}
use mathlib.Core.Path.{subst}
use morpheum_signing.Proto.{TxVerifyContext, ClaimOptions}
use morpheum_signing.Primitives.{Primitives, RoundTrips}
use morpheum_signing.Types.PublicKey.{PublicKey, to_proto_any, to_account_id}
use morpheum_signing.Types.PublicKey.Wire
use morpheum_signing.Types.PublicKey.Wire.{
  on_wire, from_proto_any_iff, from_proto_any-to_proto_any, to_account_id-on_wire,
}
use morpheum_signing.Types.SignedTx.{SignedTx}
use morpheum_signing.Claim.{TradingKeyClaim, to_proto_inner}
use morpheum_signing.Claim.Digest.{InRange}
use morpheum_signing.Claim.Embedding.{
  IsWellFormed, as_decoded, IsClaimAny, claim_options, decode-claim_options,
}
use morpheum_signing.Builder.{TxBuilder, sign, assemble, auth_info, signer_info, embed_claim}
use morpheum_signing.Builder.Covered.{Run, sign-Run}
use morpheum_signing.Builder.Claims.{embed_claim_iff}
use morpheum_signing.Verifier.{VerifiedTx, verify_signed_tx}
use morpheum_signing.Verifier.Loop.{Carries, PermitsEach}
use morpheum_signing.Verifier.Signers.{Signers, Authentic}
use morpheum_signing.Verifier.Built.{only_signer}
use morpheum_signing.Verifier.Sound.{verify_signed_tx_iff}

module _ (p : Primitives) {W : Type 0} (clock : W → Option ℕ) (b : TxBuilder p W)
    (c : TradingKeyClaim) where
  options_of :
      (w : W) (s : SignedTx) (w' : W)
      → b.trading_key_claim ≡ some c
      → (r : Run p clock b w s w') → r.options ≡ some (claim_options p c)
  options_of w s w' e r =
      let (v, lo, hi, o) = (embed_claim_iff p clock c r.nonce r.before r.options).0 (
        subst (λ x. embed_claim p clock x r.nonce r.before ≡ (ok r.options, r.before)) e
          r.claim_from) in
      o

  -- The key of the one signer is the one that it publishes.
  published_key :
      (options : Option ClaimOptions) (ladder : List (p.Binding × Bytes)) (s : SignedTx) (now : ℕ)
      (key : PublicKey) (found : Option TradingKeyClaim)
      → b.signer.public_key_proto ≡ to_proto_any b.signer.public_key
      → Wire.IsWellFormed b.signer.public_key
      → (q : Authentic p ladder s.tx.signatures s.tx.nonce now 0
          (signer_info p b options)
          key
          found)
      → key ≡ on_wire b.signer.public_key
  unfolding signer_info
  published_key options ladder s now key found published sized q =
      let any : q.any ≡ to_proto_any b.signer.public_key =
        ground (arith, q.public_key, published) in
      let read = (from_proto_any_iff q.any key).1 q.announced in
      let known = from_proto_any-to_proto_any b.signer.public_key sized in
      ground (arith, any, read, known)

  -- The one signer carries the claim of the builder.
  carried_claim :
      (found : Option TradingKeyClaim) (options : Option ClaimOptions)
      → RoundTrips InRange p.claim_codec
      → RoundTrips IsClaimAny p.any_codec
      → IsWellFormed c
      → InRange (to_proto_inner c)
      → options ≡ some (claim_options p c)
      → Carries p (signer_info p b options).signing_options found
      → found ≡ some (as_decoded c)
  unfolding signer_info
  carried_claim found options rc ra wf range o carries =
      let h = subst (λ x. Carries p x found) o carries in
      ground (arith, h, decode-claim_options p c rc ra wf range)

  -- A transaction that the builder signs with a claim that another account than that of the
  -- signer's own key has issued is verified by no node, whatever its policy, the account number and
  -- the time. The signer publishes its key as it is, and the claim has the right array lengths and
  -- numbers in range.
  pub delegated_claim-verify_signed_tx :
      (ctx : TxVerifyContext) (w : W) (s : SignedTx) (w' : W) (account_number now : ℕ)
      (v : VerifiedTx)
      → RoundTrips InRange p.claim_codec
      → RoundTrips IsClaimAny p.any_codec
      → IsWellFormed c
      → InRange (to_proto_inner c)
      → b.trading_key_claim ≡ some c
      → b.signer.public_key_proto ≡ to_proto_any b.signer.public_key
      → Wire.IsWellFormed b.signer.public_key
      → c.issuer ≢ to_account_id p b.signer.public_key
      → sign p clock b w ≡ (ok s, w')
      → verify_signed_tx p s ctx account_number now ≢ ok v
  unfolding assemble auth_info signer_info
  delegated_claim-verify_signed_tx ctx w s w' account_number now v rc ra wf range e published sized
        foreign h accepted =
      let r = sign-Run p clock b w s w' h in
      let a = (verify_signed_tx_iff p s ctx account_number now v).0 accepted in
      let infos : v.auth_info.signer_infos ≡ signer_info p b r.options ∷ [] =
        ground (arith, a.auth_info, r.result) in
      let (key, found, q) = only_signer p s now a.ladder (signer_info p b r.options) a.seen (
        subst (λ l. Signers p a.ladder s.tx.signatures s.tx.nonce now 0 l a.seen) infos
          a.signers) in
      let key_is = published_key r.options a.ladder s now key found published sized q in
      let carried =
        carried_claim found r.options rc ra wf range (options_of w s w' e r) q.carries in
      let permits = subst (PermitsEach p s.tx.nonce now key) carried q.permits in
      foreign
        (permits.issuer ∙ ap (to_account_id p) key_is ∙ to_account_id-on_wire p b.signer.public_key)
