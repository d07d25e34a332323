-- ===== src/Builder/Failures.antt =====
-- How `TxBuilder::sign` (crates/core/src/builder.rs) fails, and the world that it leaves.
use morpheum_signing.Common.{ℕ, ◌≡◌, ◌≢◌, sym, ap, ◌∙◌, inl, inr, Option, [], ok, err, arith}
use mathlib.Core.Path.{subst}
use morpheum_signing.Proto.{Nonce, ClaimOptions}
use morpheum_signing.Error.{SigningError}
use morpheum_signing.Primitives.{Primitives}
use morpheum_signing.Exec.{Exec, ◌>>=◌, pure, lift, >>=-eq-err}
use morpheum_signing.Types.SignedTx.{SignedTx}
use morpheum_signing.Builder.{
  TxBuilder, resolve_nonce, embed_claim, sign_doc, assemble, sign, preconditions, finish, complete,
  now_secs,
}
use morpheum_signing.Builder.Covered.{embed_claim-world}
use morpheum_signing.Builder.Returns.{
  Agreed, Fits, check_stored_claim_iff, preconditions→, →preconditions, embedded, fitting,
}

-- What is asked of the builder before anything is called.
abbrev pub Permitted : (p : Primitives) {W : Type 0} → TxBuilder p W → Type 0
Permitted p b =
    (b.messages ≢ [])
    × (b.genesis_hash ≢ [])
    × Agreed p b.signer.trading_key_claim b.trading_key_claim

-- The four ways to fail. In the last two a nonce was given out, and is lost.
pub data Fails (p : Primitives) {W : Type 0} (clock : W → Option ℕ) (b : TxBuilder p W) (w : W)
    (e : SigningError) (w' : W) : Type 0 where
  by_builder : ¬ Permitted p b → preconditions p b ≡ err e → w' ≡ w → Fails p clock b w e w'
  by_nonce : Permitted p b → resolve_nonce p b w ≡ (err e, w') → Fails p clock b w e w'
  by_claim :
      (nonce : Nonce)
      → Permitted p b
      → resolve_nonce p b w ≡ (ok nonce, w')
      → ¬ Fits b.trading_key_claim nonce (now_secs clock w')
      → embed_claim p clock b.trading_key_claim nonce w' ≡ (err e, w')
      → Fails p clock b w e w'
  by_signer :
      (nonce : Nonce) (before : W) (options : Option ClaimOptions)
      → Permitted p b
      → resolve_nonce p b w ≡ (ok nonce, before)
      → Fits b.trading_key_claim nonce (now_secs clock before)
      → b.signer.sign (sign_doc p b nonce options) before ≡ (err e, w')
      → Fails p clock b w e w'

module _ (p : Primitives) {W : Type 0} (clock : W → Option ℕ) (b : TxBuilder p W) where
  refused : (e : SigningError) → preconditions p b ≡ err e → ¬ Permitted p b
  refused e h (m, g, c) =
      let allowed = →preconditions p b m g ((check_stored_claim_iff p _ _).1 c) in
      ground (arith, h, allowed)

  permitted : preconditions p b ≡ ok tt → Permitted p b
  permitted h = let (m, g, c) = preconditions→ p b h in (m, g, (check_stored_claim_iff p _ _).0 c)

  unfit :
      (nonce : Nonce) (w : W) (e : SigningError) (w' : W)
      → embed_claim p clock b.trading_key_claim nonce w ≡ (err e, w')
      → ¬ Fits b.trading_key_claim nonce (now_secs clock w)
  unfit nonce w e w' h f =
      let (options, embeds) = embedded p clock b.trading_key_claim nonce w f in
      ground (arith, h, embeds)

  complete-err :
      (nonce : Nonce) (options : Option ClaimOptions) (w : W) (e : SigningError) (w' : W)
      → complete p clock b nonce options w ≡ (err e, w')
      → b.signer.sign (sign_doc p b nonce options) w ≡ (err e, w')
  unfolding complete
  complete-err nonce options w e w' h =
      elim (>>=-eq-err (b.signer.sign (sign_doc p b nonce options))
        (λ x. pure (assemble p b nonce options x)) w h) [
          | inl signed ↦ signed
          | inr (signature, w1, signed, h1) ↦ ground (arith, h1)
        ]

  finish-Fails :
      (w : W) (nonce : Nonce) (before : W) (e : SigningError) (w' : W)
      → Permitted p b
      → resolve_nonce p b w ≡ (ok nonce, before)
      → finish p clock b nonce before ≡ (err e, w')
      → Fails p clock b w e w'
  unfolding finish
  finish-Fails w nonce before e w' may from h =
      elim (>>=-eq-err (embed_claim p clock b.trading_key_claim nonce) (complete p clock b nonce)
        before h) [
          | inl embeds ↦
              let same : before ≡ w' =
                sym (embed_claim-world p clock b.trading_key_claim nonce before)
                ∙ ap (λ r. r.1) embeds in
              Fails.by_claim nonce may (subst (λ x. resolve_nonce p b w ≡ (ok nonce, x)) same from)
                (subst (λ x. ¬ Fits b.trading_key_claim nonce (now_secs clock x)) same
                  (unfit nonce before e w' embeds))
                (subst (λ x. embed_claim p clock b.trading_key_claim nonce x ≡ (err e, w')) same
                  embeds)
          | inr (options, w2, embeds, h1) ↦
              let same : w2 ≡ before =
                sym (ap (λ r. r.1) embeds)
                ∙ embed_claim-world p clock b.trading_key_claim nonce before in
              Fails.by_signer nonce before options may from
                (fitting p clock b.trading_key_claim nonce before options (
                  subst
                    (λ x. embed_claim p clock b.trading_key_claim nonce before ≡ (ok options, x))
                    same embeds))
                (complete-err nonce options before e w'
                  (subst (λ x. complete p clock b nonce options x ≡ (err e, w')) same h1))
        ]

  -- When `sign` fails, one of four things holds. The builder has no message, no genesis hash or a
  -- claim encoded unlike the one stored on the signer, and nothing was called: the world is the one
  -- before. Or none of these, and the source of the nonce failed with that error. Or it gave out a
  -- nonce, and in the world that it leaves, which is the one left, the claim is not valid by the
  -- clock or does not cover the sub of that nonce, and embedding it fails with that error. Or the
  -- claim fits too, and the signer failed with that error when it was asked to sign the document
  -- over that nonce.
  pub sign-Fails :
      (w : W) (e : SigningError) (w' : W) → sign p clock b w ≡ (err e, w') → Fails p clock b w e w'
  unfolding sign
  sign-Fails w e w' h = elim (>>=-eq-err (lift (preconditions p b)) (λ u. rest) w h) [
    | inl first ↦
        let failed : preconditions p b ≡ err e = ap (λ r. r.0) first in
        Fails.by_builder (refused e failed) failed (sym (ap (λ r. r.1) first))
    | inr (u, w0, first, h0) ↦
        let same : w0 ≡ w = sym (ap (λ r. r.1) first) in
        let may = permitted (ap (λ r. r.0) first) in
        elim (>>=-eq-err (resolve_nonce p b) (finish p clock b) w
          (subst (λ x. rest x ≡ (err e, w')) same h0)) [
            | inl asked ↦ Fails.by_nonce may asked
            | inr (nonce, before, asked, h1) ↦ finish-Fails w nonce before e w' may asked h1
          ]
  ]
    where
      rest : Exec W SignedTx
      rest = ◌>>=◌ (resolve_nonce p b) (λ nonce. finish p clock b nonce)
